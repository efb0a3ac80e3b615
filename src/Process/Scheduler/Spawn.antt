-- ===== src/Process/Scheduler/Spawn.antt =====
-- create_kernel_task: the first stack frame of a task and its place in the circle.
use mathlib.Core.Path.{fun_ext, subst}
use open_idp_os.Base.{
  ℕ, zero, suc, ◌+◌, ◌-◌, ◌*◌, ◌^◌, ◌≤◌, ◌<◌, ◌≡◌, ◌∙◌, sym, refl, ap, false, List, [], ◌∷◌, arith,
  ◌==◌, length, elem, Distinct, get_or, update, update_self, update_ne, add64, sub64,
}
use open_idp_os.Process.{Ptr, null, Task, Kernel}
use open_idp_os.Process.TaskList.{Chain, IsRing}
use open_idp_os.Process.Scheduler.{scheduler_schedule}
use open_idp_os.Process.Memory.{Memory}
use open_idp_os.Process.Scheduler.Rounds.{schedule-Ticked}

-- SELECTOR(GDT_KCODE) and SELECTOR(GDT_KDATA).
abbrev pub kernel_cs : ℕ
kernel_cs = 0x08

abbrev pub kernel_ds : ℕ
kernel_ds = 0x10

-- sizeof(task_t).
abbrev pub task_size : ℕ
task_size = 584

-- `sp--; *sp = v;` for each value: the 64-bit words in memory by their addresses, and the pointer.
pub push_words : List ℕ → (words : ℕ → ℕ) (sp : ℕ) → (ℕ → ℕ) × ℕ
push_words [] words sp = (words, sp)
push_words (v ∷ vs) words sp = push_words vs (update words (sub64 sp 8) v) (sub64 sp 8)

abbrev pub zeros : ℕ → List ℕ
zeros zero = []
zeros (suc n) = 0 ∷ zeros n

-- What is pushed: the frame of the interrupt, then fifteen registers.
abbrev pub first_frame : (entry_point stack_top : ℕ) → List ℕ
first_frame entry_point stack_top =
    kernel_ds ∷ stack_top ∷ 0x202 ∷ kernel_cs ∷ entry_point ∷ zeros 15

-- The fields that are set, and the insertion behind the head.
pub add_task : (new : Ptr) (sp cr3 : ℕ) → Kernel → Kernel
add_task new sp cr3 k =
    let filled = update k.task new (record (k.task new) {
      rsp = sp;
      pid = k.next_pid;
      cr3 = cr3;
      next = (k.task k.task_head).next;
    }) in
    record k {
      task = update filled k.task_head (record (filled k.task_head) { next = new });
      next_pid = add64 k.next_pid 1;
    }

module _ {M : Type 0} (mem : Memory M) where
  open mem use {kmalloc, create_process_pml4}

  -- The stack is an allocation of its own, so that its words and the task structures are two stores.
  pub create_kernel_task : (entry_point : ℕ) (words : ℕ → ℕ) → Kernel → M → (ℕ → ℕ) × Kernel × M
  create_kernel_task entry_point words k m =
      let (new, m₁) = kmalloc task_size m in
      let (bottom, m₂) = kmalloc 4096 m₁ in
      let top = add64 bottom 4096 in
      let (words', sp) = push_words (first_frame entry_point top) words top in
      let (cr3, m₃) = create_process_pml4 m₂ in (words', add_task new sp cr3 k, m₃)

-- The list and the pids after the insertion.
abbrev nexts : (Ptr → Task) → Ptr → Ptr
nexts f t = (f t).next

next-add_task :
    (new : Ptr) (sp cr3 : ℕ) (k : Kernel)
    → nexts (add_task new sp cr3 k).task
      ≡ update (update (nexts k.task) new (k.task k.task_head).next) k.task_head new
unfolding add_task
next-add_task new sp cr3 k = fun_ext λ t. ground arith

Chain-out :
    (next : ℕ → ℕ) (a r p q : ℕ) (xs : List Ptr)
    → Chain next p xs q
    → elem a (p ∷ xs) ≡ false
    → Chain (update next a r) p xs q
Chain-out next a r p q [] c out = update_ne next r (ground arith) ∙ c
Chain-out next a r p q (x ∷ xs) c out =
    (update_ne next r (ground arith) ∙ c.0, Chain-out next a r x q xs c.1 (ground arith))

-- Inserting `new` behind `head`.
inserted :
    (next : ℕ → ℕ) (new head : Ptr) (rest : List Ptr)
    → Chain next head rest head
    → Distinct (head ∷ rest)
    → elem new (head ∷ rest) ≡ false
    → Chain (update (update next new (next head)) head new) head (new ∷ rest) head
inserted next new head [] c d out = (
  update_self (update next new (next head)) head new,
  update_ne (update next new (next head)) new (ground arith) ∙ update_self next new (next head) ∙ c,
)
inserted next new head (x ∷ xs) c d out = (
  update_self (update next new (next head)) head new,
  (
    update_ne (update next new (next head)) new (ground arith)
        ∙ update_self next new (next head)
        ∙ c.0,
    Chain-out (update next new (next head)) head new x head xs
        (Chain-out next new (next head) x head xs c.1 (ground arith)) d.0,
  ),
)

-- If the new structure is not NULL and no task of the circle, the new task stands in the circle
-- right behind the head and the others follow in their order; it has the next pid and the stack
-- pointer of its first frame, and the pids of the others stay.
pub add_task-IsRing :
    (new sp cr3 : ℕ) (k : Kernel) (rest : List Ptr)
    → IsRing k rest
    → elem new (null ∷ k.task_head ∷ rest) ≡ false
    → IsRing (add_task new sp cr3 k) (new ∷ rest)
      × (((add_task new sp cr3 k).task new).pid ≡ k.next_pid)
      × (((add_task new sp cr3 k).task new).rsp ≡ sp)
      × ((t : Ptr) → (new == t) ≡ false → ((add_task new sp cr3 k).task t).pid ≡ (k.task t).pid)
add_task-IsRing new sp cr3 k rest r fresh = (
  record {
    chain =
        unfold add_task in
        subst (λ f. Chain f k.task_head (new ∷ rest) k.task_head) (sym (next-add_task new sp cr3 k))
          (inserted (nexts k.task) new k.task_head rest r.chain r.distinct (ground arith));
    distinct = unfold add_task in (ground (arith, r.distinct), (ground arith, r.distinct.1));
    live = unfold add_task in ground (arith, r.live);
  },
  unfold add_task in ground arith,
  unfold add_task in ground arith,
  λ t ne. unfold add_task in ground arith,
)

-- What pushing `vs` from `sp` downwards ends in: each value 8 bytes below the one before, and
-- nothing written at `sp` or above.
abbrev Pushed : List ℕ → (words : ℕ → ℕ) (sp : ℕ) → (ℕ → ℕ) × ℕ → Type 0
Pushed vs words sp r =
    (r.1 + 8 * length vs ≡ sp)
    × ((a : ℕ) → sp ≤ a → r.0 a ≡ words a)
    × ((i : ℕ) → i < length vs → r.0 (sp - 8 * (i + 1)) ≡ get_or vs i 0)

push-Pushed :
    (v : ℕ) (vs : List ℕ) (words : ℕ → ℕ) (sp s : ℕ) (r : (ℕ → ℕ) × ℕ)
    → s + 8 ≡ sp
    → Pushed vs (update words s v) s r
    → Pushed (v ∷ vs) words sp r
push-Pushed v vs words sp s r e (end, above, get) =
    (omega arith, λ a le. above a (omega arith) ∙ update_ne words v (omega arith), read)
  where
    read : (i : ℕ) → i < suc (length vs) → r.0 (sp - 8 * (i + 1)) ≡ get_or (v ∷ vs) i 0
    read zero lt = ap r.0 (omega arith) ∙ above s (omega arith) ∙ update_self words s v
    read (suc i) lt = ap r.0 (omega arith) ∙ get i (omega arith)

push_words-Pushed :
    (vs : List ℕ) (words : ℕ → ℕ) (sp : ℕ)
    → 8 * length vs ≤ sp
    → sp < 2 ^ 64
    → Pushed vs words sp (push_words vs words sp)
unfolding push_words
push_words-Pushed [] words sp h w = (omega arith, λ a le. refl, λ i lt. absurd (omega arith))
push_words-Pushed (v ∷ vs) words sp h w =
    push-Pushed v vs words sp (sub64 sp 8)
      (push_words vs (update words (sub64 sp 8) v) (sub64 sp 8)) (omega arith)
      (push_words-Pushed vs (update words (sub64 sp 8) v) (sub64 sp 8) (omega arith) (omega arith))

get_or-zeros : (n j : ℕ) → get_or (zeros n) j 0 ≡ 0
get_or-zeros zero j = refl
get_or-zeros (suc n) zero = refl
get_or-zeros (suc n) (suc j) = get_or-zeros n j

-- The frame in the words from the stack pointer upwards.
abbrev pub Frame : (words : ℕ → ℕ) (sp entry_point stack_top : ℕ) → Type 0
Frame words sp entry_point stack_top =
    ((i : ℕ) → i < 15 → words (sp + 8 * i) ≡ 0)
    × (words (sp + 120) ≡ entry_point)
    × (words (sp + 128) ≡ kernel_cs)
    × (words (sp + 136) ≡ 0x202)
    × (words (sp + 144) ≡ stack_top)
    × (words (sp + 152) ≡ kernel_ds)

push_words-Frame :
    (entry_point bottom : ℕ) (words : ℕ → ℕ)
    → bottom + 4096 < 2 ^ 64
    → let top = add64 bottom 4096 in
      let (words', sp) = push_words (first_frame entry_point top) words top in
      (sp ≡ bottom + 3936)
      × Frame words' sp entry_point (bottom + 4096)
      × ((a : ℕ) → bottom + 4096 ≤ a → words' a ≡ words a)
push_words-Frame entry_point bottom words h =
    let top = add64 bottom 4096 in
    let top_eq : top ≡ bottom + 4096 = omega arith in
    let (end, above, get) =
      push_words-Pushed (first_frame entry_point top) words top (omega arith) (omega arith) in
    let sp = (push_words (first_frame entry_point top) words top).1 in
    let w = (push_words (first_frame entry_point top) words top).0 in
    (
      omega arith,
      (
        λ i lt.
            ap w (omega arith)
            ∙ get (suc (suc (suc (suc (suc (14 - i)))))) (omega arith)
            ∙ get_or-zeros 15 (14 - i),
        ap w (omega arith) ∙ get 4 (omega arith),
        ap w (omega arith) ∙ get 3 (omega arith),
        ap w (omega arith) ∙ get 2 (omega arith),
        ap w (omega arith) ∙ get 1 (omega arith) ∙ top_eq,
        ap w (omega arith) ∙ get 0 (omega arith),
      ),
      λ a le. above a (omega arith),
    )

module _ {M : Type 0} (mem : Memory M) (limine_hhdm entry_point : ℕ) (words : ℕ → ℕ) (k : Kernel)
    (m : M) where
  open mem use {kmalloc}

  -- The two allocations, for the structure and the stack.
  abbrev pub new_task : ℕ
  new_task = (kmalloc task_size m).0

  abbrev pub stack_bottom : ℕ
  stack_bottom = (kmalloc 4096 (kmalloc task_size m).1).0

  abbrev created : (ℕ → ℕ) × Kernel × M
  created = create_kernel_task mem entry_point words k m

  created-rsp :
      elem new_task (null ∷ k.task_head ∷ []) ≡ false
      → (created.1.task new_task).rsp
        ≡ (push_words
            (first_frame entry_point (add64 stack_bottom 4096))
            words
            (add64 stack_bottom 4096)).1
  unfolding create_kernel_task add_task
  created-rsp fresh = ground arith

  created-words :
      created.0
      ≡ (push_words
          (first_frame entry_point (add64 stack_bottom 4096))
          words
          (add64 stack_bottom 4096)).0
  unfolding create_kernel_task
  created-words = refl

  created-next : (created.1.task k.task_head).next ≡ new_task
  unfolding create_kernel_task add_task
  created-next = ground arith

  created-current : created.1.current_task ≡ k.current_task
  unfolding create_kernel_task add_task
  created-current = refl

  -- create_kernel_task, for a stack that ends below 2^64 and a structure that is neither NULL nor the
  -- head's, stores in the structure the stack pointer 160 bytes below the top of the stack. From there
  -- upwards stand fifteen zeros, the entry point, the code selector, the flags 0x202, the top of the
  -- stack and the data selector, and nothing from the top upwards is written. If the head runs and is
  -- not NULL, the next timer tick makes the new task the running one and goes on with that pointer.
  pub create_kernel_task_lem :
      stack_bottom + 4096 < 2 ^ 64
      → elem new_task (null ∷ k.task_head ∷ []) ≡ false
      → ((created.1.task new_task).rsp ≡ stack_bottom + 3936)
        × Frame created.0 (stack_bottom + 3936) entry_point (stack_bottom + 4096)
        × ((a : ℕ) → stack_bottom + 4096 ≤ a → created.0 a ≡ words a)
        × (k.current_task ≡ k.task_head
            → (k.task_head == null) ≡ false
            → (r : ℕ) (m' : M)
            → let (rsp, k', _) = scheduler_schedule mem limine_hhdm r created.1 m' in
              (rsp ≡ stack_bottom + 3936) × (k'.current_task ≡ new_task))
  create_kernel_task_lem low fresh =
      let (at, frame, above) = push_words-Frame entry_point stack_bottom words low in
      let stored = created-rsp fresh ∙ at in
      (
        stored,
        subst (λ w. Frame w (stack_bottom + 3936) entry_point (stack_bottom + 4096))
            (sym created-words)
            (subst
              (λ sp.
                Frame
                  (push_words (first_frame entry_point (add64 stack_bottom 4096)) words
                    (add64 stack_bottom 4096)).0
                  sp entry_point (stack_bottom + 4096))
              at frame),
        λ a le. ap (λ w. w a) created-words ∙ above a le,
        λ runs live r m'.
            let t =
              schedule-Ticked mem limine_hhdm r created.1 m'
                (ap (λ c. c == null) (created-current ∙ runs) ∙ live) in
            let now : (scheduler_schedule mem limine_hhdm r created.1 m').1.current_task
                ≡ new_task =
              t.moves ∙ ap (λ c. (created.1.task c).next) (created-current ∙ runs) ∙ created-next in
            (
              t.resumes
                  ∙ ap (λ c. ((scheduler_schedule mem limine_hhdm r created.1 m').1.task c).rsp) now
                  ∙ t.keeps new_task
                      (ap (λ c. c == new_task) (created-current ∙ runs) ∙ ground arith)
                  ∙ stored,
              now,
            ),
      )
