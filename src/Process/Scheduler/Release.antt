-- ===== src/Process/Scheduler/Release.antt =====
-- What is released of a task that exited, with memory managers that only note their calls.
use open_idp_os.Base.{
  ℕ, ◌<◌, ◌≡◌, ◌∙◌, sym, refl, ap, true, false, some, List, [], ◌∷◌, ◌++◌, arith, ◌==◌, length,
  elem, Bool-cases, inl, inr, add64, sub64,
}
use open_idp_os.Process.{Ptr, null, Task, Kernel}
use open_idp_os.Process.TaskList.{IsRing}
use open_idp_os.Process.Memory.{Memory}
use open_idp_os.Process.Scheduler.{enter, pick_next, reap, scheduler_schedule, task_exit}
use open_idp_os.Process.Scheduler.Exit.{task_exit-Exited}

-- A call that gives something back: a block of the heap, an address space, or a page.
pub data Release : Type 0 where
  block : (address : ℕ) → Release
  space : (cr3 : ℕ) → Release
  page : (address : ℕ) → Release

-- The calls, the latest first.
abbrev pub noting : Memory (List Release)
noting = record {
  kmalloc = λ n m. (0, m);
  kfree = λ p m. block p ∷ m;
  destroy_user_memory = λ cr3 m. space cr3 ∷ m;
  pmm_free_page = λ p m. page p ∷ m;
  create_process_pml4 = λ m. (0, m);
}

-- All that a task has: its kernel stack, whose top is stored, the space below its page tables' root,
-- the root, and its structure.
abbrev pub all_of : (limine_hhdm : ℕ) → Ptr → Task → List Release
all_of limine_hhdm t z =
    block t ∷ page (add64 z.cr3 limine_hhdm) ∷ space z.cr3 ∷ block (sub64 z.kernel_stack 4096) ∷ []

module _ {M : Type 0} (mem : Memory M) (limine_hhdm : ℕ) where
  -- Timer ticks in a row.
  pub ticks : List ℕ → Kernel → M → Kernel × M
  ticks [] k m = (k, m)
  ticks (r ∷ rs) k m =
      let (rsp, k', m') = scheduler_schedule mem limine_hhdm r k m in ticks rs k' m'

  calm :
      (r : ℕ) (k : Kernel) (m : M)
      → k.zombie_task ≡ null
      → ((scheduler_schedule mem limine_hhdm r k m).1.zombie_task ≡ null)
        × ((scheduler_schedule mem limine_hhdm r k m).2 ≡ m)
  unfolding scheduler_schedule pick_next reap enter
  calm r k m none_left = ground arith

  ticks-calm : (rs : List ℕ) (k : Kernel) (m : M) → k.zombie_task ≡ null → (ticks rs k m).1 ≡ m
  unfolding ticks
  ticks-calm [] k m none_left = refl
  ticks-calm (r ∷ rs) k m none_left =
      let (none_left', same) = calm r k m none_left in
      ticks-calm rs (scheduler_schedule mem limine_hhdm r k m).1
        (scheduler_schedule mem limine_hhdm r k m).2 none_left'
      ∙ same

module _ (limine_hhdm r : ℕ) (k : Kernel) (log : List Release) where
  reaped :
      (k.zombie_task == null) ≡ false
      → ((scheduler_schedule noting limine_hhdm r k log).2
          ≡ all_of limine_hhdm k.zombie_task (k.task k.zombie_task) ++ log)
        × ((scheduler_schedule noting limine_hhdm r k log).1.zombie_task ≡ null)
  unfolding scheduler_schedule pick_next reap enter
  reaped live = elim (Bool-cases (k.current_task == null)) [
    | inl e ↦ rw (live, e) (refl, refl)
    | inr e ↦ rw (live, e) (refl, refl)
  ]

elem-live :
    (v : Ptr) (ts : List Ptr) → elem v ts ≡ true → elem null ts ≡ false → (v == null) ≡ false
elem-live v ts here live = elim (Bool-cases (v == null)) [
  | inl e ↦
      let at : v ≡ null = ground arith in
      let both : elem null ts ≡ true = ap (λ a. elem a ts) (sym at) ∙ here in absurd (cc)
  | inr e ↦ e
]

-- In a circular list of at least two tasks that holds the running task, task_exit ends; the next timer
-- tick gives back everything that the task had, each thing once: its kernel stack, the memory below the
-- root of its page tables, the page of the root, and last its structure. That tick and any number of
-- further ones give nothing else back, as long as no other task exits.
pub task_exit-released :
    (limine_hhdm : ℕ) (k : Kernel) (x : Ptr) (xs : List Ptr) (fuel : ℕ)
    → IsRing k (x ∷ xs)
    → elem k.current_task (k.task_head ∷ x ∷ xs) ≡ true
    → length (x ∷ xs) < fuel
    → (rsp : ℕ) × (k' : Kernel) × (task_exit fuel k ≡ some (some (rsp, k')))
      × ((r : ℕ) (rs : List ℕ) (log : List Release)
          → (ticks noting limine_hhdm (r ∷ rs) k' log).1
            ≡ all_of limine_hhdm k.current_task (k.task k.current_task) ++ log)
task_exit-released limine_hhdm k x xs fuel ring here enough =
    let (rsp, k', eq, exited) = task_exit-Exited k x xs fuel ring here enough in
    (
      rsp,
      k',
      eq,
      λ r rs log.
          let live : (k'.zombie_task == null) ≡ false =
            ap (λ t. t == null) exited.zombie
            ∙ elem-live k.current_task (k.task_head ∷ x ∷ xs) here ring.live in
          let (given, none_left) = reaped limine_hhdm r k' log live in
          unfold ticks in
          ticks-calm noting limine_hhdm rs (scheduler_schedule noting limine_hhdm r k' log).1
            (scheduler_schedule noting limine_hhdm r k' log).2 none_left
          ∙ given
          ∙ ap (λ t. all_of limine_hhdm t (k'.task t) ++ log) exited.zombie
          ∙ ap
              (λ c.
                block k.current_task
                ∷ page (add64 c limine_hhdm)
                ∷ space c
                ∷ block (sub64 (k'.task k.current_task).kernel_stack 4096)
                ∷ log)
              (exited.spaces k.current_task)
          ∙ ap
              (λ s.
                block k.current_task
                ∷ page (add64 (k.task k.current_task).cr3 limine_hhdm)
                ∷ space (k.task k.current_task).cr3
                ∷ block (sub64 s 4096)
                ∷ log)
              (exited.stacks k.current_task),
    )
