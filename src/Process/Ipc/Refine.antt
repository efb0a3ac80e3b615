-- ===== src/Process/Ipc/Refine.antt =====
-- Message passing of sys_process.c refines the boxes of Post.
use mathlib.Core.Option
use mathlib.Core.Path.{fun_ext, subst, ap₂}
use open_idp_os.Base.{
  ℕ, ◌%◌, ◌^◌, ◌<◌, ◌≡◌, ◌∙◌, sym, ◌++◌, refl, ap, ◌≢◌, true, false, Option, none, some, List, [],
  ◌∷◌, arith, length, elem, update, read-update, Bool-cases, inl, inr, ◌==◌, ltb, leb, ℤ, pos,
  sign_extend,
}
use open_idp_os.Process.{Ptr, null, msg_queue_size, Message, Task, Kernel, get_task_by_pid}
use open_idp_os.Process.TaskList.{IsRing, Chain, owner, owner_sound, get_task_by_pid-owner}
use open_idp_os.Process.Ipc.{put_message, deliver, sys_ipc_send, take_message, sys_ipc_recv}
use open_idp_os.Process.Ipc.Mailbox.{
  IsMailbox, mailbox, put_message-IsMailbox, mailbox-put, take_message-IsMailbox, mailbox-take,
  mailbox-zero, length-mailbox,
}
use open_idp_os.Process.Ipc.Post.{
  Office, Op, send, recv, switch, Reply, message_from, post_to, collect_from, collect, serve,
  serve_all,
}

-- One call, or the scheduler's choice of another task.
pub run_op : (fuel : ℕ) → Op → Kernel → Option (Reply × Kernel)
run_op fuel (send dest type d1 d2 d3) k =
    Option.map (λ (r : ℤ × Kernel). ((r.0, none), r.1)) (sys_ipc_send fuel dest type d1 d2 d3 k)
run_op fuel recv k = let (c, m, k') = sys_ipc_recv k in some ((c, m), k')
run_op fuel (switch t) k = some ((pos 0, none), record k { current_task = t })

-- The replies to a sequence of calls; `none` if the fuel of a search ran out.
pub run : (fuel : ℕ) → List Op → Kernel → Option (List Reply)
run fuel [] k = some []
run fuel (op ∷ ops) k = elim (run_op fuel op k) [
  | none ↦ none
  | some (r, k') ↦ Option.map (λ rs. r ∷ rs) (run fuel ops k')
]

abbrev next_of : (Ptr → Task) → Ptr → Ptr
next_of f t = (f t).next

module _ (number : Ptr → ℕ) (head : Ptr) (rest : List Ptr) where
  -- The kernel holds the tasks of the list, each with a well-formed ring of messages, and the
  -- boxes are their contents.
  pub record Models (k : Kernel) (o : Office) : Type 0 where
    pub head_is : k.task_head ≡ head
    pub ring : IsRing k rest
    pub boxes : (t : Ptr) → elem t (head ∷ rest) ≡ true → IsMailbox (k.task t)
    pub same : (t : Ptr) → elem t (head ∷ rest) ≡ true → mailbox (k.task t) ≡ o.box t
    pub current : k.current_task ≡ o.current
    pub running : elem k.current_task (head ∷ rest) ≡ true
    pub numbers : (t : Ptr) → (k.task t).pid ≡ number t

  -- A write to one task that keeps its pid and its place in the list.
  Models-update :
      {k : Kernel} {o : Office} (p : Ptr) (t : Task)
      → Models k o
      → t.next ≡ (k.task p).next
      → t.pid ≡ (k.task p).pid
      → IsMailbox t
      → Models
          (record k { task = update k.task p t })
          (record o { box = update o.box p (mailbox t) })
  Models-update {k} {o} p t s en ep v = record {
    head_is = s.head_is;
    ring = record {
      chain = subst (λ f. Chain f k.task_head rest k.task_head) (sym nexts) s.ring.chain;
      distinct = s.ring.distinct;
      live = s.ring.live;
    };
    boxes = λ q m. elim (Bool-cases (p == q)) [ inl e ↦ rw e v | inr e ↦ rw e (s.boxes q m) ];
    same = λ q m. elim (Bool-cases (p == q)) [ inl e ↦ rw e | inr e ↦ rw e (s.same q m) ];
    current = s.current;
    running = s.running;
    numbers = λ q. read-update (λ (x : Task). x.pid) k.task p t ep q ∙ s.numbers q;
  }
    where
      nexts : next_of (update k.task p t) ≡ next_of k.task
      nexts = fun_ext (read-update (λ (x : Task). x.next) k.task p t en)

  pub directory : ℕ → Ptr
  directory = owner number (head ∷ rest)

  -- What one call does on both sides.
  abbrev Agree : Option (Reply × Kernel) → Reply × Office → Type 0
  Agree r s = (k : Kernel) × (r ≡ some (s.0, k)) × Models k s.1

  find-directory :
      {k : Kernel} {o : Office} (fuel pid : ℕ)
      → Models k o
      → length rest < fuel
      → get_task_by_pid fuel pid k ≡ some (directory pid)
  unfolding directory
  find-directory {k} fuel pid s h =
      rw (get_task_by_pid-owner k rest fuel pid s.ring h, s.head_is)
        (ap (λ f. some (owner f (head ∷ rest) pid)) (fun_ext s.numbers))

  current_box :
      {k : Kernel} {o : Office} → Models k o → o.box o.current ≡ mailbox (k.task k.current_task)
  current_box {o} s = ap o.box (sym s.current) ∙ sym (s.same _ s.running)

  recv-Agree :
      (fuel : ℕ) {k : Kernel} {o : Office} → Models k o → Agree (run_op fuel recv k) (collect o)
  unfolding run_op sys_ipc_recv collect
  recv-Agree fuel {k} {o} s = elim (Bool-cases ((k.task k.current_task).msg_count == 0)) [
    | inl e ↦ empty e
    | inr e ↦ taken e
  ]
    where
      t : Task
      t = k.task k.current_task

      empty :
          (t.msg_count == 0) ≡ true → Agree (run_op fuel recv k) (collect_from (o.box o.current) o)
      empty e =
          let b : o.box o.current ≡ [] = current_box s ∙ mailbox-zero t (ground arith) in
          rw (b, collect_from) (k, rw e, s)

      taken :
          (t.msg_count == 0) ≡ false → Agree (run_op fuel recv k) (collect_from (o.box o.current) o)
      taken e =
          let b = current_box s ∙ mailbox-take t (s.boxes _ s.running) (ground arith) in
          let k' : Kernel = record k { task = update k.task k.current_task (take_message t).1 } in
          let after : Models k'
              (record o { box = update o.box o.current (mailbox (take_message t).1) }) =
            subst (λ c. Models k' (record o { box = update o.box c (mailbox (take_message t).1) }))
              s.current
              (Models-update k.current_task (take_message t).1 s (unfold take_message in refl)
                (unfold take_message in refl)
                (take_message-IsMailbox (s.boxes _ s.running) (ground arith))) in
          rw (b, collect_from) (k', rw e, after)

  deliver-Agree :
      (p type d1 d2 d3 : ℕ) {k : Kernel} {o : Office}
      → Models k o
      → (p ≢ null → elem p (head ∷ rest) ≡ true)
      → let (c, k') = deliver type d1 d2 d3 p k in
        Agree (some ((c, none), k')) (post_to number p type d1 d2 d3 o)
  unfolding deliver post_to
  deliver-Agree p type d1 d2 d3 {k} {o} s there = elim (Bool-cases (p == null)) [
    | inl e ↦ rw e (k, refl, s)
    | inr e ↦ elim (Bool-cases (leb msg_queue_size (k.task p).msg_count)) [
      | inl full ↦ rw (e, full, filled e full) (k, refl, s)
      | inr room ↦ rw (e, room, vacant e room) (stored (there (ground arith)) room)
    ]
  ]
    where
      msg : ℕ → Message
      msg sender = record {
        sender_pid = sender % 2 ^ 32;
        type = type;
        data1 = d1;
        data2 = d2;
        data3 = d3;
      }

      filled :
          (p == null) ≡ false
          → leb msg_queue_size (k.task p).msg_count ≡ true
          → ltb (length (o.box p)) 16 ≡ false
      filled e full =
          ground (arith, length-mailbox (k.task p), ap length (s.same p (there (ground arith))))

      vacant :
          (p == null) ≡ false
          → leb msg_queue_size (k.task p).msg_count ≡ false
          → ltb (length (o.box p)) 16 ≡ true
      vacant e room =
          ground (arith, length-mailbox (k.task p), ap length (s.same p (there (ground arith))))

      stored :
          elem p (head ∷ rest) ≡ true
          → leb msg_queue_size (k.task p).msg_count ≡ false
          → Agree
              (some (
                (pos 0, none),
                record k {
                  task = update k.task p (put_message (msg (k.task k.current_task).pid) (k.task p));
                },
              ))
              (
                (pos 0, none),
                record o {
                  box =
                      update o.box p
                        (o.box p ++ (message_from number o.current type d1 d2 d3 ∷ []));
                },
              )
      stored m room =
          let new : Message = msg (k.task k.current_task).pid in
          let few : (k.task p).msg_count < msg_queue_size = ground arith in
          let k' : Kernel = record k { task = update k.task p (put_message new (k.task p)) } in
          let contents =
            mailbox-put new (k.task p) (s.boxes p m) few
            ∙ ap₂ (λ b n. b ++ (msg n ∷ [])) (s.same p m)
                (s.numbers k.current_task ∙ ap number s.current) in
          (
            k',
            refl,
            subst (λ b. Models k' (record o { box = update o.box p b })) contents
                (Models-update p (put_message new (k.task p)) s (unfold put_message in refl)
                  (unfold put_message in refl) (put_message-IsMailbox new (s.boxes p m) few)),
          )

  -- A task to which the scheduler switches is in the list.
  abbrev pub CanRun : Op → Type 0
  CanRun (switch t) = elem t (head ∷ rest) ≡ true
  CanRun _ = Unit {0}

  abbrev pub Runnable : List Op → Type 0
  Runnable [] = Unit {0}
  Runnable (op ∷ ops) = CanRun op × Runnable ops

  run_op-Agree :
      (fuel : ℕ) (op : Op) {k : Kernel} {o : Office}
      → Models k o
      → length rest < fuel
      → CanRun op
      → Agree (run_op fuel op k) (serve directory number op o)
  unfolding run_op serve sys_ipc_send directory
  run_op-Agree fuel (send dest type d1 d2 d3) {k} {o} s h r =
      rw (find-directory fuel (sign_extend dest) s h) (
        deliver-Agree (directory (sign_extend dest)) type d1 d2 d3 s
          (λ ne. (owner_sound number (head ∷ rest) (sign_extend dest) live ne).0))
    where
      live : elem null (head ∷ rest) ≡ false
      live = ap (λ x. elem null (x ∷ rest)) (sym s.head_is) ∙ s.ring.live
  run_op-Agree fuel recv s h r = recv-Agree fuel s
  run_op-Agree fuel (switch t) s h r = (
    _,
    refl,
    record {
      head_is = s.head_is;
      ring = record { chain = s.ring.chain; distinct = s.ring.distinct; live = s.ring.live };
      boxes = s.boxes;
      same = s.same;
      current = refl;
      running = r;
      numbers = s.numbers;
    },
  )

  -- In a kernel whose circular list of tasks have well-formed message rings, any sequence of
  -- sys_ipc_send, sys_ipc_recv and switches among these tasks gives, with fuel for the list, the
  -- replies of first-in first-out boxes of sixteen messages: a send fails with -1 if no task has
  -- the pid and with -2 if the box is full, a receive fails with -1 if the box is empty.
  pub messages_refine :
      (fuel : ℕ) (ops : List Op) {k : Kernel} {o : Office}
      → Models k o
      → length rest < fuel
      → Runnable ops
      → run fuel ops k ≡ some (serve_all directory number ops o)
  unfolding run serve_all
  messages_refine fuel [] s h r = refl
  messages_refine fuel (op ∷ ops) {k} {o} s h r =
      let (k', e, s') = run_op-Agree fuel op s h r.0 in
      rw (e, run)
        (ap (Option.map (λ rs. (serve directory number op o).0 ∷ rs))
          (messages_refine fuel ops s' h r.1))
