-- ===== src/Process/Scheduler/Exit.antt =====
-- task_exit takes the running task out of the circle.
use mathlib.Core.Option
use mathlib.Core.Path.{fun_ext, subst}
use open_idp_os.Base.{
  ℕ, ◌<◌, ◌≡◌, ◌∙◌, sym, refl, ap, true, false, some, List, ◌∷◌, arith, ◌==◌, ==_iff, ==_sym,
  if◌then◌else◌, length, elem, Distinct, update, map-update, read-update, Bool-cases, inl, inr,
}
use open_idp_os.Process.{Ptr, null, Task, Kernel}
use open_idp_os.Process.TaskList.{Chain, IsRing}
use open_idp_os.Process.Scheduler.{enter, prev_loop, leave, task_exit}
use open_idp_os.Process.Scheduler.Links.{
  without, last_of, prev_loop-inside, prev_loop-last, elem-without, Distinct-without,
}

abbrev next_in : Kernel → Ptr → Ptr
next_in k t = (k.task t).next

-- What the exit of the running task leaves behind.
pub record Exited (k : Kernel) (rest : List Ptr) (rsp : ℕ) (k' : Kernel) : Type 0 where
  pub rest' : List Ptr
  pub circle : k'.task_head ∷ rest' ≡ without k.current_task (k.task_head ∷ rest)
  pub ring : IsRing k' rest'
  pub zombie : k'.zombie_task ≡ k.current_task
  pub runs : k'.current_task ≡ (k.task k.current_task).next
  pub stack : rsp ≡ (k.task (k.task k.current_task).next).rsp
  pub others : (t : Ptr) → (k'.task t).pid ≡ (k.task t).pid
  pub spaces : (t : Ptr) → (k'.task t).cr3 ≡ (k.task t).cr3
  pub stacks : (t : Ptr) → (k'.task t).kernel_stack ≡ (k.task t).kernel_stack

left : (victim prev : Ptr) → Kernel → Kernel
left victim prev k = (leave victim prev k).1

next-leave :
    (victim prev : Ptr) (k : Kernel)
    → next_in (left victim prev k) ≡ update (next_in k) prev (k.task victim).next
unfolding left leave enter
next-leave victim prev k = fun_ext (
    map-update (λ (x : Task). x.next) k.task prev
      (record (k.task prev) { next = (k.task victim).next }))

head-leave :
    (victim prev : Ptr) (k : Kernel)
    → (left victim prev k).task_head
      ≡ (if victim == k.task_head then (k.task victim).next else k.task_head)
unfolding left leave enter
head-leave victim prev k = refl

module _ {k : Kernel} {rest : List Ptr} (r : IsRing k rest) (prev h : Ptr) (rest' : List Ptr) where
  -- The unlinking gives a circle from the new head `h` on.
  leave-Exited :
      (left k.current_task prev k).task_head ≡ h
      → h ∷ rest' ≡ without k.current_task (k.task_head ∷ rest)
      → Chain (update (next_in k) prev (k.task k.current_task).next) h rest' h
      → Exited k rest (leave k.current_task prev k).0 (left k.current_task prev k)
  leave-Exited eh e c = record {
    rest' = rest';
    circle = ap (λ a. a ∷ rest') eh ∙ e;
    ring = record {
      chain =
          subst
            (λ f.
              Chain f (left k.current_task prev k).task_head rest'
                (left k.current_task prev k).task_head)
            (sym (next-leave k.current_task prev k))
            (subst (λ a. Chain (update (next_in k) prev (k.task k.current_task).next) a rest' a)
              (sym eh) c);
      distinct =
          subst (λ a. Distinct (a ∷ rest')) (sym eh)
            (subst Distinct (sym e)
              (Distinct-without k.current_task (k.task_head ∷ rest) r.distinct));
      live =
          ap (λ a. elem null (a ∷ rest')) eh
          ∙ ap (elem null) e
          ∙ elem-without k.current_task null (k.task_head ∷ rest) r.live;
    };
    zombie = unfold left leave enter in refl;
    runs = unfold left leave enter in refl;
    stack =
        unfold left leave enter in
        read-update (λ (x : Task). x.rsp) k.task prev after refl (k.task k.current_task).next;
    others = unfold left leave enter in read-update (λ (x : Task). x.pid) k.task prev after refl;
    spaces = unfold left leave enter in read-update (λ (x : Task). x.cr3) k.task prev after refl;
    stacks =
        unfold left leave enter in
        read-update (λ (x : Task). x.kernel_stack) k.task prev after refl;
  }
    where
      after : Task
      after = record (k.task prev) { next = (k.task k.current_task).next }

  exit_through :
      (fuel : ℕ)
      → prev_loop (next_in k) k.task_head k.current_task fuel k.task_head ≡ some (some prev)
      → Exited k rest (leave k.current_task prev k).0 (left k.current_task prev k)
      → (rsp : ℕ) × (k' : Kernel) × (task_exit fuel k ≡ some (some (rsp, k')))
        × Exited k rest rsp k'
  unfolding task_exit left
  exit_through fuel found ex =
      (_, _, ap (Option.map (Option.map (λ p. leave k.current_task p k))) found, ex)

-- In a circular list of at least two tasks that holds the running task, task_exit ends without
-- finding the list corrupt; it leaves a circular list of the same tasks in the same order without
-- the running one, which becomes the zombie, and continues the task behind it with that task's
-- saved stack pointer; no task's pid, address space or kernel stack changes.
pub task_exit-Exited :
    (k : Kernel) (x : Ptr) (xs : List Ptr) (fuel : ℕ)
    → IsRing k (x ∷ xs)
    → elem k.current_task (k.task_head ∷ x ∷ xs) ≡ true
    → length (x ∷ xs) < fuel
    → (rsp : ℕ) × (k' : Kernel) × (task_exit fuel k ≡ some (some (rsp, k')))
      × Exited k (x ∷ xs) rsp k'
task_exit-Exited k x xs fuel r m h = elim (Bool-cases (k.current_task == k.task_head)) [
  | inl e ↦ at_head e ((==_iff _ _).0 e)
  | inr e ↦ inside e
]
  where
    head : Ptr
    head = k.task_head

    Result : Type 0
    Result =
        (rsp : ℕ) × (k' : Kernel) × (task_exit fuel k ≡ some (some (rsp, k')))
        × Exited k (x ∷ xs) rsp k'

    at_head : (k.current_task == head) ≡ true → k.current_task ≡ head → Result
    at_head t e =
        let (found, _, chain) =
          prev_loop-last (next_in k) head fuel head x (x ∷ xs) r.chain r.distinct r.distinct.0 h in
        let after : (k.task k.current_task).next ≡ x = ap (next_in k) e ∙ r.chain.0 in
        let p = last_of head (x ∷ xs) in
        exit_through r p x xs fuel (ap (λ c. prev_loop (next_in k) head c fuel head) e ∙ found) (
          leave-Exited r p x xs (head-leave k.current_task p k ∙ (rw t after))
            (unfold without in rw (==_sym head k.current_task, t))
            (subst (λ n. Chain (update (next_in k) p n) x xs x) (sym after) chain.1))

    inside : (k.current_task == head) ≡ false → Result
    inside t =
        let (p, found, _, _, chain) =
          prev_loop-inside (next_in k) head k.current_task fuel head (x ∷ xs) r.chain r.distinct
            r.distinct.0 (ground arith) t (omega arith) in
        exit_through r p head (without k.current_task (x ∷ xs)) fuel found (
          leave-Exited r p head (without k.current_task (x ∷ xs))
            (head-leave k.current_task p k ∙ (rw t))
            (unfold without in rw (==_sym head k.current_task, t)) chain)
