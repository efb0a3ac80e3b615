-- ===== src/Process/Scheduler/Rounds.antt =====
-- The rounds of scheduler_schedule.
use mathlib.Core.Path.{fun_ext, subst, ap₂}
use open_idp_os.Base.{
  ℕ, ◌≡◌, ◌∙◌, sym, refl, ap, false, List, [], ◌∷◌, ◌++◌, arith, ◌==◌, length, elem, update_self,
  read-update, Bool-cases, inl, inr,
}
use open_idp_os.Process.{Ptr, null, Task, Kernel}
use open_idp_os.Process.TaskList.{Chain, IsRing}
use open_idp_os.Process.Memory.{Memory}
use open_idp_os.Process.Scheduler.{enter, pick_next, reap, scheduler_schedule}

-- One tick, for a running task that is not NULL.
pub record Ticked (r : ℕ) (k : Kernel) (rsp : ℕ) (k' : Kernel) : Type 0 where
  pub moves : k'.current_task ≡ (k.task k.current_task).next
  pub links : (t : Ptr) → (k'.task t).next ≡ (k.task t).next
  pub saves : (k'.task k.current_task).rsp ≡ r
  pub keeps : (t : Ptr) → (k.current_task == t) ≡ false → (k'.task t).rsp ≡ (k.task t).rsp
  pub resumes : rsp ≡ (k'.task k'.current_task).rsp

pick_next-Ticked :
    (r : ℕ) (k : Kernel)
    → (k.current_task == null) ≡ false
    → Ticked r k (pick_next r k).0 (pick_next r k).1
unfolding pick_next enter
pick_next-Ticked r k live = rw live (record {
  moves = read-update (λ (x : Task). x.next) k.task k.current_task saved refl k.current_task;
  links = read-update (λ (x : Task). x.next) k.task k.current_task saved refl;
  saves = ap (λ (x : Task). x.rsp) (update_self k.task k.current_task saved);
  keeps = λ t ne. rw ne;
  resumes = refl;
})
  where
    saved : Task
    saved = record (k.task k.current_task) { rsp = r }

Chain-same :
    {f g : ℕ → ℕ} (p q : Ptr) (xs : List Ptr)
    → ((t : ℕ) → g t ≡ f t)
    → Chain f p xs q
    → Chain g p xs q
Chain-same p q xs e c = subst (λ h. Chain h p xs q) (sym (fun_ext e)) c

module _ {M : Type 0} (mem : Memory M) (limine_hhdm : ℕ) where
  pub schedule-Ticked :
      (r : ℕ) (k : Kernel) (m : M)
      → (k.current_task == null) ≡ false
      → let (rsp, k', _) = scheduler_schedule mem limine_hhdm r k m in Ticked r k rsp k'
  unfolding scheduler_schedule reap
  schedule-Ticked r k m live = elim (Bool-cases (k.zombie_task == null)) [
    | inl e ↦ rw e (pick_next-Ticked r k live)
    | inr e ↦ rw e (same (pick_next-Ticked r (record k { zombie_task = null }) live))
  ]
    where
      same :
          Ticked r
            (record k { zombie_task = null })
            (pick_next r (record k { zombie_task = null })).0
            (pick_next r (record k { zombie_task = null })).1
          → Ticked r k
              (pick_next r (record k { zombie_task = null })).0
              (pick_next r (record k { zombie_task = null })).1
      same t = record {
        moves = t.moves;
        links = t.links;
        saves = t.saves;
        keeps = t.keeps;
        resumes = t.resumes;
      }

  -- Timer ticks in a row, each with the stack pointer of the task that it interrupts: the tasks
  -- that run after each of them, and the stack pointer with which the last one goes on.
  pub rounds : List ℕ → (rsp : ℕ) → Kernel → M → List Ptr × ℕ
  rounds [] rsp k m = ([], rsp)
  rounds (r ∷ rs) rsp k m =
      let (rsp', k', m') = scheduler_schedule mem limine_hhdm r k m in
      let (ts, last) = rounds rs rsp' k' m' in (k'.current_task ∷ ts, last)

  -- From the running task along the chain to the task `q`, whose stack pointer was saved as `r`.
  along :
      (rs : List ℕ) (rsp r : ℕ) (k : Kernel) (m : M) (xs : List Ptr) (q : Ptr)
      → Chain (λ t. (k.task t).next) k.current_task xs q
      → elem null (k.current_task ∷ xs) ≡ false
      → elem q (k.current_task ∷ xs) ≡ false
      → length rs ≡ length xs
      → (k.task q).rsp ≡ r
      → (s : ℕ) → rounds (s ∷ rs) rsp k m ≡ (xs ++ (q ∷ []), r)
  unfolding rounds
  along (_ ∷ _) rsp r k m [] q c live out e kept s = absurd (omega arith)
  along [] rsp r k m (x ∷ xs) q c live out e kept s = absurd (omega arith)
  along [] rsp r k m [] q c live out e kept s =
      let t = schedule-Ticked s k m (ground arith) in
      let at : k₁.current_task ≡ q = t.moves ∙ c in
      ap₂ (λ a b. (a ∷ [], b)) at
        (t.resumes ∙ (ap (λ a. (k₁.task a).rsp) at ∙ (t.keeps q (ground arith) ∙ kept)))
    where
      k₁ : Kernel
      k₁ = (scheduler_schedule mem limine_hhdm s k m).1
  along (s' ∷ rs) rsp r k m (x ∷ xs) q c live out e kept s =
      let t = schedule-Ticked s k m (ground arith) in
      let at : k₁.current_task ≡ x = t.moves ∙ c.0 in
      ap₂ (λ a (o : List Ptr × ℕ). (a ∷ o.0, o.1)) at
        (along rs rsp₁ r k₁ m₁ xs q
          (subst (λ a. Chain (λ u. (k₁.task u).next) a xs q) (sym at)
            (Chain-same x q xs t.links c.1))
          (ap (λ a. elem null (a ∷ xs)) at ∙ (ground arith))
          (ap (λ a. elem q (a ∷ xs)) at ∙ (ground arith)) (omega arith)
          (t.keeps q (ground arith) ∙ kept) s')
    where
      rsp₁ : ℕ
      rsp₁ = (scheduler_schedule mem limine_hhdm s k m).0

      k₁ : Kernel
      k₁ = (scheduler_schedule mem limine_hhdm s k m).1

      m₁ : M
      m₁ = (scheduler_schedule mem limine_hhdm s k m).2

  -- In a circular list whose head runs, as many timer ticks as there are tasks run every other
  -- task once, in list order, and then the head again, which goes on with the stack pointer that
  -- was saved when the first tick interrupted it.
  pub round_robin :
      (r rsp : ℕ) (rs : List ℕ) (k : Kernel) (m : M) (rest : List Ptr)
      → IsRing k rest
      → k.current_task ≡ k.task_head
      → length rs ≡ length rest
      → rounds (r ∷ rs) rsp k m ≡ (rest ++ (k.task_head ∷ []), r)
  unfolding rounds
  round_robin r rsp rs k m rest ring runs e = go rs rest ring e
    where
      k₁ : Kernel
      k₁ = (scheduler_schedule mem limine_hhdm r k m).1

      go :
          (rs : List ℕ) (rest : List Ptr)
          → IsRing k rest
          → length rs ≡ length rest
          → rounds (r ∷ rs) rsp k m ≡ (rest ++ (k.task_head ∷ []), r)
      go [] (x ∷ xs) i e = absurd (omega arith)
      go (_ ∷ _) [] i e = absurd (omega arith)
      go [] [] i e =
          let t = schedule-Ticked r k m (ground (arith, i.live)) in
          let at : k₁.current_task ≡ k.task_head =
            t.moves ∙ (ap (λ a. (k.task a).next) runs ∙ i.chain) in
          ap₂ (λ a b. (a ∷ [], b)) at
            (t.resumes ∙ (ap (λ a. (k₁.task a).rsp) (at ∙ sym runs) ∙ t.saves))
      go (s ∷ rs) (x ∷ xs) i e =
          let t = schedule-Ticked r k m (ground (arith, i.live)) in
          let at : k₁.current_task ≡ x = t.moves ∙ (ap (λ a. (k.task a).next) runs ∙ i.chain.0) in
          ap₂ (λ a (o : List Ptr × ℕ). (a ∷ o.0, o.1)) at
            (along rs (scheduler_schedule mem limine_hhdm r k m).0 r k₁
              (scheduler_schedule mem limine_hhdm r k m).2 xs k.task_head
              (subst (λ a. Chain (λ u. (k₁.task u).next) a xs k.task_head) (sym at)
                (Chain-same x k.task_head xs t.links i.chain.1))
              (ap (λ a. elem null (a ∷ xs)) at ∙ (ground (arith, i.live)))
              (ap (λ a. elem k.task_head (a ∷ xs)) at ∙ i.distinct.0) (omega arith)
              (ap (λ a. (k₁.task a).rsp) (sym runs) ∙ t.saves) s)
