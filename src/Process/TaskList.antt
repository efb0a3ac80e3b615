-- ===== src/Process/TaskList.antt =====
-- The circular list of tasks, and the search in it.
use open_idp_os.Base.{
  ℕ, zero, suc, ◌<◌, ◌≡◌, refl, ◌≢◌, true, false, some, List, [], ◌∷◌, arith, ◌==◌, if◌then◌else◌,
  length, elem, Distinct,
}
use open_idp_os.Process.{Ptr, null, Kernel, find_loop, get_task_by_pid}

-- From `p` the `next` fields lead through `xs` to `q`.
abbrev pub Chain : (ℕ → ℕ) → Ptr → List Ptr → Ptr → Type 0
Chain next p [] q = next p ≡ q
Chain next p (x ∷ xs) q = (next p ≡ x) × Chain next x xs q

-- The tasks in the circle: `task_head`, then `rest`, and back.
pub record IsRing (k : Kernel) (rest : List Ptr) : Type 0 where
  pub chain : Chain (λ t. (k.task t).next) k.task_head rest k.task_head
  pub distinct : Distinct (k.task_head ∷ rest)
  pub live : elem null (k.task_head ∷ rest) ≡ false

-- The first task of the list with this pid, or NULL.
pub owner : (ℕ → ℕ) → List Ptr → ℕ → Ptr
owner pid_of [] pid = null
owner pid_of (t ∷ ts) pid = if pid_of t == pid then t else owner pid_of ts pid

find_loop-owner :
    (next pid_of : ℕ → ℕ) (head pid fuel p : ℕ) (xs : List Ptr)
    → Chain next p xs head
    → elem head xs ≡ false
    → length xs < fuel
    → find_loop next pid_of head pid fuel p ≡ some (owner pid_of (p ∷ xs) pid)
unfolding find_loop owner
find_loop-owner next pid_of head pid zero p xs c d h = elim h [ ]
find_loop-owner next pid_of head pid (suc f) p [] c d h = ground arith
find_loop-owner next pid_of head pid (suc f) p (x ∷ xs) c d h =
    ground (arith, find_loop-owner next pid_of head pid f x xs c.1)

-- The search ends with the owner of the pid.
pub get_task_by_pid-owner :
    (k : Kernel) (rest : List Ptr) (fuel pid : ℕ)
    → IsRing k rest
    → length rest < fuel
    → get_task_by_pid fuel pid k ≡ some (owner (λ t. (k.task t).pid) (k.task_head ∷ rest) pid)
unfolding get_task_by_pid
get_task_by_pid-owner k rest fuel pid r h =
    find_loop-owner (λ t. (k.task t).next) (λ t. (k.task t).pid) k.task_head pid fuel k.task_head
      rest r.chain (ground (arith, r.distinct)) h

-- The task that is found is in the list and has the pid; NULL means that no task has it.
pub owner_sound :
    (pid_of : ℕ → ℕ) (xs : List Ptr) (pid : ℕ)
    → elem null xs ≡ false
    → owner pid_of xs pid ≢ null
    → (elem (owner pid_of xs pid) xs ≡ true) × (pid_of (owner pid_of xs pid) ≡ pid)
unfolding owner
owner_sound pid_of [] pid live ne = absurd (ne refl)
owner_sound pid_of (x ∷ xs) pid live ne = ground (arith, owner_sound pid_of xs pid)

pub owner_complete :
    (pid_of : ℕ → ℕ) (xs : List Ptr) (pid t : ℕ)
    → elem null xs ≡ false
    → owner pid_of xs pid ≡ null
    → elem t xs ≡ true
    → pid_of t ≢ pid
unfolding owner
owner_complete pid_of [] pid t live e m = cc
owner_complete pid_of (x ∷ xs) pid t live e m = ground (arith, owner_complete pid_of xs pid t)

-- On a circular list of tasks, with more fuel than there are tasks behind the head,
-- get_task_by_pid ends; a task that it returns is in the list and has the pid, and NULL means
-- that no task of the list has it.
pub get_task_by_pid_lem :
    (k : Kernel) (rest : List Ptr) (fuel pid : ℕ)
    → IsRing k rest
    → length rest < fuel
    → (p : Ptr) × (get_task_by_pid fuel pid k ≡ some p)
      × (p ≢ null → (elem p (k.task_head ∷ rest) ≡ true) × ((k.task p).pid ≡ pid))
      × (p ≡ null → (t : Ptr) → elem t (k.task_head ∷ rest) ≡ true → (k.task t).pid ≢ pid)
get_task_by_pid_lem k rest fuel pid r h = (
  owner pid_of ring pid,
  get_task_by_pid-owner k rest fuel pid r h,
  owner_sound pid_of ring pid r.live,
  λ e t m. owner_complete pid_of ring pid t r.live e m,
)
  where
    pid_of : ℕ → ℕ
    pid_of t = (k.task t).pid

    ring : List Ptr
    ring = k.task_head ∷ rest
