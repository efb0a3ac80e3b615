-- ===== src/Process/Scheduler/Tests.antt =====
-- The scheduler of src/process/task.c at concrete inputs, with memory managers that hand out
-- rising addresses.
use open_idp_os.Base.{ℕ, ◌+◌, ◌≤◌, ◌≡◌, ◌==◌, refl, false, List, [], ◌∷◌, ◌++◌, some, arith}
use open_idp_os.Process.{Ptr, null, Kernel}
use open_idp_os.Process.TaskList.{IsRing}
use open_idp_os.Process.Tests.{two_tasks, two_tasks-IsRing}
use open_idp_os.Process.Memory.{Memory}
use open_idp_os.Process.Scheduler.{scheduler_schedule, task_exit}
use open_idp_os.Process.Scheduler.Exit.{Exited, task_exit-Exited}
use open_idp_os.Process.Scheduler.Rounds.{rounds, round_robin}
use open_idp_os.Process.Scheduler.Release.{Release, ticks, noting, all_of, task_exit-released}
use open_idp_os.Process.Scheduler.Spawn.{
  add_task, add_task-IsRing, create_kernel_task, Frame, create_kernel_task_lem,
}

abbrev counting : Memory ℕ
counting = record {
  kmalloc = λ n m. (m, m + n);
  kfree = λ p m. m;
  destroy_user_memory = λ p m. m;
  pmm_free_page = λ p m. m;
  create_process_pml4 = λ m. (m, m + 4096);
}

task_exit-Exited_example :
    (rsp : ℕ) × (k' : Kernel) × (task_exit 2 two_tasks ≡ some (some (rsp, k')))
    × Exited two_tasks (0x200 ∷ []) rsp k'
task_exit-Exited_example = task_exit-Exited two_tasks 0x200 [] 2 two_tasks-IsRing refl (omega arith)

task_exit-released_example :
    (rsp : ℕ) × (k' : Kernel) × (task_exit 2 two_tasks ≡ some (some (rsp, k')))
    × ((r : ℕ) (rs : List ℕ) (log : List Release)
        → (ticks noting 0 (r ∷ rs) k' log).1 ≡ all_of 0 0x100 (two_tasks.task 0x100) ++ log)
task_exit-released_example =
    task_exit-released 0 two_tasks 0x200 [] 2 two_tasks-IsRing refl (omega arith)

round_robin_example :
    rounds counting 0 (0x5000 ∷ 0x6000 ∷ []) 0 two_tasks 0 ≡ (0x200 ∷ 0x100 ∷ [], 0x5000)
round_robin_example =
    round_robin counting 0 0x5000 0 (0x6000 ∷ []) two_tasks 0 (0x200 ∷ []) two_tasks-IsRing refl
      refl

add_task-IsRing_example :
    IsRing (add_task 0x300 0x7000 0x8000 two_tasks) (0x300 ∷ 0x200 ∷ [])
    × (((add_task 0x300 0x7000 0x8000 two_tasks).task 0x300).pid ≡ 2)
    × (((add_task 0x300 0x7000 0x8000 two_tasks).task 0x300).rsp ≡ 0x7000)
    × ((t : Ptr)
        → (0x300 == t) ≡ false
        → ((add_task 0x300 0x7000 0x8000 two_tasks).task t).pid ≡ (two_tasks.task t).pid)
add_task-IsRing_example =
    add_task-IsRing 0x300 0x7000 0x8000 two_tasks (0x200 ∷ []) two_tasks-IsRing refl

-- The structure is at 0x300 and the stack right behind it, at 0x548.
create_kernel_task_example :
    let (words', k', m) = create_kernel_task counting 0x4000 (λ _. 7) two_tasks 0x300 in
    ((k'.task 0x300).rsp ≡ 0x548 + 3936)
    × Frame words' (0x548 + 3936) 0x4000 (0x548 + 4096)
    × ((a : ℕ) → 0x548 + 4096 ≤ a → words' a ≡ 7)
    × (two_tasks.current_task ≡ 0x100
        → (0x100 == null) ≡ false
        → (r m' : ℕ)
        → let (rsp, k'', _) = scheduler_schedule counting 0 r k' m' in
          (rsp ≡ 0x548 + 3936) × (k''.current_task ≡ 0x300))
create_kernel_task_example =
    create_kernel_task_lem counting 0 0x4000 (λ _. 7) two_tasks 0x300 (omega arith) refl
