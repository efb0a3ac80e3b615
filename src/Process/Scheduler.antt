-- ===== src/Process/Scheduler.antt =====
-- src/process/task.c: the round-robin scheduler, the exit of a task and the creation of a kernel
-- task.
pub mod Links
pub mod Exit
pub mod Rounds
pub mod Release
pub mod Spawn
mod Tests
use mathlib.Core.Option
use open_idp_os.Base.{
  ℕ, zero, suc, ◌+◌, ◌-◌, ◌*◌, Bool, true, false, not, ◌&&◌, Option, none, some, List, [], ◌∷◌,
  ◌==◌, if◌then◌else◌, update, add64, sub64,
}
use open_idp_os.Process.{Ptr, null, Task, Kernel}
use open_idp_os.Process.Memory.{Memory}

-- `tss_set_rsp0`, and the load of CR3 if the task has an address space and it is another one.
pub enter : (kernel_stack : ℕ) → Kernel → Kernel
enter kernel_stack k =
    let cr3 = (k.task k.current_task).cr3 in
    record k {
      tss_rsp0 = kernel_stack;
      cpu_cr3 = if not (cr3 == 0) && not (cr3 == k.cpu_cr3) then cr3 else k.cpu_cr3;
    }

-- The part of scheduler_schedule behind the clean-up: the stack pointer to go on with.
pub pick_next : (current_rsp : ℕ) → Kernel → ℕ × Kernel
unfolding enter
pick_next current_rsp k =
    if k.current_task == null
    then (current_rsp, k)
    else (let saved = record k {
      task = update k.task k.current_task (record (k.task k.current_task) { rsp = current_rsp });
    } in
        let moved = record saved { current_task = (saved.task k.current_task).next } in
        (
          (moved.task moved.current_task).rsp,
          enter (moved.task moved.current_task).kernel_stack moved,
        ))

module _ {M : Type 0} (mem : Memory M) (limine_hhdm : ℕ) where
  open mem use {kfree, destroy_user_memory, pmm_free_page}

  -- The clean-up of the task that exited last.
  pub reap : Kernel → M → Kernel × M
  reap k m =
      let z = k.task k.zombie_task in
      if not (k.zombie_task == null)
      then (
        record k { zombie_task = null },
        kfree k.zombie_task (
            pmm_free_page (add64 z.cr3 limine_hhdm)
              (destroy_user_memory z.cr3 (kfree (sub64 z.kernel_stack 4096) m))),
      )
      else (k, m)

  pub scheduler_schedule : (current_rsp : ℕ) → Kernel → M → ℕ × Kernel × M
  unfolding reap pick_next
  scheduler_schedule current_rsp k m =
      let (k', m') = reap k m in let (rsp, k'') = pick_next current_rsp k' in (rsp, k'', m')

-- The loop of task_exit that finds the task before the victim, on fuel. `some none` is the loop
-- without end behind "Corrupt task list".
pub prev_loop : (next : ℕ → ℕ) (head victim : Ptr) → ℕ → (prev : Ptr) → Option (Option Ptr)
prev_loop next head victim zero prev = none
prev_loop next head victim (suc fuel) prev =
    let rest = prev_loop next head victim fuel (next prev) in
    if next prev == victim
    then some (some prev)
    else if next prev == head && not (victim == head)
    then some none
    else rest

-- The unlinking and the switch: the stack pointer that exit_switch_to jumps to.
pub leave : (victim prev : Ptr) → Kernel → ℕ × Kernel
unfolding enter
leave victim prev k =
    let after = (k.task victim).next in
    let unlinked = record k {
      task = update k.task prev (record (k.task prev) { next = after });
      task_head = if victim == k.task_head then after else k.task_head;
      zombie_task = victim;
      current_task = after;
    } in
    ((unlinked.task after).rsp, enter (add64 (unlinked.task after).kernel_stack 4096) unlinked)

pub task_exit : (fuel : ℕ) → Kernel → Option (Option (ℕ × Kernel))
unfolding prev_loop leave
task_exit fuel k =
    Option.map (Option.map (λ prev. leave k.current_task prev k))
      (prev_loop (λ t. (k.task t).next) k.task_head k.current_task fuel k.task_head)
