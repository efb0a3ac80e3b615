-- ===== src/Process.antt =====
-- src/process/task.c and include/process/task.h: tasks, their circular list and the table of them.
-- A task_t lives at an address; the kernel's state maps each address to the structure there.
pub mod TaskList
pub mod Ipc
pub mod Memory
pub mod Scheduler
mod Tests
use open_idp_os.Base.{ℕ, zero, suc, ◌≡◌, Option, none, some, List, [], ◌∷◌, ◌==◌, if◌then◌else◌}

abbrev pub Ptr : Type 0
Ptr = ℕ

abbrev pub null : Ptr
null = 0

abbrev pub msg_queue_size : ℕ
msg_queue_size = 16

-- message_t; the two ints are their 32-bit patterns.
pub record Message : Type 0 where
  pub sender_pid : ℕ
  pub type : ℕ
  pub data1 : ℕ
  pub data2 : ℕ
  pub data3 : ℕ

-- struct task.
pub record Task : Type 0 where
  pub rsp : ℕ
  pub cr3 : ℕ
  pub pid : ℕ
  pub kernel_stack : ℕ
  pub next : Ptr
  pub is_wm : ℕ
  pub program_break : ℕ
  pub msgs : ℕ → Message
  pub msg_head : ℕ
  pub msg_tail : ℕ
  pub msg_count : ℕ
  pub waiting_for_msg : ℕ

-- The globals of task.c over the task structures, with the two registers that they set:
-- the ring 0 stack pointer of the TSS and CR3.
pub record Kernel : Type 0 where
  pub task : Ptr → Task
  pub current_task : Ptr
  pub task_head : Ptr
  pub next_pid : ℕ
  pub zombie_task : Ptr
  pub tss_rsp0 : ℕ
  pub cpu_cr3 : ℕ

-- The do-while loop of get_task_by_pid, on fuel. `some null` is its NULL.
find_loop : (next pid_of : ℕ → ℕ) (head pid : ℕ) → ℕ → Ptr → Option Ptr
find_loop next pid_of head pid zero curr = none
find_loop next pid_of head pid (suc fuel) curr =
    let rest = find_loop next pid_of head pid fuel (next curr) in
    if pid_of curr == pid then some curr else if next curr == head then some null else rest

pub get_task_by_pid : (fuel pid : ℕ) → Kernel → Option Ptr
unfolding find_loop
get_task_by_pid fuel pid k =
    find_loop (λ t. (k.task t).next) (λ t. (k.task t).pid) k.task_head pid fuel k.task_head
