-- ===== src/Process/Ipc.antt =====
-- src/syscall/sys_process.c: sending and receiving messages. Each task holds a ring of sixteen.
-- `none` means that the fuel of the search for the target ran out.
pub mod Mailbox
pub mod Post
pub mod Refine
use open_idp_os.Base.{
  ℕ, ◌+◌, ◌-◌, ◌%◌, ◌^◌, Option, none, some, ◌==◌, leb, if◌then◌else◌, update, ℤ, pos, negsuc,
  sign_extend,
}
use mathlib.Core.Option
use open_idp_os.Process.{Ptr, null, msg_queue_size, Message, Task, Kernel, get_task_by_pid}

-- The write of the message and the new tail and count.
pub put_message : Message → Task → Task
put_message m t = record t {
  msgs = update t.msgs t.msg_tail m;
  msg_tail = (t.msg_tail + 1) % msg_queue_size;
  msg_count = t.msg_count + 1;
}

-- The sender's pid is stored as an int.
pub deliver : (type d1 d2 d3 : ℕ) → Ptr → Kernel → ℤ × Kernel
unfolding put_message
deliver type d1 d2 d3 target k =
    if target == null
    then (negsuc 0, k)
    else if leb msg_queue_size (k.task target).msg_count
    then (negsuc 1, k)
    else (let msg : Message = record {
      sender_pid = (k.task k.current_task).pid % 2 ^ 32;
      type = type;
      data1 = d1;
      data2 = d2;
      data3 = d3;
    } in
        (pos 0, record k { task = update k.task target (put_message msg (k.task target)) }))

pub sys_ipc_send : (fuel dest_pid type d1 d2 d3 : ℕ) → Kernel → Option (ℤ × Kernel)
sys_ipc_send fuel dest_pid type d1 d2 d3 k =
    Option.map (λ target. deliver type d1 d2 d3 target k)
      (get_task_by_pid fuel (sign_extend dest_pid) k)

pub take_message : Task → Message × Task
take_message t = (
  t.msgs t.msg_head,
  record t { msg_head = (t.msg_head + 1) % msg_queue_size; msg_count = t.msg_count - 1 },
)

-- The second component is what is stored through `out_msg`.
pub sys_ipc_recv : Kernel → ℤ × Option Message × Kernel
sys_ipc_recv k =
    let t = k.task k.current_task in
    if t.msg_count == 0
    then (negsuc 0, none, k)
    else (let (m, t') = take_message t in
        (pos 0, some m, record k { task = update k.task k.current_task t' }))
