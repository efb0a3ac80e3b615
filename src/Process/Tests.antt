-- ===== src/Process/Tests.antt =====
-- Tasks and messages at concrete inputs.
use open_idp_os.Base.{
  ℕ, ◌≡◌, ◌≢◌, ◌==◌, if◌then◌else◌, refl, true, List, [], ◌∷◌, some, arith, elem,
}
use open_idp_os.Base.Ring.{items-zero}
use open_idp_os.Process.{Ptr, null, Message, Task, Kernel, get_task_by_pid}
use open_idp_os.Process.TaskList.{IsRing, get_task_by_pid_lem}
use open_idp_os.Process.Ipc.Post.{Office, Op, send, recv, switch, serve_all}
use open_idp_os.Process.Ipc.Refine.{run, Models, directory, messages_refine}

abbrev blank : Message
blank = record { sender_pid = 0; type = 0; data1 = 0; data2 = 0; data3 = 0 }

abbrev task_with : (pid next : ℕ) → Task
task_with pid next = record {
  rsp = 0;
  cr3 = 0;
  pid = pid;
  kernel_stack = 0;
  next = next;
  is_wm = 0;
  program_break = 0;
  msgs = λ _. blank;
  msg_head = 0;
  msg_tail = 0;
  msg_count = 0;
  waiting_for_msg = 0;
}

-- The tasks at 0x100 and 0x200 have the pids 0 and 1.
abbrev pub two_tasks : Kernel
two_tasks = record {
  task = λ t. task_with (if t == 0x200 then 1 else 0) (if t == 0x100 then 0x200 else 0x100);
  current_task = 0x100;
  task_head = 0x100;
  next_pid = 2;
  zombie_task = null;
  tss_rsp0 = 0;
  cpu_cr3 = 0;
}

pub two_tasks-IsRing : IsRing two_tasks (0x200 ∷ [])
two_tasks-IsRing = record { chain = (refl, refl); distinct = (refl, (refl, tt)); live = refl }

get_task_by_pid_example :
    (p : Ptr) × (get_task_by_pid 2 1 two_tasks ≡ some p)
    × (p ≢ null → (elem p (0x100 ∷ 0x200 ∷ []) ≡ true) × ((two_tasks.task p).pid ≡ 1))
    × (p ≡ null → (t : Ptr) → elem t (0x100 ∷ 0x200 ∷ []) ≡ true → (two_tasks.task t).pid ≢ 1)
get_task_by_pid_example =
    get_task_by_pid_lem two_tasks (0x200 ∷ []) 2 1 two_tasks-IsRing (omega arith)

abbrev empty_office : Office
empty_office = record { box = λ _. []; current = 0x100 }

two_tasks-Models :
    Models (λ t. if t == 0x200 then 1 else 0) 0x100 (0x200 ∷ []) two_tasks empty_office
two_tasks-Models = record {
  head_is = refl;
  ring = two_tasks-IsRing;
  boxes = λ t m. record { head_in = omega arith; count_le = omega arith; tail_at = refl };
  same = λ t m. items-zero (λ _. blank) 16 0;
  current = refl;
  running = refl;
  numbers = λ t. refl;
}

-- The first task sends to the second and to itself, and the second receives.
abbrev script : List Op
script = send 1 7 10 20 30 ∷ recv ∷ send 9 1 0 0 0 ∷ switch 0x200 ∷ recv ∷ []

messages_refine_example :
    run 5 script two_tasks
    ≡ some (
        serve_all
          (directory (λ t. if t == 0x200 then 1 else 0) 0x100 (0x200 ∷ []))
          (λ t. if t == 0x200 then 1 else 0)
          script
          empty_office)
messages_refine_example =
    messages_refine (λ t. if t == 0x200 then 1 else 0) 0x100 (0x200 ∷ []) 5 script two_tasks-Models
      (omega arith) (tt, (tt, (tt, (refl, (tt, tt)))))
