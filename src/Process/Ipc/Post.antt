-- ===== src/Process/Ipc/Post.antt =====
-- What message passing promises: every task has a first-in first-out box of at most sixteen
-- messages; a pid leads to a task through a directory.
use open_idp_os.Base.{
  ℕ, ◌%◌, ◌^◌, ◌++◌, Option, none, some, List, [], ◌∷◌, ◌==◌, ltb, if◌then◌else◌, length, update, ℤ,
  pos, negsuc, sign_extend,
}
use open_idp_os.Process.{Ptr, null, Message}

pub record Office : Type 0 where
  pub box : Ptr → List Message
  pub current : Ptr

-- The calls of the running task, and a switch to another task.
pub data Op : Type 0 where
  send : (dest_pid type d1 d2 d3 : ℕ) → Op
  recv : Op
  switch : Ptr → Op

abbrev pub Reply : Type 0
Reply = ℤ × Option Message

-- `number` gives the pid of a task, which a message names as its sender.
module _ (number : Ptr → ℕ) where
  abbrev pub message_from : (sender : Ptr) (type d1 d2 d3 : ℕ) → Message
  message_from sender type d1 d2 d3 = record {
    sender_pid = number sender % 2 ^ 32;
    type = type;
    data1 = d1;
    data2 = d2;
    data3 = d3;
  }

  unfoldable pub post_to : Ptr → (type d1 d2 d3 : ℕ) → Office → Reply × Office
  post_to p type d1 d2 d3 o =
      if p == null
      then ((negsuc 0, none), o)
      else if ltb (length (o.box p)) 16
      then (
        (pos 0, none),
        record o { box = update o.box p (o.box p ++ (message_from o.current type d1 d2 d3 ∷ [])) },
      )
      else ((negsuc 1, none), o)

unfoldable pub collect_from : List Message → Office → Reply × Office
collect_from [] o = ((negsuc 0, none), o)
collect_from (m ∷ ms) o = ((pos 0, some m), record o { box = update o.box o.current ms })

unfoldable pub collect : Office → Reply × Office
unfolding collect_from
collect o = collect_from (o.box o.current) o

module _ (directory : ℕ → Ptr) (number : Ptr → ℕ) where
  unfoldable pub serve : Op → Office → Reply × Office
  unfolding post_to collect
  serve (send dest type d1 d2 d3) o = post_to number (directory (sign_extend dest)) type d1 d2 d3 o
  serve recv o = collect o
  serve (switch t) o = ((pos 0, none), record o { current = t })

  -- The replies to a sequence of calls.
  unfoldable pub serve_all : List Op → Office → List Reply
  unfolding serve
  serve_all [] o = []
  serve_all (op ∷ ops) o = let (r, o') = serve op o in r ∷ serve_all ops o'
