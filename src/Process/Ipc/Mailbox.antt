-- ===== src/Process/Ipc/Mailbox.antt =====
-- The ring of messages of one task as a sequence.
use open_idp_os.Base.{
  suc, ◌+◌, ◌-◌, ◌%◌, ◌≤◌, ◌<◌, ◌≡◌, ◌∙◌, ◌++◌, ap, ◌≢◌, List, [], ◌∷◌, arith, update, length,
}
use open_idp_os.Base.Ring.{items, items-zero, length-items, items-suc, items-update}
use open_idp_os.Process.{msg_queue_size, Message, Task}
use open_idp_os.Process.Ipc.{put_message, take_message}

pub record IsMailbox (t : Task) : Type 0 where
  pub head_in : t.msg_head < msg_queue_size
  pub count_le : t.msg_count ≤ msg_queue_size
  pub tail_at : t.msg_tail ≡ (t.msg_head + t.msg_count) % msg_queue_size

-- The waiting messages, oldest first.
abbrev pub mailbox : Task → List Message
mailbox t = items t.msgs msg_queue_size t.msg_head t.msg_count

pub put_message-IsMailbox :
    (m : Message) {t : Task}
    → IsMailbox t
    → t.msg_count < msg_queue_size
    → IsMailbox (put_message m t)
unfolding put_message
put_message-IsMailbox m v h = omega arith

pub mailbox-put :
    (m : Message) (t : Task)
    → IsMailbox t
    → t.msg_count < msg_queue_size
    → mailbox (put_message m t) ≡ mailbox t ++ (m ∷ [])
unfolding put_message
mailbox-put m t v h =
    ap (λ n. items (update t.msgs t.msg_tail m) msg_queue_size t.msg_head n) (omega arith)
    ∙ ap (λ j. items (update t.msgs j m) msg_queue_size t.msg_head (suc t.msg_count)) v.tail_at
    ∙ items-update t.msgs msg_queue_size t.msg_head t.msg_count m v.head_in h

pub take_message-IsMailbox :
    {t : Task} → IsMailbox t → t.msg_count ≢ 0 → IsMailbox (take_message t).1
unfolding take_message
take_message-IsMailbox v h = omega arith

pub mailbox-take :
    (t : Task)
    → IsMailbox t
    → t.msg_count ≢ 0
    → mailbox t ≡ (take_message t).0 ∷ mailbox (take_message t).1
unfolding take_message
mailbox-take t v h =
    ap (items t.msgs msg_queue_size t.msg_head) back
    ∙ items-suc t.msgs msg_queue_size t.msg_head (t.msg_count - 1) v.head_in
  where
    back : t.msg_count ≡ suc (t.msg_count - 1)
    back = omega arith

pub mailbox-zero : (t : Task) → t.msg_count ≡ 0 → mailbox t ≡ []
mailbox-zero t e =
    ap (items t.msgs msg_queue_size t.msg_head) e ∙ items-zero t.msgs msg_queue_size t.msg_head

pub length-mailbox : (t : Task) → length (mailbox t) ≡ t.msg_count
length-mailbox t = length-items t.msgs msg_queue_size t.msg_head t.msg_count
