-- ===== src/Keyboard/Refine.antt =====
-- The ring of keyboard.c refines the queue of packets.
use open_idp_os.Base.{
  ℕ, suc, ◌+◌, ◌-◌, ◌%◌, ◌<◌, ◌≡◌, ◌∙◌, ◌++◌, refl, ap, update, List, [], ◌∷◌, arith, ◌≢◌,
}
use open_idp_os.Base.Ring.{items, items-zero, length-items, items-suc, items-update}
use open_idp_os.Keyboard.{Keyboard, buffer_size, keyboard_buffer_write, keyboard_read_key}
use open_idp_os.Keyboard.Queue
use open_idp_os.Keyboard.Queue.{Call, write, read}

-- Both indices lie in the array.
pub record IsValid (k : Keyboard) : Type 0 where
  pub head_in : k.kb_head < buffer_size
  pub tail_in : k.kb_tail < buffer_size

abbrev pub count : Keyboard → ℕ
count k = (k.kb_head + buffer_size - k.kb_tail) % buffer_size

-- The packets in the ring, oldest first.
abbrev pub contents : Keyboard → List ℕ
contents k = items k.buffer buffer_size k.kb_tail (count k)

pub keyboard_buffer_write-IsValid :
    {k : Keyboard} (x : ℕ) → IsValid k → IsValid (keyboard_buffer_write k x)
unfolding keyboard_buffer_write
keyboard_buffer_write-IsValid x v = ground arith

pub keyboard_read_key-IsValid : {k : Keyboard} → IsValid k → IsValid (keyboard_read_key k).1
unfolding keyboard_read_key
keyboard_read_key-IsValid v = ground arith

module _ {k : Keyboard} (v : IsValid k) where
  appended :
      (x : ℕ)
      → items (update k.buffer k.kb_head x) buffer_size k.kb_tail (suc (count k))
        ≡ contents k ++ (x ∷ [])
  appended x =
      ap (λ j. items (update k.buffer j x) buffer_size k.kb_tail (suc (count k))) place
      ∙ items-update k.buffer buffer_size k.kb_tail (count k) x v.tail_in (omega arith)
    where
      place : k.kb_head ≡ (k.kb_tail + count k) % buffer_size
      place = omega arith

  grown :
      (k.kb_head + 1) % buffer_size ≢ k.kb_tail
      → ((k.kb_head + 1) % buffer_size + buffer_size - k.kb_tail) % buffer_size ≡ suc (count k)
  grown ne = omega arith

  full : (k.kb_head + 1) % buffer_size ≡ k.kb_tail → count k ≡ 255
  full e = omega arith

  not_full : (k.kb_head + 1) % buffer_size ≢ k.kb_tail → count k < 255
  not_full e = omega arith

  none_left : k.kb_head ≡ k.kb_tail → contents k ≡ []
  none_left e =
      ap (items k.buffer buffer_size k.kb_tail) (omega arith)
      ∙ items-zero k.buffer buffer_size k.kb_tail

  rest : List ℕ
  rest =
      items k.buffer buffer_size ((k.kb_tail + 1) % buffer_size)
        ((k.kb_head + buffer_size - (k.kb_tail + 1) % buffer_size) % buffer_size)

  first_out : k.kb_head ≢ k.kb_tail → contents k ≡ k.buffer k.kb_tail ∷ rest
  unfolding rest
  first_out ne =
      ap (items k.buffer buffer_size k.kb_tail) less
      ∙ items-suc k.buffer buffer_size k.kb_tail _ v.tail_in
    where
      less : count k ≡ suc ((k.kb_head + buffer_size - (k.kb_tail + 1) % buffer_size) % buffer_size)
      less = omega arith

-- On a ring with both indices in range, keyboard_buffer_write appends the packet if fewer than
-- 255 are waiting, and otherwise drops it and leaves the waiting packets as they are.
pub write_refines :
    {k : Keyboard} (x : ℕ)
    → IsValid k
    → contents (keyboard_buffer_write k x) ≡ Queue.push (contents k) x
unfolding keyboard_buffer_write Queue.push
write_refines {k} x v = ground (
  arith,
  length-items k.buffer buffer_size k.kb_tail (count k),
  appended v x,
  grown v,
  full v,
  not_full v,
)

-- On a ring with both indices in range, keyboard_read_key returns the oldest packet and removes
-- it, or returns 0 and leaves the ring empty if none is waiting.
pub read_refines :
    {k : Keyboard}
    → IsValid k
    → let (x, k') = keyboard_read_key k in (x, contents k') ≡ Queue.pop (contents k)
unfolding keyboard_read_key Queue.pop rest
read_refines {k} v = ground (arith, none_left v, first_out v)

-- The values that the reads of a sequence of calls return.
unfoldable pub run : Keyboard → List Call → List ℕ
run k [] = []
run k (write x ∷ cs) = run (keyboard_buffer_write k x) cs
run k (read ∷ cs) = let (x, k') = keyboard_read_key k in x ∷ run k' cs

-- In any order of writes by the interrupt handler and reads by sys_read_key, a ring with both
-- indices in range returns to the reads what the bounded queue of its packets returns.
pub calls_refine :
    (cs : List Call) {k : Keyboard} → IsValid k → run k cs ≡ Queue.run (contents k) cs
unfolding run Queue.run
calls_refine [] v = refl
calls_refine (write x ∷ cs) v =
    rw (calls_refine cs (keyboard_buffer_write-IsValid x v), write_refines x v)
calls_refine (read ∷ cs) v = rw (calls_refine cs (keyboard_read_key-IsValid v), ← read_refines v)
