-- ===== src/Keyboard/Queue.antt =====
-- What the ring promises: a first-in first-out queue of at most 255 packets that drops a packet
-- when it is full, and the calls made on it by the interrupt handler and the readers.
use open_idp_os.Base.{ℕ, ◌++◌, List, [], ◌∷◌, ltb, if◌then◌else◌, length}

pub data Call : Type 0 where
  write : ℕ → Call
  read : Call

unfoldable pub push : List ℕ → ℕ → List ℕ
push q x = if ltb (length q) 255 then q ++ (x ∷ []) else q

unfoldable pub pop : List ℕ → ℕ × List ℕ
pop [] = (0, [])
pop (x ∷ q) = (x, q)

-- The values that the reads of a sequence of calls return.
unfoldable pub run : List ℕ → List Call → List ℕ
run q [] = []
run q (write x ∷ cs) = run (push q x) cs
run q (read ∷ cs) = let (x, q') = pop q in x ∷ run q' cs
