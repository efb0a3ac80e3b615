-- ===== src/Keyboard/Packets.antt =====
-- The packets that keyboard_handler stores.
use open_idp_os.Base.{
  ℕ, ◌↔◌, ap, ◌∙◌, ◌+◌, ◌≤◌, ◌<◌, ◌≡◌, ◌≢◌, refl, Bool, true, false, not, ◌&&◌, ◌||◌, Bool-cases,
  inl, inr, List, [], ◌∷◌, ◌++◌, arith, ◌==◌, if◌then◌else◌, ltb, length, ==_iff,
}
use open_idp_os.Base.Ring.{items-zero}
use open_idp_os.Base.Finite.{passes_below, passes_below_lem}
use open_idp_os.Keyboard.{
  Keyboard, initial, buffer_size, plain_char, shifted_char, widen_char, pack, keyboard_buffer_write,
  regular_key, keyboard_handler, keyboard_read_key,
}
use open_idp_os.Keyboard.Queue
use open_idp_os.Keyboard.Refine.{
  IsValid, keyboard_buffer_write-IsValid, keyboard_read_key-IsValid, contents, write_refines,
  read_refines,
}

abbrev flag : Bool → ℕ → ℕ
flag b n = if b then n else 0

abbrev packet_sum : Bool → Bool → Bool → Bool → ℕ → ℕ
packet_sum s c a u x =
    if ltb x 128 then x + flag s 0x100 + flag c 0x200 + flag a 0x400 + flag u 0x800 else 0xFF00 + x

pack_ok : Bool → Bool → Bool → Bool → Bool
pack_ok s c a u = passes_below 256 (λ x. pack s c a u x == packet_sum s c a u x)

pack_table : (s c a u : Bool) → pack_ok s c a u ≡ true
unfolding pack_ok pack widen_char passes_below
pack_table true true true true = refl
pack_table true true true false = refl
pack_table true true false true = refl
pack_table true true false false = refl
pack_table true false true true = refl
pack_table true false true false = refl
pack_table true false false true = refl
pack_table true false false false = refl
pack_table false true true true = refl
pack_table false true true false = refl
pack_table false true false true = refl
pack_table false true false false = refl
pack_table false false true true = refl
pack_table false false true false = refl
pack_table false false false true = refl
pack_table false false false false = refl

pack_ok-table :
    (s c a u : Bool) → passes_below 256 (λ x. pack s c a u x == packet_sum s c a u x) ≡ true
unfolding pack_ok
pack_ok-table s c a u = pack_table s c a u

small_test : (x : ℕ) → x < 128 → ltb x 128 ≡ true
small_test x h = ground arith

large_test : (x : ℕ) → 128 ≤ x → ltb x 128 ≡ false
large_test x h = ground arith

-- Packing a character below 128 puts the shift, ctrl, alt and super flags in the bits 8 to 11 above
-- it and keeps the character in the low byte. A byte from 128 on is a negative char: its sign sets
-- all the bits above it, whatever the flags are.
pub pack-sum :
    (s c a u : Bool) (x : ℕ)
    → (x < 128 → pack s c a u x ≡ x + flag s 0x100 + flag c 0x200 + flag a 0x400 + flag u 0x800)
      × (128 ≤ x → x < 256 → pack s c a u x ≡ 0xFF00 + x)
pack-sum s c a u x = (
  λ h. table (omega arith) ∙ rw (small_test x h) refl,
  λ le h. table h ∙ rw (large_test x le) refl,
)
  where
    table : x < 256 → pack s c a u x ≡ packet_sum s c a u x
    table h = (==_iff _ _).0 (passes_below_lem 256 _ x (pack_ok-table s c a u) h)

char_ok : ℕ → Bool
char_ok x =
    ltb (plain_char x) 128
    && ltb (shifted_char x) 128
    && ((plain_char x == 0) || not (shifted_char x == 0))

char_table : passes_below 128 char_ok ≡ true
unfolding passes_below char_ok plain_char shifted_char
char_table = refl

abbrev char_of : Bool → ℕ → ℕ
char_of shift c = if shift then shifted_char c else plain_char c

char_of_lem :
    (shift : Bool) (c : ℕ)
    → c < 128
    → (plain_char c == 0) ≡ false
    → (char_of shift c < 128) × (char_of shift c ≢ 0)
unfolding char_ok
char_of_lem true c h e = ground (arith, passes_below_lem 128 char_ok c char_table h)
char_of_lem false c h e = ground (arith, passes_below_lem 128 char_ok c char_table h)

abbrev Nonzero : List ℕ → Type 0
Nonzero [] = Unit {0}
Nonzero (x ∷ xs) = (x ≢ 0) × Nonzero xs

Nonzero-append : (xs : List ℕ) (x : ℕ) → Nonzero xs → x ≢ 0 → Nonzero (xs ++ (x ∷ []))
Nonzero-append [] x a ne = (ne, tt)
Nonzero-append (y ∷ xs) x a ne = (a.0, Nonzero-append xs x a.1 ne)

push-Nonzero : (q : List ℕ) (x : ℕ) → Nonzero q → x ≢ 0 → Nonzero (Queue.push q x)
unfolding Queue.push
push-Nonzero q x a ne = elim (Bool-cases (ltb (length q) 255)) [
  | inl e ↦ rw e (Nonzero-append q x a ne)
  | inr e ↦ rw e a
]

pub packet : Keyboard → ℕ → ℕ
packet k c = pack k.mod_shift k.mod_ctrl k.mod_alt k.mod_super (char_of k.mod_shift c)

packet-ne-zero : (k : Keyboard) (c : ℕ) → c < 128 → (plain_char c == 0) ≡ false → packet k c ≢ 0
unfolding packet
packet-ne-zero k c h e = ground (
  arith,
  char_of_lem k.mod_shift c h e,
  (pack-sum k.mod_shift k.mod_ctrl k.mod_alt k.mod_super (char_of k.mod_shift c)).0
      (char_of_lem k.mod_shift c h e).0,
)

write-Nonzero :
    {k : Keyboard} (x : ℕ)
    → IsValid k
    → Nonzero (contents k)
    → x ≢ 0
    → Nonzero (contents (keyboard_buffer_write k x))
write-Nonzero {k} x v a ne = rw (write_refines x v) (push-Nonzero (contents k) x a ne)

-- Whether a scancode that is no modifier makes a packet.
abbrev makes_packet : Keyboard → ℕ → Bool
makes_packet k c = not k.e0_prefix && ltb c 128 && not (plain_char c == 0)

-- A scancode that is no modifier: the packet is queued exactly when it is a press without prefix
-- of a key that has a character.
pub regular_key-contents :
    (k : Keyboard) (c : ℕ)
    → c < 256
    → contents (regular_key k c)
      ≡ (if makes_packet k c then contents (keyboard_buffer_write k (packet k c)) else contents k)
unfolding regular_key packet
regular_key-contents k c h = ground arith

regular_key-Nonzero :
    {k : Keyboard} (c : ℕ)
    → c < 256
    → IsValid k
    → Nonzero (contents k)
    → Nonzero (contents (regular_key k c))
regular_key-Nonzero {k} c h v a = elim (Bool-cases (makes_packet k c)) [
  | inl e ↦
      rw (regular_key-contents k c h, e)
        (write-Nonzero (packet k c) v a (packet-ne-zero k c (ground arith) (ground arith)))
  | inr e ↦ rw (regular_key-contents k c h, e) a
]

-- keyboard_handler never queues a zero packet.
pub keyboard_handler-Nonzero :
    (status c : ℕ) {k : Keyboard}
    → c < 256
    → IsValid k
    → Nonzero (contents k)
    → Nonzero (contents (keyboard_handler status c k))
unfolding keyboard_handler
keyboard_handler-Nonzero status c {k} h v a = ground (arith, regular_key-Nonzero c h v a)

keyboard_handler-IsValid :
    (status c : ℕ) {k : Keyboard} → IsValid k → IsValid (keyboard_handler status c k)
unfolding keyboard_handler regular_key
keyboard_handler-IsValid status c {k} v = ground (
  arith,
  keyboard_buffer_write-IsValid (pack k.mod_shift k.mod_ctrl k.mod_alt k.mod_super (shifted_char c))
      v,
  keyboard_buffer_write-IsValid (pack k.mod_shift k.mod_ctrl k.mod_alt k.mod_super (plain_char c))
      v,
)

pop-Nonzero : (q : List ℕ) → Nonzero q → Nonzero (Queue.pop q).1
unfolding Queue.pop
pop-Nonzero [] a = tt
pop-Nonzero (x ∷ q) a = a.1

read-Nonzero :
    {k : Keyboard} → IsValid k → Nonzero (contents k) → Nonzero (contents (keyboard_read_key k).1)
read-Nonzero {k} v a =
    rw (ap (λ (p : ℕ × List ℕ). p.1) (read_refines v)) (pop-Nonzero (contents k) a)

-- What happens to the driver: an interrupt, with the bytes that its two port reads return, or a
-- read by the system call.
pub data Event : Type 0 where
  interrupt : (status scancode : ℕ) → scancode < 256 → Event
  read_key : Event

unfoldable pub run_events : List Event → Keyboard → Keyboard
run_events [] k = k
run_events (interrupt s c h ∷ es) k = run_events es (keyboard_handler s c k)
run_events (read_key ∷ es) k = run_events es (keyboard_read_key k).1

record Sound (k : Keyboard) : Type 0 where
  valid : IsValid k
  nonzero : Nonzero (contents k)

run_events-Sound : (es : List Event) {k : Keyboard} → Sound k → Sound (run_events es k)
unfolding run_events
run_events-Sound [] s = s
run_events-Sound (interrupt st c h ∷ es) s = run_events-Sound es (record {
  valid = keyboard_handler-IsValid st c s.valid;
  nonzero = keyboard_handler-Nonzero st c h s.valid s.nonzero;
})
run_events-Sound (read_key ∷ es) s =
    run_events-Sound es (record {
      valid = keyboard_read_key-IsValid s.valid;
      nonzero = read-Nonzero s.valid s.nonzero;
    })

initial-Sound : Sound initial
initial-Sound = record {
  valid = omega arith;
  nonzero = rw (items-zero {A = ℕ} (λ _. 0) buffer_size 0) tt;
}

pop-zero : (q : List ℕ) → Nonzero q → ((Queue.pop q).0 ≡ 0) ↔ (q ≡ [])
unfolding Queue.pop
pop-zero [] a = (λ _. refl, λ _. refl)
pop-zero (x ∷ q) a = (λ e. absurd (a.0 e), λ e. cc)

-- After any sequence of interrupts and reads from the initial state, keyboard_read_key returns 0
-- exactly when no packet is waiting.
pub read_key-zero :
    (es : List Event)
    → let k = run_events es initial in ((keyboard_read_key k).0 ≡ 0) ↔ (contents k ≡ [])
read_key-zero es =
    let s = run_events-Sound es initial-Sound in
    rw (ap (λ (p : ℕ × List ℕ). p.0) (read_refines s.valid))
      (pop-zero (contents (run_events es initial)) s.nonzero)
