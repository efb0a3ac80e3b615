-- ===== src/Serial.antt =====
-- src/drivers/com1.c: printing on the serial port. The bytes sent are a list, in their order; the
-- wait for an empty transmitter in serial_write_char is left out.
pub mod Digits
pub mod Pieces
mod Tests
use open_idp_os.Base.{
  ℕ, zero, suc, ◌+◌, ◌-◌, ◌/◌, ◌%◌, ◌^◌, Option, none, some, ◌>>=◌, List, [], ◌∷◌, ◌++◌, ◌==◌, ltb,
  if◌then◌else◌, ℤ, pos, negsuc,
}

pub serial_write_char : (c : ℕ) → List ℕ → List ℕ
serial_write_char c sent = sent ++ c ∷ []

pub digit_char : (digit : ℕ) → ℕ
digit_char digit = if ltb digit 10 then 48 + digit else 97 + digit - 10

-- `while (value > 0)`, on fuel: the characters in the buffer, the last one first.
pub digits_loop : (fuel value base : ℕ) → (buffer : List ℕ) → Option (List ℕ)
unfolding digit_char
digits_loop zero value base buffer = none
digits_loop (suc fuel) value base buffer =
    let rest = digits_loop fuel (value / base) base (digit_char (value % base) ∷ buffer) in
    if value == 0 then some buffer else rest

-- `while (i--) serial_write_char(buffer[i]);`
pub reverse_output : (buffer sent : List ℕ) → List ℕ
unfolding serial_write_char
reverse_output [] sent = sent
reverse_output (c ∷ buffer) sent = reverse_output buffer (serial_write_char c sent)

pub serial_write_uint : (fuel value base : ℕ) → List ℕ → Option (List ℕ)
unfolding digits_loop reverse_output
serial_write_uint fuel value base sent =
    if value == 0
    then some (serial_write_char 48 sent)
    else (digits_loop fuel value base [] >>= λ buffer. some (reverse_output buffer sent))

pub serial_write_int : (fuel : ℕ) (value : ℤ) → List ℕ → Option (List ℕ)
unfolding serial_write_uint
serial_write_int fuel (pos n) sent = serial_write_uint fuel n 10 sent
serial_write_int fuel (negsuc n) sent =
    serial_write_uint fuel (suc n) 10 (serial_write_char 45 sent)

-- The string without its NUL.
pub serial_write_string : List ℕ → List ℕ → List ℕ
unfolding serial_write_char
serial_write_string [] sent = sent
serial_write_string (c ∷ str) sent =
    serial_write_string str
      (serial_write_char c (if c == 10 then serial_write_char 13 sent else sent))

-- The variadic arguments: a string or NULL, and an int or unsigned as its 32-bit pattern.
pub data Arg : Type 0 where
  string : Option (List ℕ) → Arg
  number : ℕ → Arg

-- The 32-bit pattern as an int.
pub to_int : ℕ → ℤ
to_int v = if ltb v (2 ^ 31) then pos v else negsuc (2 ^ 32 - v - 1)

-- `s ? s : "(null)"`
pub or_null : Option (List ℕ) → List ℕ
or_null none = 40 ∷ 110 ∷ 117 ∷ 108 ∷ 108 ∷ 41 ∷ []
or_null (some s) = s

-- One conversion: what is sent, and the arguments left. `none` stands for a missing argument or
-- one of another type, which C leaves undefined.
pub convert : (c : ℕ) → List Arg → List ℕ → Option (List ℕ × List Arg)
unfolding serial_write_string serial_write_int serial_write_uint to_int or_null
convert c args sent =
    if c == 115
    then elim args [
      | string s ∷ rest ↦ some (serial_write_string (or_null s) sent, rest)
      | _ ↦ none
    ]
    else if c == 99
    then elim args [ number v ∷ rest ↦ some (serial_write_char (v % 2 ^ 8) sent, rest) | _ ↦ none ]
    else if c == 100
    then elim args [
      | number v ∷ rest ↦ (serial_write_int 65 (to_int v) sent >>= λ out. some (out, rest))
      | _ ↦ none
    ]
    else if c == 117
    then elim args [
      | number v ∷ rest ↦ (serial_write_uint 65 v 10 sent >>= λ out. some (out, rest))
      | _ ↦ none
    ]
    else if c == 120
    then elim args [
      | number v ∷ rest ↦ (serial_write_uint 65 v 16 sent >>= λ out. some (out, rest))
      | _ ↦ none
    ]
    else if c == 37
    then some (serial_write_char 37 sent, args)
    else some (serial_write_string (91 ∷ 63 ∷ 93 ∷ []) sent, args)

-- The format without its NUL. A `%` at its end makes the loop read behind the NUL: `none`.
pub serial_printf : (fmt : List ℕ) → List Arg → List ℕ → Option (List ℕ)
unfolding convert
serial_printf [] args sent = some sent
serial_printf (c ∷ []) args sent = if c == 37 then none else some (serial_write_char c sent)
serial_printf (c ∷ d ∷ fmt) args sent =
    if c == 37
    then (convert d args sent >>= λ r. serial_printf fmt r.1 r.0)
    else serial_printf (d ∷ fmt) args (serial_write_char c sent)
