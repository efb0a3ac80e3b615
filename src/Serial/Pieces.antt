-- ===== src/Serial/Pieces.antt =====
-- serial_printf sends what each piece of its format stands for.
use mathlib.Core.Path.{subst}
use open_idp_os.Base.{
  ℕ, suc, ◌-◌, ◌%◌, ◌^◌, ◌≤◌, ◌<◌, ◌≡◌, ◌∙◌, sym, refl, ap, Bool, true, false, ◌||◌, arith, Option,
  none, some, ◌>>=◌, List, [], ◌∷◌, ◌++◌, append_assoc, append-nil, ◌==◌, ltb, if◌then◌else◌,
  Bool-cases, inl, inr, pos, negsuc,
}
use open_idp_os.Serial.{
  Arg, string, number, serial_write_char, serial_write_uint, serial_write_int, serial_write_string,
  to_int, or_null, convert, serial_printf,
}
use open_idp_os.Serial.Digits.{Numeral, serial_write_uint_lem}

-- The characters behind a `%` that stand for a conversion: s, c, d, u, x and %.
abbrev pub known : ℕ → Bool
known c = c == 115 || (c == 99 || (c == 100 || (c == 117 || (c == 120 || c == 37))))

-- A piece of a format: a character that is no `%`, or a `%` with the character behind it. Numbers are
-- 32-bit patterns.
pub data Piece : Type 0 where
  literal : (c : ℕ) → (c == 37) ≡ false → Piece
  percent : Piece
  unknown : (c : ℕ) → known c ≡ false → Piece
  text : Option (List ℕ) → Piece
  char : ℕ → Piece
  decimal : (v : ℕ) → v < 2 ^ 32 → Piece
  unsigned : (v : ℕ) → v < 2 ^ 32 → Piece
  hex : (v : ℕ) → v < 2 ^ 32 → Piece

abbrev pub format : Piece → List ℕ → List ℕ
format (literal c p) fmt = c ∷ fmt
format percent fmt = 37 ∷ 37 ∷ fmt
format (unknown c p) fmt = 37 ∷ c ∷ fmt
format (text s) fmt = 37 ∷ 115 ∷ fmt
format (char v) fmt = 37 ∷ 99 ∷ fmt
format (decimal v h) fmt = 37 ∷ 100 ∷ fmt
format (unsigned v h) fmt = 37 ∷ 117 ∷ fmt
format (hex v h) fmt = 37 ∷ 120 ∷ fmt

abbrev pub argument : Piece → List Arg → List Arg
argument (literal c p) args = args
argument percent args = args
argument (unknown c p) args = args
argument (text s) args = string s ∷ args
argument (char v) args = number v ∷ args
argument (decimal v h) args = number v ∷ args
argument (unsigned v h) args = number v ∷ args
argument (hex v h) args = number v ∷ args

-- A string with a carriage return before each line feed.
abbrev pub with_returns : List ℕ → List ℕ
with_returns [] = []
with_returns (c ∷ str) = if c == 10 then 13 ∷ 10 ∷ with_returns str else c ∷ with_returns str

-- What the bytes of a piece are.
abbrev pub Prints : Piece → List ℕ → Type 0
Prints (literal c p) out = out ≡ c ∷ []
Prints percent out = out ≡ 37 ∷ []
Prints (unknown c p) out = out ≡ b'[' ∷ b'?' ∷ b']' ∷ []
Prints (text none) out = out ≡ b'(' ∷ b'n' ∷ b'u' ∷ b'l' ∷ b'l' ∷ b')' ∷ []
Prints (text (some str)) out = out ≡ with_returns str
Prints (char v) out = out ≡ v % 256 ∷ []
Prints (decimal v h) out =
    (v < 2 ^ 31 → Numeral 10 v out)
    × (2 ^ 31 ≤ v → (ds : List ℕ) × (out ≡ b'-' ∷ ds) × Numeral 10 (2 ^ 32 - v) ds)
Prints (unsigned v h) out = Numeral 10 v out
Prints (hex v h) out = Numeral 16 v out

abbrev pub PrintsAll : List Piece → List ℕ → Type 0
PrintsAll [] out = out ≡ []
PrintsAll (p ∷ ps) out =
    (first : List ℕ) × (others : List ℕ) × (out ≡ first ++ others)
    × Prints p first
    × PrintsAll ps others

abbrev pub format_of : List Piece → List ℕ
format_of [] = []
format_of (p ∷ ps) = format p (format_of ps)

abbrev pub arguments_of : List Piece → List Arg
arguments_of [] = []
arguments_of (p ∷ ps) = argument p (arguments_of ps)

string-returns : (str sent : List ℕ) → serial_write_string str sent ≡ sent ++ with_returns str
unfolding serial_write_string serial_write_char
string-returns [] sent = sym (append-nil sent)
string-returns (c ∷ str) sent = elim (Bool-cases (c == 10)) [
  | inl e ↦
      let at : c ≡ 10 = ground arith in
      rw e (
        string-returns str ((sent ++ 13 ∷ []) ++ c ∷ [])
        ∙ append_assoc (sent ++ 13 ∷ []) (c ∷ []) (with_returns str)
        ∙ append_assoc sent (13 ∷ []) (c ∷ with_returns str)
        ∙ ap (λ d. sent ++ 13 ∷ d ∷ with_returns str) at)
  | inr e ↦
      rw e (string-returns str (sent ++ c ∷ []) ∙ append_assoc sent (c ∷ []) (with_returns str))
]

abbrev with_rest : List Arg → List ℕ → Option (List ℕ × List Arg)
with_rest args out = some (out, args)

to_int-low : (v : ℕ) → ltb v (2 ^ 31) ≡ true → to_int v ≡ pos v
unfolding to_int
to_int-low v e = rw e refl

to_int-high : (v : ℕ) → ltb v (2 ^ 31) ≡ false → to_int v ≡ negsuc (2 ^ 32 - v - 1)
unfolding to_int
to_int-high v e = rw e refl

int-pos :
    (fuel n : ℕ) (sent : List ℕ)
    → serial_write_int fuel (pos n) sent ≡ serial_write_uint fuel n 10 sent
unfolding serial_write_int
int-pos fuel n sent = refl

int-negsuc :
    (fuel n : ℕ) (sent : List ℕ)
    → serial_write_int fuel (negsuc n) sent ≡ serial_write_uint fuel (suc n) 10 (sent ++ 45 ∷ [])
unfolding serial_write_int serial_write_char
int-negsuc fuel n sent = refl

decimal-Prints :
    (v : ℕ) (h : v < 2 ^ 32) (sent : List ℕ)
    → (out : List ℕ) × (serial_write_int 65 (to_int v) sent ≡ some (sent ++ out))
      × Prints (decimal v h) out
decimal-Prints v h sent = elim (Bool-cases (ltb v (2 ^ 31))) [
  | inl low ↦
      let (ds, eq, numeral, _) = serial_write_uint_lem 10 v sent (inl refl) (omega arith) in
      (
        ds,
        ap (λ i. serial_write_int 65 i sent) (to_int-low v low) ∙ int-pos 65 v sent ∙ eq,
        (λ lt. numeral, λ le. absurd (ground arith)),
      )
  | inr high ↦
      let n = 2 ^ 32 - v - 1 in
      let (ds, eq, numeral, _) =
        serial_write_uint_lem 10 (suc n) (sent ++ 45 ∷ []) (inl refl) (omega arith) in
      (
        45 ∷ ds,
        ap (λ i. serial_write_int 65 i sent) (to_int-high v high)
            ∙ int-negsuc 65 n sent
            ∙ eq
            ∙ ap some (append_assoc sent (45 ∷ []) ds),
        (
          λ lt. absurd (ground arith),
          λ le. (ds, refl, subst (λ m. Numeral 10 m ds) (omega arith) numeral),
        ),
      )
]

unknown-convert :
    (c : ℕ) (args : List Arg) (sent : List ℕ)
    → known c ≡ false
    → convert c args sent ≡ some (serial_write_string (b'[' ∷ b'?' ∷ b']' ∷ []) sent, args)
unfolding convert
unknown-convert c args sent p =
    let s : (c == 115) ≡ false = ground arith in
    let h : (c == 99) ≡ false = ground arith in
    let d : (c == 100) ≡ false = ground arith in
    let u : (c == 117) ≡ false = ground arith in
    let x : (c == 120) ≡ false = ground arith in
    let q : (c == 37) ≡ false = ground arith in rw (s, h, d, u, x, q) refl

printf-literal :
    (c : ℕ) (fmt : List ℕ) (args : List Arg) (sent : List ℕ)
    → (c == 37) ≡ false
    → serial_printf (c ∷ fmt) args sent ≡ serial_printf fmt args (sent ++ c ∷ [])
unfolding serial_printf serial_write_char
printf-literal c [] args sent p = rw p refl
printf-literal c (d ∷ fmt) args sent p = rw p refl

printf-convert :
    (c : ℕ) (fmt : List ℕ) (args rest : List Arg) (sent out : List ℕ)
    → convert c args sent ≡ some (out, rest)
    → serial_printf (37 ∷ c ∷ fmt) args sent ≡ serial_printf fmt rest out
unfolding serial_printf
printf-convert c fmt args rest sent out e =
    ap (λ (o : Option (List ℕ × List Arg)). o >>= λ r. serial_printf fmt r.1 r.0) e

-- A piece with the format and the arguments behind it.
printf-Prints :
    (p : Piece) (fmt : List ℕ) (args : List Arg) (sent : List ℕ)
    → (out : List ℕ) × (serial_printf (format p fmt) (argument p args) sent
        ≡ serial_printf fmt args (sent ++ out))
      × Prints p out
printf-Prints (literal c p) fmt args sent = (c ∷ [], printf-literal c fmt args sent p, refl)
printf-Prints percent fmt args sent = (
  37 ∷ [],
  printf-convert 37 fmt args args sent (sent ++ 37 ∷ []) (unfold convert serial_write_char in refl),
  refl,
)
printf-Prints (unknown c p) fmt args sent = (
  b'[' ∷ b'?' ∷ b']' ∷ [],
  printf-convert c fmt args args sent (sent ++ b'[' ∷ b'?' ∷ b']' ∷ []) (
      unknown-convert c args sent p
      ∙ ap (with_rest args) (string-returns (b'[' ∷ b'?' ∷ b']' ∷ []) sent)),
  refl,
)
printf-Prints (text none) fmt args sent = (
  b'(' ∷ b'n' ∷ b'u' ∷ b'l' ∷ b'l' ∷ b')' ∷ [],
  printf-convert 115 fmt (string none ∷ args) args sent
      (sent ++ b'(' ∷ b'n' ∷ b'u' ∷ b'l' ∷ b'l' ∷ b')' ∷ [])
      (unfold convert or_null in
        ap (with_rest args) (string-returns (b'(' ∷ b'n' ∷ b'u' ∷ b'l' ∷ b'l' ∷ b')' ∷ []) sent)),
  refl,
)
printf-Prints (text (some str)) fmt args sent = (
  with_returns str,
  printf-convert 115 fmt (string (some str) ∷ args) args sent (sent ++ with_returns str)
      (unfold convert or_null in ap (with_rest args) (string-returns str sent)),
  refl,
)
printf-Prints (char v) fmt args sent = (
  v % 256 ∷ [],
  printf-convert 99 fmt (number v ∷ args) args sent (sent ++ v % 256 ∷ [])
      (unfold convert serial_write_char in refl),
  refl,
)
printf-Prints (decimal v h) fmt args sent =
    let (out, eq, prints) = decimal-Prints v h sent in
    (
      out,
      printf-convert 100 fmt (number v ∷ args) args sent (sent ++ out)
          (unfold convert in ap (λ (o : Option (List ℕ)). o >>= with_rest args) eq),
      prints,
    )
printf-Prints (unsigned v h) fmt args sent =
    let (out, eq, numeral, _) = serial_write_uint_lem 10 v sent (inl refl) (omega arith) in
    (
      out,
      printf-convert 117 fmt (number v ∷ args) args sent (sent ++ out)
          (unfold convert in ap (λ (o : Option (List ℕ)). o >>= with_rest args) eq),
      numeral,
    )
printf-Prints (hex v h) fmt args sent =
    let (out, eq, numeral, _) = serial_write_uint_lem 16 v sent (inr refl) (omega arith) in
    (
      out,
      printf-convert 120 fmt (number v ∷ args) args sent (sent ++ out)
          (unfold convert in ap (λ (o : Option (List ℕ)). o >>= with_rest args) eq),
      numeral,
    )

-- On the format of a sequence of pieces and with their arguments in order, serial_printf ends and sends
-- the bytes of each piece in turn: a character as it is, a string with a carriage return before each
-- line feed and "(null)" for NULL, the low byte for %c, the decimal numeral of the pattern as a signed
-- number for %d, with a minus, the decimal and the hexadecimal numeral for %u and %x, a % for %%, and
-- "[?]" for a % with another character behind it, which takes no argument.
pub serial_printf_lem :
    (ps : List Piece) (sent : List ℕ)
    → (out : List ℕ) × (serial_printf (format_of ps) (arguments_of ps) sent ≡ some (sent ++ out))
      × PrintsAll ps out
serial_printf_lem [] sent = ([], unfold serial_printf in ap some (sym (append-nil sent)), refl)
serial_printf_lem (p ∷ ps) sent =
    let (first, eq, prints) = printf-Prints p (format_of ps) (arguments_of ps) sent in
    let (others, eq', all) = serial_printf_lem ps (sent ++ first) in
    (
      first ++ others,
      eq ∙ eq' ∙ ap some (append_assoc sent first others),
      (first, others, refl, prints, all),
    )
