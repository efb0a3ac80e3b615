-- ===== src/Serial/Digits.antt =====
-- The digits of a number.
use mathlib.Core.Path.{subst}
use open_idp_os.Base.{
  ℕ, zero, suc, ◌+◌, ◌-◌, ◌*◌, ◌/◌, ◌%◌, ◌^◌, ◌≤◌, ◌<◌, ◌≡◌, ◌≢◌, ◌⊎◌, ◌∙◌, sym, refl, ap, true,
  false, some, List, [], ◌∷◌, ◌++◌, ◌==◌, ltb, if◌then◌else◌, arith, length, Bool-cases, inl, inr,
  append_assoc, append-nil,
}
use open_idp_os.Serial.{
  digit_char, digits_loop, serial_write_char, reverse_output, serial_write_uint,
}

-- Reading digits, the highest one first.
abbrev pub digit_value : (c : ℕ) → ℕ
digit_value c = if ltb c 58 then c - 48 else c - 87

abbrev pub value_of : (base acc : ℕ) → List ℕ → ℕ
value_of base acc [] = acc
value_of base acc (c ∷ cs) = value_of base (acc * base + digit_value c) cs

value_of-append :
    (base acc c : ℕ) (cs : List ℕ)
    → value_of base acc (cs ++ c ∷ []) ≡ value_of base acc cs * base + digit_value c
value_of-append base acc c [] = refl
value_of-append base acc c (d ∷ cs) = value_of-append base (acc * base + digit_value d) c cs

digit_value-digit_char : (d : ℕ) → d < 36 → digit_value (digit_char d) ≡ d
unfolding digit_char
digit_value-digit_char d lt = ground arith

pub reverse_output_lem : (buffer sent : List ℕ) → reverse_output buffer sent ≡ sent ++ buffer
unfolding reverse_output serial_write_char
reverse_output_lem [] sent = sym (append-nil sent)
reverse_output_lem (c ∷ buffer) sent =
    reverse_output_lem buffer (sent ++ c ∷ []) ∙ append_assoc sent (c ∷ []) buffer

-- What division by the base does, for a base between 2 and 36.
abbrev Divides : (base : ℕ) → Type 0
Divides base = (v : ℕ) → (v ≡ v / base * base + v % base) × (v % base < 36) × (v / base * 2 ≤ v)

Divides-10 : Divides 10
Divides-10 v = (omega arith, omega arith, omega arith)

Divides-16 : Divides 16
Divides-16 v = (omega arith, omega arith, omega arith)

-- A digit of the base: 0 to 9, and a to f in base 16.
abbrev pub IsDigit : (base c : ℕ) → Type 0
IsDigit base c = ((48 ≤ c) × (c ≤ 57)) ⊎ ((base ≡ 16) × (97 ≤ c) × (c ≤ 102))

abbrev pub AllDigits : (base : ℕ) → List ℕ → Type 0
AllDigits base [] = Unit {0}
AllDigits base (c ∷ cs) = IsDigit base c × AllDigits base cs

-- The first character is there and is no 0.
abbrev pub Leads : List ℕ → Type 0
Leads [] = ⊥
Leads (c ∷ cs) = c ≢ 48

-- The numeral of a number: digits that read as it, at least one, and no 0 in front of others.
pub record Numeral (base value : ℕ) (ds : List ℕ) : Type 0 where
  pub digits : AllDigits base ds
  pub reads : value_of base 0 ds ≡ value
  pub shortest : (ds ≡ 48 ∷ []) ⊎ Leads ds

AllDigits-snoc :
    (base c : ℕ) (ds : List ℕ) → AllDigits base ds → IsDigit base c → AllDigits base (ds ++ c ∷ [])
AllDigits-snoc base c [] all is = (is, tt)
AllDigits-snoc base c (d ∷ ds) all is = (all.0, AllDigits-snoc base c ds all.1 is)

abbrev pub IsBase : ℕ → Type 0
IsBase base = (base ≡ 10) ⊎ (base ≡ 16)

digit_char-IsDigit : (base d : ℕ) → IsBase base → d < base → IsDigit base (digit_char d)
unfolding digit_char
digit_char-IsDigit base d is lt = elim (Bool-cases (ltb d 10)) [
  | inl low ↦ rw low (inl (omega arith, ground arith))
  | inr high ↦ rw high (inr (go is high))
]
  where
    go : IsBase base → ltb d 10 ≡ false → (base ≡ 16) × (97 ≤ 97 + d - 10) × (97 + d - 10 ≤ 102)
    go (inl ten) high = absurd (ground arith)
    go (inr sixteen) high = (sixteen, ground arith, omega arith)

digit_char-ne-zero : (d : ℕ) → 0 < d → digit_char d ≢ 48
unfolding digit_char
digit_char-ne-zero d lt = ground arith

-- What the loop pushes for a value: the numeral of it, or nothing for 0.
record Pushed (base value : ℕ) (ds : List ℕ) : Type 0 where
  digits : AllDigits base ds
  reads : value_of base 0 ds ≡ value
  shortest : (ds ≡ []) ⊎ Leads ds

Leads-snoc :
    (c : ℕ) (ds : List ℕ) → (ds ≡ []) ⊎ Leads ds → (ds ≡ [] → c ≢ 48) → Leads (ds ++ c ∷ [])
Leads-snoc c [] first ne = ne refl
Leads-snoc c (d ∷ ds) (inl e) ne = absurd (cc)
Leads-snoc c (d ∷ ds) (inr lead) ne = lead

digits_loop_lem :
    (base : ℕ)
    → IsBase base
    → Divides base
    → (fuel value : ℕ) (buffer : List ℕ) → value < 2 ^ fuel
    → (ds : List ℕ) × (digits_loop (suc fuel) value base buffer ≡ some (ds ++ buffer))
      × Pushed base value ds
unfolding digits_loop
digits_loop_lem base is div zero value buffer lt =
    ([], ground arith, record { digits = tt; reads = omega arith; shortest = inl refl })
digits_loop_lem base is div (suc fuel) value buffer lt = elim (Bool-cases (value == 0)) [
  | inl z ↦ ([], rw z refl, record { digits = tt; reads = ground arith; shortest = inl refl })
  | inr nz ↦
      let (e, small, half) = div value in
      let c = digit_char (value % base) in
      let (ds, found, pushed) =
        digits_loop_lem base is div fuel (value / base) (c ∷ buffer) (omega arith) in
      (
        ds ++ c ∷ [],
        rw nz (found ∙ ap some (sym (append_assoc ds (c ∷ []) buffer))),
        record {
          digits =
              AllDigits-snoc base c ds pushed.digits
                (digit_char-IsDigit base (value % base) is (mod_below base value is));
          reads =
              value_of-append base 0 c ds
              ∙ ap (λ n. n * base + digit_value c) pushed.reads
              ∙ ap (λ n. value / base * base + n) (digit_value-digit_char (value % base) small)
              ∙ sym e;
          shortest = inr (
              Leads-snoc c ds pushed.shortest (λ none_before. digit_char-ne-zero (value % base) (
                only_digit base value is nz
                  (sym pushed.reads ∙ ap (value_of base 0) none_before))));
        },
      )
]
  where
    mod_below : (base value : ℕ) → IsBase base → value % base < base
    mod_below base value (inl e) = subst (λ b. value % b < b) (sym e) (omega arith)
    mod_below base value (inr e) = subst (λ b. value % b < b) (sym e) (omega arith)

    only_digit :
        (base value : ℕ) → IsBase base → (value == 0) ≡ false → value / base ≡ 0 → 0 < value % base
    only_digit base value (inl e) nz =
        subst (λ b. value / b ≡ 0 → 0 < value % b) (sym e) (λ z. ground arith)
    only_digit base value (inr e) nz =
        subst (λ b. value / b ≡ 0 → 0 < value % b) (sym e) (λ z. ground arith)

digits_loop-length :
    (base : ℕ)
    → ((v : ℕ) → v / base * 10 ≤ v)
    → (fuel k value : ℕ) (buffer out : List ℕ) → value < 10 ^ k
    → digits_loop fuel value base buffer ≡ some out
    → length out ≤ k + length buffer
unfolding digits_loop
digits_loop-length base ten zero k value buffer out lt e = absurd (ground arith)
digits_loop-length base ten (suc fuel) zero value buffer out lt e = ground arith
digits_loop-length base ten (suc fuel) (suc k) value buffer out lt e =
    elim (Bool-cases (value == 0)) [
      | inl z ↦ ground arith
      | inr nz ↦
          let c = digit_char (value % base) in
          omega (
            arith,
            digits_loop-length base ten fuel k (value / base) (c ∷ buffer) out
                (omega (arith, ten value)) (ground (arith, e)),
          )
    ]

uint-zero :
    (fuel value base : ℕ) (sent : List ℕ)
    → (value == 0) ≡ true
    → serial_write_uint fuel value base sent ≡ some (sent ++ 48 ∷ [])
unfolding serial_write_uint serial_write_char
uint-zero fuel value base sent z = rw z refl

uint-digits :
    (fuel value base : ℕ) (buffer sent : List ℕ)
    → (value == 0) ≡ false
    → digits_loop fuel value base [] ≡ some buffer
    → serial_write_uint fuel value base sent ≡ some (sent ++ buffer)
unfolding serial_write_uint
uint-digits fuel value base buffer sent nz found =
    rw (nz, found) (ap some (reverse_output_lem buffer sent))

Pushed-Numeral :
    (base value : ℕ) (ds : List ℕ)
    → (value == 0) ≡ false
    → Pushed base value ds
    → Numeral base value ds
Pushed-Numeral base value ds nz pushed = record {
  digits = pushed.digits;
  reads = pushed.reads;
  shortest = inr (go pushed.shortest);
}
  where
    go : (ds ≡ []) ⊎ Leads ds → Leads ds
    go (inl e) =
        let z : value ≡ 0 = sym pushed.reads ∙ ap (value_of base 0) e in absurd (ground arith)
    go (inr lead) = lead

-- In base 10 or 16 and for a 64-bit value, serial_write_uint ends and sends the numeral of the value:
-- digits of the base, lower case, that read as the value, with no 0 in front but for the value 0,
-- which is the one digit 0. They are at most 20, so that the buffer of 32 characters is not overrun.
pub serial_write_uint_lem :
    (base value : ℕ) (sent : List ℕ)
    → IsBase base
    → value < 2 ^ 64
    → (ds : List ℕ) × (serial_write_uint 65 value base sent ≡ some (sent ++ ds))
      × Numeral base value ds
      × (length ds ≤ 20)
serial_write_uint_lem base value sent is lt = elim (Bool-cases (value == 0)) [
  | inl z ↦ (
    48 ∷ [],
    uint-zero 65 value base sent z,
    record {
      digits = (inl (omega arith, omega arith), tt);
      reads = ground arith;
      shortest = inl refl;
    },
    omega arith,
  )
  | inr nz ↦
      let (ds, found, pushed) = digits_loop_lem base is (divides base is) 64 value [] lt in
      (
        ds,
        uint-digits 65 value base (ds ++ []) sent nz found
            ∙ ap (λ w. some (sent ++ w)) (append-nil ds),
        Pushed-Numeral base value ds nz pushed,
        omega (
          arith,
          ap (λ (w : List ℕ). length w) (append-nil ds),
          digits_loop-length base (tenth base is) 65 20 value [] (ds ++ []) (omega arith) found,
        ),
      )
]
  where
    divides : (base : ℕ) → IsBase base → Divides base
    divides base (inl e) = subst Divides (sym e) Divides-10
    divides base (inr e) = subst Divides (sym e) Divides-16

    tenth : (base : ℕ) → IsBase base → (v : ℕ) → v / base * 10 ≤ v
    tenth base (inl e) = subst (λ b. (v : ℕ) → v / b * 10 ≤ v) (sym e) (λ v. omega arith)
    tenth base (inr e) = subst (λ b. (v : ℕ) → v / b * 10 ≤ v) (sym e) (λ v. omega arith)
