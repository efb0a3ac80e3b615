-- ===== src/Base/Bitwise.antt =====
-- The C operators `|` and `&` on words of w bits, bit by bit from the lowest one.
use Prim.Native.Nat.{ℕ, zero, suc, ◌+◌, ◌*◌, ◌/◌, ◌%◌, ◌<◌, ◌≤◌}
use mathlib.Core.Path.{◌≡◌, refl, ◌∙◌, ap₂}
use mathlib.Core.Bool.{◌&&◌, ◌||◌}
use native.Mathlib.Omega.{arith}
use open_idp_os.Base.Tests.{◌==◌, if◌then◌else◌}

or_digit : (x y : ℕ) → ℕ
or_digit x y = if (x == 0) && (y == 0) then 0 else 1

unfoldable pub and_digit : (x y : ℕ) → ℕ
and_digit x y = if (x == 0) || (y == 0) then 0 else 1

pub or_bits : (w a b : ℕ) → ℕ
unfolding or_digit
or_bits zero a b = 0
or_bits (suc w) a b = or_digit (a % 2) (b % 2) + 2 * or_bits w (a / 2) (b / 2)

unfoldable pub and_bits : (w a b : ℕ) → ℕ
unfolding and_digit
and_bits zero a b = 0
and_bits (suc w) a b = and_digit (a % 2) (b % 2) + 2 * and_bits w (a / 2) (b / 2)

abbrev pub or64 : ℕ → ℕ → ℕ
or64 = or_bits 64

abbrev pub and64 : ℕ → ℕ → ℕ
and64 = and_bits 64

or_digit_lt : (x y : ℕ) → or_digit x y < 2
unfolding or_digit
or_digit_lt x y = ground arith

and_digit_lt : (x y : ℕ) → and_digit x y < 2
unfolding and_digit
and_digit_lt x y = ground arith

and-or_digit : (x y z : ℕ) → and_digit y z ≡ 0 → and_digit (or_digit x y) z ≡ and_digit x z
unfolding or_digit and_digit
and-or_digit x y z h = ground arith

and-and_digit : (x z : ℕ) → and_digit (and_digit x z) z ≡ and_digit x z
unfolding and_digit
and-and_digit x z = ground arith

-- The bits of a word are its lowest bit and those of its half.
and_step :
    (w d z m : ℕ)
    → d < 2
    → and_bits (suc w) (d + 2 * z) m ≡ and_digit d (m % 2) + 2 * and_bits w z (m / 2)
unfolding and_bits
and_step w d z m h =
    ap₂ (λ x y. and_digit x (m % 2) + 2 * and_bits w y (m / 2)) (omega arith) (omega arith)

-- A mask does not see bits that lie outside it.
pub and-or-outside :
    (w e f m : ℕ) → and_bits w f m ≡ 0 → and_bits w (or_bits w e f) m ≡ and_bits w e m
unfolding or_bits and_bits
and-or-outside zero e f m h = refl
and-or-outside (suc w) e f m h =
    and_step w (or_digit (e % 2) (f % 2)) (or_bits w (e / 2) (f / 2)) m
      (or_digit_lt (e % 2) (f % 2))
    ∙ ap₂ (λ x y. x + 2 * y) (and-or_digit (e % 2) (f % 2) (m % 2) (omega arith))
        (and-or-outside w (e / 2) (f / 2) (m / 2) (omega arith))

pub and-and : (w e m : ℕ) → and_bits w (and_bits w e m) m ≡ and_bits w e m
unfolding and_bits
and-and zero e m = refl
and-and (suc w) e m =
    and_step w (and_digit (e % 2) (m % 2)) (and_bits w (e / 2) (m / 2)) m
      (and_digit_lt (e % 2) (m % 2))
    ∙ ap₂ (λ x y. x + 2 * y) (and-and_digit (e % 2) (m % 2)) (and-and w (e / 2) (m / 2))

and-or_digit_self : (x z : ℕ) → and_digit (or_digit x z) z ≡ and_digit z z
unfolding or_digit and_digit
and-or_digit_self x z = ground arith

-- Bits that are set are seen.
pub and-or_self : (w e m : ℕ) → and_bits w (or_bits w e m) m ≡ and_bits w m m
unfolding or_bits and_bits
and-or_self zero e m = refl
and-or_self (suc w) e m =
    and_step w (or_digit (e % 2) (m % 2)) (or_bits w (e / 2) (m / 2)) m
      (or_digit_lt (e % 2) (m % 2))
    ∙ ap₂ (λ x y. x + 2 * y) (and-or_digit_self (e % 2) (m % 2)) (and-or_self w (e / 2) (m / 2))

and_digit_le : (x y : ℕ) → y < 2 → and_digit x y ≤ y
unfolding and_digit
and_digit_le x y h = ground arith

pub and_le : (w e m : ℕ) → and_bits w e m ≤ m
unfolding and_bits
and_le zero e m = omega arith
and_le (suc w) e m =
    omega (arith, and_digit_le (e % 2) (m % 2) (omega arith), and_le w (e / 2) (m / 2))
