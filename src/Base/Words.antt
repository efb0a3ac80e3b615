-- ===== src/Base/Words.antt =====
-- Machine integers: a w-bit value is a number below 2 ^ w, and the wrap-around is written out.
-- A C `int` that is returned as a status is an integer of the type `ℤ`.
use Prim.Native.Nat.{ℕ, ◌+◌, ◌-◌, ◌/◌, ◌%◌, ◌^◌}
use open_idp_os.Base.Tests.{ltb, if◌then◌else◌}

-- `negsuc n` is -(n + 1).
pub data ℤ : Type 0 where
  pos : ℕ → ℤ
  negsuc : ℕ → ℤ

-- uint64_t a + b and a - b.
abbrev pub add64 : ℕ → ℕ → ℕ
add64 a b = (a + b) % 2 ^ 64

abbrev pub sub64 : ℕ → ℕ → ℕ
sub64 a b = (a + 2 ^ 64 - b) % 2 ^ 64

-- (uint64_t)x for an `int` x given as its 32-bit pattern: the sign is extended.
abbrev pub sign_extend : ℕ → ℕ
sign_extend x = if ltb x (2 ^ 31) then x else x + (2 ^ 64 - 2 ^ 32)

-- Bit k of x, as 0 or 1: the test `x & (1 << k)`.
abbrev pub bit : ℕ → ℕ → ℕ
bit x k = x / 2 ^ k % 2
