-- ===== src/Base/Finite.antt =====
-- Facts over a small range, checked at every value by evaluation.
use Prim.Native.Nat.{ℕ, zero, suc, ◌<◌}
use mathlib.Core.Path.{◌≡◌, ap, ◌∙◌}
use mathlib.Core.Bool.{Bool, true, ◌&&◌}
use native.Mathlib.Decide.{dec_lt}
use native.Mathlib.Omega.{arith}

-- Whether a test passes at 0, …, k - 1.
unfoldable pub passes_below : (k : ℕ) (test : ℕ → Bool) → Bool
passes_below zero test = true
passes_below (suc k) test = passes_below k test && test k

both : (a b : Bool) → (a && b) ≡ true → (a ≡ true) × (b ≡ true)
both a b e = ground arith

pub passes_below_lem :
    (k : ℕ) (test : ℕ → Bool) (i : ℕ) → passes_below k test ≡ true → i < k → test i ≡ true
unfolding passes_below
passes_below_lem zero test i ok below = elim below [ ]
passes_below_lem (suc k) test i ok below = elim (dec_lt i k) [
  | yes earlier ↦ passes_below_lem k test i (both _ _ ok).0 earlier
  | no last ↦ (let e : i ≡ k = omega arith in ap test e ∙ (both _ _ ok).1)
]
