-- ===== src/Base/Store.antt =====
-- Memory as a function of the address, and the write of one cell.
use Prim.Native.Nat.{ℕ}
use mathlib.Core.Path.{◌≡◌}
use mathlib.Core.Logic.{◌≢◌}
use native.Mathlib.Omega.{arith}
use mathlib.Core.Path.{ap}
use mathlib.Core.Logic.{inl, inr}
use open_idp_os.Base.Tests.{◌==◌, if◌then◌else◌, Bool-cases, ==_iff}

module _ {ℓ} {A : Type ℓ} where
  abbrev pub update : (ℕ → A) → ℕ → A → ℕ → A
  update f i a j = if i == j then a else f j

  pub update_self : (f : ℕ → A) (i : ℕ) (a : A) → update f i a i ≡ a
  update_self f i a = ground arith

  pub update_ne : (f : ℕ → A) {i j : ℕ} (a : A) → i ≢ j → update f i a j ≡ f j
  update_ne f a ne = ground arith

-- A write that keeps what `g` reads of the cell leaves `g` of every cell as it was.
pub read-update {ℓ κ} :
    {A : Type ℓ} {B : Type κ} (g : A → B) (f : ℕ → A) (i : ℕ) (a : A)
    → g a ≡ g (f i)
    → (j : ℕ) → g (update f i a j) ≡ g (f j)
read-update g f i a e j = elim (Bool-cases (i == j)) [
  | inl same ↦ rw (same, e) (ap (λ n. g (f n)) ((==_iff i j).0 same))
  | inr other ↦ rw other
]

-- Reading a part of every cell after a write of one.
pub map-update {ℓ κ} :
    {A : Type ℓ} {B : Type κ} (g : A → B) (f : ℕ → A) (i : ℕ) (a : A) (j : ℕ)
    → g (update f i a j) ≡ update (λ n. g (f n)) i (g a) j
map-update g f i a j = elim (Bool-cases (i == j)) [ inl e ↦ rw e | inr e ↦ rw e ]
