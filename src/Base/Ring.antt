-- ===== src/Base/Ring.antt =====
-- A circular buffer of `cap` cells in memory, read as the sequence of its items.
use Prim.Native.Nat.{ℕ, zero, suc, ◌+◌, ◌-◌, ◌%◌, ◌≤◌, ◌<◌}
use mathlib.Core.Path.{◌≡◌, refl, ap, ap₂, ◌∙◌}
use mathlib.Core.Logic.{◌≢◌}
use mathlib.Core.List.{List, [], ◌∷◌, ◌++◌}
use native.Mathlib.Nat.{mod-add-mod, mod-eq_of_lt, mod-eq-sub-mod}
use native.Mathlib.Decide.{dec_lt}
use native.Mathlib.Omega.{arith}
use open_idp_os.Base.Lists.{length, length-append}
use open_idp_os.Base.Store.{update, update_self, update_ne}

module _ {ℓ} {A : Type ℓ} (buf : ℕ → A) (cap : ℕ) where
  -- The `n` items from index `h` on, oldest first, going round at `cap`.
  pub items : ℕ → ℕ → List A
  items h zero = []
  items h (suc n) = items h n ++ (buf ((h + n) % cap) ∷ [])

  pub items-zero : (h : ℕ) → items h 0 ≡ []
  unfolding items
  items-zero h = refl

  pub length-items : (h n : ℕ) → length (items h n) ≡ n
  unfolding items
  length-items h zero = refl
  length-items h (suc n) =
      omega (arith, length-append {ℓ} (items h n) (buf ((h + n) % cap) ∷ []), length-items h n)

  step_index : (h n : ℕ) → (h + suc n) % cap ≡ ((h + 1) % cap + n) % cap
  step_index h n = rw mod-add-mod (ap (λ k. k % cap) (omega arith))

  -- The oldest item comes off the front.
  pub items-suc : (h n : ℕ) → h < cap → items h (suc n) ≡ buf h ∷ items ((h + 1) % cap) n
  unfolding items
  items-suc h zero lt =
      ap (λ k. buf k ∷ []) (mod-eq_of_lt {n = h + 0} {m = cap} (omega arith) ∙ omega arith)
  items-suc h (suc n) lt = ap₂ (λ xs k. xs ++ (buf k ∷ [])) (items-suc h n lt) (step_index h n)

-- Two places of one round trip differ.
pub place-ne : {cap h i n : ℕ} → h < cap → i < n → n < cap → (h + n) % cap ≢ (h + i) % cap
place-ne {cap} {h} {i} {n} hh hi hn = elim (dec_lt (h + n) cap) [
  | yes p ↦ omega (arith, mod-eq_of_lt p, mod-eq_of_lt {n = h + i} {m = cap} (omega arith))
  | no p ↦ elim (dec_lt (h + i) cap) [
    | yes q ↦ omega (
      arith,
      mod-eq-sub-mod {n = h + n} {m = cap} (omega arith),
      mod-eq_of_lt {n = h + n - cap} {m = cap} (omega arith),
      mod-eq_of_lt q,
    )
    | no q ↦ omega (
      arith,
      mod-eq-sub-mod {n = h + n} {m = cap} (omega arith),
      mod-eq_of_lt {n = h + n - cap} {m = cap} (omega arith),
      mod-eq-sub-mod {n = h + i} {m = cap} (omega arith),
      mod-eq_of_lt {n = h + i - cap} {m = cap} (omega arith),
    )
  ]
]

module _ {ℓ} {A : Type ℓ} (buf : ℕ → A) (cap h n : ℕ) (a : A) (hh : h < cap) (hn : n < cap) where
  items-update_below :
      (m : ℕ) → m ≤ n → items (update buf ((h + n) % cap) a) cap h m ≡ items buf cap h m
  unfolding items
  items-update_below zero le = refl
  items-update_below (suc m) le =
      ap₂ (λ xs x. xs ++ (x ∷ [])) (items-update_below m (omega arith))
        (update_ne buf a (place-ne hh (omega arith) hn))

  -- A write behind the newest item appends it.
  pub items-update :
      items (update buf ((h + n) % cap) a) cap h (suc n) ≡ items buf cap h n ++ (a ∷ [])
  unfolding items
  items-update =
      ap₂ (λ xs x. xs ++ (x ∷ [])) (items-update_below n (omega arith))
        (update_self buf ((h + n) % cap) a)
