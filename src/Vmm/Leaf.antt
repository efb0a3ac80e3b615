-- ===== src/Vmm/Leaf.antt =====
-- A write into a table of the last level, and the walks that do not meet it.
use mathlib.Core.Path.{ap₂}
use open_idp_os.Base.{
  ℕ, ◌+◌, ◌/◌, ◌^◌, ◌%◌, ◌<◌, ◌≡◌, ◌≢◌, ◌∙◌, sym, refl, ap, ◌&&◌, arith, ◌==◌, ==_iff, length,
  get_or, List, [], ◌∷◌, Bool-cases, inl, inr,
}
use open_idp_os.Vmm.{Tables, write, linked, mapped}
use open_idp_os.Vmm.Tree.{read, read-same, IsTree, Small, full, indices}

-- The number of the page within the 48 bits that the tables translate.
abbrev pub page_number : ℕ → ℕ
page_number virt = virt / 2 ^ 12 % 2 ^ 36

-- Different pages have different walks.
pub walks_differ :
    (a b : ℕ) → page_number a ≢ page_number b → full (indices a) [] ≢ full (indices b) []
walks_differ a b ne e = ne (
    omega (
      arith,
      ap (λ w. get_or w 0 0) e,
      ap (λ w. get_or w 1 0) e,
      ap (λ w. get_or w 2 0) e,
      ap (λ w. get_or w 3 0) e,
    ))

pub write_self : (f : Tables) (t i e : ℕ) → write t i e f t i ≡ e
write_self f t i e = ground arith

-- A write into a table of the last level.
module _ (h : ℕ) (f : Tables) (label : ℕ → List ℕ) (tree : IsTree h f label) (pt i e : ℕ)
    (last : length (label pt) ≡ 3) where
  abbrev pub written : Tables
  written = write pt i e f

  pub above : (x j : ℕ) → length (label x) < 3 → written x j ≡ f x j
  above x j l = elim (Bool-cases (pt == x)) [
    | inl a ↦ absurd (omega (arith, ap (λ n. length (label n)) ((==_iff pt x).0 a)))
    | inr b ↦ rw b refl
  ]

  beside : (x j : ℕ) → j ∷ label x ≢ i ∷ label pt → written x j ≡ f x j
  beside x j ne = elim (Bool-cases ((pt == x) && (i == j))) [
    | inl a ↦ absurd (ne (ap₂ (λ n k. k ∷ label n) {x = x} {y = pt} (ground arith) (ground arith)))
    | inr b ↦ ground arith
  ]

  pub written-IsTree : IsTree h written label
  written-IsTree = record {
    child = λ t j s l nz.
        ap (λ n. label (linked h n)) (above t j l)
        ∙ tree.child t j s l (ap (λ n. linked h n == 0) (sym (above t j l)) ∙ nz);
  }

  pub read-written :
      (x : ℕ) (is : List ℕ)
      → length is + length (label x) ≡ 4
      → Small is
      → full is (label x) ≢ i ∷ label pt
      → read h written x is ≡ read h f x is
  read-written x is len small ne =
      read-same h f written label (i ∷ label pt) tree (λ x j l. ap (linked h) (above x j l))
        (λ x j l n. ap (mapped h) (beside x j n)) x is len small ne
