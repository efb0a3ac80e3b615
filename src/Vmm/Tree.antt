-- ===== src/Vmm/Tree.antt =====
-- The tables as a tree: each table in use is labelled by the indices that lead to it from the
-- root, the last one first. A label of length four stands for a page that is no table.
use mathlib.Core.Path.{subst}
use open_idp_os.Base.{
  ℕ, ◌+◌, ◌<◌, ◌≡◌, ◌≢◌, ◌⊎◌, ◌∙◌, sym, refl, ap, false, arith, ◌==◌, if◌then◌else◌, length, List,
  [], ◌∷◌, Bool-cases, inl, inr,
}
use open_idp_os.Vmm.Entries.{linked-zero, mapped-zero}
use open_idp_os.Vmm.{
  Tables, linked, mapped, last_table, vmm_get_mapping, pml4_index, pdpt_index, pd_index, pt_index,
}

-- What the tables from `t` on say of the indices of a walk.
pub read : (limine_hhdm : ℕ) → Tables → ℕ → List ℕ → ℕ
read h f t [] = 0
read h f t (i ∷ []) = mapped h (f t i)
read h f t (i ∷ j ∷ is) =
    let rest = read h f (linked h (f t i)) (j ∷ is) in if linked h (f t i) == 0 then 0 else rest

abbrev pub indices : (virt : ℕ) → List ℕ
indices virt = pml4_index virt ∷ pdpt_index virt ∷ pd_index virt ∷ pt_index virt ∷ []

abbrev pub Small : List ℕ → Type 0
Small [] = Unit {0}
Small (i ∷ is) = (i < 512) × Small is

pub indices-Small : (virt : ℕ) → Small (indices virt)
indices-Small virt = (omega arith, (omega arith, (omega arith, (omega arith, tt))))

pub vmm_get_mapping-read :
    (h : ℕ) (f : Tables) (pml4 virt : ℕ)
    → vmm_get_mapping h f pml4 virt ≡ read h f pml4 (indices virt)
unfolding vmm_get_mapping last_table read
vmm_get_mapping-read h f pml4 virt = ground arith

-- The tables form a tree; `label` says where each of them stands.
pub record IsTree (h : ℕ) (f : Tables) (label : ℕ → List ℕ) : Type 0 where
  pub child :
      (t i : ℕ)
      → i < 512
      → length (label t) < 3
      → (linked h (f t i) == 0) ≡ false
      → label (linked h (f t i)) ≡ i ∷ label t

-- The indices of the whole walk, the last one first.
abbrev pub full : List ℕ → List ℕ → List ℕ
full [] w = w
full (i ∷ is) w = full is (i ∷ w)

-- Two tables that agree on every entry of a table above the last level, and on every entry of the
-- last level whose place is not `stop`, agree on every other walk.
pub read-same :
    (h : ℕ) (f g : Tables) (label : ℕ → List ℕ) (stop : List ℕ)
    → IsTree h f label
    → ((x j : ℕ) → length (label x) < 3 → linked h (g x j) ≡ linked h (f x j))
    → ((x j : ℕ) → length (label x) ≡ 3 → j ∷ label x ≢ stop → mapped h (g x j) ≡ mapped h (f x j))
    → (x : ℕ) (is : List ℕ) → length is + length (label x) ≡ 4
    → Small is
    → full is (label x) ≢ stop
    → read h g x is ≡ read h f x is
unfolding read
read-same h f g label stop tree links leaves x [] len small ne = refl
read-same h f g label stop tree links leaves x (i ∷ []) len small ne = leaves x i (omega arith) ne
read-same h f g label stop tree links leaves x (i ∷ j ∷ is) len small ne =
    elim (Bool-cases (linked h (f x i) == 0)) [
      | inl z ↦ rw (links x i (omega arith), z) refl
      | inr nz ↦
          let l = tree.child x i small.0 (omega arith) nz in
          rw (links x i (omega arith), nz)
            (read-same h f g label stop tree links leaves (linked h (f x i)) (j ∷ is)
              (ap (λ w. length (j ∷ is) + length w) l ∙ (omega arith)) small.1
              (subst (λ w. full (j ∷ is) w ≢ stop) (sym l) ne))
    ]

-- A walk through an empty table.
read-empty : (h : ℕ) (g : Tables) (t : ℕ) (is : List ℕ) → ((k : ℕ) → g t k ≡ 0) → read h g t is ≡ 0
unfolding read
read-empty h g t [] e = refl
read-empty h g t (i ∷ []) e = rw (e i) (mapped-zero h)
read-empty h g t (i ∷ j ∷ is) e = rw (e i, linked-zero h) refl

-- If entries change only where they pointed to no table, and then point to an empty table, every
-- walk gives what it gave.
pub read-grown :
    (h : ℕ) (f g : Tables) (label : ℕ → List ℕ)
    → IsTree h f label
    → ((x j : ℕ)
        → length (label x) < 3
        → (linked h (g x j) ≡ linked h (f x j))
          ⊎ ((linked h (f x j) ≡ 0) × ((k : ℕ) → g (linked h (g x j)) k ≡ 0)))
    → ((x j : ℕ) → length (label x) ≡ 3 → mapped h (g x j) ≡ mapped h (f x j))
    → (x : ℕ) (is : List ℕ) → length is + length (label x) ≡ 4
    → Small is
    → read h g x is ≡ read h f x is
unfolding read
read-grown h f g label tree links leaves x [] len small = refl
read-grown h f g label tree links leaves x (i ∷ []) len small = leaves x i (omega arith)
read-grown h f g label tree links leaves x (i ∷ j ∷ is) len small =
    go (links x i (omega arith)) (λ nz.
      let l = tree.child x i small.0 (omega arith) nz in
      read-grown h f g label tree links leaves (linked h (f x i)) (j ∷ is)
        (ap (λ w. length (j ∷ is) + length w) l ∙ (omega arith)) small.1)
  where
    go :
        (linked h (g x i) ≡ linked h (f x i))
          ⊎ ((linked h (f x i) ≡ 0) × ((k : ℕ) → g (linked h (g x i)) k ≡ 0))
        → ((linked h (f x i) == 0) ≡ false
            → read h g (linked h (f x i)) (j ∷ is) ≡ read h f (linked h (f x i)) (j ∷ is))
        → read h g x (i ∷ j ∷ is) ≡ read h f x (i ∷ j ∷ is)
    go (inl e) below = elim (Bool-cases (linked h (f x i) == 0)) [
      | inl z ↦ rw (e, z) refl
      | inr nz ↦ rw (e, nz) (below nz)
    ]
    go (inr (z, empty)) below = elim (Bool-cases (linked h (g x i) == 0)) [
      | inl y ↦ rw (y, z) refl
      | inr n ↦ rw (n, z) (read-empty h g (linked h (g x i)) (j ∷ is) empty)
    ]

-- One step of a walk, and its end.
pub read-linked :
    (h : ℕ) (f : Tables) (t i t' j : ℕ) (is : List ℕ)
    → linked h (f t i) ≡ t'
    → (t' == 0) ≡ false
    → read h f t (i ∷ j ∷ is) ≡ read h f t' (j ∷ is)
unfolding read
read-linked h f t i t' j is e live = rw (e, live) refl

pub read-last : (h : ℕ) (f : Tables) (t i : ℕ) → read h f t (i ∷ []) ≡ mapped h (f t i)
unfolding read
read-last h f t i = refl

pub read-step :
    (h : ℕ) (f : Tables) (t i j : ℕ) (is : List ℕ)
    → read h f t (i ∷ j ∷ is)
      ≡ (if linked h (f t i) == 0 then 0 else read h f (linked h (f t i)) (j ∷ is))
unfolding read
read-step h f t i j is = refl
