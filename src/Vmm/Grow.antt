-- ===== src/Vmm/Grow.antt =====
-- get_or_alloc_table: the tree with one more table, or as it is.
use mathlib.Core.Path.{subst, ap₂}
use open_idp_os.Base.{
  ℕ, ◌+◌, ◌<◌, ◌≡◌, ◌⊎◌, ◌∙◌, sym, refl, ap, true, false, ◌&&◌, arith, ◌==◌, ==_iff, length, List,
  ◌∷◌, Bool-cases, inl, inr, update, update_self,
}
use open_idp_os.Vmm.{Tables, write, linked, mapped}
use open_idp_os.Vmm.Entries.{linked-zero}
use open_idp_os.Vmm.Tree.{read, read-grown, IsTree, Small}

-- A write of one entry.
pub write-keep :
    (p : ℕ → ℕ) (f : Tables) (t i e : ℕ)
    → p e ≡ p (f t i)
    → (x j : ℕ) → p (write t i e f x j) ≡ p (f x j)
write-keep p f t i e same x j = elim (Bool-cases (t == x)) [
  | inl a ↦ elim (Bool-cases (i == j)) [
    | inl b ↦
        rw (a, b)
          (same ∙ (ap (λ n. p (f n i)) ((==_iff t x).0 a) ∙ ap (λ n. p (f x n)) ((==_iff i j).0 b)))
    | inr b ↦ rw (a, b) (ap (λ n. p (f n j)) ((==_iff t x).0 a))
  ]
  | inr a ↦ rw a refl
]

-- What get_or_alloc_table does to the tables: it gives the table `t'` at the entry `i` of `t`.
pub record Grown (h : ℕ) (f g : Tables) (label : ℕ → List ℕ) (t i t' : ℕ) : Type 0 where
  pub label' : ℕ → List ℕ
  pub tree : IsTree h g label'
  pub at : linked h (g t i) ≡ t'
  pub alive : (t' == 0) ≡ false
  pub place : label' t' ≡ i ∷ label t
  pub keeps : (x : ℕ) → length (label x) < 4 → label' x ≡ label x
  pub others : (x : ℕ) → (t' == x) ≡ false → label' x ≡ label x
  pub links :
      (x j : ℕ)
      → length (label x) < 3
      → (linked h (f x j) == 0) ≡ false
      → linked h (g x j) ≡ linked h (f x j)
  pub reads :
      (x : ℕ) (is : List ℕ)
      → length is + length (label x) ≡ 4
      → Small is
      → read h g x is ≡ read h f x is

module _ (h : ℕ) (f : Tables) (label : ℕ → List ℕ) (tree : IsTree h f label) (t i : ℕ) where
  -- The entry points to a table already.
  pub old-Grown :
      (e : ℕ)
      → linked h e ≡ linked h (f t i)
      → mapped h e ≡ mapped h (f t i)
      → i < 512
      → length (label t) < 3
      → (linked h (f t i) == 0) ≡ false
      → Grown h f (write t i e f) label t i (linked h (f t i))
  old-Grown e le me small low live = record {
    label' = label;
    tree = record {
      child = λ x j s l nz.
          ap label (same x j) ∙ tree.child x j s l (ap (λ n. n == 0) (sym (same x j)) ∙ nz);
    };
    at = same t i;
    alive = live;
    place = tree.child t i small low live;
    keeps = λ x l. refl;
    others = λ x n. refl;
    links = λ x j l nz. same x j;
    reads =
        read-grown h f (write t i e f) label tree (λ x j l. inl (same x j))
          (λ x j l. write-keep (mapped h) f t i e me x j);
  }
    where
      same : (x j : ℕ) → linked h (write t i e f x j) ≡ linked h (f x j)
      same = write-keep (linked h) f t i e le

  -- The entry gets a fresh table.
  module _ (e new : ℕ) (le : linked h e ≡ new) (live : (new == 0) ≡ false)
      (none_yet : linked h (f t i) ≡ 0) (fresh : length (label new) ≡ 4)
      (low : length (label t) < 3) where
    abbrev pub grown : Tables
    grown = write t i e (update f new (λ _. 0))

    label_new : ℕ → List ℕ
    label_new = update label new (i ∷ label t)

    new_other : (x : ℕ) → length (label x) < 4 → (new == x) ≡ false
    new_other x l = elim (Bool-cases (new == x)) [
      | inl a ↦ absurd (omega (arith, ap (λ n. length (label n)) ((==_iff new x).0 a)))
      | inr b ↦ b
    ]

    grown-new : (k : ℕ) → grown new k ≡ 0
    grown-new k = ground (arith, new_other t (omega arith))

    grown-at : grown t i ≡ e
    grown-at = ground arith

    grown-else : (x j : ℕ) → (new == x) ≡ false → ((t == x) && (i == j)) ≡ false → grown x j ≡ f x j
    grown-else x j n o = ground (arith, new_other t (omega arith))

    label_new-keeps : (x : ℕ) → length (label x) < 4 → label_new x ≡ label x
    unfolding label_new
    label_new-keeps x l = rw (new_other x l) refl

    label_new-at : label_new new ≡ i ∷ label t
    unfolding label_new
    label_new-at = update_self label new (i ∷ label t)

    cell : (x j : ℕ) → ((t == x) && (i == j)) ≡ true → (x ≡ t) × (j ≡ i)
    cell x j a = (ground arith, ground arith)

    off : (x j : ℕ) → length (label x) ≡ 3 → ((t == x) && (i == j)) ≡ false
    off x j l = elim (Bool-cases ((t == x) && (i == j))) [
      | inl a ↦ absurd (omega (arith, ap (λ n. length (label n)) (cell x j a).0))
      | inr b ↦ b
    ]

    before : (x j : ℕ) → ((t == x) && (i == j)) ≡ true → linked h (f x j) ≡ 0
    before x j a = ap₂ (λ n k. linked h (f n k)) (cell x j a).0 (cell x j a).1 ∙ none_yet

    after : (x j : ℕ) → ((t == x) && (i == j)) ≡ true → linked h (grown x j) ≡ new
    after x j a =
        ap₂ (λ n k. linked h (grown n k)) (cell x j a).0 (cell x j a).1
        ∙ ap (linked h) grown-at
        ∙ le

    linked-else :
        (x j : ℕ)
        → length (label x) < 4
        → ((t == x) && (i == j)) ≡ false
        → linked h (grown x j) ≡ linked h (f x j)
    linked-else x j l b = ap (linked h) (grown-else x j (new_other x l) b)

    links-grown :
        (x j : ℕ)
        → length (label x) < 3
        → (linked h (grown x j) ≡ linked h (f x j))
          ⊎ ((linked h (f x j) ≡ 0) × ((k : ℕ) → grown (linked h (grown x j)) k ≡ 0))
    links-grown x j l = elim (Bool-cases ((t == x) && (i == j))) [
      | inl a ↦ inr (before x j a, λ k. ap (λ n. grown n k) (after x j a) ∙ grown-new k)
      | inr b ↦ inl (linked-else x j (omega arith) b)
    ]

    linked-new : (j : ℕ) → linked h (grown new j) ≡ 0
    linked-new j = ap (linked h) (grown-new j) ∙ linked-zero h

    label_new-else : (x : ℕ) → (new == x) ≡ false → label_new x ≡ label x
    unfolding label_new
    label_new-else x n = rw n refl

    child-old :
        (x j : ℕ)
        → j < 512
        → length (label x) < 3
        → (linked h (grown x j) == 0) ≡ false
        → label_new (linked h (grown x j)) ≡ j ∷ label x
    child-old x j s l nz = elim (Bool-cases ((t == x) && (i == j))) [
      | inl a ↦
          ap label_new (after x j a)
          ∙ label_new-at
          ∙ ap₂ (λ k n. k ∷ label n) (sym (cell x j a).1) (sym (cell x j a).0)
      | inr b ↦
          let e = linked-else x j (omega arith) b in
          let c = tree.child x j s l (ap (λ n. n == 0) (sym e) ∙ nz) in
          ap label_new e
          ∙ label_new-keeps (linked h (f x j)) (omega (arith, ap (λ (w : List ℕ). length w) c))
          ∙ c
    ]

    child-grown :
        (x j : ℕ)
        → j < 512
        → length (label_new x) < 3
        → (linked h (grown x j) == 0) ≡ false
        → label_new (linked h (grown x j)) ≡ j ∷ label_new x
    child-grown x j s l nz = elim (Bool-cases (new == x)) [
      | inl a ↦
          absurd (
            ground
              (arith, ap (λ n. linked h (grown n j)) (sym ((==_iff new x).0 a)) ∙ linked-new j))
      | inr n ↦
          let k = label_new-else x n in
          child-old x j s (subst (λ w. length w < 3) k l) nz ∙ ap (λ w. j ∷ w) (sym k)
    ]

    links-keep :
        (x j : ℕ)
        → length (label x) < 3
        → (linked h (f x j) == 0) ≡ false
        → linked h (grown x j) ≡ linked h (f x j)
    links-keep x j l nz = elim (Bool-cases ((t == x) && (i == j))) [
      | inl a ↦ absurd (ground (arith, before x j a))
      | inr b ↦ linked-else x j (omega arith) b
    ]

    pub new-Grown : Grown h f grown label t i new
    new-Grown = record {
      label' = label_new;
      tree = record { child = child-grown };
      at = ap (linked h) grown-at ∙ le;
      alive = live;
      place = label_new-at;
      keeps = label_new-keeps;
      others = label_new-else;
      links = links-keep;
      reads =
          read-grown h f grown label tree links-grown
            (λ x j l. ap (mapped h) (grown-else x j (new_other x (omega arith)) (off x j l)));
    }
