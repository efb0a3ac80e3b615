-- ===== src/Vmm/Alloc.antt =====
-- get_or_alloc_table on a tree of tables.
use open_idp_os.Base.{
  ℕ, suc, ◌^◌, ◌≤◌, ◌<◌, ◌≡◌, ◌∙◌, sym, refl, ap, true, false, arith, ◌==◌, ==_iff, if◌then◌else◌,
  length, List, [], Bool-cases, inl, inr, Option, some, and64, or64,
}
use open_idp_os.Vmm.{
  Vm, write, linked, mapped, get_or_alloc_table, vmm_present, vmm_user, page_align_mask,
  virt_to_phys, phys_to_virt,
}
use open_idp_os.Vmm.Entries.{
  linked-user, mapped-user, linked-link, link_entry, linked-live, linked-none, page-user,
}
use open_idp_os.Vmm.Tree.{IsTree}
use open_idp_os.Vmm.Source.{PageSource}
use open_idp_os.Vmm.Grow.{Grown, old-Grown, new-Grown}

module _ {M : Type 0} {limine_hhdm : ℕ} {pmm_alloc_page : M → ℕ × M}
    (source : PageSource limine_hhdm pmm_alloc_page) where
  open source use {hhdm_low, hhdm_high, left, free, alloc_free, alloc_left, alloc_rest, free_page}

  -- No page that the allocator may still hand out is a table.
  abbrev pub Unused : (ℕ → List ℕ) → M → Type 0
  Unused label m = (q : ℕ) → free m q ≡ true → length (label q) ≡ 4

  -- The result of a call: the table, the new state and what has become of the tree.
  abbrev pub Got : (ℕ → List ℕ) → (t i : ℕ) → Vm M → Option (ℕ × Vm M) → Type 0
  Got label t i v r =
      (t' : ℕ) × (v' : Vm M) × (g : Grown limine_hhdm v.entry v'.entry label t i t') × (r
        ≡ some (t', v'))
      × Unused g.label' v'.pages
      × (left v.pages ≤ suc (left v'.pages))
      × (v'.invalidated ≡ v.invalidated)

  module _ (label : ℕ → List ℕ) (t i : ℕ) (v : Vm M) (tree : IsTree limine_hhdm v.entry label)
      (unused : Unused label v.pages) (small : i < 512) (low : length (label t) < 3) where
    e : ℕ
    e = v.entry t i

    e' : ℕ
    e' = if and64 e vmm_user == 0 then or64 e vmm_user else e

    old-Got :
        (and64 e vmm_present == 0) ≡ false
        → Got label t i v (get_or_alloc_table limine_hhdm pmm_alloc_page t i v)
    unfolding get_or_alloc_table e e'
    old-Got p =
        let (same, live) = linked-live limine_hhdm e hhdm_low hhdm_high p in
        let g =
          old-Grown limine_hhdm v.entry label tree t i e'
            (user (linked limine_hhdm) (linked-user limine_hhdm e))
            (user (mapped limine_hhdm) (mapped-user limine_hhdm e)) small low live in
        (
          linked limine_hhdm e,
          record v { entry = write t i e' v.entry },
          g,
          rw p (
              ap (λ n. some (n, record v { entry = write t i e' v.entry }))
                (ap (phys_to_virt limine_hhdm) (user (λ n. and64 n page_align_mask) (page-user e))
                  ∙ sym same)),
          (λ q fr. elim (Bool-cases (linked limine_hhdm e == q)) [
            | inl a ↦ absurd (
                omega (
                  arith,
                  unused q fr,
                  ap (λ (w : List ℕ). length w) (tree.child t i small low live),
                  ap (λ n. length (label n)) ((==_iff (linked limine_hhdm e) q).0 a),
                ))
            | inr b ↦ ap (λ (w : List ℕ). length w) (g.others q b) ∙ unused q fr
          ]),
          omega arith,
          refl,
        )
      where
        user : (f : ℕ → ℕ) → f (or64 e vmm_user) ≡ f e → f e' ≡ f e
        user f same = elim (Bool-cases (and64 e vmm_user == 0)) [
          | inl a ↦ rw a same
          | inr a ↦ rw a refl
        ]

    new-Got :
        (and64 e vmm_present == 0) ≡ true
        → 0 < left v.pages
        → Got label t i v (get_or_alloc_table limine_hhdm pmm_alloc_page t i v)
    unfolding get_or_alloc_table e
    new-Got p enough =
        let (nz, lt, page) = free_page v.pages new (alloc_free v.pages enough) in
        let live : (new == 0) ≡ false = ground arith in
        let h : limine_hhdm < 2 ^ 64 = omega (arith, hhdm_high) in
        let g =
          new-Grown limine_hhdm v.entry label tree t i (link_entry (virt_to_phys limine_hhdm new))
            new (linked-link limine_hhdm new lt h page) live (linked-none limine_hhdm e p)
            (unused new (alloc_free v.pages enough)) low in
        (
          new,
          _,
          g,
          rw (p, live) refl,
          (λ q fr.
              let (was, ne) = alloc_rest v.pages q fr in
              ap (λ (w : List ℕ). length w) (g.others q (ground arith)) ∙ unused q was),
          alloc_left v.pages,
          refl,
        )
      where
        new : ℕ
        new = (pmm_alloc_page v.pages).0

    -- If a page is left, the call returns a table.
    pub get_or_alloc_table-Got :
        0 < left v.pages → Got label t i v (get_or_alloc_table limine_hhdm pmm_alloc_page t i v)
    get_or_alloc_table-Got enough = elim (Bool-cases (and64 e vmm_present == 0)) [
      | inl p ↦ new-Got p enough
      | inr p ↦ old-Got p
    ]

-- The address space with the root `pml4`.
pub record Space {M : Type 0} {limine_hhdm : ℕ} {pmm_alloc_page : M → ℕ × M}
    (source : PageSource limine_hhdm pmm_alloc_page) (pml4 : ℕ) (v : Vm M) : Type 0 where
  pub label : ℕ → List ℕ
  pub tree : IsTree limine_hhdm v.entry label
  pub unused : Unused source label v.pages
  pub root : label pml4 ≡ []
