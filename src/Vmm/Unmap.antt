-- ===== src/Vmm/Unmap.antt =====
-- vmm_unmap_page as a change of the address space.
use mathlib.Core.Path.{subst}
use open_idp_os.Base.{
  ℕ, ◌+◌, ◌<◌, ◌≡◌, ◌≢◌, ◌∙◌, sym, refl, ap, false, arith, ◌==◌, length, List, [], ◌∷◌, Bool-cases,
  inl, inr, and64,
}
use open_idp_os.Vmm.{
  Tables, Vm, write, linked, mapped, last_table, vmm_unmap_page, vmm_get_mapping, vmm_present,
  pml4_index, pdpt_index, pd_index, pt_index,
}
use open_idp_os.Vmm.Entries.{mapped-zero}
use open_idp_os.Vmm.Tree.{
  read, read-linked, read-last, IsTree, full, indices, indices-Small, vmm_get_mapping-read,
}
use open_idp_os.Vmm.Source.{PageSource}
use open_idp_os.Vmm.Leaf.{
  page_number, walks_differ, write_self, above, written-IsTree, read-written,
}
use open_idp_os.Vmm.Alloc.{Space}

module _ (h : ℕ) (f : Tables) (label : ℕ → List ℕ) (tree : IsTree h f label) (pml4 virt : ℕ)
    (root : label pml4 ≡ []) (found : (last_table h f pml4 virt == 0) ≡ false) where
  pdpt : ℕ
  pdpt = linked h (f pml4 (pml4_index virt))

  pd : ℕ
  pd = linked h (f pdpt (pdpt_index virt))

  pt : ℕ
  pt = linked h (f pd (pd_index virt))

  -- None of the three tables is NULL.
  met :
      ((pdpt == 0) ≡ false)
      × ((pd == 0) ≡ false)
      × ((pt == 0) ≡ false)
      × (last_table h f pml4 virt ≡ pt)
  unfolding last_table pdpt pd pt
  met = ground arith

  places :
      (label pdpt ≡ pml4_index virt ∷ [])
      × (label pd ≡ pdpt_index virt ∷ pml4_index virt ∷ [])
      × (label pt ≡ pd_index virt ∷ pdpt_index virt ∷ pml4_index virt ∷ [])
  unfolding pdpt pd pt
  places =
      let l₀ : length (label pml4) ≡ 0 = ap (λ (w : List ℕ). length w) root in
      let p₁ : label pdpt ≡ pml4_index virt ∷ [] =
        tree.child pml4 (pml4_index virt) (omega arith) (omega arith) met.0
        ∙ ap (λ w. pml4_index virt ∷ w) root in
      let l₁ : length (label pdpt) ≡ 1 = ap (λ (w : List ℕ). length w) p₁ in
      let p₂ : label pd ≡ pdpt_index virt ∷ pml4_index virt ∷ [] =
        tree.child pdpt (pdpt_index virt) (omega arith) (omega arith) met.1
        ∙ ap (λ w. pdpt_index virt ∷ w) p₁ in
      let l₂ : length (label pd) ≡ 2 = ap (λ (w : List ℕ). length w) p₂ in
      (
        p₁,
        p₂,
        tree.child pd (pd_index virt) (omega arith) (omega arith) met.2
            ∙ ap (λ w. pd_index virt ∷ w) p₂,
      )

  last : length (label pt) ≡ 3
  last = ap (λ (w : List ℕ). length w) places.2

  -- The walk to `virt` ends at the entry that is written.
  read-virt : (e : ℕ) → read h (write pt (pt_index virt) e f) pml4 (indices virt) ≡ mapped h e
  unfolding pdpt pd
  read-virt e =
      let w = write pt (pt_index virt) e f in
      let l₀ : length (label pml4) ≡ 0 = ap (λ (w : List ℕ). length w) root in
      let l₁ : length (label pdpt) ≡ 1 = ap (λ (w : List ℕ). length w) places.0 in
      let l₂ : length (label pd) ≡ 2 = ap (λ (w : List ℕ). length w) places.1 in
      let up : (x j : ℕ) → length (label x) < 3 → linked h (w x j) ≡ linked h (f x j) =
        λ x j l. ap (linked h) (above h f label tree pt (pt_index virt) e last x j l) in
      read-linked h w pml4 (pml4_index virt) pdpt _ _ (up pml4 (pml4_index virt) (omega arith))
        met.0
      ∙ read-linked h w pdpt (pdpt_index virt) pd _ _ (up pdpt (pdpt_index virt) (omega arith))
          met.1
      ∙ read-linked h w pd (pd_index virt) pt _ _ (unfold pt in up pd (pd_index virt) (omega arith))
          met.2
      ∙ read-last h w pt (pt_index virt)
      ∙ ap (mapped h) (write_self f pt (pt_index virt) e)

  -- The walks to other pages do not meet it.
  read-others :
      (e other : ℕ)
      → page_number other ≢ page_number virt
      → read h (write pt (pt_index virt) e f) pml4 (indices other) ≡ read h f pml4 (indices other)
  read-others e other ne =
      read-written h f label tree pt (pt_index virt) e last pml4 (indices other)
        (ap (λ w. length (indices other) + length w) root) (indices-Small other)
        (λ same. walks_differ other virt ne (
          subst (λ z. full (indices other) z ≡ pt_index virt ∷ label pt) root same
          ∙ ap (λ w. pt_index virt ∷ w) places.2))

-- If the tables form a tree, they form one after vmm_unmap_page, vmm_get_mapping then gives 0 at
-- `virt`, and what it gave before at every address of another page.
pub vmm_unmap_page_lem :
    {M : Type 0} {limine_hhdm : ℕ} {pmm_alloc_page : M → ℕ × M}
    (source : PageSource limine_hhdm pmm_alloc_page) (pml4 virt : ℕ) (v : Vm M)
    → Space source pml4 v
    → let v' = vmm_unmap_page limine_hhdm pml4 virt v in
      Space source pml4 v'
      × (vmm_get_mapping limine_hhdm v'.entry pml4 virt ≡ 0)
      × ((other : ℕ)
          → page_number other ≢ page_number virt
          → vmm_get_mapping limine_hhdm v'.entry pml4 other
            ≡ vmm_get_mapping limine_hhdm v.entry pml4 other)
unfolding vmm_unmap_page
vmm_unmap_page_lem {limine_hhdm} source pml4 virt v s =
    elim (Bool-cases (last_table h v.entry pml4 virt == 0)) [
      | inl z ↦ rw z (s, unfold vmm_get_mapping in rw z refl, λ other ne. refl)
      | inr found ↦
          elim (Bool-cases
            (and64 (v.entry (last_table h v.entry pml4 virt) (pt_index virt)) vmm_present == 0)) [
              | inl absent ↦
                  rw (found, absent)
                    (s, unfold vmm_get_mapping mapped in rw (found, absent) refl, λ other ne. refl)
              | inr here ↦ rw (found, here) (space found, (gone found).1, (gone found).2)
            ]
    ]
  where
    h : ℕ
    h = limine_hhdm

    w : Tables
    w = write (last_table h v.entry pml4 virt) (pt_index virt) 0 v.entry

    gone :
        (last_table h v.entry pml4 virt == 0) ≡ false
        → IsTree h w s.label
          × (vmm_get_mapping h w pml4 virt ≡ 0)
          × ((other : ℕ)
              → page_number other ≢ page_number virt
              → vmm_get_mapping h w pml4 other ≡ vmm_get_mapping h v.entry pml4 other)
    gone found =
        let at = (met h v.entry s.label s.tree pml4 virt s.root found).3 in
        rw at (
          written-IsTree h v.entry s.label s.tree
              (pt h v.entry s.label s.tree pml4 virt s.root found) (pt_index virt) 0
              (last h v.entry s.label s.tree pml4 virt s.root found),
          vmm_get_mapping-read h _ pml4 virt
              ∙ read-virt h v.entry s.label s.tree pml4 virt s.root found 0
              ∙ mapped-zero h,
          λ other ne.
              vmm_get_mapping-read h _ pml4 other
              ∙ read-others h v.entry s.label s.tree pml4 virt s.root found 0 other ne
              ∙ sym (vmm_get_mapping-read h v.entry pml4 other),
        )

    space :
        (last_table h v.entry pml4 virt == 0) ≡ false
        → Space source pml4 (record v { entry = w; invalidated = virt ∷ v.invalidated })
    space found = record {
      label = s.label;
      tree = (gone found).0;
      unused = s.unused;
      root = s.root;
    }
