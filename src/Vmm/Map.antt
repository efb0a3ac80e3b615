-- ===== src/Vmm/Map.antt =====
-- vmm_map_page as a change of the address space.
use mathlib.Core.Path.{subst}
use open_idp_os.Base.{
  ℕ, ◌+◌, ◌≤◌, ◌<◌, ◌≡◌, ◌≢◌, ◌∙◌, sym, refl, ap, false, arith, ◌==◌, length, List, [], ◌∷◌, some,
  and64,
}
use open_idp_os.Vmm.{
  Tables, Vm, write, linked, mapped, vmm_map_page, vmm_get_mapping, map_entry, page_align_mask,
  pml4_index, pdpt_index, pd_index, pt_index,
}
use open_idp_os.Vmm.Entries.{mapped-map_entry}
use open_idp_os.Vmm.Tree.{
  read, read-linked, read-last, IsTree, Small, full, indices, indices-Small, vmm_get_mapping-read,
}
use open_idp_os.Vmm.Source.{PageSource}
use open_idp_os.Vmm.Grow.{Grown}
use open_idp_os.Vmm.Leaf.{
  page_number, walks_differ, write_self, above, written-IsTree, read-written,
}
use open_idp_os.Vmm.Alloc.{Unused, Space, get_or_alloc_table-Got}

module _ {M : Type 0} {limine_hhdm : ℕ} {pmm_alloc_page : M → ℕ × M}
    (source : PageSource limine_hhdm pmm_alloc_page) where
  open source use {left}

  -- The tables on the way to `virt` are there, and `pt` is the last one.
  root₃ :
      {f g : Tables} {label : ℕ → List ℕ} {t i t' pml4 : ℕ}
      (grown : Grown limine_hhdm f g label t i t')
      → label pml4 ≡ []
      → grown.label' pml4 ≡ []
  root₃ {pml4 = pml4} grown root =
      grown.keeps pml4 (omega (arith, ap (λ (w : List ℕ). length w) root)) ∙ root

  record Way (pml4 virt : ℕ) (v v' : Vm M) (pt : ℕ) : Type 0 where
    label : ℕ → List ℕ
    tree : IsTree limine_hhdm v'.entry label
    unused : Unused source label v'.pages
    root : label pml4 ≡ []
    place : pt_index virt ∷ label pt ≡ full (indices virt) []
    walk :
        (e : ℕ)
        → read limine_hhdm (write pt (pt_index virt) e v'.entry) pml4 (indices virt)
          ≡ mapped limine_hhdm e
    reads :
        (is : List ℕ)
        → length is ≡ 4
        → Small is
        → read limine_hhdm v'.entry pml4 is ≡ read limine_hhdm v.entry pml4 is

  keep-link :
      {f g : Tables} {label : ℕ → List ℕ} {t i t' : ℕ} (grown : Grown limine_hhdm f g label t i t')
      → (x j a : ℕ) → length (label x) < 3
      → linked limine_hhdm (f x j) ≡ a
      → (a == 0) ≡ false
      → linked limine_hhdm (g x j) ≡ a
  keep-link grown x j a low e live = grown.links x j low (ap (λ n. n == 0) e ∙ live) ∙ e

  -- The walk through the three tables, after the last of them was got.
  walk :
      {f g : Tables} {label : ℕ → List ℕ} {pml4 pdpt pd pt : ℕ} (virt : ℕ)
      (grown : Grown limine_hhdm f g label pd (pd_index virt) pt)
      → label pml4 ≡ []
      → length (label pdpt) ≡ 1
      → length (label pd) ≡ 2
      → linked limine_hhdm (f pml4 (pml4_index virt)) ≡ pdpt
      → (pdpt == 0) ≡ false
      → linked limine_hhdm (f pdpt (pdpt_index virt)) ≡ pd
      → (pd == 0) ≡ false
      → (e : ℕ)
      → read limine_hhdm (write pt (pt_index virt) e g) pml4 (indices virt) ≡ mapped limine_hhdm e
  walk {f} {g} {label} {pml4} {pdpt} {pd} {pt} virt grown root one two at₁ live₁ at₂ live₂ e =
      let zero_long : length (label pml4) ≡ 0 = ap (λ (w : List ℕ). length w) root in
      let h = limine_hhdm in
      let w = write pt (pt_index virt) e g in
      let last : length (grown.label' pt) ≡ 3 =
        ap (λ (w : List ℕ). length w) grown.place ∙ (omega arith) in
      let up : (x j : ℕ) → length (label x) < 3 → w x j ≡ g x j = λ x j l.
        above h g grown.label' grown.tree pt (pt_index virt) e last x j
          (subst (λ (z : List ℕ). length z < 3) (sym (grown.keeps x (omega arith))) l) in
      read-linked h w pml4 (pml4_index virt) pdpt _ _
        (ap (linked h) (up pml4 (pml4_index virt) (omega arith))
          ∙ keep-link grown pml4 (pml4_index virt) pdpt (omega arith) at₁ live₁)
        live₁
      ∙ read-linked h w pdpt (pdpt_index virt) pd _ _
          (ap (linked h) (up pdpt (pdpt_index virt) (omega arith))
            ∙ keep-link grown pdpt (pdpt_index virt) pd (omega arith) at₂ live₂)
          live₂
      ∙ read-linked h w pd (pd_index virt) pt _ _
          (ap (linked h) (up pd (pd_index virt) (omega arith)) ∙ grown.at) grown.alive
      ∙ read-last h w pt (pt_index virt)
      ∙ ap (mapped h) (write_self g pt (pt_index virt) e)

  map_page-Way :
      (pml4 virt phys flags : ℕ) (v : Vm M)
      → Space source pml4 v
      → 3 ≤ left v.pages
      → (v' : Vm M) × (pt : ℕ) × Way pml4 virt v v' pt
        × (vmm_map_page limine_hhdm pmm_alloc_page pml4 virt phys flags v
            ≡ some (record v' {
              entry = write pt (pt_index virt) (map_entry phys flags) v'.entry;
              invalidated = virt ∷ v'.invalidated;
            }))
  unfolding vmm_map_page
  map_page-Way pml4 virt phys flags v s enough =
      let root₀ : length (s.label pml4) ≡ 0 = ap (λ (w : List ℕ). length w) s.root in
      let (t₁, v₁, g₁, e₁, u₁, n₁, _) =
        get_or_alloc_table-Got source s.label pml4 (pml4_index virt) v s.tree s.unused (omega arith)
          (omega arith) (omega arith) in
      let root₁ : g₁.label' pml4 ≡ [] = g₁.keeps pml4 (omega arith) ∙ s.root in
      let place₁ : g₁.label' t₁ ≡ pml4_index virt ∷ [] =
        g₁.place ∙ ap (λ w. pml4_index virt ∷ w) s.root in
      let len₁ : length (g₁.label' t₁) ≡ 1 = ap (λ (w : List ℕ). length w) place₁ in
      let (t₂, v₂, g₂, e₂, u₂, n₂, _) =
        get_or_alloc_table-Got source g₁.label' t₁ (pdpt_index virt) v₁ g₁.tree u₁ (omega arith)
          (omega arith) (omega arith) in
      let root₂ : g₂.label' pml4 ≡ [] =
        g₂.keeps pml4 (omega (arith, ap (λ (w : List ℕ). length w) root₁)) ∙ root₁ in
      let place₂ : g₂.label' t₂ ≡ pdpt_index virt ∷ pml4_index virt ∷ [] =
        g₂.place ∙ ap (λ w. pdpt_index virt ∷ w) place₁ in
      let len₂ : length (g₂.label' t₂) ≡ 2 = ap (λ (w : List ℕ). length w) place₂ in
      let first₂ : length (g₂.label' t₁) ≡ 1 =
        ap (λ (w : List ℕ). length w) (g₂.keeps t₁ (omega arith)) ∙ len₁ in
      let (t₃, v₃, g₃, e₃, u₃, n₃, _) =
        get_or_alloc_table-Got source g₂.label' t₂ (pd_index virt) v₂ g₂.tree u₂ (omega arith)
          (omega arith) (omega arith) in
      (
        v₃,
        t₃,
        record {
          label = g₃.label';
          tree = g₃.tree;
          unused = u₃;
          root = root₃ g₃ root₂;
          place = ap (λ w. pt_index virt ∷ w) (g₃.place ∙ ap (λ w. pd_index virt ∷ w) place₂);
          walk =
              walk virt g₃ root₂ first₂ len₂
                (keep-link g₂ pml4 (pml4_index virt) t₁
                  (omega (arith, ap (λ (w : List ℕ). length w) root₁)) g₁.at g₁.alive)
                g₁.alive g₂.at g₂.alive;
          reads = λ is l sm.
              g₃.reads pml4 is (ap (λ w. length is + length w) root₂ ∙ (omega arith)) sm
              ∙ g₂.reads pml4 is (ap (λ w. length is + length w) root₁ ∙ (omega arith)) sm
              ∙ g₁.reads pml4 is (ap (λ w. length is + length w) s.root ∙ (omega arith)) sm;
        },
        rw (e₁, e₂, e₃) refl,
      )

  -- If the tables form a tree, the flags lie outside the address bits and the allocator has three
  -- pages left, vmm_map_page ends; the tables form a tree again, vmm_get_mapping then gives the
  -- page of `phys` at `virt`, and what it gave before at every address of another page.
  pub vmm_map_page_lem :
      (pml4 virt phys flags : ℕ) (v : Vm M)
      → Space source pml4 v
      → and64 flags page_align_mask ≡ 0
      → 3 ≤ left v.pages
      → (v' : Vm M) × (vmm_map_page limine_hhdm pmm_alloc_page pml4 virt phys flags v ≡ some v')
        × Space source pml4 v'
        × (vmm_get_mapping limine_hhdm v'.entry pml4 virt ≡ and64 phys page_align_mask)
        × ((other : ℕ)
            → page_number other ≢ page_number virt
            → vmm_get_mapping limine_hhdm v'.entry pml4 other
              ≡ vmm_get_mapping limine_hhdm v.entry pml4 other)
  vmm_map_page_lem pml4 virt phys flags v s out enough =
      let (v', pt, way, e) = map_page-Way pml4 virt phys flags v s enough in
      let h = limine_hhdm in
      let w = write pt (pt_index virt) (map_entry phys flags) v'.entry in
      let last : length (way.label pt) ≡ 3 =
        omega (arith, ap (λ (z : List ℕ). length z) way.place) in
      let four : (is : List ℕ) → length is ≡ 4 → length is + length (way.label pml4) ≡ 4 =
        λ is l. ap (λ z. length is + length z) way.root ∙ (omega arith) in
      (
        _,
        e,
        record {
          label = way.label;
          tree =
              written-IsTree h v'.entry way.label way.tree pt (pt_index virt) (map_entry phys flags)
                last;
          unused = way.unused;
          root = way.root;
        },
        vmm_get_mapping-read h w pml4 virt
            ∙ way.walk (map_entry phys flags)
            ∙ mapped-map_entry h phys flags out,
        λ other ne.
            vmm_get_mapping-read h w pml4 other
            ∙ read-written h v'.entry way.label way.tree pt (pt_index virt) (map_entry phys flags)
                last pml4 (indices other) (four (indices other) refl) (indices-Small other)
                (λ same. walks_differ other virt ne (
                  subst (λ z. full (indices other) z ≡ pt_index virt ∷ way.label pt) way.root same
                  ∙ way.place))
            ∙ way.reads (indices other) refl (indices-Small other)
            ∙ sym (vmm_get_mapping-read h v.entry pml4 other),
      )
