-- ===== src/Vmm/Fork.antt =====
-- vmm_create_process_pml4: the address space of a new process.
use open_idp_os.Base.{
  ℕ, ◌<◌, ◌≡◌, ◌∙◌, sym, refl, ap, false, arith, ◌==◌, ==_iff, ltb, if◌then◌else◌, length, List, [],
  ◌∷◌, Bool-cases, inl, inr, update,
}
use open_idp_os.Vmm.{
  Tables, Vm, linked, mapped, vmm_create_process_pml4, vmm_get_mapping, pml4_index, pdpt_index,
  pd_index, pt_index, virt_to_phys,
}
use open_idp_os.Vmm.Entries.{linked-zero}
use open_idp_os.Vmm.Tree.{
  read, read-step, read-grown, IsTree, Small, indices-Small, vmm_get_mapping-read,
}
use open_idp_os.Vmm.Source.{PageSource}
use open_idp_os.Vmm.Alloc.{Space}

module _ (h : ℕ) (f : Tables) (label : ℕ → List ℕ) (tree : IsTree h f label) (master new : ℕ)
    (root : label master ≡ []) (fresh : length (label new) ≡ 4) where
  forked : Tables
  forked = update f new (λ i. if ltb i 256 then 0 else f master i)

  other : (x : ℕ) → length (label x) < 4 → (j : ℕ) → forked x j ≡ f x j
  unfolding forked
  other x l j = elim (Bool-cases (new == x)) [
    | inl a ↦ absurd (omega (arith, ap (λ n. length (label n)) ((==_iff new x).0 a)))
    | inr b ↦ rw b refl
  ]

  at_new : (i : ℕ) → forked new i ≡ (if ltb i 256 then 0 else f master i)
  unfolding forked
  at_new i = ground arith

  -- The walks below the root are those of the master.
  below :
      (i j : ℕ) (is : List ℕ)
      → i < 512
      → Small (j ∷ is)
      → length (j ∷ is) ≡ 3
      → (linked h (f master i) == 0) ≡ false
      → read h forked (linked h (f master i)) (j ∷ is) ≡ read h f (linked h (f master i)) (j ∷ is)
  below i j is small smalls len live =
      let l₀ : length (label master) ≡ 0 = ap (λ (w : List ℕ). length w) root in
      let l₁ : length (label (linked h (f master i))) ≡ 1 =
        ap (λ (w : List ℕ). length w) (tree.child master i small (omega arith) live)
        ∙ (omega arith) in
      read-grown h f forked label tree (λ x k l. inl (ap (linked h) (other x (omega arith) k)))
        (λ x k l. ap (mapped h) (other x (omega arith) k)) (linked h (f master i)) (j ∷ is)
        (omega arith) smalls

  read-forked :
      (i j : ℕ) (is : List ℕ)
      → i < 512
      → Small (j ∷ is)
      → length (j ∷ is) ≡ 3
      → read h forked new (i ∷ j ∷ is) ≡ (if ltb i 256 then 0 else read h f master (i ∷ j ∷ is))
  read-forked i j is small smalls len = elim (Bool-cases (ltb i 256)) [
    | inl a ↦ read-step h forked new i j is ∙ (rw (at_new i, a, linked-zero h) refl)
    | inr b ↦ elim (Bool-cases (linked h (f master i) == 0)) [
      | inl z ↦
          read-step h forked new i j is ∙ (rw (at_new i, b, read-step h f master i j is, z) refl)
      | inr live ↦
          read-step h forked new i j is
          ∙ (rw (at_new i, b, read-step h f master i j is, live)
              (below i j is small smalls len live))
    ]
  ]

-- If the kernel's tables form a tree and the allocator has a page left, the root that
-- vmm_create_process_pml4 makes maps nothing in the lower half of the address space, and in the
-- upper half what the kernel's root maps; the result is the physical address of this root.
pub vmm_create_process_pml4_lem :
    {M : Type 0} {limine_hhdm : ℕ} {pmm_alloc_page : M → ℕ × M}
    (source : PageSource limine_hhdm pmm_alloc_page) (master : ℕ) (v : Vm M)
    → Space source master v
    → 0 < source.left v.pages
    → let new = (pmm_alloc_page v.pages).0 in
      let (phys, v') = vmm_create_process_pml4 limine_hhdm pmm_alloc_page master v in
      (phys ≡ virt_to_phys limine_hhdm new)
      × ((virt : ℕ)
          → vmm_get_mapping limine_hhdm v'.entry new virt ≡ (
              if ltb (pml4_index virt) 256
              then 0
              else vmm_get_mapping limine_hhdm v.entry master virt))
unfolding vmm_create_process_pml4 forked
vmm_create_process_pml4_lem {limine_hhdm} {pmm_alloc_page} source master v s enough =
    let new = (pmm_alloc_page v.pages).0 in
    let fr = source.alloc_free v.pages enough in
    let live : (new == 0) ≡ false = ground (arith, (source.free_page v.pages new fr).0) in
    rw live (
      refl,
      λ virt.
          vmm_get_mapping-read limine_hhdm _ new virt
          ∙ read-forked limine_hhdm v.entry s.label s.tree master new s.root (s.unused new fr)
              (pml4_index virt) (pdpt_index virt) (pd_index virt ∷ pt_index virt ∷ []) (omega arith)
              (indices-Small virt).1 refl
          ∙ ap (λ n. if ltb (pml4_index virt) 256 then 0 else n)
              (sym (vmm_get_mapping-read limine_hhdm v.entry master virt)),
    )
