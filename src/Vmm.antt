-- ===== src/Vmm.antt =====
-- src/memory/vmm.c and include/memory/vmm.h: the page tables of four levels. A table is a page,
-- whose words are taken by their index; the page allocator is an operation on a state of its own.
pub mod Entries
pub mod Tree
pub mod Source
pub mod Grow
pub mod Alloc
pub mod Leaf
pub mod Map
pub mod Unmap
pub mod Fork
mod Tests
use open_idp_os.Base.{
  ℕ, zero, suc, ◌+◌, ◌-◌, ◌/◌, ◌%◌, ◌^◌, Bool, not, Option, none, some, List, [], ◌∷◌, ◌==◌, ltb,
  if◌then◌else◌, ◌>>=◌, update, add64, sub64, or64, and64,
}

abbrev pub vmm_present : ℕ
vmm_present = 1

abbrev pub vmm_write : ℕ
vmm_write = 2

abbrev pub vmm_user : ℕ
vmm_user = 4

abbrev pub page_align_mask : ℕ
page_align_mask = 0x000FFFFFFFFFF000

abbrev pub pml4_index : ℕ → ℕ
pml4_index x = x / 2 ^ 39 % 512

abbrev pub pdpt_index : ℕ → ℕ
pdpt_index x = x / 2 ^ 30 % 512

abbrev pub pd_index : ℕ → ℕ
pd_index x = x / 2 ^ 21 % 512

abbrev pub pt_index : ℕ → ℕ
pt_index x = x / 2 ^ 12 % 512

-- The words of the tables by address and index.
abbrev pub Tables : Type 0
Tables = ℕ → ℕ → ℕ

-- The tables, the page allocator's state, and the addresses that `invlpg` got, the last one first.
pub record Vm (M : Type 0) : Type 0 where
  pub entry : Tables
  pub pages : M
  pub invalidated : List ℕ

abbrev pub write : (table index e : ℕ) → Tables → Tables
write table index e f = update f table (update (f table) index e)

abbrev pub map_entry : (phys flags : ℕ) → ℕ
map_entry phys flags = or64 (or64 (and64 phys page_align_mask) flags) vmm_present

module _ (limine_hhdm : ℕ) where
  abbrev pub phys_to_virt : ℕ → ℕ
  phys_to_virt phys = add64 phys limine_hhdm

  abbrev pub virt_to_phys : ℕ → ℕ
  virt_to_phys virt = sub64 virt limine_hhdm

  -- The table that an entry points to, or NULL.
  pub linked : (e : ℕ) → ℕ
  linked e = if not (and64 e vmm_present == 0) then phys_to_virt (and64 e page_align_mask) else 0

  abbrev pub get_table_noalloc : Tables → (table index : ℕ) → ℕ
  get_table_noalloc f table index = linked (f table index)

  -- The table of the last level on the way to `virt`, or NULL.
  pub last_table : Tables → (pml4 virt : ℕ) → ℕ
  last_table f pml4 virt =
      let pdpt = get_table_noalloc f pml4 (pml4_index virt) in
      let pd = get_table_noalloc f pdpt (pdpt_index virt) in
      let pt = get_table_noalloc f pd (pd_index virt) in
      if pdpt == 0 then 0 else if pd == 0 then 0 else pt

  -- The page that an entry maps, or 0.
  pub mapped : (e : ℕ) → ℕ
  mapped e = if and64 e vmm_present == 0 then 0 else and64 e page_align_mask

  pub vmm_get_mapping : Tables → (pml4 virt : ℕ) → ℕ
  unfolding last_table
  vmm_get_mapping f pml4 virt =
      let pt = last_table f pml4 virt in if pt == 0 then 0 else mapped (f pt (pt_index virt))

  module _ {M : Type 0} where
    pub vmm_unmap_page : (pml4 virt : ℕ) → Vm M → Vm M
    unfolding last_table
    vmm_unmap_page pml4 virt v =
        let pt = last_table v.entry pml4 virt in
        if pt == 0
        then v
        else if not (and64 (v.entry pt (pt_index virt)) vmm_present == 0)
        then record v {
          entry = write pt (pt_index virt) 0 v.entry;
          invalidated = virt ∷ v.invalidated;
        }
        else v

    module _ (pmm_alloc_page : M → ℕ × M) where
      -- `none` is the loop without end behind "Out of memory".
      pub get_or_alloc_table : (table index : ℕ) → Vm M → Option (ℕ × Vm M)
      get_or_alloc_table table index v =
          let e = v.entry table index in
          if not (and64 e vmm_present == 0)
          then (let e' = if and64 e vmm_user == 0 then or64 e vmm_user else e in
              some (
                phys_to_virt (and64 e' page_align_mask),
                record v { entry = write table index e' v.entry },
              ))
          else (let (new_table, pages') = pmm_alloc_page v.pages in
              if new_table == 0
              then none
              else some (
                new_table,
                record v {
                  entry =
                      write table index
                        (or64 (or64 (or64 (virt_to_phys new_table) vmm_present) vmm_write) vmm_user)
                        (update v.entry new_table (λ _. 0));
                  pages = pages';
                },
              ))

      pub vmm_map_page : (pml4 virt phys flags : ℕ) → Vm M → Option (Vm M)
      unfolding get_or_alloc_table
      vmm_map_page pml4 virt phys flags v = do
        (pdpt, v₁) ← get_or_alloc_table pml4 (pml4_index virt) v
        (pd, v₂) ← get_or_alloc_table pdpt (pdpt_index virt) v₁
        (pt, v₃) ← get_or_alloc_table pd (pd_index virt) v₂
        some (record v₃ {
          entry = write pt (pt_index virt) (map_entry phys flags) v₃.entry;
          invalidated = virt ∷ v₃.invalidated;
        })

      -- The result is the physical address, for CR3.
      pub vmm_create_process_pml4 : (master_kernel_pml4 : ℕ) → Vm M → ℕ × Vm M
      vmm_create_process_pml4 master_kernel_pml4 v =
          let (new, pages') = pmm_alloc_page v.pages in
          if new == 0 then (0, record v { pages = pages' }) else (
            virt_to_phys new,
            record v {
              entry =
                  update v.entry new (λ i. if ltb i 256 then 0 else v.entry master_kernel_pml4 i);
              pages = pages';
            },
          )

      pub vmm_create_pml4 : Vm M → ℕ × Vm M
      vmm_create_pml4 v =
          let (pml4, pages') = pmm_alloc_page v.pages in
          if pml4 == 0
          then (0, record v { pages = pages' })
          else (pml4, record v { entry = update v.entry pml4 (λ _. 0); pages = pages' })
