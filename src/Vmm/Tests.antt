-- ===== src/Vmm/Tests.antt =====
-- The page tables at concrete inputs, with an allocator that has three pages.
use mathlib.Core.Path.{subst}
use open_idp_os.Base.{
  ℕ, suc, ◌^◌, ◌≤◌, ◌<◌, ◌≡◌, ◌≢◌, refl, Bool, true, false, ◌||◌, arith, ◌==◌, ltb, if◌then◌else◌,
  [], ◌∷◌, some, Bool-cases, inl, inr, and64, and_bits, and_digit,
}
use open_idp_os.Vmm.{
  Vm, vmm_map_page, vmm_unmap_page, vmm_create_process_pml4, vmm_get_mapping, pml4_index,
  page_align_mask, virt_to_phys,
}
use open_idp_os.Vmm.Entries.{linked-zero}
use open_idp_os.Vmm.Source.{PageSource}
use open_idp_os.Vmm.Leaf.{page_number}
use open_idp_os.Vmm.Alloc.{Space}
use open_idp_os.Vmm.Map.{vmm_map_page_lem}
use open_idp_os.Vmm.Fork.{vmm_create_process_pml4_lem}
use open_idp_os.Vmm.Unmap.{vmm_unmap_page_lem}

data Stock : Type 0 where
  empty : Stock
  one : Stock
  two : Stock
  three : Stock

abbrev hhdm : ℕ
hhdm = 0x10000000000

abbrev take_page : Stock → ℕ × Stock
take_page empty = (0, empty)
take_page one = (0x10000001000, empty)
take_page two = (0x10000002000, one)
take_page three = (0x10000003000, two)

abbrev in_stock : Stock → ℕ → Bool
in_stock empty q = false
in_stock one q = q == 0x10000001000
in_stock two q = (q == 0x10000002000) || (q == 0x10000001000)
in_stock three q = (q == 0x10000003000) || (q == 0x10000002000) || (q == 0x10000001000)

abbrev count : Stock → ℕ
count empty = 0
count one = 1
count two = 2
count three = 3

abbrev Page : ℕ → Type 0
Page p =
    (p ≢ 0) × (p < 2 ^ 64) × (and64 (virt_to_phys hhdm p) page_align_mask ≡ virt_to_phys hhdm p)

Page-1 : Page 0x10000001000
Page-1 = (omega arith, omega arith, unfold and_bits and_digit in refl)

Page-2 : Page 0x10000002000
Page-2 = (omega arith, omega arith, unfold and_bits and_digit in refl)

Page-3 : Page 0x10000003000
Page-3 = (omega arith, omega arith, unfold and_bits and_digit in refl)

in_stock-Page : (m : Stock) (p : ℕ) → in_stock m p ≡ true → Page p
in_stock-Page empty p e = absurd (ground arith)
in_stock-Page one p e = subst Page {x = 0x10000001000} (ground arith) Page-1
in_stock-Page two p e = elim (Bool-cases (p == 0x10000002000)) [
  | inl a ↦ subst Page {x = 0x10000002000} (ground arith) Page-2
  | inr b ↦ subst Page {x = 0x10000001000} (ground arith) Page-1
]
in_stock-Page three p e = elim (Bool-cases (p == 0x10000003000)) [
  | inl a ↦ subst Page {x = 0x10000003000} (ground arith) Page-3
  | inr b ↦ elim (Bool-cases (p == 0x10000002000)) [
    | inl a ↦ subst Page {x = 0x10000002000} (ground arith) Page-2
    | inr c ↦ subst Page {x = 0x10000001000} (ground arith) Page-1
  ]
]

rest_of :
    (m : Stock) (q : ℕ)
    → in_stock (take_page m).1 q ≡ true
    → (in_stock m q ≡ true) × (q ≢ (take_page m).0)
rest_of empty q e = absurd (ground arith)
rest_of one q e = absurd (ground arith)
rest_of two q e = (ground arith, ground arith)
rest_of three q e = (ground arith, ground arith)

abbrev stock : PageSource hhdm take_page
stock = record {
  hhdm_low = omega arith;
  hhdm_high = omega arith;
  left = count;
  free = in_stock;
  alloc_free = first;
  alloc_left = fewer;
  alloc_rest = rest_of;
  free_page = in_stock-Page;
}
  where
    first : (m : Stock) → 0 < count m → in_stock m (take_page m).0 ≡ true
    first empty lt = absurd (omega arith)
    first one lt = refl
    first two lt = refl
    first three lt = refl

    fewer : (m : Stock) → count m ≤ suc (count (take_page m).1)
    fewer empty = omega arith
    fewer one = omega arith
    fewer two = omega arith
    fewer three = omega arith

abbrev root_table : ℕ
root_table = 0x10000008000

abbrev start : Vm Stock
start = record { entry = λ _ _. 0; pages = three; invalidated = [] }

start-Space : Space stock root_table start
start-Space = record {
  label = λ t. if t == root_table then [] else 0 ∷ 0 ∷ 0 ∷ 0 ∷ [];
  tree = record { child = λ t i s l nz. absurd (ground (arith, linked-zero hhdm)) };
  unused = λ q fr. elim (Bool-cases (q == root_table)) [
    | inl a ↦ absurd (ground arith)
    | inr b ↦ rw b refl
  ];
  root = refl;
}

vmm_map_page_example :
    (v' : Vm Stock) × (vmm_map_page hhdm take_page root_table 0x400000 0x5000 7 start ≡ some v')
    × Space stock root_table v'
    × (vmm_get_mapping hhdm v'.entry root_table 0x400000 ≡ and64 0x5000 page_align_mask)
    × ((other : ℕ)
        → page_number other ≢ page_number 0x400000
        → vmm_get_mapping hhdm v'.entry root_table other
          ≡ vmm_get_mapping hhdm (λ _ _. 0) root_table other)
vmm_map_page_example =
    vmm_map_page_lem stock root_table 0x400000 0x5000 7 start start-Space
      (unfold and_bits and_digit in refl) (omega arith)

-- The state after that call.
first_map : (v' : Vm Stock) × Space stock root_table v'
first_map =
    let (v', _, space, _, _) =
      vmm_map_page_lem stock root_table 0x400000 0x5000 7 start start-Space
        (unfold and_bits and_digit in refl) (omega arith) in
    (v', space)

vmm_unmap_page_example :
    let v' = vmm_unmap_page hhdm root_table 0x400000 first_map.0 in
    Space stock root_table v'
    × (vmm_get_mapping hhdm v'.entry root_table 0x400000 ≡ 0)
    × ((other : ℕ)
        → page_number other ≢ page_number 0x400000
        → vmm_get_mapping hhdm v'.entry root_table other
          ≡ vmm_get_mapping hhdm first_map.0.entry root_table other)
vmm_unmap_page_example = vmm_unmap_page_lem stock root_table 0x400000 first_map.0 first_map.1

vmm_create_process_pml4_example :
    let (phys, v') = vmm_create_process_pml4 hhdm take_page root_table start in
    (phys ≡ virt_to_phys hhdm 0x10000003000)
    × ((virt : ℕ)
        → vmm_get_mapping hhdm v'.entry 0x10000003000 virt ≡ (
            if ltb (pml4_index virt) 256
            then 0
            else vmm_get_mapping hhdm (λ _ _. 0) root_table virt))
vmm_create_process_pml4_example =
    vmm_create_process_pml4_lem stock root_table start start-Space (omega arith)
