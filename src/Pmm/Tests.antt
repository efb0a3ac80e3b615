-- ===== src/Pmm/Tests.antt =====
-- The page allocator at concrete inputs.

use open_idp_os.Base.{
  ℕ, ◌+◌, ◌*◌, ◌^◌, ◌≤◌, ◌<◌, ◌≡◌, ◌≢◌, ◌⊎◌, refl, false, some, List, [], ◌∷◌, arith, ◌==◌,
  if◌then◌else◌,
}
use open_idp_os.Pmm.{
  Pmm, address_of, search_loop, finish_alloc, pmm_alloc_page, pmm_free_page, pmm_alloc_pages,
  pmm_free_pages,
}
use open_idp_os.Pmm.Bits.{bitmap_set, bitmap_test}
use open_idp_os.Pmm.Count.{used_below}
use open_idp_os.Pmm.Valid.{IsValid}
use open_idp_os.Pmm.Alloc.{Allocated, pmm_alloc_page_lem}
use open_idp_os.Pmm.Free.{Released, pmm_free_page_lem, alloc_free, alloc-ne-alloc}
use open_idp_os.Pmm.Scan.{HasUsed}
use open_idp_os.Pmm.Pages.{AllocatedRun, ReleasedRun, pmm_alloc_pages_lem, pmm_free_pages_lem}
use open_idp_os.Pmm.Init.{Entry}

-- Four pages, of which 0 and 2 are used; the search stands at page 2.
abbrev four : Pmm
four = record {
  bitmap = λ i. if i == 0 then 0x05 else 0;
  bitmap_phys = 0;
  total_pages = 4;
  used_pages = 2;
  bitmap_size_bytes = 1;
  bitmap_size_pages = 1;
  last_search_pos = 2;
  limine_hhdm = 2 ^ 63;
}

four-IsValid : IsValid four
unfolding used_below bitmap_test
four-IsValid = record {
  bytes = λ i. ground arith;
  counted = refl;
  position = omega arith;
  fits = omega arith;
}

pmm_alloc_page_example :
    (2 < 4
      → (page : ℕ) × (m' : Pmm) × (pmm_alloc_page four ≡ some (address_of four page, m'))
        × Allocated four page m')
    × (4 ≤ 2 → pmm_alloc_page four ≡ some (0, four))
pmm_alloc_page_example = pmm_alloc_page_lem four four-IsValid

-- Page 3 is the next free page.
abbrev after_three : Pmm
after_three = record four { bitmap = bitmap_set 3 four.bitmap; used_pages = 3; last_search_pos = 3 }

alloc_three : pmm_alloc_page four ≡ some (2 ^ 63 + 3 * 4096, after_three)
unfolding pmm_alloc_page search_loop finish_alloc bitmap_test
alloc_three = refl

pmm_free_page_example :
    Released four 1 (pmm_free_page (address_of four 1) four)
    × (bitmap_test four.bitmap 1 ≡ false → pmm_free_page (address_of four 1) four ≡ four)
pmm_free_page_example = pmm_free_page_lem four 1 four-IsValid (omega arith)

alloc_free_example :
    (a : ℕ) × (m' : Pmm) × (pmm_alloc_page four ≡ some (a, m'))
    × ((q : ℕ) → bitmap_test (pmm_free_page a m').bitmap q ≡ bitmap_test four.bitmap q)
    × ((pmm_free_page a m').used_pages ≡ 2)
    × IsValid (pmm_free_page a m')
alloc_free_example = alloc_free four four-IsValid (omega arith)

abbrev after_both : Pmm
after_both = record four {
  bitmap = bitmap_set 1 (bitmap_set 3 four.bitmap);
  used_pages = 4;
  last_search_pos = 1;
}

alloc_one : pmm_alloc_page after_three ≡ some (2 ^ 63 + 4096, after_both)
unfolding pmm_alloc_page search_loop finish_alloc bitmap_test bitmap_set
alloc_one = refl

alloc-ne-alloc_example : ◌≢◌ {A = ℕ} (2 ^ 63 + 3 * 4096) (2 ^ 63 + 4096)
alloc-ne-alloc_example =
    alloc-ne-alloc four after_three after_both (2 ^ 63 + 3 * 4096) (2 ^ 63 + 4096) four-IsValid
      (omega arith) alloc_three alloc_one

pmm_alloc_pages_example :
    ((s : ℕ) × (m' : Pmm) × (pmm_alloc_pages 1 four ≡ (address_of four s, m'))
      × AllocatedRun four s 1 m')
    ⊎ (((s : ℕ) → s + 1 ≤ 4 → HasUsed four.bitmap s 1) × (pmm_alloc_pages 1 four ≡ (0, four)))
pmm_alloc_pages_example = pmm_alloc_pages_lem four 1 four-IsValid (omega arith)

pmm_free_pages_example : ReleasedRun four 1 3 (pmm_free_pages (address_of four 1) 3 four)
pmm_free_pages_example = pmm_free_pages_lem four 1 3 four-IsValid (omega arith) (omega arith)

-- Page 0 is reserved, pages 1 to 8 and 12 to 15 are usable, page 10 is the kernel's, page 16 is the
-- ACPI tables'. The bitmap takes page 1, and has bits for pages 0 to 15.
abbrev sixteen_pages : List Entry
sixteen_pages =
    record { base = 0; length = 4096; type = 1 }
    ∷ record { base = 4096; length = 8 * 4096; type = 0 }
    ∷ record { base = 10 * 4096; length = 4096; type = 6 }
    ∷ record { base = 12 * 4096; length = 4 * 4096; type = 0 }
    ∷ record { base = 16 * 4096; length = 4096; type = 2 }
    ∷ []
