-- ===== src/Pmm/Init.antt =====
-- pmm_init: the bitmap is placed, every page is marked used, the usable pages are freed, and the
-- pages of the kernel and of the bitmap are locked again.
pub mod Ranges
pub mod Startup
use mathlib.Core.Option
use open_idp_os.Base.{
  ℕ, zero, suc, ◌+◌, ◌-◌, ◌*◌, ◌/◌, ◌%◌, ◌^◌, ◌≤◌, ◌<◌, ◌≡◌, ◌∙◌, sym, refl, ap, Bool, true, false,
  not, ◌&&◌, ◌||◌, Option, none, some, List, [], ◌∷◌, arith, ◌==◌, ltb, leb, if◌then◌else◌,
  Bool-cases, inl, inr, add64, sub64,
}
use open_idp_os.Pmm.{Pmm, page_size, release_loop}
use open_idp_os.Pmm.Bits.{Bitmap, bitmap_set, bitmap_test}

-- limine_memmap_entry.
pub record Entry : Type 0 where
  pub base : ℕ
  pub length : ℕ
  pub type : ℕ

abbrev pub memmap_usable : ℕ
memmap_usable = 0

-- For a power of two, `x & ~(alignment - 1)` takes the remainder off.
unfoldable pub align_down : (value alignment : ℕ) → ℕ
align_down value alignment = value - value % alignment

unfoldable pub align_up : (value alignment : ℕ) → ℕ
unfolding align_down
align_up value alignment = align_down (add64 value (alignment - 1)) alignment

unfoldable pub count_total_pages : List Entry → ℕ → ℕ
count_total_pages [] total = total
count_total_pages (e ∷ es) total =
    count_total_pages es
      (if e.type == memmap_usable then add64 total (e.length / page_size) else total)

unfoldable pub size_bytes : (total_pages : ℕ) → ℕ
size_bytes total_pages = add64 total_pages (8 - 1) / 8

unfoldable pub size_pages : (total_pages : ℕ) → ℕ
unfolding size_bytes align_up
size_pages total_pages = align_up (size_bytes total_pages) page_size / page_size

-- `none` is the panic, a loop without end.
unfoldable pub place_bitmap : List Entry → (size_in_pages : ℕ) → Option ℕ
unfolding align_up
place_bitmap [] size = none
place_bitmap (e ∷ es) size =
    if e.type == memmap_usable && leb (size * page_size) e.length
    then some (align_up e.base page_size)
    else place_bitmap es size

-- memset(pmm_bitmap, 0xFF, size).
unfoldable pub fill : (size : ℕ) → Bitmap → Bitmap
fill size b i = if ltb i size then 0xFF else b i

-- The rest of a round of free_usable_pages: it leaves an empty range, and frees the used pages.
unfoldable pub release_range : (start_page end_page : ℕ) → Pmm → Pmm
release_range start_page end_page m =
    if leb end_page start_page then m else release_loop (end_page - start_page) start_page m

unfoldable pub free_entry : Entry → Pmm → Pmm
free_entry e m =
    if not (e.type == memmap_usable)
    then m
    else release_range (align_up e.base page_size / page_size)
        (align_down (add64 e.base e.length) page_size / page_size) m

unfoldable pub free_usable_pages : List Entry → Pmm → Pmm
free_usable_pages [] m = m
free_usable_pages (e ∷ es) m = free_usable_pages es (free_entry e m)

unfoldable pub lock_page : ℕ → Pmm → Pmm
lock_page page m =
    if not (bitmap_test m.bitmap page)
    then record m { bitmap = bitmap_set page m.bitmap; used_pages = add64 m.used_pages 1 }
    else m

unfoldable pub lock_loop : (n page : ℕ) → Pmm → Pmm
lock_loop zero page m = m
lock_loop (suc n) page m = lock_loop n (page + 1) (lock_page page m)

unfoldable pub lock_pages_range : (start_phys end_phys : ℕ) → Pmm → Pmm
lock_pages_range start_phys end_phys m =
    let start_page = align_up start_phys page_size / page_size in
    let end_page = align_down end_phys page_size / page_size in
    if leb end_page start_page then m else lock_loop (end_page - start_page) start_page m

-- The state once the bitmap is placed at `phys` in the memory `raw`, all pages marked used.
unfoldable pub all_used : (es : List Entry) (hhdm : ℕ) (raw : Bitmap) (phys : ℕ) → Pmm
all_used es hhdm raw phys =
    let total = count_total_pages es 0 in
    record {
      bitmap = fill (size_bytes total) raw;
      bitmap_phys = phys;
      total_pages = total;
      used_pages = total;
      bitmap_size_bytes = size_bytes total;
      bitmap_size_pages = size_pages total;
      last_search_pos = 0;
      limine_hhdm = hhdm;
    }

-- The linker symbols give the kernel's size, and the boot loader its physical base.
unfoldable pub lock_kernel_pages : (physical_base kernel_size : ℕ) → Pmm → Pmm
lock_kernel_pages base size m = lock_pages_range base (add64 base size) m

unfoldable pub lock_bitmap_pages : Pmm → Pmm
lock_bitmap_pages m =
    lock_pages_range m.bitmap_phys (add64 m.bitmap_phys (m.bitmap_size_pages * page_size)) m

-- `raw` is what the memory holds where the bitmap is placed.
unfoldable pub pmm_init :
    List Entry → (kernel_base kernel_size hhdm : ℕ) (raw : Bitmap) → Option Pmm
pmm_init es kernel_base kernel_size hhdm raw =
    Option.map
      (λ phys. lock_bitmap_pages (
        lock_kernel_pages kernel_base kernel_size
          (free_usable_pages es (all_used es hhdm raw phys))))
      (place_bitmap es (size_pages (count_total_pages es 0)))
