-- ===== src/Pmm.antt =====
-- src/memory/pmm.c: the allocator of physical page frames, a bitmap with a next-fit search for one
-- page and a first-fit search for a run of pages.
pub mod Bits
pub mod Count
pub mod Valid
pub mod Search
pub mod Alloc
pub mod Free
pub mod Scan
pub mod Pages
pub mod Init
mod Tests
use mathlib.Core.Option
use open_idp_os.Base.{
  ℕ, zero, suc, ◌+◌, ◌-◌, ◌*◌, ◌/◌, ◌%◌, Bool, true, false, not, ◌||◌, Option, none, some, arith,
  ◌==◌, ltb, leb, if◌then◌else◌, add64, sub64,
}
use Bits.{Bitmap, bitmap_set, bitmap_clear, bitmap_test}

abbrev pub page_size : ℕ
page_size = 4096

-- The static variables, with the static of pmm_alloc_page and limine_hhdm.
pub record Pmm : Type 0 where
  pub bitmap : Bitmap
  pub bitmap_phys : ℕ
  pub total_pages : ℕ
  pub used_pages : ℕ
  pub bitmap_size_bytes : ℕ
  pub bitmap_size_pages : ℕ
  pub last_search_pos : ℕ
  pub limine_hhdm : ℕ

-- The pointer to a page, through the higher-half map.
abbrev pub address_of : Pmm → ℕ → ℕ
address_of m page = add64 (page * page_size) m.limine_hhdm

abbrev pub page_of : Pmm → ℕ → ℕ
page_of m addr = sub64 addr m.limine_hhdm / page_size

-- The do-while loop of pmm_alloc_page, on fuel: the page that is found, if any, and the position
-- where the search stops.
unfoldable pub search_loop : Bitmap → (total start : ℕ) → ℕ → (pos : ℕ) → Option (Option ℕ × ℕ)
search_loop b total start zero pos = none
search_loop b total start (suc fuel) pos =
    let next = (pos + 1) % total in
    let rest = search_loop b total start fuel next in
    if not (bitmap_test b pos)
    then some (some pos, pos)
    else if next == start
    then some (none, next)
    else rest

unfoldable pub finish_alloc : Pmm → Option ℕ × ℕ → ℕ × Pmm
finish_alloc m (none, pos) = (0, record m { last_search_pos = pos })
finish_alloc m (some page, pos) = (
  address_of m page,
  record m {
    bitmap = bitmap_set page m.bitmap;
    used_pages = add64 m.used_pages 1;
    last_search_pos = pos;
  },
)

-- 0 is NULL. `none` means that the fuel, a round for each page, ran out.
unfoldable pub pmm_alloc_page : Pmm → Option (ℕ × Pmm)
unfolding search_loop finish_alloc
pmm_alloc_page m =
    if leb m.total_pages m.used_pages
    then some (0, m)
    else Option.map (finish_alloc m)
        (search_loop m.bitmap m.total_pages m.last_search_pos m.total_pages m.last_search_pos)

-- The `if (bitmap_test(page)) … else …` of the two free functions.
unfoldable pub release : ℕ → Pmm → Pmm
release page m =
    if not (bitmap_test m.bitmap page)
    then m
    else record m { bitmap = bitmap_clear page m.bitmap; used_pages = sub64 m.used_pages 1 }

unfoldable pub pmm_free_page : ℕ → Pmm → Pmm
unfolding release
pmm_free_page addr m = release (page_of m addr) m

-- The scan of pmm_alloc_pages over the `n` pages from `i` on.
unfoldable pub scan_loop : Bitmap → (count : ℕ) → ℕ → (i consecutive start_page : ℕ) → Option ℕ
scan_loop b count zero i consecutive start_page = none
scan_loop b count (suc n) i consecutive start_page =
    let start = (if consecutive == 0 then i else start_page) in
    let longer = scan_loop b count n (i + 1) (consecutive + 1) start in
    let again = scan_loop b count n (i + 1) 0 start_page in
    if not (bitmap_test b i)
    then (if consecutive + 1 == count then some start else longer)
    else again

unfoldable pub set_loop : (n page : ℕ) → Bitmap → Bitmap
set_loop zero page b = b
set_loop (suc n) page b = set_loop n (page + 1) (bitmap_set page b)

unfoldable pub take_run : (count : ℕ) → Pmm → Option ℕ → ℕ × Pmm
take_run count m none = (0, m)
take_run count m (some start) = (
  address_of m start,
  record m { bitmap = set_loop count start m.bitmap; used_pages = add64 m.used_pages count },
)

unfoldable pub pmm_alloc_pages : (count : ℕ) → Pmm → ℕ × Pmm
unfolding scan_loop set_loop take_run
pmm_alloc_pages count m =
    if count == 0 || ltb m.total_pages (add64 m.used_pages count)
    then (0, m)
    else take_run count m (scan_loop m.bitmap count m.total_pages 0 0 0)

unfoldable pub release_loop : (n page : ℕ) → Pmm → Pmm
release_loop zero page m = m
release_loop (suc n) page m = release_loop n (page + 1) (release page m)

unfoldable pub pmm_free_pages : (addr count : ℕ) → Pmm → Pmm
unfolding release_loop
pmm_free_pages addr count m = if count == 0 then m else release_loop count (page_of m addr) m
