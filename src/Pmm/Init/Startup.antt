-- ===== src/Pmm/Init/Startup.antt =====
-- What pmm_init makes of the memory map.

use open_idp_os.Base.{ℕ, ltb, ◌/◌, ◌+◌, ◌*◌, ◌^◌, ◌≤◌, ◌≡◌, Bool, false, ◌||◌, some, List, [], ◌∷◌}
use open_idp_os.Pmm.{Pmm, page_size}
use open_idp_os.Pmm.Bits.{Bitmap, IsBytes, bitmap_test}
use open_idp_os.Pmm.Init.{
  Entry, free_usable_pages, lock_pages_range, size_bytes, all_used, count_total_pages, size_pages,
  place_bitmap,
}
use open_idp_os.Pmm.Init.Ranges.{EndsBelow, entry_holds}

-- A page whose frame lies in some usable entry.
abbrev pub usable : List Entry → ℕ → Bool
usable [] q = false
usable (e ∷ es) q = entry_holds e q || usable es q

abbrev pub AllEndBelow : (N : ℕ) → List Entry → Type 0
AllEndBelow N [] = Unit {0}
AllEndBelow N (e ∷ es) = EndsBelow N e × AllEndBelow N es

-- What the boot loader hands over: a memory map whose usable entries, like the kernel, end below N
-- pages of physical memory, and memory that holds bytes.
pub record Machine (N : ℕ) (es : List Entry) (kernel_base kernel_size phys : ℕ) (raw : Bitmap)
    : Type 0 where
  pub bytes : IsBytes raw
  pub small : N * page_size + page_size ≤ 2 ^ 64
  pub placed : place_bitmap es (size_pages (count_total_pages es 0)) ≡ some phys
  pub entries : AllEndBelow N es
  pub kernel_in : kernel_base + kernel_size ≤ N * page_size
  pub bitmap_in : phys + size_pages (count_total_pages es 0) * page_size ≤ N * page_size

-- The bit of a page once the bitmap is filled: 1 within it, and behind it what the memory held.
abbrev pub filled_bit : List Entry → Bitmap → ℕ → Bool
filled_bit es raw q = ltb (q / 8) (size_bytes (count_total_pages es 0)) || bitmap_test raw q

module _ {N : ℕ} {es : List Entry} {kernel_base kernel_size phys : ℕ} {raw : Bitmap}
    (h : Machine N es kernel_base kernel_size phys raw) (hhdm : ℕ) where
  start : Pmm
  start = all_used es hhdm raw phys

  sp : ℕ
  sp = size_pages (count_total_pages es 0)

  freed : Pmm
  freed = free_usable_pages es start

  with_kernel : Pmm
  with_kernel = lock_pages_range kernel_base (kernel_base + kernel_size) freed
