-- ===== src/Pmm/Valid.antt =====
-- The invariant of the page allocator.
use open_idp_os.Base.{ℕ, ◌+◌, ◌*◌, ◌^◌, ◌≤◌, ◌<◌, ◌≡◌, arith}
use open_idp_os.Pmm.{Pmm, page_size, address_of, page_of}
use open_idp_os.Pmm.Bits.{IsBytes}
use open_idp_os.Pmm.Count.{used_below, used_below-le}

-- `used_pages` counts the used pages, the search position is a page, and the addresses of the
-- pages do not wrap.
pub record IsValid (m : Pmm) : Type 0 where
  pub bytes : IsBytes m.bitmap
  pub counted : m.used_pages ≡ used_below m.bitmap m.total_pages
  pub position : m.last_search_pos < m.total_pages
  pub fits : m.limine_hhdm + m.total_pages * page_size ≤ 2 ^ 64

pub used_pages-le : {m : Pmm} → IsValid m → m.used_pages ≤ m.total_pages
used_pages-le {m} v = omega (arith, v.counted, used_below-le m.bitmap m.total_pages)

-- The address of a page leads back to the page.
pub page_of-address_of :
    {m : Pmm} (page : ℕ) → IsValid m → page < m.total_pages → page_of m (address_of m page) ≡ page
page_of-address_of page v h = omega (arith, v.fits)
