-- ===== src/Pmm/Alloc.antt =====
-- pmm_alloc_page and pmm_free_page: one page at a time.

use native.Mathlib.Nat.{mod-eq_of_lt, mod-eq-sub-mod}
use native.Mathlib.Decide.{dec_lt}
use open_idp_os.Base.{
  ℕ, le→leb, ◌+◌, ◌-◌, ◌%◌, ◌≤◌, ◌<◌, ◌≡◌, ◌∙◌, refl, ap, false, ◌||◌, some, arith, ◌==◌, leb,
  add64,
}
use open_idp_os.Pmm.{Pmm, address_of, search_loop, finish_alloc, pmm_alloc_page}
use open_idp_os.Pmm.Bits.{bitmap_set, bitmap_test, bitmap_set-IsBytes, bitmap_test-set}
use open_idp_os.Pmm.Count.{used_below, free_page_of_lt, used_below-set}
use open_idp_os.Pmm.Valid.{IsValid, used_pages-le}
use open_idp_os.Pmm.Search.{search_loop-finds}

-- The state after page `p` is taken.
abbrev pub taken : Pmm → ℕ → Pmm
taken m p = record m {
  bitmap = bitmap_set p m.bitmap;
  used_pages = add64 m.used_pages 1;
  last_search_pos = p;
}

pub taken-IsValid :
    {m : Pmm} (p : ℕ)
    → IsValid m
    → p < m.total_pages
    → bitmap_test m.bitmap p ≡ false
    → IsValid (taken m p) × ((taken m p).used_pages ≡ m.used_pages + 1)
taken-IsValid {m} p v h free = (
  record {
    bytes = bitmap_set-IsBytes p v.bytes;
    counted = omega (arith, more, up);
    position = h;
    fits = v.fits;
  },
  up,
)
  where
    more : used_below (bitmap_set p m.bitmap) m.total_pages ≡ used_below m.bitmap m.total_pages + 1
    more = used_below-set p v.bytes m.total_pages h free

    up : add64 m.used_pages 1 ≡ m.used_pages + 1
    up = omega (arith, used_pages-le v, v.fits)

once_round : {x n : ℕ} → x < n → (x + n) % n ≡ x
once_round {x} {n} h =
    mod-eq-sub-mod {n = x + n} {m = n} (omega arith)
    ∙ mod-eq_of_lt {n = x + n - n} {m = n} (omega arith)
    ∙ omega arith

-- How far ahead `q` is on the round.
ahead : (n p q : ℕ) → p < n → q < n → (d : ℕ) × (d < n) × ((p + d) % n ≡ q)
ahead n p q hp hq = elim (dec_lt q p) [
  | no after ↦ (q - p, omega arith, ap (λ k. k % n) {y = q} (omega arith) ∙ mod-eq_of_lt hq)
  | yes before ↦ (q + n - p, omega arith, ap (λ k. k % n) {y = q + n} (omega arith) ∙ once_round hq)
]

-- A free page is found from any position, if there is one.
search_finds :
    (m : Pmm)
    → IsValid m
    → m.used_pages < m.total_pages
    → (page : ℕ) × (search_loop m.bitmap m.total_pages m.last_search_pos m.total_pages
          m.last_search_pos
        ≡ some (some page, page))
      × (page < m.total_pages)
      × (bitmap_test m.bitmap page ≡ false)
search_finds m v h =
    let (q, lt, free) = free_page_of_lt m.bitmap m.total_pages (omega (arith, v.counted)) in
    let (d, near, at) = ahead m.total_pages m.last_search_pos q v.position lt in
    search_loop-finds m.bitmap m.total_pages m.last_search_pos v.position m.total_pages
      m.last_search_pos d v.position (omega arith) (once_round v.position) near (rw at free)

-- What one successful allocation does.
pub record Allocated (m : Pmm) (page : ℕ) (m' : Pmm) : Type 0 where
  pub in_range : page < m.total_pages
  pub was_free : bitmap_test m.bitmap page ≡ false
  pub bits : (q : ℕ) → bitmap_test m'.bitmap q ≡ (page == q || bitmap_test m.bitmap q)
  pub counted : m'.used_pages ≡ m.used_pages + 1
  pub total : m'.total_pages ≡ m.total_pages
  pub hhdm : m'.limine_hhdm ≡ m.limine_hhdm
  pub valid : IsValid m'

-- In a valid state, pmm_alloc_page ends; if some page is free it returns the address of a page
-- that was free, marks it used, leaves every other page as it was, counts it and keeps the
-- invariant; and if none is free it returns NULL and changes nothing.
pub pmm_alloc_page_lem :
    (m : Pmm)
    → IsValid m
    → (m.used_pages < m.total_pages
        → (page : ℕ) × (m' : Pmm) × (pmm_alloc_page m ≡ some (address_of m page, m'))
          × Allocated m page m')
      × (m.total_pages ≤ m.used_pages → pmm_alloc_page m ≡ some (0, m))
unfolding pmm_alloc_page finish_alloc
pmm_alloc_page_lem m v = (some_free, λ h. rw (le→leb _ _ h))
  where
    some_free :
        m.used_pages < m.total_pages
        → (page : ℕ) × (m' : Pmm) × (pmm_alloc_page m ≡ some (address_of m page, m'))
          × Allocated m page m'
    some_free h =
        let (page, found, lt, free) = search_finds m v h in
        let (v', up) = taken-IsValid page v lt free in
        let low : leb m.total_pages m.used_pages ≡ false = ground arith in
        (
          page,
          taken m page,
          rw (low, found),
          record {
            in_range = lt;
            was_free = free;
            bits = λ q. bitmap_test-set page q v.bytes;
            counted = up;
            total = refl;
            hhdm = refl;
            valid = v';
          },
        )
