-- ===== src/Pmm/Free.antt =====
-- pmm_free_page, and what it makes of an allocated page.
use mathlib.Core.Path.{subst}
use open_idp_os.Base.{
  ℕ, ◌+◌, ◌*◌, ◌<◌, ◌≡◌, ◌≢◌, sym, refl, ap, false, not, ◌&&◌, some, arith, ◌==◌, if◌then◌else◌,
  Bool-cases, inl, inr, add64, sub64,
}
use open_idp_os.Pmm.{Pmm, address_of, pmm_alloc_page, release, pmm_free_page}
use open_idp_os.Pmm.Bits.{bitmap_test, bitmap_clear-IsBytes, bitmap_test-clear}
use open_idp_os.Pmm.Count.{used_below-clear}
use open_idp_os.Pmm.Valid.{IsValid, used_pages-le, page_of-address_of}
use open_idp_os.Pmm.Alloc.{Allocated, pmm_alloc_page_lem}

-- What releasing a page does, used or not.
pub record Released (m : Pmm) (page : ℕ) (m' : Pmm) : Type 0 where
  pub bits : (q : ℕ) → bitmap_test m'.bitmap q ≡ (not (page == q) && bitmap_test m.bitmap q)
  pub counted : m.used_pages ≡ m'.used_pages + (if bitmap_test m.bitmap page then 1 else 0)
  pub total : m'.total_pages ≡ m.total_pages
  pub hhdm : m'.limine_hhdm ≡ m.limine_hhdm
  pub phys : m'.bitmap_phys ≡ m.bitmap_phys
  pub pages : m'.bitmap_size_pages ≡ m.bitmap_size_pages
  pub valid : IsValid m'

pub release-Released :
    {m : Pmm} (page : ℕ) → IsValid m → page < m.total_pages → Released m page (release page m)
unfolding release
release-Released {m} page v h = elim (Bool-cases (bitmap_test m.bitmap page)) [
  | inr free ↦ rw free (record {
    bits = λ q. same free q;
    counted = rw free (omega arith);
    total = refl;
    hhdm = refl;
    phys = refl;
    pages = refl;
    valid = v;
  })
  | inl used ↦
      (let less = used_below-clear page v.bytes m.total_pages h used in
        let down : m.used_pages ≡ sub64 m.used_pages 1 + 1 =
          omega (arith, less, v.counted, used_pages-le v, v.fits) in
        rw used (record {
          bits = λ q. bitmap_test-clear page q v.bytes;
          counted = rw used (omega (arith, down));
          total = refl;
          hhdm = refl;
          phys = refl;
          pages = refl;
          valid = record {
            bytes = bitmap_clear-IsBytes page v.bytes;
            counted = omega (arith, less, down, v.counted);
            position = v.position;
            fits = v.fits;
          };
        }))
]
  where
    same :
        bitmap_test m.bitmap page ≡ false
        → (q : ℕ) → bitmap_test m.bitmap q ≡ (not (page == q) && bitmap_test m.bitmap q)
    same free q = ground (arith, ap (bitmap_test m.bitmap) {x = page} {y = q})

-- In a valid state, pmm_free_page with the address of a page marks that page free, leaves every
-- other page as it was, lowers the count by one exactly if the page was used and keeps the
-- invariant; and a page that is free already changes nothing at all.
pub pmm_free_page_lem :
    (m : Pmm) (page : ℕ)
    → IsValid m
    → page < m.total_pages
    → Released m page (pmm_free_page (address_of m page) m)
      × (bitmap_test m.bitmap page ≡ false → pmm_free_page (address_of m page) m ≡ m)
unfolding pmm_free_page
pmm_free_page_lem m page v h =
    rw (page_of-address_of page v h) (release-Released page v h, λ free. unfold release in rw free)

-- If a page is free, freeing the page that pmm_alloc_page returns gives back the state of every
-- page and the count from before.
pub alloc_free :
    (m : Pmm)
    → IsValid m
    → m.used_pages < m.total_pages
    → (a : ℕ) × (m' : Pmm) × (pmm_alloc_page m ≡ some (a, m'))
      × ((q : ℕ) → bitmap_test (pmm_free_page a m').bitmap q ≡ bitmap_test m.bitmap q)
      × ((pmm_free_page a m').used_pages ≡ m.used_pages)
      × IsValid (pmm_free_page a m')
alloc_free m v h =
    let (page, m', e, al) = (pmm_alloc_page_lem m v).0 h in
    let lt : page < m'.total_pages = omega (arith, al.in_range, al.total) in
    let same : address_of m' page ≡ address_of m page = ap (λ k. add64 (page * 4096) k) al.hhdm in
    let (rl, _) = pmm_free_page_lem m' page al.valid lt in
    let rl' = subst (λ a. Released m' page (pmm_free_page a m')) same rl in
    (
      address_of m page,
      m',
      e,
      λ q.
          ground (
            arith,
            rl'.bits q,
            al.bits q,
            al.was_free,
            ap (bitmap_test m.bitmap) {x = page} {y = q},
          ),
      ground (arith, rl'.counted, al.counted, al.bits page),
      rl'.valid,
    )

-- A successful call, read back from its result.
pub alloc_inv :
    {m m' : Pmm} {a : ℕ}
    → IsValid m
    → m.used_pages < m.total_pages
    → pmm_alloc_page m ≡ some (a, m')
    → (page : ℕ) × (a ≡ address_of m page) × Allocated m page m'
alloc_inv {m} {m'} {a} v h e =
    let (page, m₁, f, al) = (pmm_alloc_page_lem m v).0 h in
    let (ea, em) = parts page m₁ f in (page, ea, subst (λ k. Allocated m page k) (sym em) al)
  where
    parts :
        (page : ℕ) (m₁ : Pmm)
        → pmm_alloc_page m ≡ some (address_of m page, m₁)
        → (a ≡ address_of m page) × (m' ≡ m₁)
    parts page m₁ f = (cc, cc)

-- In a valid state with two free pages, the pages that two calls of pmm_alloc_page hand out one
-- after the other have different addresses.
pub alloc-ne-alloc :
    (m m₁ m₂ : Pmm) (a b : ℕ)
    → IsValid m
    → m.used_pages + 1 < m.total_pages
    → pmm_alloc_page m ≡ some (a, m₁)
    → pmm_alloc_page m₁ ≡ some (b, m₂)
    → a ≢ b
alloc-ne-alloc m m₁ m₂ a b v h e₁ e₂ same =
    let (p, ea, al) = alloc_inv v (omega arith) e₁ in
    let (q, eb, bl) = alloc_inv al.valid (omega (arith, al.counted, al.total)) e₂ in
    let pages : p ≡ q =
      omega (arith, al.in_range, bl.in_range, al.hhdm, al.total, ea, eb, same, v.fits) in
    ground (arith, al.bits q, bl.was_free, pages)
