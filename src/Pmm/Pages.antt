-- ===== src/Pmm/Pages.antt =====
-- pmm_alloc_pages and pmm_free_pages: runs of pages.
use native.Mathlib.Decide.{dec_lt}
use open_idp_os.Base.{
  ℕ, zero, suc, ◌+◌, ◌≤◌, ◌<◌, ◌≡◌, ◌∙◌, ◌⊎◌, refl, ap, Bool, true, false, not, ◌&&◌, ◌||◌, Option,
  none, some, arith, ◌==◌, ltb, leb, ltb→lt, Bool-cases, inl, inr, add64,
}
use open_idp_os.Pmm.{
  Pmm, address_of, scan_loop, set_loop, take_run, pmm_alloc_pages, release_loop, pmm_free_pages,
}
use open_idp_os.Pmm.Bits.{Bitmap, IsBytes, bitmap_test, bitmap_set-IsBytes, bitmap_test-set}
use open_idp_os.Pmm.Count.{used_below, used_below-set, used_below-le}
use open_idp_os.Pmm.Valid.{IsValid, page_of-address_of}
use open_idp_os.Pmm.Scan.{FreeRun, HasUsed, FirstFit, scan_loop-FirstFit}
use open_idp_os.Pmm.Free.{release-Released}

abbrev pub in_run : (start n q : ℕ) → Bool
in_run start n q = leb start q && ltb q (start + n)

pub set_loop-IsBytes : (n p : ℕ) {b : Bitmap} → IsBytes b → IsBytes (set_loop n p b)
unfolding set_loop
set_loop-IsBytes zero p v = v
set_loop-IsBytes (suc n) p v = set_loop-IsBytes n (p + 1) (bitmap_set-IsBytes p v)

pub bitmap_test-set_loop :
    (n p : ℕ) {b : Bitmap} (q : ℕ)
    → IsBytes b
    → bitmap_test (set_loop n p b) q ≡ (in_run p n q || bitmap_test b q)
unfolding set_loop
bitmap_test-set_loop zero p q v = ground arith
bitmap_test-set_loop (suc n) p q v =
    ground (arith, bitmap_test-set_loop n (p + 1) q (bitmap_set-IsBytes p v), bitmap_test-set p q v)

pub used_below-set_loop :
    (n p total : ℕ) {b : Bitmap}
    → IsBytes b
    → p + n ≤ total
    → FreeRun b p n
    → used_below (set_loop n p b) total ≡ used_below b total + n
unfolding set_loop
used_below-set_loop zero p total v h free = omega arith
used_below-set_loop (suc n) p total {b} v h free = omega (
  arith,
  used_below-set_loop n (p + 1) total (bitmap_set-IsBytes p v) (omega arith)
      (λ q lo hi. ground (arith, bitmap_test-set p q v, free q (omega arith) (omega arith))),
  used_below-set p v total (omega arith) (free p (omega arith) (omega arith)),
)

-- A run is free or holds a used page.
run_cases : (b : Bitmap) (s n : ℕ) → FreeRun b s n ⊎ HasUsed b s n
run_cases b s zero = inl (λ q lo hi. absurd (omega arith))
run_cases b s (suc n) = elim (run_cases b s n) [
  | inr (q, lo, hi, used) ↦ inr (q, lo, omega arith, used)
  | inl free ↦ elim (Bool-cases (bitmap_test b (s + n))) [
    | inl used ↦ inr (s + n, omega arith, omega arith, used)
    | inr last ↦ inl λ q lo hi. elim (dec_lt q (s + n)) [
      | yes p ↦ free q lo p
      | no p ↦ (let e : q ≡ s + n = omega arith in ap (bitmap_test b) e ∙ last)
    ]
  ]
]

-- A free run leaves room in the count.
room :
    {m : Pmm} (s n : ℕ)
    → IsValid m
    → s + n ≤ m.total_pages
    → FreeRun m.bitmap s n
    → m.used_pages + n ≤ m.total_pages
room {m} s n v h free = omega (
  arith,
  used_below-set_loop n s m.total_pages v.bytes h free,
  used_below-le (set_loop n s m.bitmap) m.total_pages,
  v.counted,
)

-- What a successful allocation of a run does.
pub record AllocatedRun (m : Pmm) (start count : ℕ) (m' : Pmm) : Type 0 where
  pub in_range : start + count ≤ m.total_pages
  pub was_free : FreeRun m.bitmap start count
  pub first : (s : ℕ) → s < start → HasUsed m.bitmap s count
  pub bits : (q : ℕ) → bitmap_test m'.bitmap q ≡ (in_run start count q || bitmap_test m.bitmap q)
  pub counted : m'.used_pages ≡ m.used_pages + count
  pub total : m'.total_pages ≡ m.total_pages
  pub hhdm : m'.limine_hhdm ≡ m.limine_hhdm
  pub valid : IsValid m'

abbrev pub run_taken : Pmm → (start count : ℕ) → Pmm
run_taken m start count = record m {
  bitmap = set_loop count start m.bitmap;
  used_pages = add64 m.used_pages count;
}

run_taken-AllocatedRun :
    (m : Pmm) (count s : ℕ)
    → IsValid m
    → FirstFit m.bitmap count m.total_pages (some s)
    → AllocatedRun m s count (run_taken m s count)
run_taken-AllocatedRun m count s v (le, free, first) = record {
  in_range = le;
  was_free = free;
  first = first;
  bits = λ q. bitmap_test-set_loop count s q v.bytes;
  counted = up;
  total = refl;
  hhdm = refl;
  valid = record {
    bytes = set_loop-IsBytes count s v.bytes;
    counted =
        omega (arith, up, used_below-set_loop count s m.total_pages v.bytes le free, v.counted);
    position = v.position;
    fits = v.fits;
  };
}
  where
    up : add64 m.used_pages count ≡ m.used_pages + count
    up = omega (arith, room s count v le free, v.fits)

-- In a valid state and for a count that is not 0, pmm_alloc_pages returns the address of the
-- lowest run of that many free pages, marks exactly these pages used, counts them and keeps the
-- invariant; or else no such run exists, and it returns NULL and changes nothing.
pub pmm_alloc_pages_lem :
    (m : Pmm) (count : ℕ)
    → IsValid m
    → 0 < count
    → ((s : ℕ) × (m' : Pmm) × (pmm_alloc_pages count m ≡ (address_of m s, m'))
        × AllocatedRun m s count m')
      ⊎ (((s : ℕ) → s + count ≤ m.total_pages → HasUsed m.bitmap s count)
          × (pmm_alloc_pages count m ≡ (0, m)))
unfolding pmm_alloc_pages take_run
pmm_alloc_pages_lem m count v h = elim (Bool-cases (ltb m.total_pages (add64 m.used_pages count))) [
  | inl over ↦ inr (no_room over, ground arith)
  | inr fits ↦
      scanned fits (scan_loop m.bitmap count m.total_pages 0 0 0)
        (scan_loop-FirstFit m.bitmap count m.total_pages h) refl
]
  where
    no_room :
        ltb m.total_pages (add64 m.used_pages count) ≡ true
        → (s : ℕ) → s + count ≤ m.total_pages
        → HasUsed m.bitmap s count
    no_room over s le = elim (run_cases m.bitmap s count) [
      | inr used ↦ used
      | inl free ↦ absurd (omega (arith, room s count v le free, v.fits, ltb→lt _ _ over))
    ]

    nonzero : (count == 0) ≡ false
    nonzero = ground arith

    scanned :
        ltb m.total_pages (add64 m.used_pages count) ≡ false
        → (r : Option ℕ) → FirstFit m.bitmap count m.total_pages r
        → scan_loop m.bitmap count m.total_pages 0 0 0 ≡ r
        → ((s : ℕ) × (m' : Pmm) × (pmm_alloc_pages count m ≡ (address_of m s, m'))
            × AllocatedRun m s count m')
          ⊎ (((s : ℕ) → s + count ≤ m.total_pages → HasUsed m.bitmap s count)
              × (pmm_alloc_pages count m ≡ (0, m)))
    scanned fits none ff e = inr (ff, rw (nonzero, fits, e))
    scanned fits (some s) ff e =
        inl (s, run_taken m s count, rw (nonzero, fits, e), run_taken-AllocatedRun m count s v ff)

-- What releasing a run of pages does.
pub record ReleasedRun (m : Pmm) (start count : ℕ) (m' : Pmm) : Type 0 where
  pub bits :
      (q : ℕ) → bitmap_test m'.bitmap q ≡ (not (in_run start count q) && bitmap_test m.bitmap q)
  pub total : m'.total_pages ≡ m.total_pages
  pub hhdm : m'.limine_hhdm ≡ m.limine_hhdm
  pub phys : m'.bitmap_phys ≡ m.bitmap_phys
  pub pages : m'.bitmap_size_pages ≡ m.bitmap_size_pages
  pub valid : IsValid m'

pub release_loop-ReleasedRun :
    (n p : ℕ) {m : Pmm} → IsValid m → p + n ≤ m.total_pages → ReleasedRun m p n (release_loop n p m)
unfolding release_loop
release_loop-ReleasedRun zero p v h = record {
  bits = λ q. ground arith;
  total = refl;
  hhdm = refl;
  phys = refl;
  pages = refl;
  valid = v;
}
release_loop-ReleasedRun (suc n) p {m} v h =
    let one = release-Released p v (omega arith) in
    let rest = release_loop-ReleasedRun n (p + 1) one.valid (omega (arith, one.total)) in
    record {
      bits = λ q. ground (arith, rest.bits q, one.bits q);
      total = rest.total ∙ one.total;
      hhdm = rest.hhdm ∙ one.hhdm;
      phys = rest.phys ∙ one.phys;
      pages = rest.pages ∙ one.pages;
      valid = rest.valid;
    }

-- In a valid state, pmm_free_pages with the address of a run of pages within the memory marks
-- exactly these pages free, leaves every other page as it was and keeps the invariant, by which
-- the count is right, also if some of the pages were free before.
pub pmm_free_pages_lem :
    (m : Pmm) (start count : ℕ)
    → IsValid m
    → 0 < count
    → start + count ≤ m.total_pages
    → ReleasedRun m start count (pmm_free_pages (address_of m start) count m)
unfolding pmm_free_pages
pmm_free_pages_lem m start count v pos h =
    let nonzero : (count == 0) ≡ false = ground arith in
    rw (nonzero, page_of-address_of start v (omega arith))
      (release_loop-ReleasedRun count start v h)
