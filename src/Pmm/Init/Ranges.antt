-- ===== src/Pmm/Init/Ranges.antt =====
-- Freeing and locking the pages of a range of physical addresses.

use open_idp_os.Base.{
  ℕ, zero, suc, ◌+◌, ◌-◌, ◌*◌, ◌/◌, ◌^◌, ◌≤◌, ◌<◌, ◌≡◌, ◌∙◌, refl, ap, Bool, true, false, not, ◌&&◌,
  ◌||◌, arith, ◌==◌, leb, leb-false→lt, if◌then◌else◌, Bool-cases, inl, inr, add64,
}
use open_idp_os.Pmm.{Pmm, page_size, release, release_loop}
use open_idp_os.Pmm.Bits.{
  IsBytes, bitmap_test, bitmap_set-IsBytes, bitmap_test-set, bitmap_clear-IsBytes,
  bitmap_test-clear,
}
use open_idp_os.Pmm.Count.{used_below, used_below-set, used_below-clear}
use open_idp_os.Pmm.Pages.{in_run}
use open_idp_os.Pmm.Init.{
  Entry, memmap_usable, align_up, align_down, free_entry, release_range, lock_page, lock_loop,
  lock_pages_range,
}

-- The whole frame of page `q` lies between two physical addresses.
abbrev pub covers : (start end q : ℕ) → Bool
covers start end q = leb start (q * page_size) && leb ((q + 1) * page_size) end

-- The page range that the code computes from two addresses.
abbrev range : (start end q : ℕ) → Bool
range start end q =
    let s = align_up start page_size / page_size in
    let e = align_down end page_size / page_size in if leb e s then false else in_run s (e - s) q

range-covers :
    (start end q : ℕ) → start + page_size ≤ 2 ^ 64 → range start end q ≡ covers start end q
unfolding align_up align_down
range-covers start end q h = ground arith

module _ (start end : ℕ) where
  first : ℕ
  first = align_up start page_size / page_size

  last : ℕ
  last = align_down end page_size / page_size

  last-le : last * page_size ≤ end
  unfolding last align_down
  last-le = omega arith

  range_outside :
      (q : ℕ) (h : start + page_size ≤ 2 ^ 64) → leb last first ≡ true → covers start end q ≡ false
  unfolding first last
  range_outside q h e = ground (arith, range-covers start end q h)

  range_inside :
      (q : ℕ) (h : start + page_size ≤ 2 ^ 64)
      → leb last first ≡ false
      → in_run first (last - first) q ≡ covers start end q
  unfolding first last
  range_inside q h e = ground (arith, range-covers start end q h)

-- What a change of bits below N keeps, and the count, which goes up and down with the bits: it may
-- differ from their number, as both may wrap around.
pub record Counts (N : ℕ) (m m' : Pmm) : Type 0 where
  pub total : m'.total_pages ≡ m.total_pages
  pub phys : m'.bitmap_phys ≡ m.bitmap_phys
  pub pages : m'.bitmap_size_pages ≡ m.bitmap_size_pages
  pub bytes : IsBytes m'.bitmap
  pub counted :
      add64 m'.used_pages (used_below m.bitmap N) ≡ add64 m.used_pages (used_below m'.bitmap N)

pub Counts-refl : (N : ℕ) (m : Pmm) → IsBytes m.bitmap → Counts N m m
Counts-refl N m b = record { total = refl; phys = refl; pages = refl; bytes = b; counted = refl }

pub Counts-trans : (N : ℕ) (a b c : Pmm) → Counts N a b → Counts N b c → Counts N a c
Counts-trans N a b c x y = record {
  total = y.total ∙ x.total;
  phys = y.phys ∙ x.phys;
  pages = y.pages ∙ x.pages;
  bytes = y.bytes;
  counted = omega (arith, x.counted, y.counted);
}

-- A state with the bits `m` has, but for the pages where `f` says `used`.
pub record Freed (N : ℕ) (m : Pmm) (f : ℕ → Bool) (m' : Pmm) : Type 0 where
  pub bits : (q : ℕ) → bitmap_test m'.bitmap q ≡ (not (f q) && bitmap_test m.bitmap q)
  pub counts : Counts N m m'

pub record Locked (N : ℕ) (m : Pmm) (f : ℕ → Bool) (m' : Pmm) : Type 0 where
  pub bits : (q : ℕ) → bitmap_test m'.bitmap q ≡ (f q || bitmap_test m.bitmap q)
  pub counts : Counts N m m'

module _ (N : ℕ) where
  lock_page-Locked :
      (m : Pmm) (p : ℕ) → IsBytes m.bitmap → p < N → Locked N m (λ q. p == q) (lock_page p m)
  unfolding lock_page
  lock_page-Locked m p b h = elim (Bool-cases (bitmap_test m.bitmap p)) [
    | inl used ↦ rw used (record {
      bits = λ q. ground (arith, ap (bitmap_test m.bitmap) {x = p} {y = q});
      counts = Counts-refl N m b;
    })
    | inr free ↦
        let more = used_below-set p b N h free in
        rw free (record {
          bits = λ q. bitmap_test-set p q b;
          counts = record {
            total = refl;
            phys = refl;
            pages = refl;
            bytes = bitmap_set-IsBytes p b;
            counted = omega (arith, more);
          };
        })
  ]

  release-Freed :
      (m : Pmm) (p : ℕ) → IsBytes m.bitmap → p < N → Freed N m (λ q. p == q) (release p m)
  unfolding release
  release-Freed m p b h = elim (Bool-cases (bitmap_test m.bitmap p)) [
    | inr free ↦ rw free (record {
      bits = λ q. ground (arith, ap (bitmap_test m.bitmap) {x = p} {y = q});
      counts = Counts-refl N m b;
    })
    | inl used ↦
        let less = used_below-clear p b N h used in
        rw used (record {
          bits = λ q. bitmap_test-clear p q b;
          counts = record {
            total = refl;
            phys = refl;
            pages = refl;
            bytes = bitmap_clear-IsBytes p b;
            counted = omega (arith, less);
          };
        })
  ]

  lock_loop-Locked :
      (n p : ℕ) (m : Pmm) → IsBytes m.bitmap → p + n ≤ N → Locked N m (in_run p n) (lock_loop n p m)
  unfolding lock_loop
  lock_loop-Locked zero p m b h = record { bits = λ q. ground arith; counts = Counts-refl N m b }
  lock_loop-Locked (suc n) p m b h =
      let one = lock_page-Locked m p b (omega arith) in
      let rest = lock_loop-Locked n (p + 1) (lock_page p m) one.counts.bytes (omega arith) in
      record {
        bits = λ q. ground (arith, rest.bits q, one.bits q);
        counts =
            Counts-trans N m (lock_page p m) (lock_loop n (p + 1) (lock_page p m)) one.counts
              rest.counts;
      }

  release_loop-Freed :
      (n p : ℕ) (m : Pmm)
      → IsBytes m.bitmap
      → p + n ≤ N
      → Freed N m (in_run p n) (release_loop n p m)
  unfolding release_loop
  release_loop-Freed zero p m b h = record { bits = λ q. ground arith; counts = Counts-refl N m b }
  release_loop-Freed (suc n) p m b h =
      let one = release-Freed m p b (omega arith) in
      let rest = release_loop-Freed n (p + 1) (release p m) one.counts.bytes (omega arith) in
      record {
        bits = λ q. ground (arith, rest.bits q, one.bits q);
        counts =
            Counts-trans N m (release p m) (release_loop n (p + 1) (release p m)) one.counts
              rest.counts;
      }

  fits :
      (start end : ℕ)
      → end ≤ N * page_size
      → leb (last start end) (first start end) ≡ false
      → first start end + (last start end - first start end) ≤ N
  fits start end he e = omega (arith, last-le start end, leb-false→lt _ _ e)

  -- Locking a range of addresses locks the pages whose frames lie in it.
  pub lock_pages_range-Locked :
      (start end : ℕ) (m : Pmm)
      → IsBytes m.bitmap
      → start + page_size ≤ 2 ^ 64
      → end ≤ N * page_size
      → Locked N m (covers start end) (lock_pages_range start end m)
  unfolding lock_pages_range first last
  lock_pages_range-Locked start end m b hs he =
      elim (Bool-cases (leb (last start end) (first start end))) [
        | inl none_in ↦ rw none_in (record {
          bits = λ q. rw (range_outside start end q hs none_in);
          counts = Counts-refl N m b;
        })
        | inr some_in ↦ rw some_in (
            let l =
              lock_loop-Locked (last start end - first start end) (first start end) m b
                (fits start end he some_in) in
            record {
              bits = λ q.
                  l.bits q
                  ∙ ap (λ t. t || bitmap_test m.bitmap q) (range_inside start end q hs some_in);
              counts = l.counts;
            })
      ]

  release_range-Freed :
      (start end : ℕ) (m : Pmm)
      → IsBytes m.bitmap
      → start + page_size ≤ 2 ^ 64
      → end ≤ N * page_size
      → Freed N m (covers start end) (release_range (first start end) (last start end) m)
  unfolding release_range
  release_range-Freed start end m b hs he =
      elim (Bool-cases (leb (last start end) (first start end))) [
        | inl none_in ↦ rw none_in (record {
          bits = λ q. rw (range_outside start end q hs none_in);
          counts = Counts-refl N m b;
        })
        | inr some_in ↦ rw some_in (
            let r =
              release_loop-Freed (last start end - first start end) (first start end) m b
                (fits start end he some_in) in
            record {
              bits = λ q.
                  r.bits q
                  ∙ ap (λ t. not t && bitmap_test m.bitmap q) (range_inside start end q hs some_in);
              counts = r.counts;
            })
      ]

-- A usable entry of the memory map ends below N pages.
abbrev pub EndsBelow : (N : ℕ) → Entry → Type 0
EndsBelow N e = (e.type ≡ memmap_usable → e.base + e.length ≤ N * page_size)

-- A page whose frame lies in a usable entry.
abbrev pub entry_holds : Entry → ℕ → Bool
entry_holds e q = e.type == memmap_usable && covers e.base (e.base + e.length) q

pub free_entry-Freed :
    (N : ℕ) (e : Entry) (m : Pmm)
    → IsBytes m.bitmap
    → EndsBelow N e
    → N * page_size + page_size ≤ 2 ^ 64
    → Freed N m (entry_holds e) (free_entry e m)
unfolding free_entry first last
free_entry-Freed N e m b within h = elim (Bool-cases (e.type == memmap_usable)) [
  | inr other ↦
      (let same : free_entry e m ≡ m = rw other in
        rw same (record { bits = λ q. rw other; counts = Counts-refl N m b }))
  | inl usable ↦
      (let ends = within (ground arith) in
        let no_wrap : add64 e.base e.length ≡ e.base + e.length = omega (arith, ends) in
        let same : free_entry e m
            ≡ release_range (first e.base (e.base + e.length)) (last e.base (e.base + e.length)) m =
          rw (usable, no_wrap) in
        let f = release_range-Freed N e.base (e.base + e.length) m b (omega (arith, ends)) ends in
        rw same (record { bits = λ q. rw usable (f.bits q); counts = f.counts }))
]
