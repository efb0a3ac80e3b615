-- ===== src/Kheap/Restore.antt =====
-- kfree of what kmalloc took from the free segments gives these back.
use mathlib.Core.Path.{subst}
use open_idp_os.Base.{
  ℕ, ◌+◌, ◌*◌, ◌^◌, ◌≤◌, ◌<◌, ◌≡◌, ◌∙◌, sym, refl, ap, true, not, ◌&&◌, arith, ◌==◌, leb, List, [],
  ◌∷◌, ◌++◌, length, Bool-cases, inl, inr, Option, none, some,
}
use open_idp_os.Kheap.{page_size, header, Heap, Pages, kmalloc, kfree}
use open_idp_os.Kheap.Segments.{Segment}
use open_idp_os.Kheap.Fit.{carve, beyond, fit}
use open_idp_os.Kheap.Expand.{IsHeap}
use open_idp_os.Kheap.Alloc.{rounded, or_grow, kmalloc-allocate}
use open_idp_os.Kheap.Apart.{Apart, around, carved, behind_carved, carve-carved, collapse-carve}
use open_idp_os.Kheap.Free.{unwind, place, kfree-collapse}

-- Where the first fit is: what lies before it, its size and what lies behind it.
pub record Place (size : ℕ) (back segments segments' : List Segment) (base offset : ℕ)
    : Type 0 where
  pub before : List Segment
  pub n : ℕ
  pub free : ℕ
  pub behind : List Segment
  pub old : unwind back segments ≡ unwind before ((n, free) ∷ behind)
  pub new : unwind back segments' ≡ unwind before (carve size n ++ behind)
  pub at : base + offset ≡ place 0 before
  pub is_free : not (free == 0) ≡ true
  pub fits : size ≤ n
  pub short : length before ≤ length back + length segments

abbrev pub Placed : (size : ℕ) (back segments : List Segment) → Option (ℕ × List Segment) → Type 0
Placed size back segments none = Unit
Placed size back segments (some (offset, segments')) =
    Place size back segments segments' (place 0 back) offset

beyond-Placed :
    (size n free : ℕ) (back segments : List Segment) (o : Option (ℕ × List Segment))
    → Placed size ((n, free) ∷ back) segments o
    → Placed size back ((n, free) ∷ segments) (beyond n free o)
beyond-Placed size n free back segments none placed = placed
beyond-Placed size n free back segments (some (offset, segments')) placed = record {
  before = placed.before;
  n = placed.n;
  free = placed.free;
  behind = placed.behind;
  old = placed.old;
  new = placed.new;
  at = omega (arith, placed.at);
  is_free = placed.is_free;
  fits = placed.fits;
  short = omega (arith, placed.short);
}

pub fit-Placed :
    (size : ℕ) (back segments : List Segment) → Placed size back segments (fit size segments)
unfolding fit
fit-Placed size back [] = tt
fit-Placed size back ((n, free) ∷ segments) = elim (Bool-cases (not (free == 0) && leb size n)) [
  | inl ok ↦ rw ok (record {
    before = back;
    n = n;
    free = free;
    behind = segments;
    old = refl;
    new = refl;
    at = omega arith;
    is_free = ground arith;
    fits = ground arith;
    short = omega arith;
  })
  | inr bad ↦ rw bad (
      beyond-Placed size n free back segments (fit size segments)
        (fit-Placed size ((n, free) ∷ back) segments))
]

place-from_zero : (base : ℕ) (back : List Segment) → place base back ≡ base + place 0 back
place-from_zero base [] = omega arith
place-from_zero base ((n, free) ∷ back) = omega (arith, place-from_zero base back)

module _ {M : Type 0} (pages : Pages M) (limine_hhdm : ℕ) where
  -- kmalloc of a size that is not 0, then kfree of the pointer that it returned, leave the heap with the
  -- segments that it had, when the segments had one that fits and no two of them side by side were
  -- free. The heap has a block, the fuel is more than its blocks, and heap_end is far enough from 2 ^ 64.
  pub kfree-kmalloc :
      (fuel size : ℕ) (h : Heap M) (base n free : ℕ) (segments : List Segment)
      → IsHeap base h ((n, free) ∷ segments)
      → 72 ≤ base
      → h.heap_end + size + 2 * page_size < 2 ^ 64
      → 0 < size
      → length segments + 1 < fuel
      → (offset : ℕ) (segments' : List Segment)
      → fit (rounded size) ((n, free) ∷ segments) ≡ some (offset, segments')
      → Apart ((n, free) ∷ segments)
      → (h₁ : Heap M) × (h₂ : Heap M) × (kmalloc pages limine_hhdm fuel size h
          ≡ some (base + offset + header, h₁))
        × (kfree pages limine_hhdm fuel (base + offset + header) h₁ ≡ some h₂)
        × IsHeap base h₂ ((n, free) ∷ segments)
  kfree-kmalloc fuel size h base n free segments heap low room some_bytes enough offset segments'
        found apart =
      let all = (n, free) ∷ segments in
      let spot : Place (rounded size) [] all segments' 0 offset =
        subst (Placed (rounded size) [] all) found (fit-Placed (rounded size) [] all) in
      let (h₁, alloc, heap₁, _) =
        kmalloc-allocate pages limine_hhdm fuel size h base n free segments heap low room some_bytes
          enough (λ none_fits. absurd (cc)) in
      let (one, lo, hi) =
        around spot.before spot.n spot.free spot.behind (subst Apart spot.old apart) spot.is_free in
      let heap₁' : IsHeap base h₁ segments' =
        subst (λ o. IsHeap base h₁ (or_grow (rounded size) all o).0) found heap₁ in
      let cut : segments'
          ≡ unwind spot.before (
              (carved (rounded size) spot.n, 0) ∷ behind_carved (rounded size) spot.n spot.behind) =
        spot.new ∙ ap (unwind spot.before) (carve-carved (rounded size) spot.n spot.behind) in
      let (h₂, freed, heap₂) =
        kfree-collapse pages limine_hhdm fuel h₁ base spot.before (carved (rounded size) spot.n) 0
          (behind_carved (rounded size) spot.n spot.behind) (subst (IsHeap base h₁) cut heap₁') low
          (omega (arith, spot.short)) in
      let at : place base spot.before ≡ base + offset =
        place-from_zero base spot.before ∙ omega (arith, spot.at) in
      (
        h₁,
        h₂,
        alloc ∙ ap (λ o. some (base + (or_grow (rounded size) all o).1 + header, h₁)) found,
        ap (λ a. kfree pages limine_hhdm fuel (a + header) h₁) (sym at) ∙ freed,
        subst (IsHeap base h₂)
            (collapse-carve spot.before (rounded size) spot.n spot.behind lo hi
              ∙ ap (λ f. unwind spot.before ((spot.n, f) ∷ spot.behind)) (sym one)
              ∙ sym spot.old)
            heap₂,
      )
