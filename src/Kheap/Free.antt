-- ===== src/Kheap/Free.antt =====
-- kfree marks the segment, and coalesce merges it with the free ones around it.
use mathlib.Core.Path.{subst}
use open_idp_os.Base.{
  ℕ, zero, suc, ◌+◌, ◌^◌, ◌≤◌, ◌<◌, ◌≡◌, ◌∙◌, sym, refl, ap, true, false, not, ◌&&◌, arith, ◌==◌,
  if◌then◌else◌, List, [], ◌∷◌, ◌++◌, append_assoc, length, update_ne, Bool-cases, inl, inr, some,
  ◌>>=◌, sub64,
}
use open_idp_os.Kheap.{Blocks, heap_magic, header, merge_next, coalesce, Heap, Pages, kfree}
use open_idp_os.Kheap.Segments.{Segment, start, behind, Tiled, Tiled-le}
use open_idp_os.Kheap.Grow.{last_of}
use open_idp_os.Kheap.Places.{skip, last_of-snoc, from-Tiled, replace-Tiled, set_free, first-Tiled}
use open_idp_os.Kheap.Expand.{IsHeap}
use open_idp_os.Kheap.Merge.{absorbed, left_over, merge_next-Merged}

-- The segments, from those before one of them, the nearest first, and the others.
abbrev pub unwind : (back segments : List Segment) → List Segment
unwind [] segments = segments
unwind (s ∷ back) segments = unwind back (s ∷ segments)

-- The segments once the one between `back` and `segments` is merged with the free ones around it.
abbrev pub collapse : (back : List Segment) → (m free : ℕ) → List Segment → List Segment
collapse [] m free segments = (absorbed m segments, free) ∷ left_over segments
collapse ((n, free') ∷ back) m free segments =
    let merged = (absorbed m segments, free) ∷ left_over segments in
    if not (free' == 0) then collapse back n free' merged else unwind ((n, free') ∷ back) merged

-- The address of the segment behind `back`.
abbrev pub place : (base : ℕ) → List Segment → ℕ
place base [] = base
place base ((n, free) ∷ back) = behind (place base back) n

pub unwind-append :
    (back segments : List Segment) → unwind back segments ≡ unwind back [] ++ segments
unwind-append [] segments = refl
unwind-append (s ∷ back) segments =
    unwind-append back (s ∷ segments)
    ∙ sym (append_assoc (unwind back []) (s ∷ []) segments)
    ∙ ap (λ xs. xs ++ segments) (sym (unwind-append back (s ∷ [])))

skip-append : (a : ℕ) (xs ys : List Segment) → skip a (xs ++ ys) ≡ skip (skip a xs) ys
skip-append a [] ys = refl
skip-append a ((n, free) ∷ xs) ys = skip-append (behind a n) xs ys

pub skip-unwind : (base : ℕ) (back : List Segment) → skip base (unwind back []) ≡ place base back
skip-unwind base [] = refl
skip-unwind base ((n, free) ∷ back) =
    ap (skip base) (unwind-append back ((n, free) ∷ []))
    ∙ skip-append base (unwind back []) ((n, free) ∷ [])
    ∙ ap (λ x. behind x n) (skip-unwind base back)

-- Where the block before the segment is.
abbrev pub before_place : (base : ℕ) → List Segment → ℕ
before_place base [] = 0
before_place base (s ∷ back) = place base back

last_of-unwind :
    (base : ℕ) (back : List Segment) → last_of 0 base (unwind back []) ≡ before_place base back
last_of-unwind base [] = refl
last_of-unwind base ((n, free) ∷ back) =
    ap (last_of 0 base) (unwind-append back ((n, free) ∷ []))
    ∙ last_of-snoc 0 base n free (unwind back [])
    ∙ skip-unwind base back

place-le : (base : ℕ) (back : List Segment) → base ≤ place base back
place-le base [] = omega arith
place-le base ((n, free) ∷ back) = omega (arith, place-le base back)

module _ (f : Blocks) (base : ℕ) (back : List Segment) (s : Segment) (segments : List Segment)
    (e : ℕ) (t : Tiled f 0 base (unwind back (s ∷ segments)) e) where
  -- The block between the others.
  at_place : Tiled f (before_place base back) (place base back) (s ∷ segments) e
  at_place =
      let u = subst (λ xs. Tiled f 0 base xs e) (unwind-append back (s ∷ segments)) t in
      let v = from-Tiled f 0 base (unwind back []) (s ∷ segments) e u in
      subst (λ p. Tiled f p (place base back) (s ∷ segments) e) (last_of-unwind base back)
        (subst (λ a. Tiled f (last_of 0 base (unwind back [])) a (s ∷ segments) e)
          (skip-unwind base back) v)

  changed :
      (f' : Blocks) (s' : Segment) (segments' : List Segment)
      → ((x : ℕ) → x < place base back → f' x ≡ f x)
      → Tiled f' (before_place base back) (place base back) (s' ∷ segments') e
      → Tiled f' 0 base (unwind back (s' ∷ segments')) e
  changed f' s' segments' same new =
      let xs = unwind back [] in
      let u = subst (λ xs. Tiled f 0 base xs e) (unwind-append back (s ∷ segments)) t in
      subst (λ xs. Tiled f' 0 base xs e) (sym (unwind-append back (s' ∷ segments')))
        (replace-Tiled f f' 0 base xs s s' segments segments' e u
          (λ x lt. same x (subst (λ a. x < a) (skip-unwind base back) lt))
          (subst (λ p. Tiled f' p (skip base xs) (s' ∷ segments') e)
            (sym (last_of-unwind base back))
            (subst (λ a. Tiled f' (before_place base back) a (s' ∷ segments') e)
              (sym (skip-unwind base back)) new)))

coalesce-stop :
    (fuel a : ℕ) (f : Blocks)
    → not ((merge_next a f a).prev == 0) && not ((merge_next a f (merge_next a f a).prev).free == 0)
      ≡ false
    → coalesce (suc fuel) a f ≡ some (merge_next a f)
unfolding coalesce
coalesce-stop fuel a f bad = rw bad refl

coalesce-back :
    (fuel a : ℕ) (f : Blocks)
    → not ((merge_next a f a).prev == 0) && not ((merge_next a f (merge_next a f a).prev).free == 0)
      ≡ true
    → coalesce (suc fuel) a f ≡ coalesce fuel (merge_next a f a).prev (merge_next a f)
unfolding coalesce
coalesce-back fuel a f ok = rw ok refl

pub coalesce-Tiled :
    (fuel : ℕ) (f : Blocks) (base : ℕ) (back : List Segment) (m free : ℕ) (segments : List Segment)
    (e : ℕ)
    → length back < fuel
    → 72 ≤ base
    → e < 2 ^ 64
    → Tiled f 0 base (unwind back ((m, free) ∷ segments)) e
    → (f' : Blocks) × (coalesce fuel (place base back) f ≡ some f')
      × Tiled f' 0 base (collapse back m free segments) e
coalesce-Tiled zero f base back m free segments e lt low high t = absurd (omega arith)
coalesce-Tiled (suc fuel) f base [] m free segments e lt low high t =
    let g = merge_next base f in
    let merged = merge_next-Merged f 0 base m free segments e t (omega arith) high in
    let alone : not ((g base).prev == 0) && not ((g (g base).prev).free == 0) ≡ false =
      ap (λ x. not (x == 0) && not ((g (g base).prev).free == 0)) merged.tiled.0.before in
    (g, coalesce-stop fuel base f alone, merged.tiled)
coalesce-Tiled (suc fuel) f base ((n, free') ∷ back) m free segments e lt low high t =
    let a = place base ((n, free') ∷ back) in
    let q = place base back in
    let g = merge_next a f in
    let here = at_place f base ((n, free') ∷ back) (m, free) segments e t in
    let merged =
      merge_next-Merged f q a m free segments e here (omega (arith, place-le base back)) high in
    let new =
      changed f base ((n, free') ∷ back) (m, free) segments e t g (absorbed m segments, free)
        (left_over segments) merged.before merged.tiled in
    let there =
      at_place g base back (n, free') ((absorbed m segments, free) ∷ left_over segments) e new in
    let nz : (q == 0) ≡ false = ground (arith, place-le base back) in
    let test : not ((g a).prev == 0) && not ((g (g a).prev).free == 0) ≡ not (free' == 0) =
      ap (λ x. not (x == 0) && not ((g x).free == 0)) merged.tiled.0.before
      ∙ ap (λ v. not v && not ((g q).free == 0)) nz
      ∙ ap (λ x. not (x == 0)) there.0.flag in
    elim (Bool-cases (not (free' == 0))) [
      | inl ok ↦
          let (f', eq, all) =
            coalesce-Tiled fuel g base back n free'
              ((absorbed m segments, free) ∷ left_over segments) e (omega arith) low high new in
          (
            f',
            coalesce-back fuel a f (test ∙ ok)
                ∙ ap (λ x. coalesce fuel x g) merged.tiled.0.before
                ∙ eq,
            rw ok all,
          )
      | inr bad ↦ (g, coalesce-stop fuel a f (test ∙ bad), rw bad new)
    ]

start-unwind :
    (b : ℕ) (back : List Segment) (s : Segment) (segments : List Segment)
    → start b (unwind back (s ∷ segments)) ≡ b
start-unwind b [] s segments = refl
start-unwind b (s' ∷ back) s segments = start-unwind b back s' (s ∷ segments)

start-collapse :
    (b : ℕ) (back : List Segment) (m free : ℕ) (segments : List Segment)
    → start b (collapse back m free segments) ≡ b
start-collapse b [] m free segments = refl
start-collapse b ((n, free') ∷ back) m free segments =
    let merged = (absorbed m segments, free) ∷ left_over segments in
    elim (Bool-cases (not (free' == 0))) [
      | inl ok ↦ rw ok (start-collapse b back n free' merged)
      | inr bad ↦ rw bad (start-unwind b back (n, free') merged)
    ]

module _ {M : Type 0} (pages : Pages M) (limine_hhdm : ℕ) where
  kfree-known :
      (fuel ptr : ℕ) (h : Heap M)
      → (ptr == 0) ≡ false
      → (h.blocks (sub64 ptr header)).magic ≡ heap_magic
      → kfree pages limine_hhdm fuel ptr h ≡ (
          coalesce fuel (sub64 ptr header) (set_free (sub64 ptr header) 1 h.blocks) >>= λ g.
          some (record h { blocks = g }))
  unfolding kfree
  kfree-known fuel ptr h nz magic =
      let known : not ((h.blocks (sub64 ptr header)).magic == heap_magic) ≡ false =
        ap (λ x. not (x == heap_magic)) magic in
      rw (nz, known) refl

  -- kfree of the pointer to a segment gives a heap with that segment free and merged with the free
  -- segment behind it and, one after the other, with the free ones before it.
  pub kfree-collapse :
      (fuel : ℕ) (h : Heap M) (base : ℕ) (back : List Segment) (m free : ℕ)
      (segments : List Segment)
      → IsHeap base h (unwind back ((m, free) ∷ segments))
      → 72 ≤ base
      → length back < fuel
      → (h' : Heap M) × (kfree pages limine_hhdm fuel (place base back + header) h ≡ some h')
        × IsHeap base h' (collapse back m 1 segments)
  kfree-collapse fuel h base back m free segments heap low enough =
      let a = place base back in
      let here = at_place h.blocks base back (m, free) segments h.heap_end heap.tiled in
      let inside = Tiled-le h.blocks a (behind a m) segments h.heap_end here.1 in
      let block : sub64 (a + header) header ≡ a = omega (arith, heap.high) in
      let nz : (a + header == 0) ≡ false = ground arith in
      let marked =
        changed h.blocks base back (m, free) segments h.heap_end heap.tiled (set_free a 1 h.blocks)
          (m, 1) segments
          (λ x lt. update_ne h.blocks (record (h.blocks a) { free = 1 }) (omega arith))
          (first-Tiled h.blocks (before_place base back) a m free 1 segments h.heap_end here) in
      let (f', eq, tiled) =
        coalesce-Tiled fuel (set_free a 1 h.blocks) base back m 1 segments h.heap_end enough low
          heap.high marked in
      (
        record h { blocks = f' },
        kfree-known fuel (a + header) h nz (ap (λ x. (h.blocks x).magic) block ∙ here.0.magic)
            ∙ ap
                (λ x.
                  coalesce fuel x (set_free x 1 h.blocks) >>= λ g. some (record h { blocks = g }))
                block
            ∙ ap (λ o. o >>= λ g. some (record h { blocks = g })) eq,
        record {
          head =
              heap.head
              ∙ start-unwind base back (m, free) segments
              ∙ sym (start-collapse base back m 1 segments);
          tiled = tiled;
          high = heap.high;
        },
      )
