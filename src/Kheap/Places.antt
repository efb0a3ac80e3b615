-- ===== src/Kheap/Places.antt =====
-- A segment among the others: its address, and the heap when it changes.
use open_idp_os.Base.{
  ℕ, ◌+◌, ◌≤◌, ◌<◌, ◌≡◌, ◌∙◌, refl, ap, arith, List, [], ◌∷◌, ◌++◌, update, update_self, update_ne,
}
use open_idp_os.Kheap.{Block, Blocks}
use open_idp_os.Kheap.Segments.{Segment, start, behind, Tiled, Tiled-same}
use open_idp_os.Kheap.Grow.{last_of}

-- The address behind the segments.
abbrev pub skip : (a : ℕ) → List Segment → ℕ
skip a [] = a
skip a ((n, free) ∷ segments) = skip (behind a n) segments

pub skip-end :
    (f : Blocks) (p a : ℕ) (segments : List Segment) (e : ℕ)
    → Tiled f p a segments e
    → skip a segments ≡ e
skip-end f p a [] e t = t
skip-end f p a ((n, free) ∷ segments) e t = skip-end f a (behind a n) segments e t.1

pub skip-le : (a : ℕ) (segments : List Segment) → a ≤ skip a segments
skip-le a [] = omega arith
skip-le a ((n, free) ∷ segments) = omega (arith, skip-le (behind a n) segments)

pub skip_add : (a b : ℕ) (segments : List Segment) → skip (a + b) segments ≡ a + skip b segments
skip_add a b [] = refl
skip_add a b ((n, free) ∷ segments) =
    ap (λ x. skip x segments) (omega arith) ∙ skip_add a (behind b n) segments

pub skip_from_zero : (a : ℕ) (segments : List Segment) → skip a segments ≡ a + skip 0 segments
skip_from_zero a segments = ap (λ x. skip x segments) (omega arith) ∙ skip_add a 0 segments

pub last_of-snoc :
    (p a m free : ℕ) (xs : List Segment) → last_of p a (xs ++ (m, free) ∷ []) ≡ skip a xs
last_of-snoc p a m free [] = refl
last_of-snoc p a m free ((n, free') ∷ xs) = last_of-snoc a (behind a n) m free xs

start-else :
    (b : ℕ) (s s' : Segment) (xs ys ys' : List Segment)
    → start b (xs ++ s ∷ ys) ≡ start b (xs ++ s' ∷ ys')
start-else b s s' [] ys ys' = refl
start-else b s s' (x ∷ xs) ys ys' = refl

-- The part of the heap from one segment on.
pub from-Tiled :
    (f : Blocks) (p a : ℕ) (xs ys : List Segment) (e : ℕ)
    → Tiled f p a (xs ++ ys) e
    → Tiled f (last_of p a xs) (skip a xs) ys e
from-Tiled f p a [] ys e t = t
from-Tiled f p a ((n, free) ∷ xs) ys e t = from-Tiled f a (behind a n) xs ys e t.1

-- When only the part from one segment on changes, the heap is what lies before it and the new part.
pub replace-Tiled :
    (f f' : Blocks) (p a : ℕ) (xs : List Segment) (s s' : Segment) (ys ys' : List Segment) (e : ℕ)
    → Tiled f p a (xs ++ s ∷ ys) e
    → ((x : ℕ) → x < skip a xs → f' x ≡ f x)
    → Tiled f' (last_of p a xs) (skip a xs) (s' ∷ ys') e
    → Tiled f' p a (xs ++ s' ∷ ys') e
replace-Tiled f f' p a [] s s' ys ys' e t same new = new
replace-Tiled f f' p a ((n, free) ∷ xs) s s' ys ys' e t same new =
    let eq = same a (omega (arith, skip-le (behind a n) xs)) in
    (
      record {
        magic = ap (λ (b : Block). b.magic) eq ∙ t.0.magic;
        size = ap (λ (b : Block). b.size) eq ∙ t.0.size;
        flag = ap (λ (b : Block). b.free) eq ∙ t.0.flag;
        after = ap (λ (b : Block). b.next) eq ∙ t.0.after ∙ start-else (behind a n) s s' xs ys ys';
        before = ap (λ (b : Block). b.prev) eq ∙ t.0.before;
      },
      replace-Tiled f f' a (behind a n) xs s s' ys ys' e t.1 same new,
    )

abbrev pub set_free : (a free : ℕ) → Blocks → Blocks
set_free a free f = update f a (record (f a) { free = free })

module _ (f : Blocks) (p a m free free' : ℕ) (ys : List Segment) (e : ℕ)
    (t : Tiled f p a ((m, free) ∷ ys) e) where
  -- The first block's flag set.
  pub first-Tiled : Tiled (set_free a free' f) p a ((m, free') ∷ ys) e
  first-Tiled =
      let eq = update_self f a (record (f a) { free = free' }) in
      (
        record {
          magic = ap (λ (b : Block). b.magic) eq ∙ t.0.magic;
          size = ap (λ (b : Block). b.size) eq ∙ t.0.size;
          flag = ap (λ (b : Block). b.free) eq;
          after = ap (λ (b : Block). b.next) eq ∙ t.0.after;
          before = ap (λ (b : Block). b.prev) eq ∙ t.0.before;
        },
        Tiled-same f (set_free a free' f) a (behind a m) ys e
            (λ x le lt. update_ne f (record (f a) { free = free' }) (omega arith)) t.1,
      )

pub set_free-Tiled :
    (f : Blocks) (p a : ℕ) (xs : List Segment) (m free free' : ℕ) (ys : List Segment) (e : ℕ)
    → Tiled f p a (xs ++ (m, free) ∷ ys) e
    → Tiled (set_free (skip a xs) free' f) p a (xs ++ (m, free') ∷ ys) e
set_free-Tiled f p a xs m free free' ys e t =
    let b = skip a xs in
    replace-Tiled f (set_free b free' f) p a xs (m, free) (m, free') ys ys e t
      (λ x lt. update_ne f (record (f b) { free = free' }) (omega arith))
      (first-Tiled f (last_of p a xs) b m free free' ys e
        (from-Tiled f p a xs ((m, free) ∷ ys) e t))
