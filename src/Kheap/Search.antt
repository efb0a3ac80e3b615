-- ===== src/Kheap/Search.antt =====
-- kmalloc's search loop finds what the first fit of the segments finds.
use mathlib.Core.Path.{subst}
use open_idp_os.Base.{
  ℕ, zero, suc, ◌+◌, ◌^◌, ◌≤◌, ◌<◌, ◌≡◌, ◌∙◌, sym, refl, ap, true, false, not, ◌&&◌, arith, ◌==◌,
  leb, ltb, List, [], ◌∷◌, ◌++◌, length, Bool-cases, inl, inr, Option, none, some,
}
use open_idp_os.Kheap.{Block, Blocks, header, split_block, search_loop}
use open_idp_os.Kheap.Segments.{Segment, start, behind, Tiled, Tiled-le}
use open_idp_os.Kheap.Fit.{carve, beyond, fit, Taken, set_used, take-Taken}

-- What the loop returns for what the first fit says, from the block at `a` on.
abbrev pub Found :
    (f : Blocks) (p a : ℕ) (segments : List Segment) (e : ℕ)
    → Option (ℕ × List Segment)
    → Option (Option (ℕ × Blocks))
    → Type 0
Found f p a segments e none r = r ≡ some none
Found f p a segments e (some (offset, segments')) r =
    (f' : Blocks) × (r ≡ some (some (a + offset, f')))
    × Taken f f' p a segments' e
    × ((b : ℕ) → start b segments' ≡ start b segments)
    × (a + offset + header ≤ e)

module _ (f : Blocks) (p a n free : ℕ) (segments : List Segment) (e : ℕ)
    (t : Tiled f p a ((n, free) ∷ segments) e) where
  -- A block before the one that was found stays.
  beyond-Found :
      (o : Option (ℕ × List Segment)) (r : Option (Option (ℕ × Blocks)))
      → Found f a (behind a n) segments e o r
      → Found f p a ((n, free) ∷ segments) e (beyond n free o) r
  beyond-Found none r found = found
  beyond-Found (some (offset, segments')) r (f', eq, taken, same, inside) =
      let at_a = taken.before a (omega arith) in
      (
        f',
        eq ∙ ap (λ x. some (some (x, f'))) (omega arith),
        record {
          tiled = (
            record {
              magic = ap (λ (b : Block). b.magic) at_a ∙ t.0.magic;
              size = ap (λ (b : Block). b.size) at_a ∙ t.0.size;
              flag = ap (λ (b : Block). b.free) at_a ∙ t.0.flag;
              after = ap (λ (b : Block). b.next) at_a ∙ t.0.after ∙ sym (same (behind a n));
              before = ap (λ (b : Block). b.prev) at_a ∙ t.0.before;
            },
            taken.tiled,
          );
          before = λ x lt. taken.before x (omega arith);
        },
        λ b. refl,
        omega (arith, inside),
      )

carve-start :
    (size n free b : ℕ) (segments : List Segment)
    → start b (carve size n ++ segments) ≡ start b ((n, free) ∷ segments)
carve-start size n free b segments = elim (Bool-cases (ltb n (size + 72))) [
  | inl few ↦ rw few refl
  | inr many ↦ rw many refl
]

module _ (fuel size a : ℕ) (f : Blocks) (nz : (a == 0) ≡ false) where
  search_loop-hit :
      not ((f a).free == 0) && leb size (f a).size ≡ true
      → search_loop (suc fuel) size a f ≡ some (some (a, set_used a (split_block a size f)))
  unfolding search_loop
  search_loop-hit ok = rw (nz, ok) refl

  search_loop-miss :
      not ((f a).free == 0) && leb size (f a).size ≡ false
      → search_loop (suc fuel) size a f ≡ search_loop fuel size (f a).next f
  unfolding search_loop
  search_loop-miss bad = rw (nz, bad) refl

module _ (size n free : ℕ) (segments : List Segment) where
  fit-hit :
      not (free == 0) && leb size n ≡ true
      → fit size ((n, free) ∷ segments) ≡ some (0, carve size n ++ segments)
  unfolding fit
  fit-hit ok = rw ok refl

  fit-miss :
      not (free == 0) && leb size n ≡ false
      → fit size ((n, free) ∷ segments) ≡ beyond n free (fit size segments)
  unfolding fit
  fit-miss bad = rw bad refl

pub search_loop-Found :
    (fuel size : ℕ) (f : Blocks) (p a : ℕ) (segments : List Segment) (e : ℕ)
    → length segments < fuel
    → 72 ≤ a
    → e < 2 ^ 64
    → Tiled f p a segments e
    → Found f p a segments e (fit size segments) (search_loop fuel size (start a segments) f)
unfolding search_loop fit
search_loop-Found zero size f p a segments e lt low high t = absurd (omega arith)
search_loop-Found (suc fuel) size f p a [] e lt low high t = refl
search_loop-Found (suc fuel) size f p a ((n, free) ∷ segments) e lt low high t =
    let nz : (a == 0) ≡ false = ground arith in
    let read : not ((f a).free == 0) && leb size (f a).size ≡ not (free == 0) && leb size n =
      ap (λ x. not (x == 0) && leb size (f a).size) t.0.flag
      ∙ ap (λ x. not (free == 0) && leb size x) t.0.size in
    elim (Bool-cases (not (free == 0) && leb size n)) [
      | inl ok ↦
          let fits : size ≤ n = ground arith in
          subst (λ o. Found f p a ((n, free) ∷ segments) e o (search_loop (suc fuel) size a f))
            (sym (fit-hit size n free segments ok))
            (
              set_used a (split_block a size f),
              search_loop-hit fuel size a f nz (read ∙ ok)
                  ∙ ap (λ x. some (some (x, set_used a (split_block a size f)))) (omega arith),
              take-Taken f p a size n free segments e t low high fits,
              λ b. carve-start size n free b segments,
              omega (arith, Tiled-le f a (behind a n) segments e t.1),
            )
      | inr bad ↦
          subst (λ o. Found f p a ((n, free) ∷ segments) e o (search_loop (suc fuel) size a f))
            (sym (fit-miss size n free segments bad))
            (beyond-Found f p a n free segments e t (fit size segments)
              (search_loop (suc fuel) size a f)
              (subst (Found f a (behind a n) segments e (fit size segments))
                (sym (
                  search_loop-miss fuel size a f nz (read ∙ bad)
                  ∙ ap (λ x. search_loop fuel size x f) t.0.after))
                (search_loop-Found fuel size f a (behind a n) segments e (omega arith) (omega arith)
                  high t.1)))
    ]
