-- ===== src/Kheap/Grow.antt =====
-- The end of the list of blocks, and a block put behind it.
use mathlib.Core.Path.{subst}
use open_idp_os.Base.{
  ℕ, zero, suc, ◌≤◌, ◌<◌, ◌≡◌, ◌≢◌, ◌∙◌, sym, refl, ap, false, arith, ◌==◌, List, [], ◌∷◌, ◌++◌,
  length, some,
}
use open_idp_os.Kheap.{Block, Blocks, last_loop}
use open_idp_os.Kheap.Segments.{Segment, behind, IsBlock, Tiled}

-- The address of the last block, or `p` where there is none.
abbrev pub last_of : (p a : ℕ) → List Segment → ℕ
last_of p a [] = p
last_of p a ((n, free) ∷ segments) = last_of a (behind a n) segments

pub last_of-bounds :
    (f : Blocks) (p a n free : ℕ) (segments : List Segment) (e : ℕ)
    → Tiled f p a ((n, free) ∷ segments) e
    → (a ≤ last_of p a ((n, free) ∷ segments)) × (last_of p a ((n, free) ∷ segments) < e)
last_of-bounds f p a n free [] e t = (omega arith, omega (arith, t.1))
last_of-bounds f p a n free ((m, free') ∷ segments) e t =
    let (lo, hi) = last_of-bounds f a (behind a n) m free' segments e t.1 in (omega arith, hi)

-- The loop of get_last_block ends at the last segment.
pub last_loop-Tiled :
    (fuel : ℕ) (f : Blocks) (p a n free : ℕ) (segments : List Segment) (e : ℕ)
    → length segments < fuel
    → Tiled f p a ((n, free) ∷ segments) e
    → last_loop fuel a f ≡ some (last_of p a ((n, free) ∷ segments))
unfolding last_loop
last_loop-Tiled zero f p a n free segments e lt t = absurd (omega arith)
last_loop-Tiled (suc fuel) f p a n free [] e lt t = rw t.0.after refl
last_loop-Tiled (suc fuel) f p a n free ((m, free') ∷ segments) e lt t =
    let nz : (behind a n == 0) ≡ false = ground arith in
    rw (t.0.after, nz) (last_loop-Tiled fuel f a (behind a n) m free' segments e (omega arith) t.1)

-- The last block gets a block behind it, at `e`.
pub append-Tiled :
    (f f' : Blocks) (p a n free : ℕ) (segments : List Segment) (e m flag : ℕ)
    → Tiled f p a ((n, free) ∷ segments) e
    → ((x : ℕ) → x < e → last_of p a ((n, free) ∷ segments) ≢ x → f' x ≡ f x)
    → f' (last_of p a ((n, free) ∷ segments))
      ≡ record (f (last_of p a ((n, free) ∷ segments))) { next = e }
    → IsBlock f' (last_of p a ((n, free) ∷ segments)) e m flag 0
    → Tiled f' p a ((n, free) ∷ segments ++ (m, flag) ∷ []) (behind e m)
append-Tiled f f' p a n free [] e m flag t same linked fresh = (
  record {
    magic = ap (λ (b : Block). b.magic) linked ∙ t.0.magic;
    size = ap (λ (b : Block). b.size) linked ∙ t.0.size;
    flag = ap (λ (b : Block). b.free) linked ∙ t.0.flag;
    after = ap (λ (b : Block). b.next) linked ∙ sym t.1;
    before = ap (λ (b : Block). b.prev) linked ∙ t.0.before;
  },
  (subst (λ x. IsBlock f' a x m flag 0) (sym t.1) fresh, ap (λ x. behind x m) t.1),
)
append-Tiled f f' p a n free ((k, free') ∷ segments) e m flag t same linked fresh =
    let (lo, hi) = last_of-bounds f a (behind a n) k free' segments e t.1 in
    let eq = same a (omega arith) (omega arith) in
    (
      record {
        magic = ap (λ (b : Block). b.magic) eq ∙ t.0.magic;
        size = ap (λ (b : Block). b.size) eq ∙ t.0.size;
        flag = ap (λ (b : Block). b.free) eq ∙ t.0.flag;
        after = ap (λ (b : Block). b.next) eq ∙ t.0.after;
        before = ap (λ (b : Block). b.prev) eq ∙ t.0.before;
      },
      append-Tiled f f' a (behind a n) k free' segments e m flag t.1 same linked fresh,
    )
