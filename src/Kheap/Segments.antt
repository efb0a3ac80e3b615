-- ===== src/Kheap/Segments.antt =====
-- The heap as a sequence of segments that lie one behind the other.
use mathlib.Core.Path.{subst}
use open_idp_os.Base.{
  ℕ, ◌+◌, ◌≤◌, ◌<◌, ◌≡◌, ◌≢◌, ◌∙◌, refl, ap, false, not, arith, ◌==◌, if◌then◌else◌, List, [], ◌∷◌,
  update, update_self, update_ne,
}
use open_idp_os.Kheap.{Block, Blocks, heap_magic, header}

-- The size and the flag of a block.
abbrev pub Segment : Type 0
Segment = ℕ × ℕ

-- The address of the first block, or NULL.
abbrev pub start : (a : ℕ) → List Segment → ℕ
start a [] = 0
start a (s ∷ segments) = a

abbrev pub behind : (a n : ℕ) → ℕ
behind a n = a + header + n

-- The block at `a` with the one before it at `p`.
pub record IsBlock (f : Blocks) (p a n free next : ℕ) : Type 0 where
  pub magic : (f a).magic ≡ heap_magic
  pub size : (f a).size ≡ n
  pub flag : (f a).free ≡ free
  pub after : (f a).next ≡ next
  pub before : (f a).prev ≡ p

-- From `a` on the blocks are the segments, one behind the other up to `e`; the block before is at `p`.
abbrev pub Tiled : Blocks → (p a : ℕ) → List Segment → (e : ℕ) → Type 0
Tiled f p a [] e = a ≡ e
Tiled f p a ((n, free) ∷ segments) e =
    IsBlock f p a n free (start (behind a n) segments) × Tiled f a (behind a n) segments e

pub Tiled-le :
    (f : Blocks) (p a : ℕ) (segments : List Segment) (e : ℕ) → Tiled f p a segments e → a ≤ e
Tiled-le f p a [] e t = omega arith
Tiled-le f p a ((n, free) ∷ segments) e t = omega (arith, Tiled-le f a (behind a n) segments e t.1)

-- Blocks that are equal from `a` to `e` tile it likewise.
pub Tiled-same :
    (f g : Blocks) (p a : ℕ) (segments : List Segment) (e : ℕ)
    → ((x : ℕ) → a ≤ x → x < e → g x ≡ f x)
    → Tiled f p a segments e
    → Tiled g p a segments e
Tiled-same f g p a [] e same t = t
Tiled-same f g p a ((n, free) ∷ segments) e same t =
    let le = Tiled-le f a (behind a n) segments e t.1 in
    let eq = same a (omega arith) (omega arith) in
    (
      record {
        magic = ap (λ (b : Block). b.magic) eq ∙ t.0.magic;
        size = ap (λ (b : Block). b.size) eq ∙ t.0.size;
        flag = ap (λ (b : Block). b.free) eq ∙ t.0.flag;
        after = ap (λ (b : Block). b.next) eq ∙ t.0.after;
        before = ap (λ (b : Block). b.prev) eq ∙ t.0.before;
      },
      Tiled-same f g a (behind a n) segments e (λ x le' lt. same x (omega arith) lt) t.1,
    )

-- The first block gets another one before it, as far as there is a block.
abbrev pub set_prev : (a q : ℕ) → Blocks → Blocks
set_prev a q f = if not (a == 0) then update f a (record (f a) { prev = q }) else f

pub set_prev-Tiled :
    (f : Blocks) (p q a : ℕ) (segments : List Segment) (e : ℕ)
    → 0 < a
    → Tiled f p a segments e
    → Tiled (set_prev (start a segments) q f) q a segments e
set_prev-Tiled f p q a [] e pos t = t
set_prev-Tiled f p q a ((n, free) ∷ segments) e pos t =
    let nz : (a == 0) ≡ false = ground arith in
    let eq = update_self f a (record (f a) { prev = q }) in
    subst (λ g. Tiled g q a ((n, free) ∷ segments) e) {x = update f a (record (f a) { prev = q })}
      (rw nz refl)
      (
        record {
          magic = ap (λ (b : Block). b.magic) eq ∙ t.0.magic;
          size = ap (λ (b : Block). b.size) eq ∙ t.0.size;
          flag = ap (λ (b : Block). b.free) eq ∙ t.0.flag;
          after = ap (λ (b : Block). b.next) eq ∙ t.0.after;
          before = ap (λ (b : Block). b.prev) eq;
        },
        Tiled-same f (update f a (record (f a) { prev = q })) a (behind a n) segments e
            (λ x le lt. update_ne f (record (f a) { prev = q }) (omega arith)) t.1,
      )

pub set_prev-else :
    (f : Blocks) (q a x : ℕ) (segments : List Segment)
    → a ≢ x
    → set_prev (start a segments) q f x ≡ f x
set_prev-else f q a x [] ne = refl
set_prev-else f q a x (s ∷ segments) ne = ground arith
