-- ===== src/Kheap/Merge.antt =====
-- The merge of a block with the one behind it.
use mathlib.Core.Path.{subst}
use open_idp_os.Base.{
  ℕ, ◌+◌, ◌^◌, ◌≤◌, ◌<◌, ◌≡◌, ◌≢◌, ◌∙◌, sym, refl, ap, true, false, not, ◌&&◌, arith, ◌==◌,
  if◌then◌else◌, List, [], ◌∷◌, update, update_self, update_ne, Bool-cases, inl, inr, add64,
}
use open_idp_os.Kheap.{Block, Blocks, header, widen, merge_next}
use open_idp_os.Kheap.Segments.{
  Segment, start, behind, Tiled, Tiled-le, Tiled-same, set_prev, set_prev-Tiled, set_prev-else,
}

-- The size of a block of m bytes, and the segments behind it, once it took a free one behind it.
abbrev pub absorbed : (m : ℕ) → List Segment → ℕ
absorbed m [] = m
absorbed m ((k, free) ∷ segments) = if not (free == 0) then m + (header + k) else m

abbrev pub left_over : List Segment → List Segment
left_over [] = []
left_over ((k, free) ∷ segments) = if not (free == 0) then segments else (k, free) ∷ segments

module _ (f : Blocks) (a : ℕ) where
  merge_next-yes :
      not ((f a).next == 0) && not ((f (f a).next).free == 0) ≡ true
      → merge_next a f
        ≡ widen a (add64 (f a).size (add64 header (f (f a).next).size)) (f (f a).next).next f
  unfolding merge_next
  merge_next-yes ok = rw ok refl

  merge_next-no :
      not ((f a).next == 0) && not ((f (f a).next).free == 0) ≡ false → merge_next a f ≡ f
  unfolding merge_next
  merge_next-no bad = rw bad refl

module _ (f : Blocks) (p a m free k free' : ℕ) (segments : List Segment) (e : ℕ)
    (t : Tiled f p a ((m, free) ∷ (k, free') ∷ segments) e) (low : 0 < a) (high : e < 2 ^ 64) where
  b : ℕ
  b = behind a m

  c : ℕ
  c = behind b k

  inside : c ≤ e
  unfolding c b
  inside = Tiled-le f (behind a m) (behind (behind a m) k) segments e t.1.1

  test : not ((f a).next == 0) && not ((f (f a).next).free == 0) ≡ not (free' == 0)
  test =
      let nz : (behind a m == 0) ≡ false = ground arith in
      ap (λ x. not (x == 0) && not ((f x).free == 0)) t.0.after
      ∙ ap (λ v. not v && not ((f (behind a m)).free == 0)) nz
      ∙ ap (λ x. not (x == 0)) t.1.0.flag

  wide : Blocks
  wide = update f a (record (f a) { size = m + (header + k); next = start c segments })

  g : Blocks
  g = set_prev (start c segments) a wide

  merged : not (free' == 0) ≡ true → merge_next a f ≡ g
  unfolding g wide c b widen
  merged ok =
      let n = ap (λ x. f x) t.0.after in
      merge_next-yes f a (test ∙ ok)
      ∙ ap (λ (y : Block). widen a (add64 (f a).size (add64 header y.size)) y.next f) n
      ∙ ap (λ x. widen a (add64 x (add64 header (f b).size)) (f b).next f) t.0.size
      ∙ ap (λ x. widen a (add64 m (add64 header x)) (f b).next f) t.1.0.size
      ∙ ap (λ x. widen a (add64 m (add64 header k)) x f) t.1.0.after
      ∙ ap (λ x. widen a x (start c segments) f) (omega (arith, inside))

  wide-a : wide a ≡ record (f a) { size = m + (header + k); next = start c segments }
  unfolding wide
  wide-a = update_self f a (record (f a) { size = m + (header + k); next = start c segments })

  wide-else : (x : ℕ) → a ≢ x → wide x ≡ f x
  unfolding wide
  wide-else x ne =
      update_ne f (record (f a) { size = m + (header + k); next = start c segments }) ne

  g-a : g a ≡ record (f a) { size = m + (header + k); next = start c segments }
  unfolding g c b
  g-a = set_prev-else wide a c a segments (omega arith) ∙ wide-a

  g-Tiled : Tiled g p a ((m + (header + k), free) ∷ segments) e
  unfolding g c b
  g-Tiled =
      let end : behind (behind a m) k ≡ behind a (m + (header + k)) = omega arith in
      (
        record {
          magic = ap (λ (b : Block). b.magic) g-a ∙ t.0.magic;
          size = ap (λ (b : Block). b.size) g-a;
          flag = ap (λ (b : Block). b.free) g-a ∙ t.0.flag;
          after = ap (λ (b : Block). b.next) g-a ∙ ap (λ x. start x segments) end;
          before = ap (λ (b : Block). b.prev) g-a ∙ t.0.before;
        },
        subst (λ x. Tiled g a x segments e) end
            (set_prev-Tiled wide b a c segments e (omega arith)
              (Tiled-same f wide b c segments e (λ x le lt. wide-else x (omega arith)) t.1.1)),
      )

  g-before : (x : ℕ) → x < a → g x ≡ f x
  unfolding g c b
  g-before x lt = set_prev-else wide a c x segments (omega arith) ∙ wide-else x (omega arith)

-- The block at `a` takes the free one behind it, as far as there is one.
pub record Merged (f f' : Blocks) (p a m free : ℕ) (segments : List Segment) (e : ℕ) : Type 0 where
  pub tiled : Tiled f' p a ((absorbed m segments, free) ∷ left_over segments) e
  pub before : (x : ℕ) → x < a → f' x ≡ f x

pub merge_next-Merged :
    (f : Blocks) (p a m free : ℕ) (segments : List Segment) (e : ℕ)
    → Tiled f p a ((m, free) ∷ segments) e
    → 0 < a
    → e < 2 ^ 64
    → Merged f (merge_next a f) p a m free segments e
merge_next-Merged f p a m free [] e t low high =
    let alone : not ((f a).next == 0) && not ((f (f a).next).free == 0) ≡ false =
      ap (λ x. not (x == 0) && not ((f (f a).next).free == 0)) t.0.after in
    subst (λ f'. Merged f f' p a m free [] e) (sym (merge_next-no f a alone))
      (record { tiled = t; before = λ x lt. refl })
merge_next-Merged f p a m free ((k, free') ∷ segments) e t low high =
    elim (Bool-cases (not (free' == 0))) [
      | inl ok ↦
          subst (λ f'. Merged f f' p a m free ((k, free') ∷ segments) e)
            (sym (merged f p a m free k free' segments e t low high ok))
            (record {
              tiled = rw ok (g-Tiled f p a m free k free' segments e t low high);
              before = g-before f p a m free k free' segments e t low high;
            })
      | inr bad ↦
          subst (λ f'. Merged f f' p a m free ((k, free') ∷ segments) e)
            (sym (merge_next-no f a (test f p a m free k free' segments e t low high ∙ bad)))
            (record { tiled = rw bad t; before = λ x lt. refl })
    ]
