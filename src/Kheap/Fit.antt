-- ===== src/Kheap/Fit.antt =====
-- The search of kmalloc takes the first segment that fits, and splits it if it is large.
use mathlib.Core.Path.{subst}
use open_idp_os.Base.{
  ℕ, ◌+◌, ◌-◌, ◌^◌, ◌≤◌, ◌<◌, ◌≡◌, ◌≢◌, ◌∙◌, sym, refl, ap, true, false, not, ◌&&◌, arith, ◌==◌,
  leb, ltb, if◌then◌else◌, List, [], ◌∷◌, ◌++◌, update, update_self, update_ne, Bool-cases, inl,
  inr, Option, none, some, add64, sub64,
}
use open_idp_os.Kheap.{Block, Blocks, heap_magic, header, min_split, split_block}
use open_idp_os.Kheap.Segments.{
  Segment, start, behind, Tiled, Tiled-le, Tiled-same, set_prev, set_prev-Tiled, set_prev-else,
}

-- A free segment of n bytes, when `size` of them are taken.
abbrev pub carve : (size n : ℕ) → List Segment
carve size n = if ltb n (size + 72) then (n, 0) ∷ [] else (size, 0) ∷ (n - size - 40, 1) ∷ []

abbrev pub beyond : (n free : ℕ) → Option (ℕ × List Segment) → Option (ℕ × List Segment)
beyond n free none = none
beyond n free (some (offset, segments)) = some (40 + n + offset, (n, free) ∷ segments)

-- The first segment that fits: its place, and the segments then.
unfoldable pub fit : (size : ℕ) → List Segment → Option (ℕ × List Segment)
fit size [] = none
fit size ((n, free) ∷ segments) =
    let rest = fit size segments in
    if not (free == 0) && leb size n then some (0, carve size n ++ segments) else beyond n free rest

abbrev remainder : (size a n next : ℕ) → Block
remainder size a n next = record {
  magic = heap_magic;
  size = sub64 (sub64 n size) header;
  free = 1;
  next = next;
  prev = a;
}

module _ (f : Blocks) (a size n next : ℕ) (sized : (f a).size ≡ n)
    (chained : (f a).next ≡ next) where
  new : ℕ
  new = add64 (add64 a header) size

  chain : Blocks
  chain = set_prev next new (update f new (remainder size a n next))

  split-small : ltb n (add64 (add64 size header) min_split) ≡ true → split_block a size f ≡ f
  unfolding split_block
  split-small e = rw (sized, e) refl

  split-large :
      ltb n (add64 (add64 size header) min_split) ≡ false
      → split_block a size f ≡ update chain a (record (chain a) { next = new; size = size })
  unfolding split_block chain new
  split-large e = rw (sized, chained, e) refl

-- The segments tile the heap again, and nothing before `a` differs.
pub record Taken (f f' : Blocks) (p a : ℕ) (segments : List Segment) (e : ℕ) : Type 0 where
  pub tiled : Tiled f' p a segments e
  pub before : (x : ℕ) → x < a → f' x ≡ f x

-- The block at `a` is no longer free.
abbrev pub set_used : ℕ → Blocks → Blocks
set_used a f = update f a (record (f a) { free = 0 })

module _ (f : Blocks) (p a size n free : ℕ) (segments : List Segment) (e : ℕ)
    (t : Tiled f p a ((n, free) ∷ segments) e) (low : 72 ≤ a) (high : e < 2 ^ 64)
    (fits : size ≤ n) where
  abbrev after : ℕ
  after = start (behind a n) segments

  inside : behind a n ≤ e
  inside = Tiled-le f a (behind a n) segments e t.1

  whole-Taken : Taken f (set_used a f) p a ((n, 0) ∷ segments) e
  whole-Taken =
      let eq = update_self f a (record (f a) { free = 0 }) in
      record {
        tiled = (
          record {
            magic = ap (λ (b : Block). b.magic) eq ∙ t.0.magic;
            size = ap (λ (b : Block). b.size) eq ∙ t.0.size;
            flag = ap (λ (b : Block). b.free) eq;
            after = ap (λ (b : Block). b.next) eq ∙ t.0.after;
            before = ap (λ (b : Block). b.prev) eq ∙ t.0.before;
          },
          Tiled-same f (set_used a f) a (behind a n) segments e
              (λ x le lt. update_ne f (record (f a) { free = 0 }) (omega arith)) t.1,
        );
        before = λ x lt. update_ne f (record (f a) { free = 0 }) (omega arith);
      }

  module _ (large : size + 72 ≤ n) where
    nb : ℕ
    nb = new f a size n after t.0.size t.0.after

    nb_at : nb ≡ a + 40 + size
    unfolding nb new
    nb_at = omega (arith, inside)

    rest : Block
    rest = remainder size a n after

    base : Blocks
    base = update f nb rest

    g : Blocks
    g = chain f a size n after t.0.size t.0.after

    g-else : (x : ℕ) → nb ≢ x → behind a n ≢ x → g x ≡ f x
    unfolding g chain nb base rest
    g-else x ne ne' = set_prev-else base nb (behind a n) x segments ne' ∙ update_ne f rest ne

    g-nb : g nb ≡ remainder size a n after
    unfolding g chain nb base rest
    g-nb =
        set_prev-else base nb (behind a n) nb segments (omega (arith, nb_at))
        ∙ update_self f nb rest

    g-Tiled : Tiled g nb (behind a n) segments e
    unfolding g chain nb base rest
    g-Tiled = set_prev-Tiled base a nb (behind a n) segments e (omega arith) (
        Tiled-same f base a (behind a n) segments e
          (λ x le lt. update_ne f rest (omega (arith, nb_at))) t.1)

    first : Block
    first = record (g a) { next = nb; size = size }

    cut : Blocks
    cut = update g a first

    used : Block
    used = record (cut a) { free = 0 }

    h : Blocks
    h = update cut a used

    h-else : (x : ℕ) → a ≢ x → h x ≡ g x
    unfolding h cut
    h-else x ne = update_ne cut used ne ∙ update_ne g first ne

    h-a : h a ≡ record (g a) { next = nb; size = size; free = 0 }
    unfolding h cut first used
    h-a = update_self cut a used ∙ ap (λ (b : Block). record b { free = 0 }) (update_self g a first)

    g-a : g a ≡ f a
    g-a = g-else a (omega (arith, nb_at)) (omega arith)

    part-Taken : Taken f h p a ((size, 0) ∷ (n - size - 40, 1) ∷ segments) e
    part-Taken = record {
      tiled = (
        record {
          magic = ap (λ (b : Block). b.magic) (h-a) ∙ ap (λ (b : Block). b.magic) g-a ∙ t.0.magic;
          size = ap (λ (b : Block). b.size) (h-a);
          flag = ap (λ (b : Block). b.free) (h-a);
          after = ap (λ (b : Block). b.next) (h-a) ∙ nb_at;
          before = ap (λ (b : Block). b.prev) (h-a) ∙ ap (λ (b : Block). b.prev) g-a ∙ t.0.before;
        },
        second,
      );
      before =
          λ x lt. h-else x (omega arith) ∙ g-else x (omega (arith, nb_at)) (omega (arith, inside));
    }
      where
        at_nb : h (a + 40 + size) ≡ remainder size a n after
        at_nb = ap h (sym nb_at) ∙ h-else nb (omega (arith, nb_at)) ∙ g-nb

        end : behind (a + 40 + size) (n - size - 40) ≡ behind a n
        end = omega arith

        second : Tiled h a (behind a size) ((n - size - 40, 1) ∷ segments) e
        second = (
          record {
            magic = ap (λ (b : Block). b.magic) at_nb;
            size = ap (λ (b : Block). b.size) at_nb ∙ (omega (arith, inside));
            flag = ap (λ (b : Block). b.free) at_nb;
            after = ap (λ (b : Block). b.next) at_nb ∙ ap (λ x. start x segments) (sym end);
            before = ap (λ (b : Block). b.prev) at_nb;
          },
          subst (λ x. Tiled h (a + 40 + size) x segments e) (sym end)
              (subst (λ x. Tiled h x (behind a n) segments e) nb_at
                (Tiled-same g h nb (behind a n) segments e (λ x le lt. h-else x (omega arith))
                  g-Tiled)),
        )

  opened :
      (large : size + 72 ≤ n)
      → Taken f
          (set_used a (
            update
              (chain f a size n after t.0.size t.0.after)
              a
              (record (chain f a size n after t.0.size t.0.after a) {
                next = new f a size n after t.0.size t.0.after;
                size = size;
              })))
          p
          a
          ((size, 0) ∷ (n - size - 40, 1) ∷ segments)
          e
  unfolding h cut used first g nb
  opened large = part-Taken large

  -- What the branch of the search that takes the block leaves.
  pub take-Taken : Taken f (set_used a (split_block a size f)) p a (carve size n ++ segments) e
  take-Taken = elim (Bool-cases (ltb n (size + 72))) [
    | inl few ↦
        subst (λ c. Taken f (set_used a (split_block a size f)) p a (c ++ segments) e)
          {x = (n, 0) ∷ []} (rw few refl)
          (subst (λ b. Taken f (set_used a b) p a ((n, 0) ∷ segments) e)
            (sym (split-small f a size n after t.0.size t.0.after (bound ∙ few))) whole-Taken)
    | inr many ↦
        let large : size + 72 ≤ n = ground arith in
        subst (λ c. Taken f (set_used a (split_block a size f)) p a (c ++ segments) e)
          {x = (size, 0) ∷ (n - size - 40, 1) ∷ []} (rw many refl)
          (subst (λ b. Taken f (set_used a b) p a ((size, 0) ∷ (n - size - 40, 1) ∷ segments) e)
            (sym (split-large f a size n after t.0.size t.0.after (bound ∙ many))) (opened large))
  ]
    where
      room : add64 (add64 size header) min_split ≡ size + 72
      room = omega (arith, inside)

      bound : ltb n (add64 (add64 size header) min_split) ≡ ltb n (size + 72)
      bound = ap (ltb n) room
