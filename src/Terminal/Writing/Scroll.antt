-- ===== src/Terminal/Writing/Scroll.antt =====
-- What the loops over cells of userspace/terminal/term.c write, by index and by row and column.
use open_idp_os.Base.{
  ℕ, zero, suc, ◌+◌, ◌-◌, ◌*◌, ◌≤◌, ◌<◌, ◌≡◌, ◌≢◌, ◌∙◌, ap, false, ◌&&◌, arith, ◌==◌, ltb, leb,
  if◌then◌else◌, update, Bool-cases, inl, inr,
}
use open_idp_os.Terminal.{Cell, Grid}
use open_idp_os.Terminal.Writing.{blank, copy_cells, fill_cells, scroll_grid}

copy_cells_lem :
    (left by k : ℕ) (f : ℕ → Cell) (a : ℕ)
    → 0 < by
    → copy_cells left by k f a ≡ (if leb k a && ltb a (k + left) then f (a + by) else f a)
unfolding copy_cells
copy_cells_lem zero by k f a h = ground arith
copy_cells_lem (suc left) by k f a h =
    ground (arith, copy_cells_lem left by (k + 1) (update f k (f (k + by))) a)

pub fill_cells_lem :
    (b : Cell) (left k : ℕ) (f : ℕ → Cell) (a : ℕ)
    → fill_cells b left k f a ≡ (if leb k a && ltb a (k + left) then b else f a)
unfolding fill_cells
fill_cells_lem b zero k f a = ground arith
fill_cells_lem b (suc left) k f a = ground (arith, fill_cells_lem b left (k + 1) (update f k b) a)

-- Places of rows and columns.
pub place-lt : (r q rows cols : ℕ) → r < rows → q < cols → r * cols + q < rows * cols
place-lt r q rows cols h k = grind arith

pub place-ne :
    (r q r' q' cols : ℕ)
    → q < cols
    → q' < cols
    → ((r == r') && (q == q')) ≡ false
    → r * cols + q ≢ r' * cols + q'
place-ne r q r' q' cols h k ne e = elim (Bool-cases (ltb r r')) [
  | inl l ↦ absurd (omega (arith, place-lt r q r' cols (ground arith) h, e))
  | inr m ↦ elim (Bool-cases (ltb r' r)) [
    | inl l ↦ absurd (omega (arith, place-lt r' q' r cols (ground arith) k, e))
    | inr n ↦ absurd (same (ground arith))
  ]
]
  where
    same : r ≡ r' → ⊥
    same s = ground (arith, ap (λ n. n * cols) s)

last_row : (rows cols : ℕ) → 0 < rows → (rows - 1) * cols + cols ≡ rows * cols
last_row zero cols h = absurd (omega arith)
last_row (suc n) cols h = grind arith

scroll_cells :
    (g : Grid) (a : ℕ)
    → 0 < g.cols
    → (scroll_grid g).cells a ≡ (
        if leb ((g.rows - 1) * g.cols) a && ltb a ((g.rows - 1) * g.cols + g.cols)
        then blank g
        else if ltb a ((g.rows - 1) * g.cols)
        then g.cells (a + g.cols)
        else g.cells a)
unfolding scroll_grid
scroll_cells g a h =
    fill_cells_lem (blank g) g.cols ((g.rows - 1) * g.cols)
      (copy_cells ((g.rows - 1) * g.cols) g.cols 0 g.cells) a
    ∙ ground (arith, copy_cells_lem ((g.rows - 1) * g.cols) g.cols 0 g.cells a)

-- Scrolling moves each row up by one and leaves a blank one.
pub scroll-cell :
    (g : Grid) (r q : ℕ)
    → r < g.rows
    → q < g.cols
    → (scroll_grid g).cells (r * g.cols + q)
      ≡ (if ltb (r + 1) g.rows then g.cells ((r + 1) * g.cols + q) else blank g)
scroll-cell g r q h k =
    scroll_cells g (r * g.cols + q) (omega arith) ∙ elim (Bool-cases (ltb (r + 1) g.rows)) [
      | inl t ↦ rw t (upper (place-lt r q (g.rows - 1) g.cols (ground arith) k))
      | inr t ↦ rw t (lower (ground arith))
    ]
  where
    next : (r + 1) * g.cols + q ≡ r * g.cols + q + g.cols
    next = grind arith

    upper :
        r * g.cols + q < (g.rows - 1) * g.cols
        → (if leb ((g.rows - 1) * g.cols) (r * g.cols + q)
              && ltb (r * g.cols + q) ((g.rows - 1) * g.cols + g.cols)
            then blank g
            else if ltb (r * g.cols + q) ((g.rows - 1) * g.cols)
            then g.cells (r * g.cols + q + g.cols)
            else g.cells (r * g.cols + q))
          ≡ g.cells ((r + 1) * g.cols + q)
    upper l = rw next (ground arith)

    lower :
        r ≡ g.rows - 1
        → (if leb ((g.rows - 1) * g.cols) (r * g.cols + q)
              && ltb (r * g.cols + q) ((g.rows - 1) * g.cols + g.cols)
            then blank g
            else if ltb (r * g.cols + q) ((g.rows - 1) * g.cols)
            then g.cells (r * g.cols + q + g.cols)
            else g.cells (r * g.cols + q))
          ≡ blank g
    lower e = ground (arith, ap (λ n. n * g.cols) e)

-- It writes nothing outside the rows.
pub scroll-outside :
    (g : Grid) (a : ℕ)
    → 0 < g.cols
    → 0 < g.rows
    → g.rows * g.cols ≤ a
    → (scroll_grid g).cells a ≡ g.cells a
scroll-outside g a h k l = scroll_cells g a h ∙ ground (arith, last_row g.rows g.cols k)
