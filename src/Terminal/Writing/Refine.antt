-- ===== src/Terminal/Writing/Refine.antt =====
-- term_put_char writes on the page that the grid shows.
use mathlib.Core.Path.{subst, ap₂}
use open_idp_os.Base.{
  ℕ, ◌+◌, ◌-◌, ◌*◌, ◌<◌, ◌≡◌, ◌∙◌, refl, ap, true, false, ◌&&◌, arith, ◌==◌, ltb, leb,
  if◌then◌else◌, update, update_self, update_ne, Bool-cases, inl, inr,
}
use open_idp_os.Terminal.{Cell, Grid, Term}
use open_idp_os.Terminal.Page.{Page, Shows, put, next_row, up}
use open_idp_os.Terminal.Writing.{
  blank, scroll_grid, newline, step_back, backspace, write_char, put_grid, term_put_char,
  term_scroll,
}
use open_idp_os.Terminal.Writing.Scroll.{place-ne, scroll-cell}

-- The test for the last row.
pub settle : Grid → Grid
settle g = if leb g.rows g.cursor_y then scroll_grid g else g

pub put_char-grid :
    (c : ℕ) (t : Term)
    → t.grid.has_buffer ≡ true
    → (term_put_char c t).grid ≡ settle (put_grid c t.grid)
unfolding term_put_char settle term_scroll put_grid newline backspace step_back write_char
put_char-grid c t b = ground arith

-- What stays as it is.
pub record Kept (g g' : Grid) : Type 0 where
  pub rows : g'.rows ≡ g.rows
  pub cols : g'.cols ≡ g.cols
  pub fg_color : g'.fg_color ≡ g.fg_color
  pub bg_color : g'.bg_color ≡ g.bg_color
  pub buffer : g'.has_buffer ≡ g.has_buffer
  pub show_cursor : g'.show_cursor ≡ g.show_cursor

settle-Kept : (g : Grid) → Kept g (settle g)
unfolding settle scroll_grid
settle-Kept g = ground arith

pub put_grid-Kept : (c : ℕ) (g : Grid) → Kept g (put_grid c g)
unfolding put_grid newline backspace step_back write_char
put_grid-Kept c g = ground arith

pub put_char-Kept :
    (c : ℕ) (t : Term) → t.grid.has_buffer ≡ true → Kept t.grid (term_put_char c t).grid
put_char-Kept c t b =
    rw (put_char-grid c t b)
      (ground (arith, put_grid-Kept c t.grid, settle-Kept (put_grid c t.grid)))

pub settle-low : (g : Grid) → leb g.rows g.cursor_y ≡ false → settle g ≡ g
unfolding settle
settle-low g e = rw e refl

pub settle-full : (g : Grid) → leb g.rows g.cursor_y ≡ true → settle g ≡ scroll_grid g
unfolding settle
settle-full g e = rw e refl

abbrev Holds : Grid → Page → Type 0
Holds g p = (r q : ℕ) → r < g.rows → q < g.cols → g.cells (r * g.cols + q) ≡ p.text r q

scrolled :
    (g : Grid) (p : Page)
    → Holds g p
    → (r q : ℕ) → r < g.rows
    → q < g.cols
    → (scroll_grid g).cells (r * g.cols + q)
      ≡ (if ltb (r + 1) g.rows then p.text (r + 1) q else blank g)
scrolled g p cell r q h k = scroll-cell g r q h k ∙ elim (Bool-cases (ltb (r + 1) g.rows)) [
  | inl t ↦ rw t (cell (r + 1) q (ground arith) k)
  | inr t ↦ rw t refl
]

scroll-Shows :
    (g : Grid) (p : Page)
    → g.cursor_y ≡ p.row + 1
    → g.cursor_x ≡ 0
    → p.row < g.rows
    → 0 < g.cols
    → g.has_buffer ≡ true
    → Holds g p
    → Shows (scroll_grid g) (up g.rows g.cols (blank g) (record p { row = p.row + 1; col = 0 }))
unfolding up scroll_grid
scroll-Shows g p y x row cols buffer cell = record {
  row = ground arith;
  col = x;
  cell = λ r q h k. scrolled g p cell r q h k;
  row_in = ground arith;
  col_in = rw x cols;
  buffer = buffer;
}

-- A grid whose cursor went to the row below.
settle-next :
    (g : Grid) (p : Page)
    → g.cursor_y ≡ p.row + 1
    → g.cursor_x ≡ 0
    → p.row < g.rows
    → 0 < g.cols
    → g.has_buffer ≡ true
    → Holds g p
    → Shows (settle g) (next_row g.rows g.cols (blank g) p)
unfolding next_row
settle-next g p y x row cols buffer cell = elim (Bool-cases (ltb (p.row + 1) g.rows)) [
  | inl t ↦
      rw (t, settle-low g (ground arith))
        (record {
          row = y;
          col = x;
          cell = cell;
          row_in = ground arith;
          col_in = rw x cols;
          buffer = buffer;
        })
  | inr t ↦ rw (t, settle-full g (ground arith)) (scroll-Shows g p y x row cols buffer cell)
]

-- A grid whose cursor is on the page.
settle-stay : (g : Grid) (p : Page) → Shows g p → Shows (settle g) p
settle-stay g p s = rw (settle-low g (ground (arith, s.row_in))) s

module _ (g : Grid) (text : ℕ → ℕ → Cell) (low : g.cursor_y < g.rows) (left : g.cursor_x < g.cols)
    (buffer : g.has_buffer ≡ true)
    (cell : (r q : ℕ) → r < g.rows → q < g.cols → g.cells (r * g.cols + q) ≡ text r q) where
  -- The page, with the cursor of the grid.
  abbrev page : Page
  page = record { text = text; row = g.cursor_y; col = g.cursor_x }

  -- A write into the cell of a row and a column.
  written :
      (y x : ℕ) (a : Cell)
      → x < g.cols
      → (r q : ℕ) → r < g.rows
      → q < g.cols
      → update g.cells (y * g.cols + x) a (r * g.cols + q)
        ≡ (if (y == r) && (x == q) then a else text r q)
  written y x a lt r q h k = elim (Bool-cases ((y == r) && (x == q))) [
    | inl t ↦ rw t (
        ap (update g.cells (y * g.cols + x) a)
          (ap₂ (λ n m. n * g.cols + m) (same r q t).0 (same r q t).1)
        ∙ update_self g.cells (y * g.cols + x) a)
    | inr t ↦ rw t (update_ne g.cells a (place-ne y x r q g.cols lt k t) ∙ cell r q h k)
  ]
    where
      same : (r q : ℕ) → ((y == r) && (x == q)) ≡ true → (r ≡ y) × (q ≡ x)
      same r q t = (ground arith, ground arith)

  written-Shows :
      (y x y' x' : ℕ) (a : Cell)
      → x < g.cols
      → y' < g.rows
      → x' < g.cols
      → Shows
          (record g { cells = update g.cells (y * g.cols + x) a; cursor_x = x'; cursor_y = y' })
          (record {
            text = λ r q. if (y == r) && (x == q) then a else text r q;
            row = y';
            col = x';
          })
  written-Shows y x y' x' a lt low' left' = record {
    row = refl;
    col = refl;
    cell = written y x a lt;
    row_in = low';
    col_in = left';
    buffer = buffer;
  }

  newline-Shows : Shows (settle (newline g)) (put g.rows g.cols (blank g) 10 page)
  unfolding newline put
  newline-Shows = settle-next (newline g) page refl refl low (omega arith) buffer cell

  backspace-Shows : Shows (settle (backspace g)) (put g.rows g.cols (blank g) 8 page)
  unfolding backspace step_back put
  backspace-Shows = settle-stay (backspace g) _ (elim (Bool-cases (ltb 0 g.cursor_x)) [
    | inl t ↦ rw t (
        written-Shows g.cursor_y (g.cursor_x - 1) g.cursor_y (g.cursor_x - 1) (blank g)
          (omega arith) low (omega arith))
    | inr t ↦ elim (Bool-cases (ltb 0 g.cursor_y)) [
      | inl u ↦
          rw (t, u)
            (written-Shows (g.cursor_y - 1) (g.cols - 1) (g.cursor_y - 1) (g.cols - 1) (blank g)
              (omega arith) (omega arith) (omega arith))
      | inr u ↦
          rw (t, u)
            (written-Shows g.cursor_y g.cursor_x g.cursor_y g.cursor_x (blank g) left low left)
    ]
  ])

  write-Shows :
      (c : ℕ)
      → (c == 10) ≡ false
      → (c == 8) ≡ false
      → Shows (settle (write_char c g)) (put g.rows g.cols (blank g) c page)
  unfolding write_char put
  write-Shows c n b = elim (Bool-cases (leb g.cols (g.cursor_x + 1))) [
    | inl t ↦
        let u : ltb (g.cursor_x + 1) g.cols ≡ false = ground arith in
        rw (n, b, t, u)
          (settle-next
            (record g {
              cells =
                  update g.cells (g.cursor_y * g.cols + g.cursor_x) (record (blank g) { c = c });
              cursor_x = 0;
              cursor_y = g.cursor_y + 1;
            })
            (record {
              text = λ r q.
                  if (g.cursor_y == r) && (g.cursor_x == q)
                  then record (blank g) { c = c }
                  else text r q;
              row = g.cursor_y;
              col = g.cursor_x;
            })
            refl refl low (omega arith) buffer
            (written g.cursor_y g.cursor_x (record (blank g) { c = c }) left))
    | inr t ↦
        let u : ltb (g.cursor_x + 1) g.cols ≡ true = ground arith in
        rw (n, b, t, u)
          (settle-stay _ _ (
            written-Shows g.cursor_y g.cursor_x g.cursor_y (g.cursor_x + 1)
              (record (blank g) { c = c }) left low (ground arith)))
  ]

  put-Shows : (c : ℕ) → Shows (settle (put_grid c g)) (put g.rows g.cols (blank g) c page)
  unfolding put_grid
  put-Shows c = elim (Bool-cases (c == 10)) [
    | inl t ↦ rw t (
        subst (λ n. Shows (settle (newline g)) (put g.rows g.cols (blank g) n page)) {x = 10}
          (ground arith) newline-Shows)
    | inr t ↦ elim (Bool-cases (c == 8)) [
      | inl u ↦
          rw (t, u)
            (subst (λ n. Shows (settle (backspace g)) (put g.rows g.cols (blank g) n page)) {x = 8}
              (ground arith) backspace-Shows)
      | inr u ↦ rw (t, u) (write-Shows c t u)
    ]
  ]

-- On a page that the grid shows, term_put_char puts the character.
pub put_char-Shows :
    (c : ℕ) (t : Term) (p : Page)
    → Shows t.grid p
    → Shows (term_put_char c t).grid (put t.grid.rows t.grid.cols (blank t.grid) c p)
put_char-Shows c t p s = rw (put_char-grid c t s.buffer) (
    subst (λ p. Shows (settle (put_grid c t.grid)) (put t.grid.rows t.grid.cols (blank t.grid) c p))
      {x = record { text = p.text; row = t.grid.cursor_y; col = t.grid.cursor_x }}
      (λ i. record { text = p.text; row = s.row i; col = s.col i })
      (put-Shows t.grid p.text s.row_in s.col_in s.buffer s.cell c))

pub put_char-parser : (c : ℕ) (t : Term) → (term_put_char c t).parser ≡ t.parser
unfolding term_put_char term_scroll
put_char-parser c t = ground arith

pub trans-Kept : {f g h : Grid} → Kept f g → Kept g h → Kept f h
trans-Kept k l = record {
  rows = l.rows ∙ k.rows;
  cols = l.cols ∙ k.cols;
  fg_color = l.fg_color ∙ k.fg_color;
  bg_color = l.bg_color ∙ k.bg_color;
  buffer = l.buffer ∙ k.buffer;
  show_cursor = l.show_cursor ∙ k.show_cursor;
}
