-- ===== src/Terminal/Page.antt =====
-- The text as a page of rows and columns, which scrolls when the cursor leaves the last row.
use open_idp_os.Base.{
  ℕ, ◌+◌, ◌-◌, ◌*◌, ◌<◌, ◌≡◌, true, ◌&&◌, List, [], ◌∷◌, ◌==◌, ltb, if◌then◌else◌,
}
use open_idp_os.Terminal.{Cell, Grid}

pub record Page : Type 0 where
  pub text : (row col : ℕ) → Cell
  pub row : ℕ
  pub col : ℕ

module _ (rows cols : ℕ) (empty : Cell) where
  -- One row up, with an empty row at the bottom.
  unfoldable pub up : Page → Page
  up p = record p {
    text = λ r q. if ltb (r + 1) rows then p.text (r + 1) q else empty;
    row = p.row - 1;
  }

  unfoldable pub next_row : Page → Page
  unfolding up
  next_row p =
      let below = record p { row = p.row + 1; col = 0 } in
      if ltb (p.row + 1) rows then below else up below

  abbrev write_at : (r q : ℕ) → Cell → Page → Page
  write_at r q a p = record p { text = λ r' q'. if (r == r') && (q == q') then a else p.text r' q' }

  -- Back by one cell, at most to the first one.
  abbrev back : Page → Page
  back p =
      if ltb 0 p.col
      then record p { col = p.col - 1 }
      else if ltb 0 p.row
      then record p { row = p.row - 1; col = cols - 1 }
      else p

  -- A character on the page.
  unfoldable pub put : (c : ℕ) → Page → Page
  unfolding next_row
  put c p =
      let before = back p in
      let written = write_at p.row p.col (record empty { c = c }) p in
      if c == 10
      then next_row p
      else if c == 8
      then write_at before.row before.col empty before
      else if ltb (p.col + 1) cols
      then record written { col = p.col + 1 }
      else next_row written

  unfoldable pub put_all : List ℕ → Page → Page
  unfolding put
  put_all [] p = p
  put_all (c ∷ cs) p = put_all cs (put c p)

-- The grid shows the page: the cursor, and each cell within the rows and columns.
pub record Shows (g : Grid) (p : Page) : Type 0 where
  pub row : g.cursor_y ≡ p.row
  pub col : g.cursor_x ≡ p.col
  pub cell : (r q : ℕ) → r < g.rows → q < g.cols → g.cells (r * g.cols + q) ≡ p.text r q
  pub row_in : g.cursor_y < g.rows
  pub col_in : g.cursor_x < g.cols
  pub buffer : g.has_buffer ≡ true
