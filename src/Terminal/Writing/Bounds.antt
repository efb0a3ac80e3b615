-- ===== src/Terminal/Writing/Bounds.antt =====
-- term_put_char stays within the buffer.
use mathlib.Core.Path.{ap₂}
use open_idp_os.Base.{
  ℕ, ◌+◌, ◌-◌, ◌*◌, ◌≤◌, ◌<◌, ◌≡◌, ◌∙◌, refl, ap, true, arith, ◌==◌, ltb, leb, update, update_ne,
  Bool-cases, inl, inr,
}
use open_idp_os.Terminal.{Cell, Grid, Term}
use open_idp_os.Terminal.Writing.{
  blank, newline, step_back, backspace, write_char, put_grid, term_put_char,
}
use open_idp_os.Terminal.Writing.Scroll.{place-lt, scroll-outside}
use open_idp_os.Terminal.Writing.Refine.{
  settle-low, settle-full, put_grid-Kept, put_char-grid, put_char-Shows,
}

-- The cursor stands on a cell of the buffer.
pub record OnScreen (g : Grid) : Type 0 where
  pub buffer : g.has_buffer ≡ true
  pub col_in : g.cursor_x < g.cols
  pub row_in : g.cursor_y < g.rows

-- No cell outside the rows and columns differs.
abbrev pub Outside : Grid → Grid → Type 0
Outside g g' = (a : ℕ) → g.rows * g.cols ≤ a → g'.cells a ≡ g.cells a

pub put_char-OnScreen : (c : ℕ) (t : Term) → OnScreen t.grid → OnScreen (term_put_char c t).grid
put_char-OnScreen c t s =
    let shows =
      put_char-Shows c t
        (record {
          text = λ r q. t.grid.cells (r * t.grid.cols + q);
          row = t.grid.cursor_y;
          col = t.grid.cursor_x;
        })
        (record {
          row = refl;
          col = refl;
          cell = λ r q h k. refl;
          row_in = s.row_in;
          col_in = s.col_in;
          buffer = s.buffer;
        }) in
    record { buffer = shows.buffer; col_in = shows.col_in; row_in = shows.row_in }

update-Outside :
    (g : Grid) (y x : ℕ) (a : Cell)
    → y < g.rows
    → x < g.cols
    → (k : ℕ) → g.rows * g.cols ≤ k
    → update g.cells (y * g.cols + x) a k ≡ g.cells k
update-Outside g y x a h l k le =
    update_ne g.cells a (omega (arith, place-lt y x g.rows g.cols h l))

put_grid-Outside : (c : ℕ) (g : Grid) → OnScreen g → Outside g (put_grid c g)
unfolding put_grid newline backspace step_back write_char
put_grid-Outside c g s k le = elim (Bool-cases (c == 10)) [
  | inl t ↦ rw t refl
  | inr t ↦ elim (Bool-cases (c == 8)) [
    | inl u ↦
        rw (t, u)
          (elim (Bool-cases (ltb 0 g.cursor_x)) [
            | inl v ↦ rw v (
                update-Outside g g.cursor_y (g.cursor_x - 1) (blank g) s.row_in
                  (omega (arith, s.col_in)) k le)
            | inr v ↦ elim (Bool-cases (ltb 0 g.cursor_y)) [
              | inl w ↦
                  rw (v, w)
                    (update-Outside g (g.cursor_y - 1) (g.cols - 1) (blank g)
                      (omega (arith, s.row_in)) (omega (arith, s.col_in)) k le)
              | inr w ↦
                  rw (v, w)
                    (update-Outside g g.cursor_y g.cursor_x (blank g) s.row_in s.col_in k le)
            ]
          ])
    | inr u ↦
        rw (t, u)
          (update-Outside g g.cursor_y g.cursor_x (record (blank g) { c = c }) s.row_in s.col_in k
            le)
  ]
]

pub put_char-Outside :
    (c : ℕ) (t : Term) → OnScreen t.grid → Outside t.grid (term_put_char c t).grid
put_char-Outside c t s a le =
    let g = put_grid c t.grid in
    let k = put_grid-Kept c t.grid in
    let size : g.rows * g.cols ≡ t.grid.rows * t.grid.cols = ap₂ (λ n m. n * m) k.rows k.cols in
    ap (λ (h : Grid). h.cells a) (put_char-grid c t s.buffer)
    ∙ (elim (Bool-cases (leb g.rows g.cursor_y)) [
      | inl e ↦
          ap (λ (h : Grid). h.cells a) (settle-full g e)
          ∙ scroll-outside g a (omega (arith, s.col_in, k.cols)) (omega (arith, s.row_in, k.rows))
              (omega (arith, size))
      | inr e ↦ ap (λ (h : Grid). h.cells a) (settle-low g e)
    ])
    ∙ put_grid-Outside c t.grid s a le
