-- ===== src/Terminal/Screen.antt =====
-- The drawing routines of userspace/terminal/term.c.
use open_idp_os.Base.{
  ℕ, zero, suc, ◌+◌, ◌-◌, ◌*◌, Bool, true, not, ◌&&◌, ◌||◌, none, some, ◌∷◌, ◌==◌, ltb,
  if◌then◌else◌,
}
use open_idp_os.Terminal.{Grid, clear, glyph, Surface, default_bg}

pub gfx_font_width : Surface → ℕ
gfx_font_width s = elim s.font [ none ↦ 8 | some (w, h) ↦ w ]

pub gfx_font_height : Surface → ℕ
gfx_font_height s = elim s.font [ none ↦ 16 | some (w, h) ↦ h ]

pub add_dirty_cell : (col row : ℕ) → Surface → Surface
unfolding gfx_font_width gfx_font_height
add_dirty_cell col row s =
    let cell_w = gfx_font_width s in
    let cell_h = gfx_font_height s in
    let x = col * cell_w in
    let y = row * cell_h in
    let r = s.last_update in
    let min_x = if ltb x r.x then x else r.x in
    let min_y = if ltb y r.y then y else r.y in
    let max_x = if ltb (r.x + r.w) (x + cell_w) then x + cell_w else r.x + r.w in
    let max_y = if ltb (r.y + r.h) (y + cell_h) then y + cell_h else r.y + r.h in
    record s {
      last_update =
          if r.dirty
          then record { x = min_x; y = min_y; w = max_x - min_x; h = max_y - min_y; dirty = true }
          else record { x = x; y = y; w = cell_w; h = cell_h; dirty = true };
    }

-- Whether the cursor is shown in the cell.
pub is_cursor : Grid → (x y : ℕ) → Bool
is_cursor g x y = not (g.show_cursor == 0) && (x == g.cursor_x) && (y == g.cursor_y)

pub draw_cell : Grid → (x y : ℕ) → Surface → Surface
unfolding is_cursor add_dirty_cell gfx_font_width gfx_font_height
draw_cell g x y s =
    let cell = g.cells (y * g.cols + x) in
    let c = if cell.c == 0 then 32 else cell.c in
    let fg = if is_cursor g x y then cell.bg else cell.fg in
    let bg = if is_cursor g x y then cell.fg else cell.bg in
    let px = x * gfx_font_width s in
    let py = y * gfx_font_height s in
    if not g.has_buffer
    then s
    else add_dirty_cell x y (record s { drawn = glyph px py c fg bg ∷ s.drawn })

-- The body of the inner loop of term_redraw_full.
pub redraw_cell : Grid → (x y : ℕ) → Surface → Surface
unfolding is_cursor draw_cell
redraw_cell g x y s =
    let cell = g.cells (y * g.cols + x) in
    let s' =
      if (not (cell.c == 0) && not (cell.c == 32)) || not (cell.bg == default_bg)
      then draw_cell g x y s
      else s in
    if is_cursor g x y then draw_cell g x y s' else s'

-- `for (x = 0; x < cols; x++)` and `for (y = 0; y < rows; y++)`, with `left` turns to go.
pub redraw_row : Grid → (left x y : ℕ) → Surface → Surface
unfolding redraw_cell
redraw_row g zero x y s = s
redraw_row g (suc left) x y s = redraw_row g left (x + 1) y (redraw_cell g x y s)

pub redraw_rows : Grid → (left y : ℕ) → Surface → Surface
unfolding redraw_row
redraw_rows g zero y s = s
redraw_rows g (suc left) y s = redraw_rows g left (y + 1) (redraw_row g g.cols 0 y s)

-- `last_update` is the whole context.
pub update_all : Surface → Surface
update_all s = record s {
  last_update = record { x = 0; y = 0; w = s.width; h = s.height; dirty = true };
}

pub term_redraw_full : Grid → Surface → Surface
unfolding redraw_rows update_all
term_redraw_full g s =
    update_all (redraw_rows g g.rows 0 (record s { drawn = clear default_bg ∷ s.drawn }))
