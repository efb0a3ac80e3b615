-- ===== src/Terminal/Writing.antt =====
-- The operations of userspace/terminal/term.c that write characters.
pub mod Scroll
pub mod Refine
pub mod Bounds
use open_idp_os.Base.{
  ℕ, zero, suc, ◌+◌, ◌-◌, ◌*◌, ◌/◌, ◌^◌, ◌%◌, Bool, true, false, not, ◌&&◌, Option, none, some,
  List, ◌∷◌, ◌==◌, ltb, leb, if◌then◌else◌, update,
}
use open_idp_os.Terminal.{
  Cell, Grid, Parser, AnsiState, normal, Surface, Rect, Term, default_bg, default_fg,
}
use open_idp_os.Terminal.Screen.{gfx_font_width, gfx_font_height, draw_cell, term_redraw_full}

-- A cell without a character in the current colors.
abbrev pub blank : Grid → Cell
blank g = record { c = 0; fg = g.fg_color; bg = g.bg_color }

-- memcpy, forwards, of `left` cells to the k-th from the one `by` cells on. Since `by` is not 0,
-- copying eight bytes at a time gives the same.
pub copy_cells : (left by k : ℕ) → (ℕ → Cell) → ℕ → Cell
copy_cells zero by k cells = cells
copy_cells (suc left) by k cells = copy_cells left by (k + 1) (update cells k (cells (k + by)))

pub fill_cells : Cell → (left k : ℕ) → (ℕ → Cell) → ℕ → Cell
fill_cells b zero k cells = cells
fill_cells b (suc left) k cells = fill_cells b left (k + 1) (update cells k b)

pub scroll_grid : Grid → Grid
unfolding copy_cells fill_cells
scroll_grid g =
    let moved = copy_cells ((g.rows - 1) * g.cols) g.cols 0 g.cells in
    record g {
      cells = fill_cells (blank g) g.cols ((g.rows - 1) * g.cols) moved;
      cursor_y = if ltb 0 g.cursor_y then g.cursor_y - 1 else g.cursor_y;
    }

pub term_scroll : Term → Term
unfolding scroll_grid
term_scroll t =
    let g = scroll_grid t.grid in
    if not t.grid.has_buffer
    then t
    else record t { grid = g; surface = term_redraw_full g t.surface }

-- The three cases of term_put_char, before the test for the last row.
pub newline : Grid → Grid
newline g = record g { cursor_x = 0; cursor_y = g.cursor_y + 1 }

pub step_back : Grid → Grid
step_back g =
    if ltb 0 g.cursor_x
    then record g { cursor_x = g.cursor_x - 1 }
    else if ltb 0 g.cursor_y
    then record g { cursor_y = g.cursor_y - 1; cursor_x = g.cols - 1 }
    else g

pub backspace : Grid → Grid
unfolding step_back
backspace g =
    let moved = step_back g in
    record moved {
      cells = update moved.cells (moved.cursor_y * moved.cols + moved.cursor_x) (blank moved);
    }

pub write_char : (c : ℕ) → Grid → Grid
write_char c g =
    let wraps = leb g.cols (g.cursor_x + 1) in
    record g {
      cells =
          update g.cells (g.cursor_y * g.cols + g.cursor_x)
            (record { c = c; fg = g.fg_color; bg = g.bg_color });
      cursor_x = if wraps then 0 else g.cursor_x + 1;
      cursor_y = if wraps then g.cursor_y + 1 else g.cursor_y;
    }

pub put_grid : (c : ℕ) → Grid → Grid
unfolding newline backspace write_char
put_grid c g = if c == 10 then newline g else if c == 8 then backspace g else write_char c g

pub term_put_char : (c : ℕ) → Term → Term
unfolding put_grid term_scroll
term_put_char c t =
    let old_x = t.grid.cursor_x in
    let old_y = t.grid.cursor_y in
    let g = put_grid c t.grid in
    if leb g.rows g.cursor_y then term_scroll (record t { grid = g }) else record t {
      grid = g;
      surface = draw_cell g g.cursor_x g.cursor_y (draw_cell g old_x old_y t.surface);
    }

pub term_clear : Term → Term
unfolding fill_cells
term_clear t =
    let g = t.grid in
    let g' = record g {
      cells = if g.has_buffer then fill_cells (blank g) (g.cols * g.rows) 0 g.cells else g.cells;
      cursor_x = 0;
      cursor_y = 0;
    } in
    record t { grid = g'; surface = term_redraw_full g' t.surface }

pub term_set_cursor_visible : (visible : ℕ) → Term → Term
term_set_cursor_visible visible t =
    let g = t.grid in
    let g' = record g { show_cursor = visible } in
    if not (g.show_cursor == visible)
    then record t {
      grid = g';
      surface = draw_cell g' g.cursor_x g.cursor_y (draw_cell g g.cursor_x g.cursor_y t.surface);
    }
    else t

-- Rows of cells into the new buffer: `left` rows from the y-th on, `width` cells of each.
pub copy_row : (old : ℕ → Cell) (from to left : ℕ) → (ℕ → Cell) → ℕ → Cell
copy_row old from to zero cells = cells
copy_row old from to (suc left) cells =
    copy_row old (from + 1) (to + 1) left (update cells to (old from))

pub copy_rows : (old : ℕ → Cell) (cols new_cols width left y : ℕ) → (ℕ → Cell) → ℕ → Cell
unfolding copy_row
copy_rows old cols new_cols width zero y cells = cells
copy_rows old cols new_cols width (suc left) y cells =
    copy_rows old cols new_cols width left (y + 1)
      (copy_row old (y * cols) (y * new_cols) width cells)

-- `block` is what the memory that malloc returns holds; a failure of malloc is not tested for.
pub resize_grid : (new_cols new_rows : ℕ) (block : ℕ → Cell) → Grid → Grid
unfolding fill_cells copy_rows
resize_grid new_cols new_rows block g =
    let empty =
      fill_cells (record { c = 0; fg = default_fg; bg = default_bg }) (new_cols * new_rows) 0
        block in
    let copied_rows = if ltb g.rows new_rows then g.rows else new_rows in
    let copied_cols = if ltb g.cols new_cols then g.cols else new_cols in
    record g {
      has_buffer = true;
      cells =
          if g.has_buffer
          then copy_rows g.cells g.cols new_cols copied_cols copied_rows 0 empty
          else empty;
      cols = new_cols;
      rows = new_rows;
      cursor_x = if leb new_cols g.cursor_x then new_cols - 1 else g.cursor_x;
      cursor_y = if leb new_rows g.cursor_y then new_rows - 1 else g.cursor_y;
    }

pub term_resize : (width height : ℕ) (block : ℕ → Cell) → Term → Term
unfolding resize_grid
term_resize width height block t =
    let new_cols = width / gfx_font_width t.surface in
    let new_rows = height / gfx_font_height t.surface in
    let g = resize_grid new_cols new_rows block t.grid in
    record t { grid = g; surface = term_redraw_full g t.surface }

-- `t` is the structure before the call; its fields that are not set keep their values.
pub term_init : (block : ℕ → Cell) → Surface → Term → Term
unfolding term_resize
term_init block gfx t =
    let g = record t.grid {
      fg_color = default_fg;
      bg_color = default_bg;
      cursor_x = 0;
      cursor_y = 0;
      show_cursor = 1;
      has_buffer = false;
    } in
    term_resize gfx.width gfx.height block (record {
      grid = g;
      parser = record t.parser { ansi_state = normal; ansi_param_count = 0 };
      surface = record gfx { last_update = t.surface.last_update };
    })

pub term_destroy : Term → Term
term_destroy t =
    if t.grid.has_buffer then record t { grid = record t.grid { has_buffer = false } } else t
