-- ===== src/Terminal/Tests.antt =====
-- The terminal at concrete inputs: two rows of three columns.
use open_idp_os.Base.{ℕ, ◌≡◌, refl, true, false, arith, List, [], ◌∷◌, none, map}
use open_idp_os.Terminal.{Cell, normal, Term, default_bg, default_fg}
use open_idp_os.Terminal.Writing.Refine.{Kept}
use open_idp_os.Terminal.Page.{Page, Shows, put_all}
use open_idp_os.Terminal.Escape.{Files, term_write}
use open_idp_os.Terminal.Escape.Text.{term_write-Shows}
use open_idp_os.Terminal.Escape.Palette.{with_colors, color_after, foregrounds, backgrounds}
use open_idp_os.Terminal.Escape.Colors.{body, code_of, term_write-colors}
use open_idp_os.Terminal.Escape.Bounds.{Within, term_write-Within}

abbrev no_files : Files
no_files = record {
  sys_stat = λ path. (1, record { flags = 0; size = 0 });
  sys_file_read = λ path size. (0, []);
  malloc = λ size. true;
}

abbrev empty_cell : Cell
empty_cell = record { c = 0; fg = default_fg; bg = default_bg }

abbrev small : Term
small = record {
  grid = record {
    has_buffer = true;
    cells = λ _. empty_cell;
    cols = 3;
    rows = 2;
    cursor_x = 1;
    cursor_y = 1;
    show_cursor = 1;
    fg_color = default_fg;
    bg_color = default_bg;
  };
  parser = record {
    ansi_state = normal;
    ansi_params = λ _. 0;
    ansi_param_count = 0;
    osc_buffer = λ _. 0;
    osc_idx = 0;
  };
  surface = record {
    width = 24;
    height = 32;
    font = none;
    last_update = record { x = 0; y = 0; w = 0; h = 0; dirty = false };
    drawn = [];
  };
}

abbrev empty_page : Page
empty_page = record { text = λ r q. empty_cell; row = 1; col = 1 }

small-Shows : Shows small.grid empty_page
small-Shows = record {
  row = refl;
  col = refl;
  cell = λ r q h k. refl;
  row_in = omega arith;
  col_in = omega arith;
  buffer = refl;
}

-- "abc", a backspace and a line break; the page scrolls twice.
abbrev line : List ℕ
line = 97 ∷ 98 ∷ 99 ∷ 8 ∷ 10 ∷ []

term_write-Shows_example :
    Shows (term_write no_files line small).grid (put_all 2 3 empty_cell line empty_page)
    × Kept small.grid (term_write no_files line small).grid
    × ((term_write no_files line small).parser ≡ small.parser)
term_write-Shows_example = term_write-Shows no_files line small empty_page refl refl small-Shows

-- "\x1b[0;31m"
term_write-colors_example :
    let u = term_write no_files (27 ∷ 91 ∷ body (48 ∷ []) ((51 ∷ 49 ∷ []) ∷ [])) small in
    let codes = map code_of ((48 ∷ []) ∷ (51 ∷ 49 ∷ []) ∷ []) in
    (u.grid
      ≡ with_colors
          (color_after foregrounds codes default_fg)
          (color_after backgrounds codes default_bg)
          small.grid)
    × (u.surface ≡ small.surface)
    × (u.parser.ansi_state ≡ normal)
term_write-colors_example =
    term_write-colors no_files (48 ∷ []) ((51 ∷ 49 ∷ []) ∷ []) small refl (omega arith)
      (omega arith) (omega arith)

-- An image command that has not ended.
term_write-Within_example : Within small (term_write no_files (27 ∷ 93 ∷ 54 ∷ 57 ∷ 59 ∷ line) small)
term_write-Within_example =
    term_write-Within no_files (27 ∷ 93 ∷ 54 ∷ 57 ∷ 59 ∷ line) small
      (record { buffer = refl; col_in = omega arith; row_in = omega arith })
      (record { count = omega arith; index = omega arith })
