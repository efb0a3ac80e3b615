-- ===== src/Terminal.antt =====
-- userspace/terminal/term.c and term.h: the terminal emulator. The structure term_t is split into
-- what its groups of fields are for: the grid of characters with the cursor and the colors, the
-- parser of escape sequences, and what is drawn. The ints are those of a screen, which do not
-- overflow, on a screen of at least one character; a character is its byte.
pub mod Screen
pub mod Writing
pub mod Escape
pub mod Page
mod Tests
use open_idp_os.Base.{ℕ, zero, suc, ◌+◌, ◌*◌, Bool, Option, List}

-- A byte and its colors.
pub record Cell : Type 0 where
  pub c : ℕ
  pub fg : ℕ
  pub bg : ℕ

-- The fields of term_t on the text: `has_buffer` tells that text_buffer is not NULL, and `cells`
-- is the memory from text_buffer on.
pub record Grid : Type 0 where
  pub has_buffer : Bool
  pub cells : ℕ → Cell
  pub cols : ℕ
  pub rows : ℕ
  pub cursor_x : ℕ
  pub cursor_y : ℕ
  pub show_cursor : ℕ
  pub fg_color : ℕ
  pub bg_color : ℕ

pub data AnsiState : Type 0 where
  normal : AnsiState
  esc : AnsiState
  csi : AnsiState
  osc : AnsiState

-- The fields of term_t on escape sequences.
pub record Parser : Type 0 where
  pub ansi_state : AnsiState
  pub ansi_params : ℕ → ℕ
  pub ansi_param_count : ℕ
  pub osc_buffer : ℕ → ℕ
  pub osc_idx : ℕ

pub record Rect : Type 0 where
  pub x : ℕ
  pub y : ℕ
  pub w : ℕ
  pub h : ℕ
  pub dirty : Bool

-- What the graphics library is asked to draw; an image is given by its file's contents.
pub data Drawing : Type 0 where
  clear : (color : ℕ) → Drawing
  glyph : (px py c fg bg : ℕ) → Drawing
  image : (px py : ℕ) (contents : List ℕ) → Drawing

-- The context's size and the glyph size of its font, if it has one; the drawings, the last first.
pub record Surface : Type 0 where
  pub width : ℕ
  pub height : ℕ
  pub font : Option (ℕ × ℕ)
  pub last_update : Rect
  pub drawn : List Drawing

pub record Term : Type 0 where
  pub grid : Grid
  pub parser : Parser
  pub surface : Surface

abbrev pub default_bg : ℕ
default_bg = 0x00181825

abbrev pub default_fg : ℕ
default_fg = 0x00bac2de
