-- ===== src/Terminal/Escape.antt =====
-- The escape sequences of userspace/terminal/term.c: the colors, the image file, and term_write.
pub mod Bounds
pub mod Palette
pub mod Colors
pub mod Text
use open_idp_os.Base.{
  ℕ, zero, suc, ◌+◌, ◌-◌, ◌*◌, ◌/◌, ◌^◌, ◌%◌, Bool, true, false, not, ◌&&◌, ◌||◌, Option, none,
  some, List, [], ◌∷◌, ◌==◌, ltb, leb, if◌then◌else◌, update,
}
use open_idp_os.Terminal.{
  Cell, Grid, Parser, AnsiState, normal, esc, csi, osc, Surface, Drawing, image, Term, default_bg,
  default_fg,
}
use open_idp_os.Terminal.Screen.{gfx_font_width, gfx_font_height, update_all}
use open_idp_os.Terminal.Writing.{term_put_char}

-- ANSI_COLORS
pub ansi_colors : ℕ → ℕ
ansi_colors zero = 0x00181825
ansi_colors (suc zero) = 0x00f38ba8
ansi_colors (suc (suc zero)) = 0x00a6e3a1
ansi_colors (suc (suc (suc zero))) = 0x00f9e2af
ansi_colors (suc (suc (suc (suc zero)))) = 0x0089b4fa
ansi_colors (suc (suc (suc (suc (suc zero))))) = 0x00cba6f7
ansi_colors (suc (suc (suc (suc (suc (suc zero)))))) = 0x006c7086
ansi_colors _ = 0x00bac2de

-- `code` is the 32-bit pattern of an int.
pub apply_ansi_code : (code : ℕ) → Grid → Grid
apply_ansi_code code g =
    if code == 0
    then record g { fg_color = default_fg; bg_color = default_bg }
    else if leb 30 code && leb code 37
    then record g { fg_color = ansi_colors (code - 30) }
    else if leb 40 code && leb code 47
    then record g { bg_color = ansi_colors (code - 40) }
    else g

-- The loop over the parameters, with `left` turns to go.
pub apply_loop : (params : ℕ → ℕ) (left i : ℕ) → Grid → Grid
unfolding apply_ansi_code
apply_loop params zero i g = g
apply_loop params (suc left) i g = apply_loop params left (i + 1) (apply_ansi_code (params i) g)

pub term_process_ansi_end : (terminator : ℕ) → Term → Term
term_process_ansi_end terminator t =
    let p = t.parser in
    let g =
      if terminator == 109
      then (if p.ansi_param_count == 0
          then apply_ansi_code 0 t.grid
          else apply_loop p.ansi_params p.ansi_param_count 0 t.grid)
      else t.grid in
    record t {
      grid = g;
      parser = record p {
        ansi_state = normal;
        ansi_param_count = 0;
        ansi_params = update p.ansi_params 0 0;
      };
    }

-- struct kstat: the fields that are read.
pub record Stat : Type 0 where
  pub flags : ℕ
  pub size : ℕ

-- The system calls on a path: the status of sys_stat and its result, the contents that
-- sys_file_read puts into a buffer of a size with the number of bytes, and whether malloc returns
-- a buffer of a size.
pub record Files : Type 0 where
  pub sys_stat : (ℕ → ℕ) → ℕ × Stat
  pub sys_file_read : (ℕ → ℕ) → (size : ℕ) → ℕ × List ℕ
  pub malloc : (size : ℕ) → Bool

pub load_file_to_memory : Files → (path : ℕ → ℕ) → Option (List ℕ)
load_file_to_memory files path =
    let (stat_err, stat) = files.sys_stat path in
    let (bytes_read, contents) = files.sys_file_read path stat.size in
    if not (stat_err == 0) || (stat.flags == 1) || (stat.size == 0)
    then none
    else if not (files.malloc stat.size)
    then none
    else if not (bytes_read == stat.size)
    then none
    else some contents

-- `strncmp(osc_buffer, "69;", 3) == 0`
pub is_image_command : (ℕ → ℕ) → Bool
is_image_command b = (b 0 == 54) && (b 1 == 57) && (b 2 == 59)

-- The image at the cursor, and the whole screen to be updated.
pub draw_image : (img_data : Option (List ℕ)) → Term → Term
draw_image none t = t
draw_image (some contents) t = record t {
  surface = update_all (record t.surface {
    drawn =
        image (t.grid.cursor_x * gfx_font_width t.surface)
          (t.grid.cursor_y * gfx_font_height t.surface) contents
        ∷ t.surface.drawn;
  });
}

abbrev pub set_state : AnsiState → Term → Term
set_state s t = record t { parser = record t.parser { ansi_state = s } }

-- The cases of the loop of term_write.
pub esc_byte : (c : ℕ) → Term → Term
esc_byte c t =
    let p = t.parser in
    if c == 91
    then record t {
      parser = record p {
        ansi_state = csi;
        ansi_param_count = 0;
        ansi_params = update p.ansi_params 0 0;
      };
    }
    else if c == 93
    then record t {
      parser = record p {
        ansi_state = osc;
        osc_idx = 0;
        osc_buffer = λ i. if ltb i 128 then 0 else p.osc_buffer i;
      };
    }
    else term_put_char c (set_state normal t)

pub osc_byte : Files → (c : ℕ) → Term → Term
osc_byte files c t =
    let p = t.parser in
    if c == 7
    then set_state normal (
        if is_image_command p.osc_buffer
        then draw_image (load_file_to_memory files (λ i. p.osc_buffer (3 + i))) t
        else t)
    else if ltb p.osc_idx 127
    then record t {
      parser = record p { osc_buffer = update p.osc_buffer p.osc_idx c; osc_idx = p.osc_idx + 1 };
    }
    else t

pub csi_byte : (c : ℕ) → Term → Term
csi_byte c t =
    let p = t.parser in
    let n = p.ansi_param_count in
    if leb 48 c && leb c 57
    then record t {
      parser = record p {
        ansi_params = update p.ansi_params n ((p.ansi_params n * 10 + (c - 48)) % 2 ^ 32);
      };
    }
    else if c == 59
    then (if ltb n 3
        then record t {
          parser = record p {
            ansi_param_count = n + 1;
            ansi_params = update p.ansi_params (n + 1) 0;
          };
        }
        else t)
    else term_process_ansi_end c (
        if (n == 0) && (p.ansi_params 0 == 0)
        then t
        else record t { parser = record p { ansi_param_count = n + 1 } })

pub normal_byte : (c : ℕ) → Term → Term
normal_byte c t = if c == 27 then set_state esc t else term_put_char c t

pub byte_in : Files → AnsiState → (c : ℕ) → Term → Term
unfolding esc_byte osc_byte csi_byte normal_byte
byte_in files esc c t = esc_byte c t
byte_in files osc c t = osc_byte files c t
byte_in files csi c t = csi_byte c t
byte_in files normal c t = normal_byte c t

-- The string without its NUL. The result of the call is the field `last_update`.
pub term_write : Files → (str : List ℕ) → Term → Term
unfolding byte_in
term_write files [] t = t
term_write files (c ∷ str) t = term_write files str (byte_in files t.parser.ansi_state c t)
