-- ===== src/Terminal/Escape/Bounds.antt =====
-- term_write stays within the arrays of the terminal.
use mathlib.Core.Path.{subst, ap₂}
use open_idp_os.Base.{
  ℕ, zero, suc, ◌+◌, ◌-◌, ◌*◌, ◌%◌, ◌^◌, ◌≤◌, ◌≡◌, ◌∙◌, sym, refl, ap, ◌&&◌, arith, ◌==◌, ltb, leb,
  List, [], ◌∷◌, Option, none, some, update_ne, Bool-cases, inl, inr, ltb→lt,
}
use open_idp_os.Terminal.{AnsiState, normal, esc, csi, osc, Cell, Grid, Parser, Term}
use open_idp_os.Terminal.Writing.{term_put_char}
use open_idp_os.Terminal.Writing.Refine.{put_char-Kept, put_char-parser}
use open_idp_os.Terminal.Writing.Bounds.{OnScreen, put_char-OnScreen, put_char-Outside}
use open_idp_os.Terminal.Escape.{
  Files, is_image_command, load_file_to_memory, apply_ansi_code, apply_loop, term_process_ansi_end,
  draw_image, esc_byte, osc_byte, csi_byte, normal_byte, byte_in, term_write,
}

-- The indices of the parser are in range.
pub record InRange (p : Parser) : Type 0 where
  pub count : p.ansi_param_count ≤ 3
  pub index : p.osc_idx ≤ 127

-- What a call changes lies within the buffer, the four parameters and the 128 bytes.
pub record Within (t t' : Term) : Type 0 where
  pub screen : OnScreen t'.grid
  pub range : InRange t'.parser
  pub rows : t'.grid.rows ≡ t.grid.rows
  pub cols : t'.grid.cols ≡ t.grid.cols
  pub cells : (a : ℕ) → t.grid.rows * t.grid.cols ≤ a → t'.grid.cells a ≡ t.grid.cells a
  pub params : (j : ℕ) → 4 ≤ j → t'.parser.ansi_params j ≡ t.parser.ansi_params j
  pub osc_bytes : (j : ℕ) → 128 ≤ j → t'.parser.osc_buffer j ≡ t.parser.osc_buffer j

-- Only the colors differ.
record Recolored (g g' : Grid) : Type 0 where
  has_buffer : g'.has_buffer ≡ g.has_buffer
  cells : g'.cells ≡ g.cells
  cols : g'.cols ≡ g.cols
  rows : g'.rows ≡ g.rows
  cursor_x : g'.cursor_x ≡ g.cursor_x
  cursor_y : g'.cursor_y ≡ g.cursor_y

apply-Recolored : (code : ℕ) (g : Grid) → Recolored g (apply_ansi_code code g)
unfolding apply_ansi_code
apply-Recolored code g = ground arith

apply_loop-Recolored :
    (params : ℕ → ℕ) (left i : ℕ) (g : Grid) → Recolored g (apply_loop params left i g)
unfolding apply_loop
apply_loop-Recolored params zero i g = ground arith
apply_loop-Recolored params (suc left) i g = ground (
  arith,
  apply-Recolored (params i) g,
  apply_loop-Recolored params left (i + 1) (apply_ansi_code (params i) g),
)

end-Recolored : (c : ℕ) (t : Term) → Recolored t.grid (term_process_ansi_end c t).grid
unfolding term_process_ansi_end
end-Recolored c t = ground (
  arith,
  apply-Recolored 0 t.grid,
  apply_loop-Recolored t.parser.ansi_params t.parser.ansi_param_count 0 t.grid,
)

module _ (files : Files) (c : ℕ) (t : Term) (screen : OnScreen t.grid)
    (range : InRange t.parser) where
  stay-Within :
      (t' : Term)
      → Recolored t.grid t'.grid
      → InRange t'.parser
      → ((j : ℕ) → 4 ≤ j → t'.parser.ansi_params j ≡ t.parser.ansi_params j)
      → ((j : ℕ) → 128 ≤ j → t'.parser.osc_buffer j ≡ t.parser.osc_buffer j)
      → Within t t'
  stay-Within t' g r p o = record {
    screen = record {
      buffer = g.has_buffer ∙ screen.buffer;
      col_in = omega (arith, g.cursor_x, g.cols, screen.col_in);
      row_in = omega (arith, g.cursor_y, g.rows, screen.row_in);
    };
    range = r;
    rows = g.rows;
    cols = g.cols;
    cells = λ a le. ap (λ (f : ℕ → Cell). f a) g.cells;
    params = p;
    osc_bytes = o;
  }

  -- A character, in any state of the parser.
  put-Within :
      (s : AnsiState)
      → Within t (term_put_char c (record t { parser = record t.parser { ansi_state = s } }))
  put-Within s =
      let t' = record t { parser = record t.parser { ansi_state = s } } in
      let k = put_char-Kept c t' screen.buffer in
      let p = put_char-parser c t' in
      record {
        screen = put_char-OnScreen c t' screen;
        range = record {
          count = omega (arith, ap (λ (q : Parser). q.ansi_param_count) p, range.count);
          index = omega (arith, ap (λ (q : Parser). q.osc_idx) p, range.index);
        };
        rows = k.rows;
        cols = k.cols;
        cells = put_char-Outside c t' screen;
        params = λ j le. ap (λ (q : Parser). q.ansi_params j) p;
        osc_bytes = λ j le. ap (λ (q : Parser). q.osc_buffer j) p;
      }

  same : Recolored t.grid t.grid
  same = ground arith

  in_range : {s : AnsiState} → InRange (record t.parser { ansi_state = s })
  in_range = record { count = range.count; index = range.index }

  normal-Within : Within t (normal_byte c t)
  unfolding normal_byte
  normal-Within = elim (Bool-cases (c == 27)) [
    | inl a ↦ rw a (
        stay-Within (record t { parser = record t.parser { ansi_state = esc } }) same in_range
          (λ j le. refl) (λ j le. refl))
    | inr a ↦ rw a (put-Within t.parser.ansi_state)
  ]

  esc-Within : Within t (esc_byte c t)
  unfolding esc_byte
  esc-Within = elim (Bool-cases (c == 91)) [
    | inl a ↦
        rw a
          (stay-Within _ same (ground (arith, range.index)) (λ j le. ground arith) (λ j le. refl))
    | inr a ↦ elim (Bool-cases (c == 93)) [
      | inl b ↦
          rw (a, b)
            (stay-Within _ same (ground (arith, range.count)) (λ j le. refl) (λ j le. ground arith))
      | inr b ↦ rw (a, b) (put-Within normal)
    ]
  ]

  image-same :
      (o : Option (List ℕ))
      → ((draw_image o t).grid ≡ t.grid) × ((draw_image o t).parser ≡ t.parser)
  unfolding draw_image
  image-same none = (refl, refl)
  image-same (some x) = (refl, refl)

  osc-Within : Within t (osc_byte files c t)
  unfolding osc_byte
  osc-Within = elim (Bool-cases (c == 7)) [
    | inl a ↦ rw a (elim (Bool-cases (is_image_command t.parser.osc_buffer)) [
      | inl b ↦
          let o = load_file_to_memory files (λ i. t.parser.osc_buffer (3 + i)) in
          let (g, p) = image-same o in
          rw b (
            stay-Within
              (record (draw_image o t) {
                parser = record (draw_image o t).parser { ansi_state = normal };
              })
              (subst (λ h. Recolored t.grid h) (sym g) same)
              (record {
                count = omega (arith, ap (λ (q : Parser). q.ansi_param_count) p, range.count);
                index = omega (arith, ap (λ (q : Parser). q.osc_idx) p, range.index);
              })
              (λ j le. ap (λ (q : Parser). q.ansi_params j) p)
              (λ j le. ap (λ (q : Parser). q.osc_buffer j) p))
      | inr b ↦ rw b (
          stay-Within (record t { parser = record t.parser { ansi_state = normal } }) same in_range
            (λ j le. refl) (λ j le. refl))
    ])
    | inr a ↦ elim (Bool-cases (ltb t.parser.osc_idx 127)) [
      | inl b ↦
          rw (a, b)
            (stay-Within _ same (record { count = range.count; index = ground arith })
              (λ j le. refl) (λ j le. update_ne t.parser.osc_buffer c (ground arith)))
      | inr b ↦ rw (a, b) (stay-Within t same range (λ j le. refl) (λ j le. refl))
    ]
  ]

  end-Within :
      (d : ℕ) (t' : Term)
      → t'.grid ≡ t.grid
      → t'.parser.osc_idx ≤ 127
      → ((j : ℕ) → 4 ≤ j → t'.parser.ansi_params j ≡ t.parser.ansi_params j)
      → ((j : ℕ) → 128 ≤ j → t'.parser.osc_buffer j ≡ t.parser.osc_buffer j)
      → Within t (term_process_ansi_end d t')
  end-Within d t' g i p o =
      stay-Within (term_process_ansi_end d t')
        (subst (λ h. Recolored h (term_process_ansi_end d t').grid) g (end-Recolored d t'))
        (unfold term_process_ansi_end in record { count = omega arith; index = i })
        (λ j le.
          unfold term_process_ansi_end in update_ne t'.parser.ansi_params 0 (omega arith) ∙ p j le)
        (λ j le. unfold term_process_ansi_end in o j le)

  csi-Within : Within t (csi_byte c t)
  unfolding csi_byte
  csi-Within = elim (Bool-cases (leb 48 c && leb c 57)) [
    | inl a ↦ rw a (
        stay-Within _ same (record { count = range.count; index = range.index })
          (λ j le.
            update_ne t.parser.ansi_params
              ((t.parser.ansi_params t.parser.ansi_param_count * 10 + (c - 48)) % 2 ^ 32)
              (omega (arith, range.count)))
          (λ j le. refl))
    | inr a ↦ elim (Bool-cases (c == 59)) [
      | inl b ↦ elim (Bool-cases (ltb t.parser.ansi_param_count 3)) [
        | inl d ↦
            rw (a, b, d)
              (stay-Within _ same (record { count = ground arith; index = range.index })
                (λ j le.
                  update_ne t.parser.ansi_params 0 (omega (arith, range.count, ltb→lt _ _ d)))
                (λ j le. refl))
        | inr d ↦ rw (a, b, d) (stay-Within t same range (λ j le. refl) (λ j le. refl))
      ]
      | inr b ↦
          elim (Bool-cases ((t.parser.ansi_param_count == 0) && (t.parser.ansi_params 0 == 0))) [
            | inl d ↦ rw (a, b, d) (end-Within c t refl range.index (λ j le. refl) (λ j le. refl))
            | inr d ↦
                rw (a, b, d)
                  (end-Within c
                    (record t {
                      parser = record t.parser { ansi_param_count = t.parser.ansi_param_count + 1 };
                    })
                    refl range.index (λ j le. refl) (λ j le. refl))
          ]
    ]
  ]

  byte-Within : Within t (byte_in files t.parser.ansi_state c t)
  unfolding byte_in
  byte-Within = elim t.parser.ansi_state as (λ s. Within t (byte_in files s c t)) [
    | normal ↦ normal-Within
    | esc ↦ esc-Within
    | csi ↦ csi-Within
    | osc ↦ osc-Within
  ]

trans-Within : {t u v : Term} → Within t u → Within u v → Within t v
trans-Within {t} {u} {v} k l = record {
  screen = l.screen;
  range = l.range;
  rows = l.rows ∙ k.rows;
  cols = l.cols ∙ k.cols;
  cells = λ a le. l.cells a (omega (arith, ap₂ (λ n m. n * m) k.rows k.cols)) ∙ k.cells a le;
  params = λ j le. l.params j le ∙ k.params j le;
  osc_bytes = λ j le. l.osc_bytes j le ∙ k.osc_bytes j le;
}

-- If the cursor stands on the screen and the parser's indices are in range, then after term_write
-- of any bytes, with any escape sequences among them, finished or not, this is so again, the
-- screen has the same size, and no cell outside the rows and columns, no parameter behind the
-- four and no byte behind the 128 of the path buffer has changed.
pub term_write-Within :
    (files : Files) (str : List ℕ) (t : Term)
    → OnScreen t.grid
    → InRange t.parser
    → Within t (term_write files str t)
unfolding term_write
term_write-Within files [] t s r = record {
  screen = s;
  range = r;
  rows = refl;
  cols = refl;
  cells = λ a le. refl;
  params = λ j le. refl;
  osc_bytes = λ j le. refl;
}
term_write-Within files (c ∷ str) t s r =
    let w = byte-Within files c t s r in
    trans-Within w
      (term_write-Within files str (byte_in files t.parser.ansi_state c t) w.screen w.range)
