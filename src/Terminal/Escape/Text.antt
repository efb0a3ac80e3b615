-- ===== src/Terminal/Escape/Text.antt =====
-- term_write on a text without escape sequences.
use mathlib.Core.Path.{subst}
use open_idp_os.Base.{ℕ, ◌≡◌, ◌∙◌, sym, refl, ap, false, arith, ◌==◌, List, [], ◌∷◌, elem}
use open_idp_os.Terminal.{normal, Cell, Grid, Parser, Term}
use open_idp_os.Terminal.Page.{Page, Shows, put, put_all}
use open_idp_os.Terminal.Writing.{blank, term_put_char}
use open_idp_os.Terminal.Writing.Refine.{
  Kept, trans-Kept, put_char-Kept, put_char-Shows, put_char-parser,
}
use open_idp_os.Terminal.Escape.{Files, byte_in, normal_byte, term_write}

byte-normal :
    (files : Files) (c : ℕ) (t : Term)
    → t.parser.ansi_state ≡ normal
    → (c == 27) ≡ false
    → byte_in files t.parser.ansi_state c t ≡ term_put_char c t
unfolding byte_in normal_byte
byte-normal files c t s n = ap (λ a. byte_in files a c t) s ∙ (rw n refl)

Blank-Kept : {g g' : Grid} → Kept g g' → blank g' ≡ blank g
Blank-Kept k = λ i. record { c = 0; fg = k.fg_color i; bg = k.bg_color i }

-- If the grid shows a page and no escape sequence has begun, then after term_write of a text
-- without the byte 27 the grid shows the page after the text was put on it character by
-- character, with line breaks, backspaces, wrapping and scrolling; it has the same rows, columns
-- and colors, and no escape sequence has begun.
pub term_write-Shows :
    (files : Files) (str : List ℕ) (t : Term) (p : Page)
    → t.parser.ansi_state ≡ normal
    → elem 27 str ≡ false
    → Shows t.grid p
    → Shows (term_write files str t).grid (put_all t.grid.rows t.grid.cols (blank t.grid) str p)
      × Kept t.grid (term_write files str t).grid
      × ((term_write files str t).parser ≡ t.parser)
unfolding term_write put_all
term_write-Shows files [] t p n e s = (s, ground arith, refl)
term_write-Shows files (c ∷ str) t p n e s =
    let b = byte-normal files c t n (ground arith) in
    let k = put_char-Kept c t s.buffer in
    let (shows, kept, parser) =
      term_write-Shows files str (term_put_char c t)
        (put t.grid.rows t.grid.cols (blank t.grid) c p)
        (ap (λ (x : Parser). x.ansi_state) (put_char-parser c t) ∙ n) (ground arith)
        (put_char-Shows c t p s) in
    subst (λ (u : Term). Result c str t p (term_write files str u)) (sym b)
      (
        subst (λ (E : Cell). Shows (after c t) (put_all t.grid.rows t.grid.cols E str (next c t p)))
            (Blank-Kept k)
            (subst
              (λ n.
                Shows (after c t)
                  (put_all t.grid.rows n (blank (term_put_char c t).grid) str (next c t p)))
              k.cols
              (subst
                (λ n. Shows (after c t) (
                  put_all n (term_put_char c t).grid.cols (blank (term_put_char c t).grid) str
                    (next c t p)))
                k.rows shows)),
        trans-Kept k kept,
        parser ∙ put_char-parser c t,
      )
  where
    next : (c : ℕ) (t : Term) (p : Page) → Page
    next c t p = put t.grid.rows t.grid.cols (blank t.grid) c p

    after : (c : ℕ) (t : Term) → Grid
    after c t = (term_write files str (term_put_char c t)).grid

    Result : (c : ℕ) (str : List ℕ) (t : Term) (p : Page) (u : Term) → Type 0
    Result c str t p u =
        Shows u.grid (put_all t.grid.rows t.grid.cols (blank t.grid) (c ∷ str) p)
        × Kept t.grid u.grid
        × (u.parser ≡ t.parser)
