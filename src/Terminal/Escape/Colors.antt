-- ===== src/Terminal/Escape/Colors.antt =====
-- The escape sequence that selects colors, `ESC [ 1 ; 31 m`.
use mathlib.Core.Path.{subst, ap₂}
use open_idp_os.Base.{
  ℕ, zero, suc, ◌+◌, ◌-◌, ◌*◌, ◌%◌, ◌^◌, ◌≤◌, ◌<◌, ◌≡◌, ◌∙◌, sym, refl, ap, true, false, ◌&&◌,
  arith, ◌==◌, ltb, leb, List, [], ◌∷◌, ◌++◌, append_assoc, length, length-append, get_or, update,
  update_self, update_ne, Bool-cases, inl, inr, map,
}
use open_idp_os.Terminal.{normal, esc, csi, Grid, Surface, Term}
use open_idp_os.Terminal.Escape.Palette.{
  apply_codes, apply_codes-with_colors, with_colors, color_after, foregrounds, backgrounds,
}
use open_idp_os.Terminal.Escape.{
  Files, apply_ansi_code, apply_loop, term_process_ansi_end, csi_byte, esc_byte, normal_byte,
  byte_in, term_write,
}

pub term_write-append :
    (files : Files) (a b : List ℕ) (t : Term)
    → term_write files (a ++ b) t ≡ term_write files b (term_write files a t)
unfolding term_write
term_write-append files [] b t = refl
term_write-append files (c ∷ a) b t =
    term_write-append files a b (byte_in files t.parser.ansi_state c t)

abbrev pub Digits : List ℕ → Type 0
Digits [] = Unit {0}
Digits (c ∷ cs) = (48 ≤ c) × (c ≤ 57) × Digits cs

abbrev pub decimal : (acc : ℕ) → List ℕ → ℕ
decimal acc [] = acc
decimal acc (c ∷ cs) = decimal (acc * 10 + (c - 48)) cs

-- A parameter is an int: the number modulo 2^32.
abbrev pub code_of : List ℕ → ℕ
code_of ds = decimal 0 ds % 2 ^ 32

apply_loop-all :
    (params : ℕ → ℕ) (codes : List ℕ) (i : ℕ) (g : Grid)
    → ((j : ℕ) → j < length codes → params (i + j) ≡ get_or codes j 0)
    → apply_loop params (length codes) i g ≡ apply_codes codes g
unfolding apply_loop
apply_loop-all params [] i g same = refl
apply_loop-all params (a ∷ codes) i g same =
    apply_loop-all params codes (i + 1) (apply_ansi_code (params i) g)
      (λ j lt. ap params (omega arith) ∙ same (suc j) (omega arith))
    ∙ ap (λ n. apply_codes codes (apply_ansi_code n g))
        (ap params (omega arith) ∙ same 0 (omega arith))

-- Within a sequence: the parameters before the current one, and what it is so far.
record In (g : Grid) (s : Surface) (past : List ℕ) (current : ℕ) (t : Term) : Type 0 where
  state : t.parser.ansi_state ≡ csi
  count : t.parser.ansi_param_count ≡ length past
  grid : t.grid ≡ g
  surface : t.surface ≡ s
  params : (j : ℕ) → j < length past → t.parser.ansi_params j ≡ get_or past j 0
  last : t.parser.ansi_params (length past) ≡ current

get_or-append : (xs ys : List ℕ) (j : ℕ) → j < length xs → get_or (xs ++ ys) j 0 ≡ get_or xs j 0
get_or-append [] ys j lt = absurd (omega arith)
get_or-append (x ∷ xs) ys zero lt = refl
get_or-append (x ∷ xs) ys (suc j) lt = get_or-append xs ys j (omega arith)

get_or-length : (xs : List ℕ) (n : ℕ) → get_or (xs ++ n ∷ []) (length xs) 0 ≡ n
get_or-length [] n = refl
get_or-length (x ∷ xs) n = get_or-length xs n

digit-In :
    (g : Grid) (s : Surface) (past : List ℕ) (n c : ℕ) (t : Term)
    → In g s past (n % 2 ^ 32) t
    → 48 ≤ c
    → c ≤ 57
    → In g s past ((n * 10 + (c - 48)) % 2 ^ 32) (csi_byte c t)
unfolding csi_byte
digit-In g s past n c t i lo hi =
    let digit : (leb 48 c && leb c 57) ≡ true = ground arith in
    let k = t.parser.ansi_param_count in
    let v = (t.parser.ansi_params k * 10 + (c - 48)) % 2 ^ 32 in
    let now : t.parser.ansi_params k ≡ n % 2 ^ 32 = ap t.parser.ansi_params i.count ∙ i.last in
    rw digit (record {
      state = i.state;
      count = i.count;
      grid = i.grid;
      surface = i.surface;
      params = λ j lt. update_ne t.parser.ansi_params v (omega (arith, i.count)) ∙ i.params j lt;
      last =
          ap (update t.parser.ansi_params k v) (sym i.count)
          ∙ update_self t.parser.ansi_params k v
          ∙ (omega (arith, now));
    })

separator-In :
    (g : Grid) (s : Surface) (past : List ℕ) (n : ℕ) (t : Term)
    → In g s past n t
    → length past < 3
    → In g s (past ++ n ∷ []) 0 (csi_byte 59 t)
unfolding csi_byte
separator-In g s past n t i h =
    let k = t.parser.ansi_param_count in
    let more : ltb k 3 ≡ true = ground (arith, i.count) in
    let len : length (past ++ n ∷ []) ≡ length past + 1 = length-append past (n ∷ []) in
    let f = t.parser.ansi_params in
    rw more (record {
      state = i.state;
      count = omega (arith, i.count, len);
      grid = i.grid;
      surface = i.surface;
      params = λ j lt.
          update_ne f 0 (omega (arith, i.count, len)) ∙ elim (Bool-cases (ltb j (length past))) [
            | inl a ↦ i.params j (ground arith) ∙ sym (get_or-append past (n ∷ []) j (ground arith))
            | inr b ↦
                let e : j ≡ length past = ground (arith, len) in
                ap f e
                ∙ i.last
                ∙ sym (get_or-length past n)
                ∙ ap (λ m. get_or (past ++ n ∷ []) m 0) (sym e)
          ];
      last = ap (update f (k + 1) 0) (omega (arith, i.count, len)) ∙ update_self f (k + 1) 0;
    })

-- The parameters that are counted at the end.
loop-all :
    (g : Grid) (s : Surface) (past : List ℕ) (n : ℕ) (t : Term)
    → In g s past n t
    → apply_loop t.parser.ansi_params (t.parser.ansi_param_count + 1) 0 t.grid
      ≡ apply_codes (past ++ n ∷ []) g
loop-all g s past n t i =
    ap₂ (λ k h. apply_loop f k 0 h) (omega (arith, i.count, len)) i.grid
    ∙ apply_loop-all f (past ++ n ∷ []) 0 g (λ j lt. ap f (omega arith) ∙ same j lt)
  where
    f : ℕ → ℕ
    f = t.parser.ansi_params

    len : length (past ++ n ∷ []) ≡ length past + 1
    len = length-append past (n ∷ [])

    same : (j : ℕ) → j < length (past ++ n ∷ []) → f j ≡ get_or (past ++ n ∷ []) j 0
    same j lt = elim (Bool-cases (ltb j (length past))) [
      | inl a ↦ i.params j (ground arith) ∙ sym (get_or-append past (n ∷ []) j (ground arith))
      | inr b ↦
          let e : j ≡ length past = ground (arith, len) in
          ap f e
          ∙ i.last
          ∙ sym (get_or-length past n)
          ∙ ap (λ m. get_or (past ++ n ∷ []) m 0) (sym e)
    ]

-- A sequence without a parameter but 0.
zero-all :
    (g : Grid) (s : Surface) (past : List ℕ) (n : ℕ) (t : Term)
    → In g s past n t
    → ((t.parser.ansi_param_count == 0) && (t.parser.ansi_params 0 == 0)) ≡ true
    → apply_ansi_code 0 t.grid ≡ apply_codes (past ++ n ∷ []) g
zero-all g s [] n t i a =
    ap (apply_ansi_code 0) i.grid ∙ ap (λ m. apply_ansi_code m g) (ground (arith, i.last))
zero-all g s (x ∷ past) n t i a = absurd (ground (arith, i.count))

-- The final byte.
end-all :
    (g : Grid) (s : Surface) (past : List ℕ) (n : ℕ) (t : Term)
    → In g s past n t
    → ((csi_byte 109 t).grid ≡ apply_codes (past ++ n ∷ []) g)
      × ((csi_byte 109 t).surface ≡ s)
      × ((csi_byte 109 t).parser.ansi_state ≡ normal)
unfolding csi_byte term_process_ansi_end
end-all g s past n t i =
    elim (Bool-cases ((t.parser.ansi_param_count == 0) && (t.parser.ansi_params 0 == 0))) [
      | inl a ↦
          let c : (t.parser.ansi_param_count == 0) ≡ true = ground arith in
          rw (a, c) (zero-all g s past n t i a, i.surface, refl)
      | inr b ↦
          let c : (t.parser.ansi_param_count + 1 == 0) ≡ false = ground arith in
          rw (b, c) (loop-all g s past n t i, i.surface, refl)
    ]

-- A byte of a sequence.
csi-step :
    (files : Files) (c : ℕ) (str : List ℕ) (t : Term)
    → t.parser.ansi_state ≡ csi
    → term_write files (c ∷ str) t ≡ term_write files str (csi_byte c t)
unfolding term_write byte_in
csi-step files c str t e = ap (λ a. term_write files str (byte_in files a c t)) e

Digits-In :
    (files : Files) (g : Grid) (s : Surface) (past : List ℕ) (n : ℕ) (ds : List ℕ) (t : Term)
    → In g s past (n % 2 ^ 32) t
    → Digits ds
    → In g s past (decimal n ds % 2 ^ 32) (term_write files ds t)
Digits-In files g s past n [] t i d = unfold term_write in i
Digits-In files g s past n (c ∷ ds) t i d =
    subst (In g s past (decimal n (c ∷ ds) % 2 ^ 32)) (sym (csi-step files c ds t i.state)) (
      Digits-In files g s past (n * 10 + (c - 48)) ds (csi_byte c t)
        (digit-In g s past n c t i d.0 d.1) d.2)

-- The parameters, with `;` between them, and the final `m`.
abbrev pub body : List ℕ → List (List ℕ) → List ℕ
body ds [] = ds ++ 109 ∷ []
body ds (es ∷ rest) = ds ++ 59 ∷ body es rest

abbrev pub AllDigits : List (List ℕ) → Type 0
AllDigits [] = Unit {0}
AllDigits (ds ∷ rest) = Digits ds × AllDigits rest

record Colored (g : Grid) (s : Surface) (codes : List ℕ) (t : Term) : Type 0 where
  grid : t.grid ≡ apply_codes codes g
  surface : t.surface ≡ s
  state : t.parser.ansi_state ≡ normal

body-Colored :
    (files : Files) (g : Grid) (s : Surface) (past ds : List ℕ) (rest : List (List ℕ)) (t : Term)
    → In g s past 0 t
    → Digits ds
    → AllDigits rest
    → length past + length rest < 4
    → Colored g s (past ++ map code_of (ds ∷ rest)) (term_write files (body ds rest) t)
body-Colored files g s past ds [] t i d a h =
    let u = term_write files ds t in
    let j = Digits-In files g s past 0 ds t i d in
    let (e, f, n) = end-all g s past (code_of ds) u j in
    subst (Colored g s (past ++ code_of ds ∷ []))
      (sym (term_write-append files ds (109 ∷ []) t ∙ csi-step files 109 [] u j.state))
      (unfold term_write in record { grid = e; surface = f; state = n })
body-Colored files g s past ds (es ∷ rest) t i d a h =
    let u = term_write files ds t in
    let j = Digits-In files g s past 0 ds t i d in
    let len : length (past ++ code_of ds ∷ []) ≡ length past + 1 =
      length-append past (code_of ds ∷ []) in
    subst (Colored g s (past ++ map code_of (ds ∷ es ∷ rest)))
      (sym (
        term_write-append files ds (59 ∷ body es rest) t
        ∙ csi-step files 59 (body es rest) u j.state))
      (subst (λ w. Colored g s w (term_write files (body es rest) (csi_byte 59 u)))
        (append_assoc past (code_of ds ∷ []) (map code_of (es ∷ rest)))
        (body-Colored files g s (past ++ code_of ds ∷ []) es rest (csi_byte 59 u)
          (separator-In g s past (code_of ds) u j (omega arith)) a.0 a.1 (omega arith)))

start-In :
    (files : Files) (str : List ℕ) (t : Term)
    → t.parser.ansi_state ≡ normal
    → (u : Term) × In t.grid t.surface [] 0 u
      × (term_write files (27 ∷ 91 ∷ str) t ≡ term_write files str u)
unfolding term_write byte_in normal_byte esc_byte
start-In files str t e = (
  esc_byte 91 (record t { parser = record t.parser { ansi_state = esc } }),
  record {
    state = refl;
    count = refl;
    grid = refl;
    surface = refl;
    params = λ j lt. absurd (omega arith);
    last = refl;
  },
  ap
      (λ a.
        term_write files str
          (byte_in files (byte_in files a 27 t).parser.ansi_state 91 (byte_in files a 27 t)))
      e,
)

-- If no escape sequence has begun, term_write of a color sequence with at most four decimal
-- parameters, an empty one standing for 0, sets the two colors to write with: each to that of the last
-- parameter in its table, 0 for the default and 30 to 37 or 40 to 47 for the eight colors, and leaves
-- it if there is none. Nothing else of the grid changes, neither a cell nor the cursor nor whether it
-- is shown; nothing is drawn, and no escape sequence has begun then.
pub term_write-colors :
    (files : Files) (ds : List ℕ) (rest : List (List ℕ)) (t : Term)
    → t.parser.ansi_state ≡ normal
    → Digits ds
    → AllDigits rest
    → length rest < 4
    → let u = term_write files (27 ∷ 91 ∷ body ds rest) t in
      let codes = map code_of (ds ∷ rest) in
      (u.grid
        ≡ with_colors
            (color_after foregrounds codes t.grid.fg_color)
            (color_after backgrounds codes t.grid.bg_color)
            t.grid)
      × (u.surface ≡ t.surface)
      × (u.parser.ansi_state ≡ normal)
term_write-colors files ds rest t e d a h =
    let (u, i, eq) = start-In files (body ds rest) t e in
    let c = body-Colored files t.grid t.surface [] ds rest u i d a (omega arith) in
    rw eq (c.grid ∙ apply_codes-with_colors (map code_of (ds ∷ rest)) t.grid, c.surface, c.state)
