-- ===== src/Terminal/Escape/Palette.antt =====
-- The codes that select colors, as a table of colors by code.
use mathlib.Core.Path.{subst}
use open_idp_os.Base.{
  ℕ, ◌+◌, ◌≤◌, ◌≡◌, ◌∙◌, sym, refl, ap, false, ◌&&◌, arith, ◌==◌, leb, if◌then◌else◌, List, [], ◌∷◌,
  Bool-cases, inl, inr,
}
use open_idp_os.Terminal.{Grid}
use open_idp_os.Terminal.Escape.{ansi_colors, apply_ansi_code}

-- The color of a code in a table, or the one that is there without it.
abbrev pub color_in : List (ℕ × ℕ) → (code color : ℕ) → ℕ
color_in [] code color = color
color_in ((n, selected) ∷ table) code color =
    if code == n then selected else color_in table code color

-- The codes for the foreground: the reset, and the eight colors.
abbrev pub foregrounds : List (ℕ × ℕ)
foregrounds =
    (0, 0x00bac2de)
    ∷ (30, 0x00181825)
    ∷ (31, 0x00f38ba8)
    ∷ (32, 0x00a6e3a1)
    ∷ (33, 0x00f9e2af)
    ∷ (34, 0x0089b4fa)
    ∷ (35, 0x00cba6f7)
    ∷ (36, 0x006c7086)
    ∷ (37, 0x00bac2de)
    ∷ []

abbrev pub backgrounds : List (ℕ × ℕ)
backgrounds =
    (0, 0x00181825)
    ∷ (40, 0x00181825)
    ∷ (41, 0x00f38ba8)
    ∷ (42, 0x00a6e3a1)
    ∷ (43, 0x00f9e2af)
    ∷ (44, 0x0089b4fa)
    ∷ (45, 0x00cba6f7)
    ∷ (46, 0x006c7086)
    ∷ (47, 0x00bac2de)
    ∷ []

-- The color after a sequence of codes: that of the last one in the table.
abbrev pub color_after : List (ℕ × ℕ) → List ℕ → (color : ℕ) → ℕ
color_after table [] color = color
color_after table (code ∷ codes) color = color_after table codes (color_in table code color)

-- The grid with other colors to write with, and the rest as it was.
abbrev pub with_colors : (fg bg : ℕ) → Grid → Grid
with_colors fg bg g = record g { fg_color = fg; bg_color = bg }

one_of_eight :
    (k a : ℕ) (P : ℕ → Type 0)
    → k ≤ a
    → a ≤ k + 7
    → P k
    → P (k + 1)
    → P (k + 2)
    → P (k + 3)
    → P (k + 4)
    → P (k + 5)
    → P (k + 6)
    → P (k + 7)
    → P a
one_of_eight k a P lo hi p₀ p₁ p₂ p₃ p₄ p₅ p₆ p₇ = elim (Bool-cases (a == k)) [
  | inl e ↦ subst P (ground arith) p₀
  | inr n₀ ↦ elim (Bool-cases (a == k + 1)) [
    | inl e ↦ subst P (ground arith) p₁
    | inr n₁ ↦ elim (Bool-cases (a == k + 2)) [
      | inl e ↦ subst P (ground arith) p₂
      | inr n₂ ↦ elim (Bool-cases (a == k + 3)) [
        | inl e ↦ subst P (ground arith) p₃
        | inr n₃ ↦ elim (Bool-cases (a == k + 4)) [
          | inl e ↦ subst P (ground arith) p₄
          | inr n₄ ↦ elim (Bool-cases (a == k + 5)) [
            | inl e ↦ subst P (ground arith) p₅
            | inr n₅ ↦ elim (Bool-cases (a == k + 6)) [
              | inl e ↦ subst P (ground arith) p₆
              | inr n₆ ↦ subst P (ground arith) p₇
            ]
          ]
        ]
      ]
    ]
  ]
]

module _ (g : Grid) where
  abbrev Applied : ℕ → Type 0
  Applied code =
      apply_ansi_code code g
      ≡ with_colors (color_in foregrounds code g.fg_color) (color_in backgrounds code g.bg_color) g

  foreground : (code : ℕ) → 30 ≤ code → code ≤ 37 → Applied code
  unfolding apply_ansi_code ansi_colors
  foreground code lo hi = one_of_eight 30 code Applied lo hi refl refl refl refl refl refl refl refl

  background : (code : ℕ) → 40 ≤ code → code ≤ 47 → Applied code
  unfolding apply_ansi_code ansi_colors
  background code lo hi = one_of_eight 40 code Applied lo hi refl refl refl refl refl refl refl refl

  none_in :
      (code : ℕ)
      → (code == 0) ≡ false
      → (leb 30 code && leb code 37) ≡ false
      → (leb 40 code && leb code 47) ≡ false
      → (color_in foregrounds code g.fg_color ≡ g.fg_color)
        × (color_in backgrounds code g.bg_color ≡ g.bg_color)
  none_in code z f b = (ground arith, ground arith)

  apply-none :
      (code : ℕ)
      → (code == 0) ≡ false
      → (leb 30 code && leb code 37) ≡ false
      → (leb 40 code && leb code 47) ≡ false
      → apply_ansi_code code g ≡ g
  unfolding apply_ansi_code
  apply-none code z f b = rw (z, f, b) refl

  pub apply_ansi_code-Applied : (code : ℕ) → Applied code
  unfolding apply_ansi_code
  apply_ansi_code-Applied code = elim (Bool-cases (code == 0)) [
    | inl z ↦ let at : 0 ≡ code = ground arith in subst Applied at refl
    | inr z ↦ elim (Bool-cases (leb 30 code && leb code 37)) [
      | inl f ↦ foreground code (ground arith) (ground arith)
      | inr f ↦ elim (Bool-cases (leb 40 code && leb code 47)) [
        | inl b ↦ background code (ground arith) (ground arith)
        | inr b ↦ apply-none code z f b ∙ unchanged (none_in code z f b)
      ]
    ]
  ]
    where
      unchanged : {fg bg : ℕ} → (fg ≡ g.fg_color) × (bg ≡ g.bg_color) → g ≡ with_colors fg bg g
      unchanged {fg} {bg} (f, b) =
          ap (λ c. with_colors c g.bg_color g) (sym f) ∙ ap (λ c. with_colors fg c g) (sym b)

abbrev pub apply_codes : List ℕ → Grid → Grid
apply_codes [] g = g
apply_codes (a ∷ codes) g = apply_codes codes (apply_ansi_code a g)

pub apply_codes-with_colors :
    (codes : List ℕ) (g : Grid)
    → apply_codes codes g
      ≡ with_colors
          (color_after foregrounds codes g.fg_color)
          (color_after backgrounds codes g.bg_color)
          g
apply_codes-with_colors [] g = refl
apply_codes-with_colors (a ∷ codes) g =
    ap (apply_codes codes) (apply_ansi_code-Applied g a)
    ∙ apply_codes-with_colors codes
        (with_colors (color_in foregrounds a g.fg_color) (color_in backgrounds a g.bg_color) g)
