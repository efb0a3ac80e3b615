-- ===== src/Wm/Layout/Placed.antt =====
-- layout_recursive gives each window the rectangle of its tile.
use mathlib.Core.Path.{subst}
use open_idp_os.Base.{
  ℕ, zero, suc, ◌+◌, ◌-◌, ◌/◌, ◌≤◌, ◌≡◌, ◌≢◌, ◌∙◌, sym, refl, ap, true, false, not, ◌||◌, arith,
  ◌==◌, List, [], ◌∷◌, ◌++◌, update, read-update, Bool-cases, inl, inr, Option, some, ◌>>=◌,
}
use open_idp_os.Wm.{SplitDir, split_h, split_v, Node, Window, Wm}
use open_idp_os.Wm.Pool.{set_node}
use open_idp_os.Wm.Layout.{if_v, place_window, layout_recursive}
use open_idp_os.Wm.Layout.Tiling.{Tree, leaf, split, address, Tile, tiles}

-- The nodes hold the tree, whatever their rectangles are.
abbrev pub Holds : (ℕ → Node) → Tree → Type 0
Holds nodes (leaf a win) =
    (a ≢ 0) × (win ≢ 0) × (not ((nodes a).is_leaf == 0) ≡ true) × ((nodes a).win ≡ win)
Holds nodes (split a dir l r) =
    (a ≢ 0)
    × ((nodes a).is_leaf ≡ 0)
    × ((nodes a).split_dir ≡ dir)
    × ((nodes a).left ≡ address l)
    × ((nodes a).right ≡ address r)
    × Holds nodes l
    × Holds nodes r

-- A node without its rectangle.
abbrev pub shape : Node → Node
shape n = record n { x = 0; y = 0; w = 0; h = 0 }

abbrev pub Kept : (f g : ℕ → Node) → Type 0
Kept f g = (b : ℕ) → shape (g b) ≡ shape (f b)

pub update-Kept : (f : ℕ → Node) (a : ℕ) (n : Node) → shape n ≡ shape (f a) → Kept f (update f a n)
update-Kept f a n eq = read-update shape f a n eq

pub Holds-Kept : (f g : ℕ → Node) (t : Tree) → Kept f g → Holds f t → Holds g t
Holds-Kept f g (leaf a win) kept (nz, some_win, is_leaf, at) =
    let eq = kept a in
    (
      nz,
      some_win,
      ap (λ (n : Node). not (n.is_leaf == 0)) eq ∙ is_leaf,
      ap (λ (n : Node). n.win) eq ∙ at,
    )
Holds-Kept f g (split a dir l r) kept (nz, inner, at, left, right, hl, hr) =
    let eq = kept a in
    (
      nz,
      ap (λ (n : Node). n.is_leaf) eq ∙ inner,
      ap (λ (n : Node). n.split_dir) eq ∙ at,
      ap (λ (n : Node). n.left) eq ∙ left,
      ap (λ (n : Node). n.right) eq ∙ right,
      Holds-Kept f g l kept hl,
      Holds-Kept f g r kept hr,
    )

abbrev pub put_tile : Tile → (ℕ → Window) → ℕ → Window
put_tile t windows =
    update windows t.win (record (windows t.win) { x = t.x; y = t.y; width = t.w; height = t.h })

abbrev pub put_tiles : List Tile → (ℕ → Window) → ℕ → Window
put_tiles [] windows = windows
put_tiles (t ∷ ts) windows = put_tiles ts (put_tile t windows)

put_tiles-append :
    (ts us : List Tile) (windows : ℕ → Window)
    → put_tiles (ts ++ us) windows ≡ put_tiles us (put_tiles ts windows)
put_tiles-append [] us windows = refl
put_tiles-append (t ∷ ts) us windows = put_tiles-append ts us (put_tile t windows)

abbrev pub nodes_of : Tree → ℕ
nodes_of (leaf a win) = 1
nodes_of (split a dir l r) = 1 + nodes_of l + nodes_of r

module _ (win x y w h : ℕ) (s : Wm) where
  place_window-windows :
      (place_window win x y w h s).windows
      ≡ put_tile (record { win = win; x = x; y = y; w = w; h = h }) s.windows
  unfolding place_window
  place_window-windows =
      elim (Bool-cases (not ((s.windows win).width == w) || not ((s.windows win).height == h))) [
        | inl new ↦ rw new refl
        | inr same ↦ rw same refl
      ]

  place_window-nodes : (place_window win x y w h s).nodes ≡ s.nodes
  unfolding place_window
  place_window-nodes =
      elim (Bool-cases (not ((s.windows win).width == w) || not ((s.windows win).height == h))) [
        | inl new ↦ rw new refl
        | inr same ↦ rw same refl
      ]

abbrev pub with_rect : (a x y w h : ℕ) → Wm → Wm
with_rect a x y w h s = set_node a (record (s.nodes a) { x = x; y = y; w = w; h = h }) s

module _ (fuel a x y w h : ℕ) (s : Wm) (nz : (a == 0) ≡ false) where
  layout-leaf :
      not ((s.nodes a).is_leaf == 0) ≡ true
      → not ((s.nodes a).win == 0) ≡ true
      → layout_recursive (suc fuel) a x y w h s
        ≡ some (place_window (s.nodes a).win x y w h (with_rect a x y w h s))
  unfolding layout_recursive
  layout-leaf is_leaf win = rw (nz, is_leaf, win) refl

  abbrev halves : SplitDir → Option Wm
  halves dir =
      layout_recursive fuel (s.nodes a).left x y (if_v dir (w / 2) w) (if_v dir h (h / 2))
        (with_rect a x y w h s)
      >>= layout_recursive fuel (s.nodes a).right (if_v dir (x + if_v dir (w / 2) w) x)
          (if_v dir y (y + if_v dir h (h / 2))) (if_v dir (w - if_v dir (w / 2) w) w)
          (if_v dir h (h - if_v dir h (h / 2)))

  layout-split :
      (dir : SplitDir)
      → (s.nodes a).split_dir ≡ dir
      → not ((s.nodes a).is_leaf == 0) ≡ false
      → layout_recursive (suc fuel) a x y w h s ≡ halves dir
  unfolding layout_recursive
  layout-split dir at inner = rw (nz, inner) (ap halves at)

tiles-split :
    (a : ℕ) (dir : SplitDir) (l r : Tree) (x y w h : ℕ)
    → tiles (split a dir l r) x y w h
      ≡ tiles l x y (if_v dir (w / 2) w) (if_v dir h (h / 2))
        ++ tiles r
            (if_v dir (x + if_v dir (w / 2) w) x)
            (if_v dir y (y + if_v dir h (h / 2)))
            (if_v dir (w - if_v dir (w / 2) w) w)
            (if_v dir h (h - if_v dir h (h / 2)))
tiles-split a split_v l r x y w h = refl
tiles-split a split_h l r x y w h = refl

-- What the layout leaves: the windows placed, and the tree as it was.
pub record Laid (t : Tree) (x y w h : ℕ) (s s' : Wm) : Type 0 where
  pub placed : s'.windows ≡ put_tiles (tiles t x y w h) s.windows
  pub kept : Kept s.nodes s'.nodes

pub layout_recursive-Laid :
    (fuel : ℕ) (t : Tree) (x y w h : ℕ) (s : Wm)
    → nodes_of t ≤ fuel
    → Holds s.nodes t
    → (s' : Wm) × (layout_recursive fuel (address t) x y w h s ≡ some s') × Laid t x y w h s s'
layout_recursive-Laid zero (leaf a win) x y w h s le held = absurd (omega arith)
layout_recursive-Laid zero (split a dir l r) x y w h s le held = absurd (omega arith)
layout_recursive-Laid (suc fuel) (leaf a win) x y w h s le (nz, some_win, is_leaf, at) =
    let nz' : (a == 0) ≡ false = ground arith in
    let wz : not ((s.nodes a).win == 0) ≡ true = ap (λ n. not (n == 0)) at ∙ ground arith in
    let s₁ = with_rect a x y w h s in
    (
      place_window win x y w h s₁,
      layout-leaf fuel a x y w h s nz' is_leaf wz ∙ ap (λ n. some (place_window n x y w h s₁)) at,
      record {
        placed = place_window-windows win x y w h s₁;
        kept =
            subst (Kept s.nodes) (sym (place_window-nodes win x y w h s₁))
              (update-Kept s.nodes a (record (s.nodes a) { x = x; y = y; w = w; h = h }) refl);
      },
    )
layout_recursive-Laid (suc fuel) (split a dir l r) x y w h s le
      (nz, inner, at, left, right, hl, hr) =
    let nz' : (a == 0) ≡ false = ground arith in
    let inner' : not ((s.nodes a).is_leaf == 0) ≡ false = ap (λ n. not (n == 0)) inner in
    let s₁ = with_rect a x y w h s in
    let kept₁ = update-Kept s.nodes a (record (s.nodes a) { x = x; y = y; w = w; h = h }) refl in
    let half_w = if_v dir (w / 2) w in
    let half_h = if_v dir h (h / 2) in
    let (s₂, eq₂, laid₂) =
      layout_recursive-Laid fuel l x y half_w half_h s₁ (omega arith)
        (Holds-Kept s.nodes s₁.nodes l kept₁ hl) in
    let kept₂ : Kept s.nodes s₂.nodes = λ b. laid₂.kept b ∙ kept₁ b in
    let next_x = if_v dir (x + half_w) x in
    let next_y = if_v dir y (y + half_h) in
    let rem_w = if_v dir (w - half_w) w in
    let rem_h = if_v dir h (h - half_h) in
    let (s₃, eq₃, laid₃) =
      layout_recursive-Laid fuel r next_x next_y rem_w rem_h s₂ (omega arith)
        (Holds-Kept s.nodes s₂.nodes r kept₂ hr) in
    (
      s₃,
      layout-split fuel a x y w h s nz' dir at inner'
          ∙ ap
              (λ p.
                layout_recursive fuel p x y half_w half_h s₁
                >>= layout_recursive fuel (s.nodes a).right next_x next_y rem_w rem_h)
              left
          ∙ ap
              (λ p.
                layout_recursive fuel (address l) x y half_w half_h s₁
                >>= layout_recursive fuel p next_x next_y rem_w rem_h)
              right
          ∙ ap (λ o. o >>= layout_recursive fuel (address r) next_x next_y rem_w rem_h) eq₂
          ∙ eq₃,
      record {
        placed =
            laid₃.placed
            ∙ ap (put_tiles (tiles r next_x next_y rem_w rem_h)) laid₂.placed
            ∙ sym (
                put_tiles-append (tiles l x y half_w half_h) (tiles r next_x next_y rem_w rem_h)
                  s.windows)
            ∙ ap (λ ts. put_tiles ts s.windows) (sym (tiles-split a dir l r x y w h));
        kept = λ b. laid₃.kept b ∙ kept₂ b;
      },
    )
