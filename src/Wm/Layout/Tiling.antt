-- ===== src/Wm/Layout/Tiling.antt =====
-- The leaves of the tree share the screen out without gap or overlap.
use open_idp_os.Base.{
  ℕ, ◌+◌, ◌-◌, ◌/◌, ◌≤◌, ◌≡◌, ◌∙◌, Bool, ◌&&◌, arith, ltb, leb, if◌then◌else◌, List, [], ◌∷◌, ◌++◌,
}
use open_idp_os.Wm.{SplitDir, split_h, split_v}

-- A tree of windows, with the address of each node.
pub data Tree : Type 0 where
  leaf : (a win : ℕ) → Tree
  split : (a : ℕ) (dir : SplitDir) (l r : Tree) → Tree

abbrev pub address : Tree → ℕ
address (leaf a win) = a
address (split a dir l r) = a

pub record Tile : Type 0 where
  pub win : ℕ
  pub x : ℕ
  pub y : ℕ
  pub w : ℕ
  pub h : ℕ

-- The windows from left to right, with the halves of what the splits leave them.
abbrev pub tiles : Tree → (x y w h : ℕ) → List Tile
tiles (leaf a win) x y w h = record { win = win; x = x; y = y; w = w; h = h } ∷ []
tiles (split a split_v l r) x y w h = tiles l x y (w / 2) h ++ tiles r (x + w / 2) y (w - w / 2) h
tiles (split a split_h l r) x y w h = tiles l x y w (h / 2) ++ tiles r x (y + h / 2) w (h - h / 2)

abbrev pub inside : (x y w h px py : ℕ) → Bool
inside x y w h px py = (leb x px && ltb px (x + w)) && (leb y py && ltb py (y + h))

abbrev pub count : Bool → ℕ
count b = if b then 1 else 0

-- How many tiles hold the point.
abbrev pub hits : List Tile → (px py : ℕ) → ℕ
hits [] px py = 0
hits (t ∷ ts) px py = count (inside t.x t.y t.w t.h px py) + hits ts px py

hits-append :
    (ts us : List Tile) (px py : ℕ) → hits (ts ++ us) px py ≡ hits ts px py + hits us px py
hits-append [] us px py = omega arith
hits-append (t ∷ ts) us px py = omega (arith, hits-append ts us px py)

-- A rectangle in two parts, side by side or one on the other.
halves_v :
    (x y w h k px py : ℕ)
    → k ≤ w
    → count (inside x y k h px py) + count (inside (x + k) y (w - k) h px py)
      ≡ count (inside x y w h px py)
halves_v x y w h k px py le = ground arith

halves_h :
    (x y w h k px py : ℕ)
    → k ≤ h
    → count (inside x y w k px py) + count (inside x (y + k) w (h - k) px py)
      ≡ count (inside x y w h px py)
halves_h x y w h k px py le = ground arith

pub hits-tiles :
    (t : Tree) (x y w h px py : ℕ) → hits (tiles t x y w h) px py ≡ count (inside x y w h px py)
hits-tiles (leaf a win) x y w h px py = omega arith
hits-tiles (split a split_v l r) x y w h px py =
    hits-append (tiles l x y (w / 2) h) (tiles r (x + w / 2) y (w - w / 2) h) px py
    ∙ omega (
      arith,
      hits-tiles l x y (w / 2) h px py,
      hits-tiles r (x + w / 2) y (w - w / 2) h px py,
      halves_v x y w h (w / 2) px py (omega arith),
    )
hits-tiles (split a split_h l r) x y w h px py =
    hits-append (tiles l x y w (h / 2)) (tiles r x (y + h / 2) w (h - h / 2)) px py
    ∙ omega (
      arith,
      hits-tiles l x y w (h / 2) px py,
      hits-tiles r x (y + h / 2) w (h - h / 2) px py,
      halves_h x y w h (h / 2) px py (omega arith),
    )
