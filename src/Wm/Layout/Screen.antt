-- ===== src/Wm/Layout/Screen.antt =====
-- wm_update_layout shares the screen out between the windows of the tree.
use mathlib.Core.Path.{subst}
use open_idp_os.Base.{
  ℕ, ◌+◌, ◌-◌, ◌/◌, ◌≤◌, ◌≡◌, ◌≢◌, ◌∙◌, sym, refl, ap, true, not, arith, ◌==◌, List, [], ◌∷◌, ◌++◌,
  update_self, update_ne, some,
}
use open_idp_os.Wm.{split_h, split_v, Node, Window, Wm}
use open_idp_os.Wm.Layout.{layout_recursive, wm_update_layout}
use open_idp_os.Wm.Layout.Tiling.{
  Tree, leaf, split, address, Tile, tiles, inside, count, hits, hits-tiles,
}
use open_idp_os.Wm.Layout.Placed.{Holds, put_tile, put_tiles, nodes_of, layout_recursive-Laid}

-- The windows of the tree, from left to right.
abbrev pub windows_of : Tree → List ℕ
windows_of (leaf a win) = win ∷ []
windows_of (split a dir l r) = windows_of l ++ windows_of r

abbrev pub Other : ℕ → List ℕ → Type 0
Other win [] = Unit
Other win (v ∷ wins) = (v ≢ win) × Other win wins

abbrev pub Distinct : List ℕ → Type 0
Distinct [] = Unit
Distinct (win ∷ wins) = Other win wins × Distinct wins

-- How many of the windows show the point.
abbrev pub showing : (ℕ → Window) → List ℕ → (px py : ℕ) → ℕ
showing windows [] px py = 0
showing windows (win ∷ wins) px py =
    let v = windows win in
    count (inside v.x v.y v.width v.height px py) + showing windows wins px py

abbrev wins_of : List Tile → List ℕ
wins_of [] = []
wins_of (t ∷ ts) = t.win ∷ wins_of ts

wins_of-append : (ts us : List Tile) → wins_of (ts ++ us) ≡ wins_of ts ++ wins_of us
wins_of-append [] us = refl
wins_of-append (t ∷ ts) us = ap (λ xs. t.win ∷ xs) (wins_of-append ts us)

wins_of-tiles : (t : Tree) (x y w h : ℕ) → wins_of (tiles t x y w h) ≡ windows_of t
wins_of-tiles (leaf a win) x y w h = refl
wins_of-tiles (split a split_v l r) x y w h =
    wins_of-append (tiles l x y (w / 2) h) (tiles r (x + w / 2) y (w - w / 2) h)
    ∙ ap (λ xs. xs ++ wins_of (tiles r (x + w / 2) y (w - w / 2) h)) (wins_of-tiles l x y (w / 2) h)
    ∙ ap (λ xs. windows_of l ++ xs) (wins_of-tiles r (x + w / 2) y (w - w / 2) h)
wins_of-tiles (split a split_h l r) x y w h =
    wins_of-append (tiles l x y w (h / 2)) (tiles r x (y + h / 2) w (h - h / 2))
    ∙ ap (λ xs. xs ++ wins_of (tiles r x (y + h / 2) w (h - h / 2))) (wins_of-tiles l x y w (h / 2))
    ∙ ap (λ xs. windows_of l ++ xs) (wins_of-tiles r x (y + h / 2) w (h - h / 2))

put_tiles-Other :
    (ts : List Tile) (windows : ℕ → Window) (win : ℕ)
    → Other win (wins_of ts)
    → put_tiles ts windows win ≡ windows win
put_tiles-Other [] windows win other = refl
put_tiles-Other (t ∷ ts) windows win (ne, other) =
    put_tiles-Other ts (put_tile t windows) win other
    ∙ update_ne windows (record (windows t.win) { x = t.x; y = t.y; width = t.w; height = t.h }) ne

-- Where each tile has its own window, the windows show a point as often as the tiles hold it.
showing-put_tiles :
    (ts : List Tile) (windows : ℕ → Window) (px py : ℕ)
    → Distinct (wins_of ts)
    → showing (put_tiles ts windows) (wins_of ts) px py ≡ hits ts px py
showing-put_tiles [] windows px py distinct = refl
showing-put_tiles (t ∷ ts) windows px py (other, distinct) =
    let eq =
      put_tiles-Other ts (put_tile t windows) t.win other
      ∙ update_self windows t.win
          (record (windows t.win) { x = t.x; y = t.y; width = t.w; height = t.h }) in
    ap
      (λ (v : Window).
        count (inside v.x v.y v.width v.height px py)
        + showing (put_tiles (t ∷ ts) windows) (wins_of ts) px py)
      eq
    ∙ ap (λ n. count (inside t.x t.y t.w t.h px py) + n)
        (showing-put_tiles ts (put_tile t windows) px py distinct)

address-Holds : (nodes : ℕ → Node) (t : Tree) → Holds nodes t → not (address t == 0) ≡ true
address-Holds nodes (leaf a win) held = ground (arith, held.0)
address-Holds nodes (split a dir l r) held = ground (arith, held.0)

root-eq :
    (fuel : ℕ) (s : Wm)
    → not (s.root == 0) ≡ true
    → wm_update_layout fuel s ≡ layout_recursive fuel s.root 0 0 s.fb_width s.fb_height s
unfolding wm_update_layout
root-eq fuel s nz = rw nz refl

-- wm_update_layout ends, and then every point of the screen is in exactly one of the windows of the
-- tree and no window reaches beyond the screen: the windows that show a point are one for a point on
-- the screen and none otherwise. The root's tree is the one stored in the nodes, no window is in two
-- leaves, and the fuel is at least the number of its nodes.
pub wm_update_layout-showing :
    (fuel : ℕ) (t : Tree) (s : Wm)
    → s.root ≡ address t
    → Holds s.nodes t
    → Distinct (windows_of t)
    → nodes_of t ≤ fuel
    → (s' : Wm) × (wm_update_layout fuel s ≡ some s')
      × ((px py : ℕ)
          → showing s'.windows (windows_of t) px py
            ≡ count (inside 0 0 s.fb_width s.fb_height px py))
wm_update_layout-showing fuel t s root held distinct le =
    let (s', eq, laid) = layout_recursive-Laid fuel t 0 0 s.fb_width s.fb_height s le held in
    let nz : not (s.root == 0) ≡ true =
      ap (λ a. not (a == 0)) root ∙ address-Holds s.nodes t held in
    (
      s',
      root-eq fuel s nz ∙ ap (λ a. layout_recursive fuel a 0 0 s.fb_width s.fb_height s) root ∙ eq,
      λ px py.
          ap (λ ws. showing ws (windows_of t) px py) laid.placed
          ∙ subst
              (λ wins.
                showing (put_tiles (tiles t 0 0 s.fb_width s.fb_height) s.windows) wins px py
                ≡ hits (tiles t 0 0 s.fb_width s.fb_height) px py)
              (wins_of-tiles t 0 0 s.fb_width s.fb_height)
              (showing-put_tiles (tiles t 0 0 s.fb_width s.fb_height) s.windows px py
                (subst Distinct (sym (wins_of-tiles t 0 0 s.fb_width s.fb_height)) distinct))
          ∙ hits-tiles t 0 0 s.fb_width s.fb_height px py,
    )
