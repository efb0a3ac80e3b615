-- ===== src/Wm/Layout.antt =====
-- The layout of the windows on the screen.
pub mod Tiling
pub mod Placed
pub mod Screen
use open_idp_os.Base.{
  ℕ, zero, suc, ◌+◌, ◌-◌, ◌*◌, ◌/◌, Bool, not, ◌&&◌, ◌||◌, Option, none, some, ◌>>=◌, ◌∷◌, ◌==◌,
  if◌then◌else◌, update,
}
use mathlib.Core.Option
use open_idp_os.Wm.{SplitDir, split_h, split_v, Node, Window, Action, sent, Wm}
use open_idp_os.Wm.Pool.{set_node}

abbrev pub msg_window_resize : ℕ
msg_window_resize = 201

-- What a direction makes of a length that it splits, and of one that it does not.
abbrev pub if_v : SplitDir → ℕ → ℕ → ℕ
if_v split_v a b = a
if_v split_h a b = b

-- The leaf's window gets its place, and its client a message when the size is new.
pub place_window : (win x y w h : ℕ) → Wm → Wm
place_window win x y w h s =
    let old = s.windows win in
    let placed : Wm = record s {
      windows = update s.windows win (record old { x = x; y = y; width = w; height = h });
    } in
    if not (old.width == w) || not (old.height == h)
    then record placed { actions = sent old.pid msg_window_resize w h 0 ∷ s.actions }
    else placed

pub layout_recursive : (fuel node x y w h : ℕ) → Wm → Option Wm
unfolding place_window
layout_recursive zero node x y w h s = none
layout_recursive (suc fuel) node x y w h s =
    let n = s.nodes node in
    let s₁ = set_node node (record n { x = x; y = y; w = w; h = h }) s in
    let half_w = if_v n.split_dir (w / 2) w in
    let half_h = if_v n.split_dir h (h / 2) in
    let next_x = if_v n.split_dir (x + half_w) x in
    let next_y = if_v n.split_dir y (y + half_h) in
    let rem_w = if_v n.split_dir (w - half_w) w in
    let rem_h = if_v n.split_dir h (h - half_h) in
    let both =
      layout_recursive fuel n.left x y half_w half_h s₁
      >>= layout_recursive fuel n.right next_x next_y rem_w rem_h in
    if node == 0
    then some s
    else if not (n.is_leaf == 0)
    then some (if not (n.win == 0) then place_window n.win x y w h s₁ else s₁)
    else both

pub wm_update_layout : (fuel : ℕ) → Wm → Option Wm
unfolding layout_recursive
wm_update_layout fuel s =
    if not (s.root == 0) then layout_recursive fuel s.root 0 0 s.fb_width s.fb_height s else some s
