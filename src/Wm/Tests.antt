-- ===== src/Wm/Tests.antt =====
-- Two windows on a small screen.
use open_idp_os.Base.{ℕ, ◌∷◌, ◌≡◌, refl, arith, ◌==◌, if◌then◌else◌, [], some}
use open_idp_os.Wm.{split_v, Node, Window, Wm}
use open_idp_os.Wm.Pool.{empty_node, wm_insert_window_into_tree}
use open_idp_os.Wm.Pool.Links.{in_right}
use open_idp_os.Wm.Pool.Window.{Inserted, insert_window-Inserted}
use open_idp_os.Wm.Layout.{wm_update_layout}
use open_idp_os.Wm.Layout.Tiling.{Tree, leaf, split, inside, count}
use open_idp_os.Wm.Layout.Screen.{windows_of, showing, wm_update_layout-showing}

abbrev no_window : Window
no_window = record {
  id = 0;
  pid = 0;
  alive = 0;
  x = 0;
  y = 0;
  width = 0;
  height = 0;
  buffer_wm_ptr = 0;
  buffer_client_ptr = 0;
}

abbrev nodes : ℕ → Node
nodes a =
    if a == 3
    then record empty_node { split_dir = split_v; left = 1; right = 2 }
    else record empty_node { is_leaf = 1; win = a; parent = 3 }

abbrev two : Tree
two = split 3 split_v (leaf 1 1) (leaf 2 2)

abbrev two_windows : Wm
two_windows = record {
  windows = λ win. no_window;
  nodes = nodes;
  node_pool_idx = 3;
  free_stack = λ i. 0;
  free_stack_top = 0;
  root = 3;
  focused_node = 2;
  next_split_mode = split_v;
  fb_width = 641;
  fb_height = 480;
  actions = [];
}

wm_update_layout-showing_example :
    (s' : Wm) × (wm_update_layout 3 two_windows ≡ some s')
    × ((px py : ℕ) → showing s'.windows (windows_of two) px py ≡ count (inside 0 0 641 480 px py))
wm_update_layout-showing_example =
    wm_update_layout-showing 3 two two_windows refl
      (
        omega arith,
        refl,
        refl,
        refl,
        refl,
        (omega arith, omega arith, refl, refl),
        (omega arith, omega arith, refl, refl),
      )
      ((omega arith, tt), (tt, tt)) (omega arith)

insert_window-Inserted_example :
    (s' : Wm) × (c : ℕ) × (n : ℕ) × (wm_insert_window_into_tree 1 3 two_windows ≡ some s')
    × Inserted two_windows s' (in_right 3 split_v (leaf 1 1) ∷ []) 2 2 c n 3
insert_window-Inserted_example =
    insert_window-Inserted 0 3 two_windows (in_right 3 split_v (leaf 1 1) ∷ []) 2 2 refl refl
      ((omega arith, refl, refl, refl, refl, refl), (omega arith, refl, refl, refl), tt)
      (omega arith, refl, refl, refl) (omega arith, (omega arith, omega arith), tt)
      (
        record { some = omega arith; taken = omega arith; kept = λ i lt e. omega arith },
        record { some = omega arith; taken = omega arith; kept = λ i lt e. omega arith },
        tt,
      )
      (record { some = omega arith; taken = omega arith; kept = λ i lt e. omega arith })
      (record {
        taken = λ i lt. absurd (omega arith);
        different = λ i j ij lt. absurd (omega arith);
        inside = omega arith;
      })
      (omega arith)
