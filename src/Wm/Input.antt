-- ===== src/Wm/Input.antt =====
-- The clients, the focus and the keys, and the loop of the window manager. Drawing is an action.
use open_idp_os.Base.{
  ℕ, zero, suc, ◌+◌, ◌*◌, ◌/◌, ◌%◌, Bool, not, ◌&&◌, Option, none, some, ◌>>=◌, List, [], ◌∷◌, ◌++◌,
  ◌==◌, if◌then◌else◌, update,
}
use open_idp_os.Wm.{
  split_h, split_v, Node, Window, sent, executed_terminal, drawn, presented, max_windows, Wm,
}
use open_idp_os.Wm.Pool.{say, wm_insert_window_into_tree, wm_delete_node}
use open_idp_os.Wm.Layout.{wm_update_layout}

abbrev pub msg_window_created : ℕ
msg_window_created = 200

abbrev pub msg_key_event : ℕ
msg_key_event = 500

abbrev pub msg_quit_request : ℕ
msg_quit_request = 0xDEAD

-- `wm_draw(); wm_present();`
abbrev pub redraw : Wm → Wm
redraw s = record s { actions = presented ∷ drawn ∷ s.actions }

-- The index of the first window that passes, from `i` on.
pub first_window : (Window → Bool) → (left i : ℕ) → (ℕ → Window) → Option ℕ
first_window test zero i windows = none
first_window test (suc left) i windows =
    let rest = first_window test left (i + 1) windows in
    if test (windows (i + 1)) then some i else rest

abbrev pub free_slot : (ℕ → Window) → Option ℕ
free_slot windows = first_window (λ w. w.alive == 0) max_windows 0 windows

-- `shared` is what sys_share_mem returns for a pid and a size: the two addresses.
pub open_window : (fuel pid slot : ℕ) → (shared : ℕ × ℕ) → Wm → Option Wm
open_window fuel pid slot shared s =
    let win = slot + 1 in
    let started : Wm = record s {
      windows = update s.windows win (record (s.windows win) {
        id = slot;
        pid = pid;
        alive = 1;
        buffer_wm_ptr = shared.0;
        buffer_client_ptr = shared.1;
      });
    } in
    if shared.0 == 0
    then some s
    else (wm_insert_window_into_tree fuel win started >>= wm_update_layout fuel >>= λ s'. some (
        say
          (sent pid msg_window_created (s'.windows win).width (s'.windows win).height
            (s'.windows win).buffer_client_ptr)
          s'))

pub wm_handle_new_client : (fuel pid : ℕ) → (shared : ℕ → ℕ → ℕ × ℕ) → Wm → Option Wm
unfolding first_window open_window
wm_handle_new_client fuel pid shared s = elim (free_slot s.windows) [
  | none ↦ some s
  | some slot ↦ open_window fuel pid slot (shared pid (s.fb_width * s.fb_height * 4)) s
]

-- The leaves below the node behind those collected before; the recursion is on fuel.
pub collect_leaves : (fuel node : ℕ) → (ℕ → Node) → List ℕ → Option (List ℕ)
collect_leaves zero node nodes found = none
collect_leaves (suc fuel) node nodes found =
    let n = nodes node in
    let both = collect_leaves fuel n.left nodes found >>= collect_leaves fuel n.right nodes in
    if node == 0
    then some found
    else if not (n.is_leaf == 0)
    then some (found ++ node ∷ [])
    else both

-- The leaf behind the first one that is `node`, the first one behind the last and behind none.
pub after_leaf : (node first : ℕ) → List ℕ → ℕ
after_leaf node first [] = first
after_leaf node first (a ∷ leaves) =
    if a == node then next_or first leaves else after_leaf node first leaves
  where
    next_or : ℕ → List ℕ → ℕ
    next_or first [] = first
    next_or first (b ∷ leaves) = b

pub focus_among : List ℕ → Wm → Wm
unfolding after_leaf
focus_among [] s = s
focus_among (a ∷ leaves) s = record s { focused_node = after_leaf s.focused_node a (a ∷ leaves) }

pub wm_focus_next : (fuel : ℕ) → Wm → Option Wm
unfolding collect_leaves focus_among
wm_focus_next fuel s =
    if s.root == 0
    then some s
    else (collect_leaves fuel s.root s.nodes [] >>= λ leaves. some (focus_among leaves s))

pub wm_kill_focused : (fuel : ℕ) → Wm → Option Wm
wm_kill_focused fuel s =
    let win = (s.nodes s.focused_node).win in
    let told = say (sent (s.windows win).pid msg_quit_request 0 0 0) s in
    let dead : Wm = record told {
      windows = update told.windows win (record (told.windows win) { alive = 0 });
    } in
    if s.focused_node == 0
    then some s
    else if win == 0
    then some s
    else (wm_delete_node fuel s.focused_node dead >>= wm_update_layout fuel >>= λ s'.
        some (redraw s'))

-- The keys with Alt: newline, h, v, tab and q.
pub alt_key : (fuel key_char : ℕ) → Wm → Option Wm
unfolding wm_focus_next wm_kill_focused
alt_key fuel key_char s =
    if key_char == 10
    then some (say executed_terminal s)
    else if key_char == 104
    then some (record s { next_split_mode = split_h })
    else if key_char == 118
    then some (record s { next_split_mode = split_v })
    else if key_char == 9
    then (wm_focus_next fuel s >>= λ s'. some (redraw s'))
    else if key_char == 113
    then (wm_kill_focused fuel s >>= λ s'. some (redraw s'))
    else some s

-- Bit 10 of the packet is Alt.
pub wm_handle_input : (fuel key_packet : ℕ) → Wm → Option Wm
unfolding alt_key
wm_handle_input fuel key_packet s =
    let w = s.windows (s.nodes s.focused_node).win in
    if not (key_packet / 0x400 % 2 == 0)
    then alt_key fuel (key_packet % 256) s
    else if not (s.focused_node == 0)
        && not ((s.nodes s.focused_node).win == 0)
        && not (w.alive == 0)
    then some (say (sent w.pid msg_key_event key_packet 0 0) s)
    else some s
