-- ===== src/Wm.antt =====
-- userspace/idpwm.c: the window manager. A pointer to nodes[i] or windows[i] is the number i + 1,
-- NULL is 0. What the manager asks of the kernel and of the screen is a list, the latest first.
pub mod Pool
pub mod Layout
pub mod Input
mod Tests
use open_idp_os.Base.{ℕ, ◌+◌, ◌*◌, List}

abbrev pub max_windows : ℕ
max_windows = 16

-- MAX_WINDOWS * 2
abbrev pub max_nodes : ℕ
max_nodes = 32

pub data SplitDir : Type 0 where
  split_h : SplitDir
  split_v : SplitDir

pub record Node : Type 0 where
  pub parent : ℕ
  pub left : ℕ
  pub right : ℕ
  pub is_leaf : ℕ
  pub split_dir : SplitDir
  pub win : ℕ
  pub x : ℕ
  pub y : ℕ
  pub w : ℕ
  pub h : ℕ

-- window_t; the ints are not negative.
pub record Window : Type 0 where
  pub id : ℕ
  pub pid : ℕ
  pub alive : ℕ
  pub x : ℕ
  pub y : ℕ
  pub width : ℕ
  pub height : ℕ
  pub buffer_wm_ptr : ℕ
  pub buffer_client_ptr : ℕ

pub data Action : Type 0 where
  sent : (pid type d1 d2 d3 : ℕ) → Action
  unmapped : (address size : ℕ) → Action
  executed_terminal : Action
  stack_overflow : Action
  double_free : Action
  drawn : Action
  presented : Action

-- The globals; free_stack_top is one more than in the code, where it is -1 for an empty stack.
pub record Wm : Type 0 where
  pub windows : ℕ → Window
  pub nodes : ℕ → Node
  pub node_pool_idx : ℕ
  pub free_stack : ℕ → ℕ
  pub free_stack_top : ℕ
  pub root : ℕ
  pub focused_node : ℕ
  pub next_split_mode : SplitDir
  pub fb_width : ℕ
  pub fb_height : ℕ
  pub actions : List Action
