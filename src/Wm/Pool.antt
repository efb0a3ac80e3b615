-- ===== src/Wm/Pool.antt =====
-- The tree of the windows: its pool of nodes, and the insertion and deletion of leaves.
pub mod Links
pub mod Fresh
pub mod Hang
pub mod Insert
pub mod Window
use open_idp_os.Base.{
  ℕ, zero, suc, ◌+◌, ◌-◌, ◌*◌, not, ◌&&◌, Option, none, some, ◌>>=◌, ◌∷◌, ◌==◌, ltb, leb,
  if◌then◌else◌, update,
}
use open_idp_os.Wm.{split_h, Node, Action, unmapped, stack_overflow, double_free, max_nodes, Wm}

abbrev pub dead_parent : ℕ
dead_parent = 0xDEADDEAD

abbrev pub set_node : (node : ℕ) → Node → Wm → Wm
set_node node n s = record s { nodes = update s.nodes node n }

abbrev pub say : Action → Wm → Wm
say a s = record s { actions = a ∷ s.actions }

pub tree_free : (node : ℕ) → Wm → Wm
tree_free node s =
    let idx = node - 1 in
    let full = if leb max_nodes s.free_stack_top then say stack_overflow s else s in
    let twice = if (full.nodes node).parent == dead_parent then say double_free full else full in
    let marked = set_node node (record (twice.nodes node) { parent = dead_parent }) twice in
    if node == 0 then s else if leb max_nodes idx then s else record marked {
      free_stack = update marked.free_stack marked.free_stack_top idx;
      free_stack_top = marked.free_stack_top + 1;
    }

abbrev pub empty_node : Node
empty_node = record {
  parent = 0;
  left = 0;
  right = 0;
  is_leaf = 0;
  split_dir = split_h;
  win = 0;
  x = 0;
  y = 0;
  w = 0;
  h = 0;
}

-- The pointer, or NULL.
pub tree_alloc : Wm → ℕ × Wm
tree_alloc s =
    if not (s.free_stack_top == 0)
    then (
      s.free_stack (s.free_stack_top - 1) + 1,
      set_node (s.free_stack (s.free_stack_top - 1) + 1) empty_node
          (record s { free_stack_top = s.free_stack_top - 1 }),
    )
    else if ltb s.node_pool_idx max_nodes
    then (
      s.node_pool_idx + 1,
      set_node (s.node_pool_idx + 1) empty_node (record s { node_pool_idx = s.node_pool_idx + 1 }),
    )
    else (0, s)

pub get_sibling : (node : ℕ) → Wm → ℕ
get_sibling node s =
    let parent = (s.nodes node).parent in
    if node == 0
    then 0
    else if parent == 0
    then 0
    else if (s.nodes parent).left == node
    then (s.nodes parent).right
    else (s.nodes parent).left

-- `while (!target->is_leaf) target = target->left;` on fuel.
pub leftmost : (fuel target : ℕ) → (ℕ → Node) → Option ℕ
leftmost zero target nodes = none
leftmost (suc fuel) target nodes =
    let rest = leftmost fuel (nodes target).left nodes in
    if (nodes target).is_leaf == 0 then rest else some target

-- The child `old` of `parent` is replaced.
pub replace_child : (parent old new : ℕ) → Wm → Wm
replace_child parent old new s =
    let p = s.nodes parent in
    if p.left == old
    then set_node parent (record p { left = new }) s
    else set_node parent (record p { right = new }) s

-- The container takes the place of the target, with the target and the new leaf below it.
pub put_container : (target container new_leaf : ℕ) → Wm → Wm
unfolding replace_child
put_container target container new_leaf s =
    let above = (s.nodes target).parent in
    let s₁ =
      set_node container
        (record (s.nodes container) { is_leaf = 0; split_dir = s.next_split_mode; parent = above })
        s in
    let s₂ =
      if not (above == 0)
      then replace_child above target container s₁
      else record s₁ { root = container } in
    let s₃ = set_node container (record (s₂.nodes container) { left = target }) s₂ in
    let s₄ = set_node target (record (s₃.nodes target) { parent = container }) s₃ in
    let s₅ = set_node container (record (s₄.nodes container) { right = new_leaf }) s₄ in
    let s₆ = set_node new_leaf (record (s₅.nodes new_leaf) { parent = container }) s₅ in
    record s₆ { focused_node = new_leaf }

-- The new leaf into a tree that has a root.
pub split_target : (fuel new_leaf : ℕ) → Wm → Option Wm
unfolding leftmost tree_alloc put_container
split_target fuel new_leaf s = do
  target ← leftmost fuel (if not (s.focused_node == 0) then s.focused_node else s.root) s.nodes
  let (container, s') = tree_alloc s
  some (if container == 0 then s' else put_container target container new_leaf s')

pub wm_insert_window_into_tree : (fuel win : ℕ) → Wm → Option Wm
unfolding tree_alloc split_target
wm_insert_window_into_tree fuel win s =
    let (new_leaf, s₁) = tree_alloc s in
    let s₂ =
      set_node new_leaf (record (s₁.nodes new_leaf) { is_leaf = 1; win = win; parent = 0 }) s₁ in
    if new_leaf == 0
    then some s₁
    else if s₂.root == 0
    then some (record s₂ { root = new_leaf; focused_node = new_leaf })
    else split_target fuel new_leaf s₂

-- The window's buffer is unmapped; its size is a product of ints that becomes 64 bits wide.
pub drop_buffer : (win : ℕ) → Wm → Wm
drop_buffer win s =
    let w = s.windows win in
    if not (w.buffer_wm_ptr == 0)
    then record s {
      windows = update s.windows win (record w { buffer_wm_ptr = 0 });
      actions = unmapped w.buffer_wm_ptr (w.width * w.height * 4) ∷ s.actions;
    }
    else s

-- `while (candidate && !candidate->is_leaf) candidate = candidate->left;` on fuel.
pub candidate_loop : (fuel candidate : ℕ) → (ℕ → Node) → Option ℕ
candidate_loop zero candidate nodes = none
candidate_loop (suc fuel) candidate nodes =
    let rest = candidate_loop fuel (nodes candidate).left nodes in
    if not (candidate == 0) && ((nodes candidate).is_leaf == 0) then rest else some candidate

-- The sibling takes the place of the parent.
pub lift_sibling : (sibling parent : ℕ) → Wm → Wm
unfolding replace_child
lift_sibling sibling parent s =
    let grandparent = (s.nodes parent).parent in
    let s₁ = set_node sibling (record (s.nodes sibling) { parent = grandparent }) s in
    if sibling == 0
    then s
    else if not (grandparent == 0)
    then replace_child grandparent parent sibling s₁
    else record s₁ { root = sibling }

pub remove_child : (fuel node parent : ℕ) → Wm → Option Wm
unfolding get_sibling lift_sibling candidate_loop tree_free
remove_child fuel node parent s = do
  let sibling = get_sibling node s
  let s₁ = lift_sibling sibling parent s
  candidate ←
      (if s₁.focused_node == node
        then candidate_loop fuel sibling s₁.nodes
        else some s₁.focused_node)
  some (tree_free parent (tree_free node (record s₁ { focused_node = candidate })))

pub wm_delete_node : (fuel node : ℕ) → Wm → Option Wm
unfolding drop_buffer remove_child tree_free
wm_delete_node fuel node s =
    let n = s.nodes node in
    let s₁ = if not (n.is_leaf == 0) && not (n.win == 0) then drop_buffer n.win s else s in
    let s₂ : Wm = record s₁ { root = if node == s₁.root then 0 else s₁.root; focused_node = 0 } in
    if node == 0
    then some s
    else if n.parent == 0
    then some (tree_free node s₂)
    else remove_child fuel node n.parent s₁
