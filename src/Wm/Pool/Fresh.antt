-- ===== src/Wm/Pool/Fresh.antt =====
-- tree_alloc gives a node that is in no tree and on no stack.
use mathlib.Core.Path.{subst}
use open_idp_os.Base.{
  ℕ, ◌+◌, ◌-◌, ◌≤◌, ◌<◌, ◌≡◌, ◌≢◌, sym, refl, true, false, not, arith, ◌==◌, ltb, update_self,
  update_ne, Bool-cases, inl, inr,
}
use open_idp_os.Wm.{Wm, max_nodes}
use open_idp_os.Wm.Pool.{empty_node, set_node, tree_alloc}

-- The stack holds different nodes that were taken from the array once.
pub record IsPool (s : Wm) : Type 0 where
  pub taken : (i : ℕ) → i < s.free_stack_top → s.free_stack i < s.node_pool_idx
  pub different : (i j : ℕ) → i < j → j < s.free_stack_top → s.free_stack i ≢ s.free_stack j
  pub inside : s.node_pool_idx ≤ max_nodes

-- A node that was handed out and not given back.
pub record Owned (s : Wm) (x : ℕ) : Type 0 where
  pub some : 0 < x
  pub taken : x ≤ s.node_pool_idx
  pub kept : (i : ℕ) → i < s.free_stack_top → s.free_stack i + 1 ≢ x

pub record Alloc (s : Wm) (n : ℕ) (s' : Wm) : Type 0 where
  pub pool : IsPool s'
  pub owned : Owned s' n
  pub new : (x : ℕ) → Owned s x → x ≢ n
  pub still : (x : ℕ) → Owned s x → Owned s' x
  pub empty : s'.nodes n ≡ empty_node
  pub same : (x : ℕ) → x ≢ n → s'.nodes x ≡ s.nodes x
  pub left_over : s'.node_pool_idx + s.free_stack_top ≡ s.node_pool_idx + s'.free_stack_top + 1
  pub root : s'.root ≡ s.root
  pub focus : s'.focused_node ≡ s.focused_node
  pub mode : s'.next_split_mode ≡ s.next_split_mode

abbrev popped : Wm → ℕ × Wm
popped s = (
  s.free_stack (s.free_stack_top - 1) + 1,
  set_node (s.free_stack (s.free_stack_top - 1) + 1) empty_node
      (record s { free_stack_top = s.free_stack_top - 1 }),
)

abbrev next_one : Wm → ℕ × Wm
next_one s = (
  s.node_pool_idx + 1,
  set_node (s.node_pool_idx + 1) empty_node (record s { node_pool_idx = s.node_pool_idx + 1 }),
)

popped-Alloc : (s : Wm) → IsPool s → 0 < s.free_stack_top → Alloc s (popped s).0 (popped s).1
popped-Alloc s pool lt =
    let top = s.free_stack_top - 1 in
    let n = s.free_stack top + 1 in
    record {
      pool = record {
        taken = λ i le. pool.taken i (omega arith);
        different = λ i j ij le. pool.different i j ij (omega arith);
        inside = pool.inside;
      };
      owned = record {
        some = omega arith;
        taken = omega (arith, pool.taken top (omega arith));
        kept = λ i le e. pool.different i top le (omega arith) (omega (arith, e));
      };
      new = λ x own e. own.kept top (omega arith) (sym e);
      still = λ x own. record {
        some = own.some;
        taken = own.taken;
        kept = λ i le. own.kept i (omega arith);
      };
      empty = update_self s.nodes n empty_node;
      same = λ x ne. update_ne s.nodes empty_node (λ e. ne (sym e));
      left_over = omega arith;
      root = refl;
      focus = refl;
      mode = refl;
    }

next_one-Alloc :
    (s : Wm) → IsPool s → s.node_pool_idx < max_nodes → Alloc s (next_one s).0 (next_one s).1
next_one-Alloc s pool lt =
    let n = s.node_pool_idx + 1 in
    record {
      pool = record {
        taken = λ i le. omega (arith, pool.taken i le);
        different = pool.different;
        inside = omega arith;
      };
      owned = record {
        some = omega arith;
        taken = omega arith;
        kept = λ i le e. omega (arith, pool.taken i le, e);
      };
      new = λ x own e. omega (arith, own.taken, e);
      still =
          λ x own. record { some = own.some; taken = omega (arith, own.taken); kept = own.kept };
      empty = update_self s.nodes n empty_node;
      same = λ x ne. update_ne s.nodes empty_node (λ e. ne (sym e));
      left_over = omega arith;
      root = refl;
      focus = refl;
      mode = refl;
    }

tree_alloc-popped : (s : Wm) → not (s.free_stack_top == 0) ≡ true → tree_alloc s ≡ popped s
unfolding tree_alloc
tree_alloc-popped s some_free = rw some_free refl

tree_alloc-next :
    (s : Wm)
    → not (s.free_stack_top == 0) ≡ false
    → ltb s.node_pool_idx max_nodes ≡ true
    → tree_alloc s ≡ next_one s
unfolding tree_alloc
tree_alloc-next s none_free some_new = rw (none_free, some_new) refl

pub tree_alloc-Alloc :
    (s : Wm)
    → IsPool s
    → s.node_pool_idx < max_nodes + s.free_stack_top
    → Alloc s (tree_alloc s).0 (tree_alloc s).1
tree_alloc-Alloc s pool room = elim (Bool-cases (not (s.free_stack_top == 0))) [
  | inl some_free ↦
      let lt : 0 < s.free_stack_top = ground arith in
      subst (λ r. Alloc s r.0 r.1) (sym (tree_alloc-popped s some_free)) (popped-Alloc s pool lt)
  | inr none_free ↦
      let lt : s.node_pool_idx < max_nodes = ground arith in
      let some_new : ltb s.node_pool_idx max_nodes ≡ true = ground arith in
      subst (λ r. Alloc s r.0 r.1) (sym (tree_alloc-next s none_free some_new))
        (next_one-Alloc s pool lt)
]
