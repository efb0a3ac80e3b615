-- ===== src/Wm/Pool/Window.antt =====
-- wm_insert_window_into_tree splits the focused leaf, with two new nodes of the pool.
use mathlib.Core.Path.{subst}
use open_idp_os.Base.{
  ℕ, suc, ◌+◌, ◌<◌, ◌≡◌, ◌≢◌, ◌∙◌, sym, refl, ap, Bool, true, false, not, arith, ◌==◌, List, [],
  ◌∷◌, update_self, update_ne, some,
}
use open_idp_os.Wm.{Node, Wm, max_nodes}
use open_idp_os.Wm.Layout.Tiling.{Tree, leaf, split, address}
use open_idp_os.Wm.Pool.{
  set_node, tree_alloc, leftmost, put_container, split_target, wm_insert_window_into_tree,
}
use open_idp_os.Wm.Pool.Links.{
  Outer, Frame, in_left, in_right, plug, above, Around, Every, EveryUp, Every-both, EveryUp-both,
  Around-same,
}
use open_idp_os.Wm.Pool.Fresh.{IsPool, Owned, Alloc, tree_alloc-Alloc}
use open_idp_os.Wm.Pool.Hang.{Away, Clear, Rooted, Outer-same, put_container-case}
use open_idp_os.Wm.Pool.Insert.{put_container-Rooted}

-- No node around the leaf is the leaf, and the one above it is there only once.
abbrev pub Separate : (b : ℕ) → List Frame → Type 0
Separate b [] = Unit
Separate b (in_left q dir r ∷ up) =
    (q ≢ b) × Every (λ x. (x ≢ b) × (x ≢ q)) r × EveryUp (λ x. (x ≢ b) × (x ≢ q)) up
Separate b (in_right q dir l ∷ up) =
    (q ≢ b) × Every (λ x. (x ≢ b) × (x ≢ q)) l × EveryUp (λ x. (x ≢ b) × (x ≢ q)) up

-- New nodes are clear of the tree.
Separate-Clear :
    (P : ℕ → Type 0) (b c n : ℕ)
    → ((x : ℕ) → P x → (x ≢ c) × (x ≢ n))
    → (up : List Frame) → EveryUp P up
    → Separate b up
    → Clear b c n up
Separate-Clear P b c n new [] every apart = tt
Separate-Clear P b c n new (in_left q dir r ∷ up) (own_q, own_r, own_up) (qb, apart_r, apart_up) =
    let both : (x : ℕ) → P x → ((x ≢ b) × (x ≢ q)) → Away b c n q x =
      λ x own ne. (ne.0, (new x own).0, (new x own).1, ne.1) in
    (
      (qb, (new q own_q).0, (new q own_q).1),
      Every-both P (λ x. (x ≢ b) × (x ≢ q)) (Away b c n q) both r own_r apart_r,
      EveryUp-both P (λ x. (x ≢ b) × (x ≢ q)) (Away b c n q) both up own_up apart_up,
    )
Separate-Clear P b c n new (in_right q dir r ∷ up) (own_q, own_r, own_up) (qb, apart_r, apart_up) =
    let both : (x : ℕ) → P x → ((x ≢ b) × (x ≢ q)) → Away b c n q x =
      λ x own ne. (ne.0, (new x own).0, (new x own).1, ne.1) in
    (
      (qb, (new q own_q).0, (new q own_q).1),
      Every-both P (λ x. (x ≢ b) × (x ≢ q)) (Away b c n q) both r own_r apart_r,
      EveryUp-both P (λ x. (x ≢ b) × (x ≢ q)) (Away b c n q) both up own_up apart_up,
    )

abbrev new_leaf : (win : ℕ) → Wm → Wm
new_leaf win s =
    let n = (tree_alloc s).0 in
    let s₁ = (tree_alloc s).1 in
    set_node n (record (s₁.nodes n) { is_leaf = 1; win = win; parent = 0 }) s₁

not-true : (b : Bool) → not b ≡ true → b ≡ false
not-true true e = sym e
not-true false e = refl

zero_test : (n : ℕ) → 0 < n → (n == 0) ≡ false
zero_test n lt = ground arith

address-some :
    (up : List Frame) (P : ℕ → Type 0) (t : Tree)
    → ((x : ℕ) → P x → 0 < x)
    → P (address t)
    → EveryUp P up
    → 0 < address (plug up t)
address-some [] P t pos here all = pos (address t) here
address-some (in_left a dir r ∷ up) P t pos here all =
    address-some up P (split a dir t r) pos all.0 all.2
address-some (in_right a dir l ∷ up) P t pos here all =
    address-some up P (split a dir l t) pos all.0 all.2

module _ (fuel win : ℕ) (s : Wm) where
  insert-split :
      ((tree_alloc s).0 == 0) ≡ false
      → ((new_leaf win s).root == 0) ≡ false
      → wm_insert_window_into_tree fuel win s ≡ split_target fuel (tree_alloc s).0 (new_leaf win s)
  unfolding wm_insert_window_into_tree
  insert-split nz rooted = rw (nz, rooted) refl

split-container :
    (fuel n : ℕ) (s : Wm)
    → not (s.focused_node == 0) ≡ true
    → ((s.nodes s.focused_node).is_leaf == 0) ≡ false
    → ((tree_alloc s).0 == 0) ≡ false
    → split_target (suc fuel) n s
      ≡ some (put_container s.focused_node (tree_alloc s).0 n (tree_alloc s).1)
unfolding split_target leftmost
split-container fuel n s focused is_leaf nz = rw (focused, is_leaf, nz) refl

-- What an insertion leaves: the tree with the split, the focus on the new leaf, and the pool.
pub record Inserted (s s' : Wm) (up : List Frame) (b v c n win : ℕ) : Type 0 where
  pub rooted : Rooted s' (plug up (split c s.next_split_mode (leaf b v) (leaf n win)))
  pub focus : s'.focused_node ≡ n
  pub pool : IsPool s'
  pub still : (x : ℕ) → Owned s x → Owned s' x
  pub owned : Owned s' c × Owned s' n
  pub new : (x : ℕ) → Owned s x → (x ≢ c) × (x ≢ n)
  pub other : c ≢ n

module _ (fuel win : ℕ) (s : Wm) (up : List Frame) (b v : ℕ)
    (root : s.root ≡ address (plug up (leaf b v))) (focus : s.focused_node ≡ b)
    (around : Around s.nodes up b) (old : Outer s.nodes b v (above up)) (apart : Separate b up)
    (all : EveryUp (Owned s) up) (own : Owned s b) (pool : IsPool s)
    (room : s.node_pool_idx + 1 < max_nodes + s.free_stack_top) where
  n : ℕ
  n = (tree_alloc s).0

  s₁ : Wm
  s₁ = (tree_alloc s).1

  one : Alloc s n s₁
  unfolding n s₁
  one = tree_alloc-Alloc s pool (omega arith)

  s₂ : Wm
  s₂ = set_node n (record (s₁.nodes n) { is_leaf = 1; win = win; parent = 0 }) s₁

  same₂ : (x : ℕ) → Owned s x → s₂.nodes x ≡ s.nodes x
  unfolding s₂
  same₂ x o =
      update_ne s₁.nodes (record (s₁.nodes n) { is_leaf = 1; win = win; parent = 0 })
        (λ e. one.new x o (sym e))
      ∙ one.same x (one.new x o)

  new₂ : Outer s₂.nodes n win 0
  unfolding s₂
  new₂ =
      let eq =
        update_self s₁.nodes n (record (s₁.nodes n) { is_leaf = 1; win = win; parent = 0 }) in
      (
        omega (arith, one.owned.some),
        ap (λ (x : Node). not (x.is_leaf == 0)) eq,
        ap (λ (x : Node). x.win) eq,
        ap (λ (x : Node). x.parent) eq,
      )

  pool₂ : IsPool s₂
  unfolding s₂
  pool₂ = record {
    taken = one.pool.taken;
    different = one.pool.different;
    inside = one.pool.inside;
  }

  still₂ : (x : ℕ) → Owned s₁ x → Owned s₂ x
  unfolding s₂
  still₂ x o = record { some = o.some; taken = o.taken; kept = o.kept }

  c : ℕ
  c = (tree_alloc s₂).0

  s₃ : Wm
  s₃ = (tree_alloc s₂).1

  two : Alloc s₂ c s₃
  unfolding c s₃ s₂
  two = tree_alloc-Alloc s₂ pool₂ (omega (arith, room, one.left_over))

  clear : (x : ℕ) → Owned s x → (x ≢ c) × (x ≢ n)
  clear x o = (two.new x (still₂ x (one.still x o)), one.new x o)

  same₃ : (x : ℕ) → Owned s x → s₃.nodes x ≡ s.nodes x
  same₃ x o = two.same x (clear x o).0 ∙ same₂ x o

  cn : c ≢ n
  cn e = two.new n (still₂ n one.owned) (sym e)

  mode₂ : s₂.next_split_mode ≡ s.next_split_mode
  unfolding s₂
  mode₂ = one.mode

  root₂ : s₂.root ≡ s.root
  unfolding s₂
  root₂ = one.root

  focus₂ : s₂.focused_node ≡ b
  unfolding s₂
  focus₂ = one.focus ∙ focus

  final : Wm
  final = put_container b c n s₃

  final-Rooted : Rooted final (plug up (split c s.next_split_mode (leaf b v) (leaf n win)))
  unfolding final
  final-Rooted =
      subst (λ m. Rooted (put_container b c n s₃) (plug up (split c m (leaf b v) (leaf n win))))
        (two.mode ∙ mode₂)
        (put_container-Rooted s₃ b v c n win (clear b own).0 (clear b own).1 cn
          (omega (arith, two.owned.some))
          (Outer-same s₂.nodes s₃.nodes n win 0 (two.same n (λ e. cn (sym e))) new₂) up
          (two.root ∙ root₂ ∙ root) (Around-same s.nodes s₃.nodes (Owned s) same₃ up b all around)
          (Outer-same s.nodes s₃.nodes b v (above up) (same₃ b own) old)
          (Separate-Clear (Owned s) b c n clear up all apart))

  final-Inserted : Inserted s final up b v c n win
  unfolding final
  final-Inserted =
      let kept : (x : ℕ) → Owned s₂ x → Owned s₃ x = two.still in
      let (pool, owned, focused) =
        put_container-case
          (λ s'. IsPool s' × ((x : ℕ) → Owned s₃ x → Owned s' x) × (s'.focused_node ≡ n)) s₃ b c n
          (λ nodes root. (
            record {
              taken = two.pool.taken;
              different = two.pool.different;
              inside = two.pool.inside;
            },
            λ x o. record { some = o.some; taken = o.taken; kept = o.kept },
            refl,
          )) in
      record {
        rooted = final-Rooted;
        focus = focused;
        pool = pool;
        still = λ x o. owned x (two.still x (still₂ x (one.still x o)));
        owned = (owned c two.owned, owned n (two.still n (still₂ n one.owned)));
        new = clear;
        other = cn;
      }

  insert-eq : wm_insert_window_into_tree (suc fuel) win s ≡ some final
  unfolding final n s₁ s₂ c s₃
  insert-eq =
      let nz : (n == 0) ≡ false = zero_test n one.owned.some in
      let cz : (c == 0) ≡ false = zero_test c two.owned.some in
      let positive = address-some up (Owned s) (leaf b v) (λ x o. o.some) own all in
      let rooted : (s₂.root == 0) ≡ false =
        ap (λ x. x == 0) (root₂ ∙ root) ∙ zero_test (address (plug up (leaf b v))) positive in
      let focused : not (s₂.focused_node == 0) ≡ true =
        ap (λ x. not (x == 0)) focus₂ ∙ ap not (zero_test b own.some) in
      let is_leaf : ((s₂.nodes s₂.focused_node).is_leaf == 0) ≡ false =
        ap (λ x. (s₂.nodes x).is_leaf == 0) focus₂
        ∙ ap (λ (x : Node). x.is_leaf == 0) (same₂ b own)
        ∙ not-true ((s.nodes b).is_leaf == 0) old.1 in
      insert-split (suc fuel) win s nz rooted
      ∙ split-container fuel n s₂ focused is_leaf cz
      ∙ ap (λ x. some (put_container x c n s₃)) focus₂

-- wm_insert_window_into_tree, when the focus is on a leaf, replaces it in the tree by a split, in the
-- mode of the manager, of the leaf and a new one with the window; the root and all links are those of
-- the new tree, and the focus is on the new leaf. The two nodes are different, in use from then on and
-- were not in use before, the others in use stay so, and the pool of nodes stays well formed. The pool
-- is well formed and has two nodes left, the nodes around the leaf are in use and others than it, and
-- the fuel is not 0.
pub insert_window-Inserted :
    (fuel win : ℕ) (s : Wm) (up : List Frame) (b v : ℕ)
    → s.root ≡ address (plug up (leaf b v))
    → s.focused_node ≡ b
    → Around s.nodes up b
    → Outer s.nodes b v (above up)
    → Separate b up
    → EveryUp (Owned s) up
    → Owned s b
    → IsPool s
    → s.node_pool_idx + 1 < max_nodes + s.free_stack_top
    → (s' : Wm) × (c : ℕ) × (n : ℕ) × (wm_insert_window_into_tree (suc fuel) win s ≡ some s')
      × Inserted s s' up b v c n win
insert_window-Inserted fuel win s up b v root focus around old apart all own pool room = (
  final fuel win s up b v root focus around old apart all own pool room,
  c fuel win s up b v root focus around old apart all own pool room,
  n fuel win s up b v root focus around old apart all own pool room,
  insert-eq fuel win s up b v root focus around old apart all own pool room,
  final-Inserted fuel win s up b v root focus around old apart all own pool room,
)
