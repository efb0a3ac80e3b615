-- ===== src/Wm/Pool/Hang.antt =====
-- The stores that put_container makes: the container in the place of a leaf, with the leaf and the
-- new leaf below it.
use mathlib.Core.Path.{subst}
use open_idp_os.Base.{
  ℕ, ◌≡◌, ◌≢◌, ◌∙◌, sym, refl, ap, true, false, not, ◌==◌, List, [], ◌∷◌, update, update_self,
  update_ne, Bool-cases, inl, inr,
}
use open_idp_os.Wm.{SplitDir, Node, Wm}
use open_idp_os.Wm.Pool.{replace_child, put_container}
use open_idp_os.Wm.Pool.Links.{Outer, Linked, Frame, in_left, in_right, plug, Every, EveryUp}
use open_idp_os.Wm.Layout.Tiling.{Tree, leaf, split, address}

module _ (b c n : ℕ) (f : ℕ → Node) where
  abbrev f₁ : ℕ → Node
  f₁ = update f c (record (f c) { left = b })

  abbrev f₂ : ℕ → Node
  f₂ = update f₁ b (record (f₁ b) { parent = c })

  abbrev f₃ : ℕ → Node
  f₃ = update f₂ c (record (f₂ c) { right = n })

  -- The leaf and the new one hung below the container.
  abbrev pub hang : ℕ → Node
  hang = update f₃ n (record (f₃ n) { parent = c })

  module _ (bc : b ≢ c) (bn : b ≢ n) (cn : c ≢ n) where
    pub hang-else : (x : ℕ) → x ≢ b → x ≢ c → x ≢ n → hang x ≡ f x
    hang-else x xb xc xn =
        update_ne f₃ (record (f₃ n) { parent = c }) (λ e. xn (sym e))
        ∙ update_ne f₂ (record (f₂ c) { right = n }) (λ e. xc (sym e))
        ∙ update_ne f₁ (record (f₁ b) { parent = c }) (λ e. xb (sym e))
        ∙ update_ne f (record (f c) { left = b }) (λ e. xc (sym e))

    f₂-c : f₂ c ≡ record (f c) { left = b }
    f₂-c =
        update_ne f₁ (record (f₁ b) { parent = c }) bc ∙ update_self f c (record (f c) { left = b })

    hang-c : hang c ≡ record (f c) { left = b; right = n }
    hang-c =
        update_ne f₃ (record (f₃ n) { parent = c }) (λ e. cn (sym e))
        ∙ update_self f₂ c (record (f₂ c) { right = n })
        ∙ ap (λ (v : Node). record v { right = n }) f₂-c

    hang-b : hang b ≡ record (f b) { parent = c }
    hang-b =
        update_ne f₃ (record (f₃ n) { parent = c }) (λ e. bn (sym e))
        ∙ update_ne f₂ (record (f₂ c) { right = n }) (λ e. bc (sym e))
        ∙ update_self f₁ b (record (f₁ b) { parent = c })
        ∙ ap (λ (v : Node). record v { parent = c })
            (update_ne f (record (f c) { left = b }) (λ e. bc (sym e)))

    hang-n : hang n ≡ record (f n) { parent = c }
    hang-n =
        update_self f₃ n (record (f₃ n) { parent = c })
        ∙ ap (λ (v : Node). record v { parent = c })
            (update_ne f₂ (record (f₂ c) { right = n }) cn
              ∙ update_ne f₁ (record (f₁ b) { parent = c }) bn
              ∙ update_ne f (record (f c) { left = b }) cn)

-- A node that is none of the four that change.
abbrev pub Away : (b c n q x : ℕ) → Type 0
Away b c n q x = (x ≢ b) × (x ≢ c) × (x ≢ n) × (x ≢ q)

-- The nodes around the leaf b are others than it, the container and the new leaf, and the one above it
-- is there only once.
abbrev pub Clear : (b c n : ℕ) → List Frame → Type 0
Clear b c n [] = Unit
Clear b c n (in_left q dir r ∷ up) =
    ((q ≢ b) × (q ≢ c) × (q ≢ n)) × Every (Away b c n q) r × EveryUp (Away b c n q) up
Clear b c n (in_right q dir l ∷ up) =
    ((q ≢ b) × (q ≢ c) × (q ≢ n)) × Every (Away b c n q) l × EveryUp (Away b c n q) up

module _ (s : Wm) (b c n : ℕ) where
  abbrev pub q : ℕ
  q = (s.nodes b).parent

  abbrev pub made : ℕ → Node
  made =
      update s.nodes c
        (record (s.nodes c) { is_leaf = 0; split_dir = s.next_split_mode; parent = q })

  -- The node above gets the container as a child.
  abbrev pub made_at : (Node → Node) → ℕ → ℕ → Node
  made_at change a = update made a (change (made a))

  abbrev pub to_left : Node → Node
  to_left x = record x { left = c }

  abbrev pub to_right : Node → Node
  to_right x = record x { right = c }

  pub put-root :
      not (q == 0) ≡ false
      → put_container b c n s ≡ record s { nodes = hang b c n made; root = c; focused_node = n }
  unfolding put_container
  put-root none_above = rw none_above refl

  pub put-left :
      not (q == 0) ≡ true
      → (made q).left == b ≡ true
      → put_container b c n s
        ≡ record s { nodes = hang b c n (made_at to_left q); focused_node = n }
  unfolding put_container replace_child
  put-left some_above is_left = rw (some_above, is_left) refl

  pub put-right :
      not (q == 0) ≡ true
      → (made q).left == b ≡ false
      → put_container b c n s
        ≡ record s { nodes = hang b c n (made_at to_right q); focused_node = n }
  unfolding put_container replace_child
  put-right some_above is_right = rw (some_above, is_right) refl

-- What put_container leaves as it is.
pub put_container-case :
    (P : Wm → Type 0) (s : Wm) (b c n : ℕ)
    → ((nodes : ℕ → Node) (root : ℕ)
        → P (record s { nodes = nodes; root = root; focused_node = n }))
    → P (put_container b c n s)
put_container-case P s b c n all = elim (Bool-cases (not (q s b c n == 0))) [
  | inr none_above ↦ subst P (sym (put-root s b c n none_above)) (all (hang b c n (made s b c n)) c)
  | inl some_above ↦ elim (Bool-cases ((made s b c n (q s b c n)).left == b)) [
    | inl is_left ↦
        subst P (sym (put-left s b c n some_above is_left))
          (all (hang b c n (made_at s b c n (to_left s b c n) (q s b c n))) s.root)
    | inr is_right ↦
        subst P (sym (put-right s b c n some_above is_right))
          (all (hang b c n (made_at s b c n (to_right s b c n) (q s b c n))) s.root)
  ]
]

module _ (f : ℕ → Node) (b c n v w p : ℕ) (dir : SplitDir) (bc : b ≢ c) (bn : b ≢ n) (cn : c ≢ n)
    (cz : c ≢ 0) (inner : (f c).is_leaf ≡ 0) (at : (f c).split_dir ≡ dir)
    (up : (f c).parent ≡ p) where
  pub hang-Linked :
      (r : ℕ)
      → Outer f b v r
      → Outer f n w 0
      → Linked (hang b c n f) p (split c dir (leaf b v) (leaf n w))
  hang-Linked r (bz, b_leaf, b_win, b_up) (nz, n_leaf, n_win, n_up) =
      let at_b = hang-b b c n f bc bn cn in
      let at_c = hang-c b c n f bc bn cn in
      let at_n = hang-n b c n f bc bn cn in
      (
        (
          cz,
          ap (λ (x : Node). x.is_leaf) at_c ∙ inner,
          ap (λ (x : Node). x.split_dir) at_c ∙ at,
          ap (λ (x : Node). x.left) at_c,
          ap (λ (x : Node). x.right) at_c,
          ap (λ (x : Node). x.parent) at_c ∙ up,
        ),
        (
          bz,
          ap (λ (x : Node). not (x.is_leaf == 0)) at_b ∙ b_leaf,
          ap (λ (x : Node). x.win) at_b ∙ b_win,
          ap (λ (x : Node). x.parent) at_b,
        ),
        (
          nz,
          ap (λ (x : Node). not (x.is_leaf == 0)) at_n ∙ n_leaf,
          ap (λ (x : Node). x.win) at_n ∙ n_win,
          ap (λ (x : Node). x.parent) at_n,
        ),
      )

pub Outer-same : (f g : ℕ → Node) (a win p : ℕ) → g a ≡ f a → Outer f a win p → Outer g a win p
Outer-same f g a win p eq (nz, is_leaf, at, parent) = (
  nz,
  ap (λ (n : Node). not (n.is_leaf == 0)) eq ∙ is_leaf,
  ap (λ (n : Node). n.win) eq ∙ at,
  ap (λ (n : Node). n.parent) eq ∙ parent,
)

-- The tree of the window manager: the root, and the nodes.
abbrev pub Rooted : Wm → Tree → Type 0
Rooted s t = (s.root ≡ address t) × Linked s.nodes 0 t

pub address-plug :
    (up : List Frame) (t t' : Tree)
    → address t ≡ address t'
    → address (plug up t) ≡ address (plug up t')
address-plug [] t t' eq = eq
address-plug (in_left a dir r ∷ up) t t' eq =
    address-plug up (split a dir t r) (split a dir t' r) refl
address-plug (in_right a dir l ∷ up) t t' eq =
    address-plug up (split a dir l t) (split a dir l t') refl
