-- ===== src/Wm/Pool/Links.antt =====
-- The tree as the nodes link it, and the place of a subtree in it.
use open_idp_os.Base.{ℕ, ◌≡◌, ◌≢◌, ◌∙◌, ap, true, not, ◌==◌, List, [], ◌∷◌}
use open_idp_os.Wm.{SplitDir, Node}
use open_idp_os.Wm.Layout.Tiling.{Tree, leaf, split, address}

-- A node with two children, and one with a window.
abbrev pub Inner : (ℕ → Node) → (a : ℕ) → SplitDir → (l r p : ℕ) → Type 0
Inner f a dir l r p =
    (a ≢ 0)
    × ((f a).is_leaf ≡ 0)
    × ((f a).split_dir ≡ dir)
    × ((f a).left ≡ l)
    × ((f a).right ≡ r)
    × ((f a).parent ≡ p)

abbrev pub Outer : (ℕ → Node) → (a win p : ℕ) → Type 0
Outer f a win p =
    (a ≢ 0) × (not ((f a).is_leaf == 0) ≡ true) × ((f a).win ≡ win) × ((f a).parent ≡ p)

-- The nodes are the tree, below the node p.
abbrev pub Linked : (ℕ → Node) → (p : ℕ) → Tree → Type 0
Linked f p (leaf a win) = Outer f a win p
Linked f p (split a dir l r) = Inner f a dir (address l) (address r) p × Linked f a l × Linked f a r

-- A step from a subtree up: the node above it and the subtree beside it.
pub data Frame : Type 0 where
  in_left : (a : ℕ) (dir : SplitDir) (r : Tree) → Frame
  in_right : (a : ℕ) (dir : SplitDir) (l : Tree) → Frame

-- The whole tree, from the steps up from a subtree.
abbrev pub plug : List Frame → Tree → Tree
plug [] t = t
plug (in_left a dir r ∷ up) t = plug up (split a dir t r)
plug (in_right a dir l ∷ up) t = plug up (split a dir l t)

abbrev pub above : List Frame → ℕ
above [] = 0
above (in_left a dir r ∷ up) = a
above (in_right a dir l ∷ up) = a

-- The nodes are the tree around a subtree that starts at `b`.
abbrev pub Around : (ℕ → Node) → List Frame → (b : ℕ) → Type 0
Around f [] b = Unit
Around f (in_left a dir r ∷ up) b =
    Inner f a dir b (address r) (above up) × Linked f a r × Around f up a
Around f (in_right a dir l ∷ up) b =
    Inner f a dir (address l) b (above up) × Linked f a l × Around f up a

pub plug-Linked :
    (f : ℕ → Node) (up : List Frame) (t : Tree)
    → Around f up (address t)
    → Linked f (above up) t
    → Linked f 0 (plug up t)
plug-Linked f [] t around linked = linked
plug-Linked f (in_left a dir r ∷ up) t (inner, right, around) linked =
    plug-Linked f up (split a dir t r) around (inner, linked, right)
plug-Linked f (in_right a dir l ∷ up) t (inner, left, around) linked =
    plug-Linked f up (split a dir l t) around (inner, left, linked)

-- What holds of every node of a tree, and of every node around a subtree.
abbrev pub Every : (ℕ → Type 0) → Tree → Type 0
Every P (leaf a win) = P a
Every P (split a dir l r) = P a × Every P l × Every P r

abbrev pub EveryUp : (ℕ → Type 0) → List Frame → Type 0
EveryUp P [] = Unit
EveryUp P (in_left a dir r ∷ up) = P a × Every P r × EveryUp P up
EveryUp P (in_right a dir l ∷ up) = P a × Every P l × EveryUp P up

pub Every-address : (P : ℕ → Type 0) (t : Tree) → Every P t → P (address t)
Every-address P (leaf a win) every = every
Every-address P (split a dir l r) every = every.0

-- What follows from two properties of a node follows where every node has both.
module _ (P Q R : ℕ → Type 0) (both : (x : ℕ) → P x → Q x → R x) where
  pub Every-both : (t : Tree) → Every P t → Every Q t → Every R t
  Every-both (leaf a win) p q = both a p q
  Every-both (split a dir l r) (p, pl, pr) (q, ql, qr) =
      (both a p q, Every-both l pl ql, Every-both r pr qr)

  pub EveryUp-both : (up : List Frame) → EveryUp P up → EveryUp Q up → EveryUp R up
  EveryUp-both [] p q = tt
  EveryUp-both (in_left a dir r ∷ up) (p, pr, pu) (q, qr, qu) =
      (both a p q, Every-both r pr qr, EveryUp-both up pu qu)
  EveryUp-both (in_right a dir l ∷ up) (p, pl, pu) (q, ql, qu) =
      (both a p q, Every-both l pl ql, EveryUp-both up pu qu)

module _ (f g : ℕ → Node) (P : ℕ → Type 0) (same : (x : ℕ) → P x → g x ≡ f x) where
  Inner-same :
      (a : ℕ) (dir : SplitDir) (l r p : ℕ) → P a → Inner f a dir l r p → Inner g a dir l r p
  Inner-same a dir l r p away (nz, inner, at, left, right, parent) =
      let eq = same a away in
      (
        nz,
        ap (λ (n : Node). n.is_leaf) eq ∙ inner,
        ap (λ (n : Node). n.split_dir) eq ∙ at,
        ap (λ (n : Node). n.left) eq ∙ left,
        ap (λ (n : Node). n.right) eq ∙ right,
        ap (λ (n : Node). n.parent) eq ∙ parent,
      )

  pub Linked-same : (p : ℕ) (t : Tree) → Every P t → Linked f p t → Linked g p t
  Linked-same p (leaf a win) away (nz, is_leaf, at, parent) =
      let eq = same a away in
      (
        nz,
        ap (λ (n : Node). not (n.is_leaf == 0)) eq ∙ is_leaf,
        ap (λ (n : Node). n.win) eq ∙ at,
        ap (λ (n : Node). n.parent) eq ∙ parent,
      )
  Linked-same p (split a dir l r) (away, al, ar) (inner, left, right) = (
    Inner-same a dir (address l) (address r) p away inner,
    Linked-same a l al left,
    Linked-same a r ar right,
  )

  pub Around-same : (up : List Frame) (b : ℕ) → EveryUp P up → Around f up b → Around g up b
  Around-same [] b away around = tt
  Around-same (in_left a dir r ∷ up) b (away, ar, au) (inner, right, around) = (
    Inner-same a dir b (address r) (above up) away inner,
    Linked-same a r ar right,
    Around-same up a au around,
  )
  Around-same (in_right a dir l ∷ up) b (away, al, au) (inner, left, around) = (
    Inner-same a dir (address l) b (above up) away inner,
    Linked-same a l al left,
    Around-same up a au around,
  )
