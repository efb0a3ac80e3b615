-- ===== src/Wm/Pool/Insert.antt =====
-- The insertion of a window puts a split with the new leaf in the place of a leaf.
use mathlib.Core.Path.{subst}
use open_idp_os.Base.{
  ℕ, ◌≡◌, ◌≢◌, ◌∙◌, sym, refl, ap, true, false, not, arith, ◌==◌, List, [], ◌∷◌, update_self,
  update_ne,
}
use open_idp_os.Wm.{Node, Wm}
use open_idp_os.Wm.Pool.{put_container}
use open_idp_os.Wm.Pool.Links.{
  Every-address, Outer, Linked, Frame, in_left, in_right, plug, above, Around, plug-Linked,
  Linked-same, Around-same,
}
use open_idp_os.Wm.Layout.Tiling.{leaf, split, address}
use open_idp_os.Wm.Pool.Hang.{
  hang, hang-else, made, made_at, to_left, to_right, put-root, put-left, put-right, hang-Linked, q,
  address-plug, Away, Clear, Rooted, Outer-same,
}

module _ (s : Wm) (b v c n w : ℕ) (bc : b ≢ c) (bn : b ≢ n) (cn : c ≢ n) (cz : c ≢ 0)
    (new : Outer s.nodes n w 0) where
  module _ (change : Node → Node) (a : ℕ) (ab : a ≢ b) (ac : a ≢ c) (an : a ≢ n) where
    final : ℕ → Node
    final = hang b c n (made_at s b c n change a)

    made-else : (x : ℕ) → x ≢ c → made s b c n x ≡ s.nodes x
    made-else x ne =
        update_ne s.nodes
          (record (s.nodes c) { is_leaf = 0; split_dir = s.next_split_mode; parent = q s b c n })
          (λ e. ne (sym e))

    at-else : (x : ℕ) → x ≢ a → made_at s b c n change a x ≡ made s b c n x
    at-else x ne = update_ne (made s b c n) (change (made s b c n a)) (λ e. ne (sym e))

    final-else : (x : ℕ) → Away b c n a x → final x ≡ s.nodes x
    unfolding final
    final-else x (xb, xc, xn, xa) =
        hang-else b c n (made_at s b c n change a) bc bn cn x xb xc xn
        ∙ at-else x xa
        ∙ made-else x xc

    final-above : final a ≡ change (s.nodes a)
    unfolding final
    final-above =
        hang-else b c n (made_at s b c n change a) bc bn cn a ab ac an
        ∙ update_self (made s b c n) a (change (made s b c n a))
        ∙ ap change (made-else a ac)

    final-hang : final ≡ hang b c n (made_at s b c n change a)
    unfolding final
    final-hang = refl

    final-Linked :
        Outer s.nodes b v a → Linked final a (split c s.next_split_mode (leaf b v) (leaf n w))
    unfolding final
    final-Linked old =
        let k = made_at s b c n change a in
        let at_c =
          at-else c (λ e. ac (sym e))
          ∙ update_self s.nodes c (record (s.nodes c) {
            is_leaf = 0;
            split_dir = s.next_split_mode;
            parent = q s b c n;
          }) in
        hang-Linked k b c n v w a s.next_split_mode bc bn cn cz (ap (λ (x : Node). x.is_leaf) at_c)
          (ap (λ (x : Node). x.split_dir) at_c) (ap (λ (x : Node). x.parent) at_c ∙ old.3) a
          (Outer-same s.nodes k b v a (at-else b (λ e. ab (sym e)) ∙ made-else b bc) old)
          (Outer-same s.nodes k n w 0 (at-else n (λ e. an (sym e)) ∙ made-else n (λ e. cn (sym e)))
            new)

  pub put_container-Rooted :
      (up : List Frame)
      → s.root ≡ address (plug up (leaf b v))
      → Around s.nodes up b
      → Outer s.nodes b v (above up)
      → Clear b c n up
      → Rooted (put_container b c n s) (plug up (split c s.next_split_mode (leaf b v) (leaf n w)))
  put_container-Rooted [] root around (bz, b_leaf, b_win, b_up) clear =
      let none_above : not (q s b c n == 0) ≡ false = ap (λ x. not (x == 0)) b_up in
      let g = made s b c n in
      let same = λ (x : ℕ) (ne : c ≢ x).
        update_ne s.nodes
          (record (s.nodes c) { is_leaf = 0; split_dir = s.next_split_mode; parent = q s b c n })
          ne in
      let at_c =
        update_self s.nodes c
          (record (s.nodes c) { is_leaf = 0; split_dir = s.next_split_mode; parent = q s b c n }) in
      subst (λ s'. Rooted s' (split c s.next_split_mode (leaf b v) (leaf n w)))
        (sym (put-root s b c n none_above))
        (
          refl,
          hang-Linked g b c n v w 0 s.next_split_mode bc bn cn cz
              (ap (λ (x : Node). x.is_leaf) at_c) (ap (λ (x : Node). x.split_dir) at_c)
              (ap (λ (x : Node). x.parent) at_c ∙ b_up) 0
              (Outer-same s.nodes g b v 0 (same b (λ e. bc (sym e))) (bz, b_leaf, b_win, b_up))
              (Outer-same s.nodes g n w 0 (same n cn) new),
        )
  put_container-Rooted (in_left a dir r ∷ up) root
        ((az, a_in, a_dir, a_left, a_right, a_up), right, around) old
        ((ab, ac, an), clear_r, clear_up) =
      let some_above : not (q s b c n == 0) ≡ true = ap (λ x. not (x == 0)) old.3 ∙ ground arith in
      let g = final (to_left s b c n) a ab ac an in
      let at_a = final-above (to_left s b c n) a ab ac an in
      let same = final-else (to_left s b c n) a ab ac an in
      let goes_left : (made s b c n (q s b c n)).left == b ≡ true =
        ap (λ x. (made s b c n x).left == b) old.3
        ∙ ap (λ (x : Node). x.left == b) (made-else (to_left s b c n) a ab ac an a ac)
        ∙ ground (arith, a_left) in
      subst
        (λ s'.
          Rooted s' (plug up (split a dir (split c s.next_split_mode (leaf b v) (leaf n w)) r)))
        (sym (
          put-left s b c n some_above goes_left
          ∙ ap
              (λ x. record s {
                nodes = hang b c n (made_at s b c n (to_left s b c n) x);
                focused_node = n;
              })
              old.3))
        (
          root
              ∙ address-plug up (split a dir (leaf b v) r)
                  (split a dir (split c s.next_split_mode (leaf b v) (leaf n w)) r) refl,
          subst
              (λ k.
                Linked k 0
                  (plug up (split a dir (split c s.next_split_mode (leaf b v) (leaf n w)) r)))
              (final-hang (to_left s b c n) a ab ac an)
              (plug-Linked g up (split a dir (split c s.next_split_mode (leaf b v) (leaf n w)) r)
                (Around-same s.nodes g (Away b c n a) same up a clear_up around)
                (
                  (
                    az,
                    ap (λ (x : Node). x.is_leaf) at_a ∙ a_in,
                    ap (λ (x : Node). x.split_dir) at_a ∙ a_dir,
                    ap (λ (x : Node). x.left) at_a,
                    ap (λ (x : Node). x.right) at_a ∙ a_right,
                    ap (λ (x : Node). x.parent) at_a ∙ a_up,
                  ),
                  final-Linked (to_left s b c n) a ab ac an old,
                  Linked-same s.nodes g (Away b c n a) same a r clear_r right,
                )),
        )
  put_container-Rooted (in_right a dir l ∷ up) root
        ((az, a_in, a_dir, a_left, a_right, a_up), below, around) old
        ((ab, ac, an), clear_l, clear_up) =
      let some_above : not (q s b c n == 0) ≡ true = ap (λ x. not (x == 0)) old.3 ∙ ground arith in
      let g = final (to_right s b c n) a ab ac an in
      let at_a = final-above (to_right s b c n) a ab ac an in
      let same = final-else (to_right s b c n) a ab ac an in
      let goes_right : (made s b c n (q s b c n)).left == b ≡ false =
        ap (λ x. (made s b c n x).left == b) old.3
        ∙ ap (λ (x : Node). x.left == b) (made-else (to_right s b c n) a ab ac an a ac)
        ∙ ground (arith, a_left, (Every-address (Away b c n a) l clear_l).0) in
      subst
        (λ s'.
          Rooted s' (plug up (split a dir l (split c s.next_split_mode (leaf b v) (leaf n w)))))
        (sym (
          put-right s b c n some_above goes_right
          ∙ ap
              (λ x. record s {
                nodes = hang b c n (made_at s b c n (to_right s b c n) x);
                focused_node = n;
              })
              old.3))
        (
          root
              ∙ address-plug up (split a dir l (leaf b v))
                  (split a dir l (split c s.next_split_mode (leaf b v) (leaf n w))) refl,
          subst
              (λ k.
                Linked k 0
                  (plug up (split a dir l (split c s.next_split_mode (leaf b v) (leaf n w)))))
              (final-hang (to_right s b c n) a ab ac an)
              (plug-Linked g up (split a dir l (split c s.next_split_mode (leaf b v) (leaf n w)))
                (Around-same s.nodes g (Away b c n a) same up a clear_up around)
                (
                  (
                    az,
                    ap (λ (x : Node). x.is_leaf) at_a ∙ a_in,
                    ap (λ (x : Node). x.split_dir) at_a ∙ a_dir,
                    ap (λ (x : Node). x.left) at_a ∙ a_left,
                    ap (λ (x : Node). x.right) at_a,
                    ap (λ (x : Node). x.parent) at_a ∙ a_up,
                  ),
                  Linked-same s.nodes g (Away b c n a) same a l clear_l below,
                  final-Linked (to_right s b c n) a ab ac an old,
                )),
        )
