-- ===== src/Tree/Insert.antt =====
-- `tree_insert_help` and `rb_tree_insert` of red_black_tree.c.
pub mod Content
pub mod Balance
use Prim.Native.Nat.Ordering.{lt, eq, gt}
use band_width_limiter.Base.{Option, none, some, List, [], ◌∷◌, ◌>>=◌}
use band_width_limiter.Tree.Order.{Ord}
use band_width_limiter.Tree.Shape.{
  red, black, Tree, leaf, node, Frame, left_of, right_of, blacken, plug, left_rotate, right_rotate,
}

module _ {ℓ} {E : Type ℓ} where
  -- The rest of the loop body when the uncle `y` is black. `x` is the left child of its red parent,
  -- which has the entry `pe` and the right subtree `ps`; the parent is the left child of the
  -- grandparent, with the entry `ge`. The loop ends, since the new parent of `x` is black.
  unfoldable pub lift_left : Tree E → E → Tree E → E → Tree E → Option (Tree E)
  unfolding right_rotate
  lift_left x pe ps ge y = right_rotate (node red (node black x pe ps) ge y)

  unfoldable pub lift_right : Tree E → E → Tree E → E → Tree E → Option (Tree E)
  unfolding left_rotate
  lift_right y ge ps pe x = left_rotate (node red y ge (node black ps pe x))

  -- `x` is the right child of a left child: rotate the parent first, then paint the new parent.
  unfoldable pub lift_inner_left : Tree E → E → Tree E → E → Tree E → Option (Tree E)
  unfolding left_rotate right_rotate
  lift_inner_left ps pe x ge y = do
    p ← left_rotate (node red ps pe x)
    right_rotate (node red (blacken p) ge y)

  unfoldable pub lift_inner_right : Tree E → E → Tree E → E → Tree E → Option (Tree E)
  unfolding left_rotate right_rotate
  lift_inner_right y ge x pe ps = do
    p ← right_rotate (node red x pe ps)
    left_rotate (node red y ge (blacken p))

  -- The end of `rb_tree_insert`: `tree->root->left->red = 0`.
  unfoldable pub finish : List (Frame E) → Tree E → Option (Tree E)
  unfolding plug
  finish fs t = some (blacken (plug t fs))

  -- The loop `while (x->parent->red)`, with `x` the red node at the top of the first argument. The
  -- fault `none` is a red parent that is the root, where the code would rotate the sentinel `root`.
  unfoldable pub insert_fix_up : Tree E → List (Frame E) → Option (Tree E)
  unfolding finish lift_left lift_right lift_inner_left lift_inner_right
  insert_fix_up x [] = finish [] x
  insert_fix_up x (left_of black pe ps ∷ fs) = finish (left_of black pe ps ∷ fs) x
  insert_fix_up x (right_of black ps pe ∷ fs) = finish (right_of black ps pe ∷ fs) x
  insert_fix_up x (left_of red pe ps ∷ []) = none
  insert_fix_up x (right_of red ps pe ∷ []) = none
  insert_fix_up x (left_of red pe ps ∷ left_of gc ge (node red yl ye yr) ∷ fs) =
      insert_fix_up (node red (node black x pe ps) ge (node black yl ye yr)) fs
  insert_fix_up x (right_of red ps pe ∷ left_of gc ge (node red yl ye yr) ∷ fs) =
      insert_fix_up (node red (node black ps pe x) ge (node black yl ye yr)) fs
  insert_fix_up x (left_of red pe ps ∷ right_of gc (node red yl ye yr) ge ∷ fs) =
      insert_fix_up (node red (node black yl ye yr) ge (node black x pe ps)) fs
  insert_fix_up x (right_of red ps pe ∷ right_of gc (node red yl ye yr) ge ∷ fs) =
      insert_fix_up (node red (node black yl ye yr) ge (node black ps pe x)) fs
  insert_fix_up x (left_of red pe ps ∷ left_of gc ge y ∷ fs) = lift_left x pe ps ge y >>= finish fs
  insert_fix_up x (right_of red ps pe ∷ left_of gc ge y ∷ fs) =
      lift_inner_left ps pe x ge y >>= finish fs
  insert_fix_up x (left_of red pe ps ∷ right_of gc y ge ∷ fs) =
      lift_inner_right y ge x pe ps >>= finish fs
  insert_fix_up x (right_of red ps pe ∷ right_of gc y ge ∷ fs) =
      lift_right y ge ps pe x >>= finish fs

module _ {ℓ κ} {K : Type ℓ} {V : Type κ} ⦃o : Ord K⦄ where
  -- The loop of `tree_insert_help`: the frames above the place where the key goes. An equal key
  -- sends it to the right. The comparison after the loop repeats the last one of the loop, whose
  -- outcome is the kind of the first frame.
  unfoldable pub descend : K → Tree (K × V) → List (Frame (K × V)) → List (Frame (K × V))
  descend k leaf fs = fs
  descend k (node c l e r) fs = elim (o.cmp e.0 k) [
    | gt ↦ descend k l (left_of c e r ∷ fs)
    | _ ↦ descend k r (right_of c l e ∷ fs)
  ]

  unfoldable pub rb_tree_insert : Tree (K × V) → K → V → Option (Tree (K × V))
  unfolding descend insert_fix_up
  rb_tree_insert t k v = insert_fix_up (node red leaf (k, v) leaf) (descend k t [])
