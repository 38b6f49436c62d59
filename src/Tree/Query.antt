-- ===== src/Tree/Query.antt =====
-- The walks of red_black_tree.c that change nothing: `rb_exact_query`, `tree_successor` and
-- `tree_predecessor`.
pub mod Laws
pub mod Neighbour
use Prim.Native.Nat.Ordering.{lt, eq, gt}
use band_width_limiter.Base.{Option, none, some, List, [], ◌∷◌}
use band_width_limiter.Tree.Order.{Ord}
use band_width_limiter.Tree.Shape.{Color, Tree, leaf, node, Frame, left_of, right_of, Pointer}

module _ {ℓ κ} {K : Type ℓ} {V : Type κ} ⦃o : Ord K⦄ where
  -- The loop of `rb_exact_query` at a subtree, with the frames passed on the way down.
  unfoldable pub query_from : Tree (K × V) → K → List (Frame (K × V)) → Option (Pointer (K × V))
  query_from leaf q fs = none
  query_from (node c l e r) q fs = elim (o.cmp e.0 q) [
    | eq ↦ some (record { color = c; left = l; entry = e; right = r; above = fs })
    | gt ↦ query_from l q (left_of c e r ∷ fs)
    | lt ↦ query_from r q (right_of c l e ∷ fs)
  ]

  unfoldable pub rb_exact_query : Tree (K × V) → K → Option (Pointer (K × V))
  unfolding query_from
  rb_exact_query t q = query_from t q []

module _ {ℓ} {E : Type ℓ} where
  -- `while (y->left != nil) y = y->left;` from the fields of a node.
  unfoldable pub leftmost : Color → Tree E → E → Tree E → List (Frame E) → Pointer E
  leftmost c leaf e r fs = record { color = c; left = leaf; entry = e; right = r; above = fs }
  leftmost c (node lc ll le lr) e r fs = leftmost lc ll le lr (left_of c e r ∷ fs)

  unfoldable pub rightmost : Color → Tree E → E → Tree E → List (Frame E) → Pointer E
  rightmost c l e leaf fs = record { color = c; left = l; entry = e; right = leaf; above = fs }
  rightmost c l e (node rc rl re rr) fs = rightmost rc rl re rr (right_of c l e ∷ fs)

  -- `while (x == y->right) { x = y; y = y->parent; }`, where the subtree `t` is that of `x`. The
  -- sentinel `root` has its tree on the left, so the loop stops there, and then `nil` is returned.
  unfoldable pub climb_right : Tree E → List (Frame E) → Option (Pointer E)
  climb_right t [] = none
  climb_right t (left_of c e r ∷ fs) =
      some (record { color = c; left = t; entry = e; right = r; above = fs })
  climb_right t (right_of c l e ∷ fs) = climb_right (node c l e t) fs

  -- `while (x == y->left) { if (y == root) return nil; x = y; y = y->parent; }`
  unfoldable pub climb_left : Tree E → List (Frame E) → Option (Pointer E)
  climb_left t [] = none
  climb_left t (right_of c l e ∷ fs) =
      some (record { color = c; left = l; entry = e; right = t; above = fs })
  climb_left t (left_of c e r ∷ fs) = climb_left (node c t e r) fs

  -- `tree_successor` of the node with these fields; `none` is the sentinel `nil`.
  unfoldable pub successor_of : Color → Tree E → E → Tree E → List (Frame E) → Option (Pointer E)
  unfolding leftmost climb_right
  successor_of c l e (node rc rl re rr) fs = some (leftmost rc rl re rr (right_of c l e ∷ fs))
  successor_of c l e leaf fs = climb_right (node c l e leaf) fs

  unfoldable pub tree_successor : Pointer E → Option (Pointer E)
  unfolding successor_of
  tree_successor p = successor_of p.color p.left p.entry p.right p.above

  unfoldable predecessor_of : Color → Tree E → E → Tree E → List (Frame E) → Option (Pointer E)
  unfolding rightmost climb_left
  predecessor_of c (node lc ll le lr) e r fs = some (rightmost lc ll le lr (left_of c e r ∷ fs))
  predecessor_of c leaf e r fs = climb_left (node c leaf e r) fs

  unfoldable pub tree_predecessor : Pointer E → Option (Pointer E)
  unfolding predecessor_of
  tree_predecessor p = predecessor_of p.color p.left p.entry p.right p.above
