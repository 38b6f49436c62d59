-- ===== src/Tree/Delete.antt =====
-- `rb_delete_fix_up` and `rb_delete` of red_black_tree.c.
pub mod Content
pub mod Balance
use band_width_limiter.Base.{
  Bool, true, false, Option, none, some, List, [], ◌∷◌, map, ◌&&◌, ◌>>=◌, if◌then◌else◌,
}
use band_width_limiter.Tree.Shape.{
  Color, red, black, Tree, leaf, node, Frame, left_of, right_of, Pointer, is_black, blacken, plug,
  left_rotate, right_rotate, map_tree, map_frame,
}
use band_width_limiter.Tree.Query.{tree_successor}

-- One round of the loop either moves `x` to its parent, whose subtree is now this one, or ends with
-- `x = root`, with this subtree in the place of the parent's.
pub data Round {ℓ} (E : Type ℓ) : Type ℓ where
  up : Tree E → Round E
  done : Tree E → Round E

module _ {ℓ} {E : Type ℓ} where
  -- `w->red = x->parent->red; w->right->red = 0;`
  unfoldable paint_right : Color → Tree E → Tree E
  paint_right c leaf = leaf
  paint_right c (node d a b r) = node c a b (blacken r)

  unfoldable paint_left : Color → Tree E → Tree E
  paint_left c leaf = leaf
  paint_left c (node d l a b) = node c (blacken l) a b

  -- The second half of the loop body for a left child `x`, under a parent with the colour `c` and
  -- the entry `pe`, beside the sibling `w`. The fault `none` is a sibling that is `nil`, which the
  -- code would paint.
  unfoldable pub repair_left : Tree E → Color → E → Tree E → Option (Round E)
  unfolding left_rotate right_rotate paint_right
  repair_left x c pe leaf = none
  repair_left x c pe (node wc wl we wr) =
      if is_black wr && is_black wl then some (up (node c x pe (node red wl we wr))) else do
        w ←
            if is_black wr
            then right_rotate (node red (blacken wl) we wr)
            else some (node wc wl we wr)
        t ← left_rotate (node black x pe (paint_right c w))
        some (done t)

  unfoldable pub repair_right : Tree E → Color → E → Tree E → Option (Round E)
  unfolding left_rotate right_rotate paint_left
  repair_right x c pe leaf = none
  repair_right x c pe (node wc wl we wr) =
      if is_black wr && is_black wl then some (up (node c (node red wl we wr) pe x)) else do
        w ←
            if is_black wl
            then left_rotate (node red wl we (blacken wr))
            else some (node wc wl we wr)
        t ← right_rotate (node black (paint_left c w) pe x)
        some (done t)

  -- The end of the loop by `x = root` and `x->red = 0`, where `root` is the root at the start. If
  -- the parent in the last round was that root (no frames above it), it was painted black and
  -- rotated down in this round, and nothing changes; otherwise it still is the root.
  unfoldable pub settle : List (Frame E) → Tree E → Tree E
  settle [] t = t
  settle (f ∷ fs) t = blacken t

  -- The rest of a round whose sibling was red: the parent is red now, and one frame `f` further
  -- down; the loop test ends the loop at a red `x`, which is painted black.
  unfoldable pub after_red : Frame E → List (Frame E) → Round E → Tree E
  unfolding plug settle
  after_red f fs (up t) = plug (blacken t) (f ∷ fs)
  after_red f fs (done t) = settle fs (plug t (f ∷ fs))

  -- The loop `while ((!x->red) && (root != x))` and the line after it.
  unfoldable pub rb_delete_fix_up : Tree E → List (Frame E) → Option (Tree E)
  unfolding plug settle after_red repair_left repair_right
  rb_delete_fix_up x [] = some (blacken x)
  rb_delete_fix_up (node red l e r) (f ∷ fs) = some (plug (node black l e r) (f ∷ fs))
  rb_delete_fix_up x (left_of c pe (node red wl we wr) ∷ fs) = do
    r ← repair_left x red pe wl
    some (after_red (left_of black we wr) fs r)
  rb_delete_fix_up x (right_of c (node red wl we wr) pe ∷ fs) = do
    r ← repair_right x red pe wr
    some (after_red (right_of black wl we) fs r)
  rb_delete_fix_up x (left_of c pe w ∷ fs) =
      let next = λ (t : Tree E). rb_delete_fix_up t fs in
      repair_left x c pe w >>= λ r. elim r [ up t ↦ next t | done t ↦ some (settle fs (plug t fs)) ]
  rb_delete_fix_up x (right_of c w pe ∷ fs) =
      let next = λ (t : Tree E). rb_delete_fix_up t fs in
      repair_right x c pe w >>= λ r. elim r [
        | up t ↦ next t
        | done t ↦ some (settle fs (plug t fs))
      ]

  -- Taking out a node `y` with at most one child: link the child in its place, and mend the colours
  -- if `y` was black.
  unfoldable pub splice_out : Color → Tree E → Tree E → List (Frame E) → Option (Tree E)
  unfolding plug rb_delete_fix_up
  splice_out red leaf r fs = some (plug r fs)
  splice_out red l r fs = some (plug l fs)
  splice_out black leaf r fs = rb_delete_fix_up r fs
  splice_out black l r fs = rb_delete_fix_up l fs

  -- While the successor `y` is taken out, `z` stands in the tree and is told apart by this mark; then
  -- `y` takes the place and the colour of `z`.
  unfoldable pub mark : E → Bool × E
  mark e = (false, e)

  unfoldable pub take_place : E → Bool × E → E
  take_place y (true, e) = y
  take_place y (false, e) = e

module _ {ℓ} {E : Type ℓ} where
  -- `rb_delete`, by the fields of the node `z`.
  unfoldable pub delete_at : Color → Tree E → E → Tree E → List (Frame E) → Option (Tree E)
  unfolding splice_out mark take_place map_tree map_frame tree_successor
  delete_at c leaf e r fs = splice_out c leaf r fs
  delete_at c l e leaf fs = splice_out c l leaf fs
  delete_at c l e r fs = do
    y ← tree_successor (record {
      color = c;
      left = map_tree mark l;
      entry = (true, e);
      right = map_tree mark r;
      above = map (map_frame mark) fs;
    })
    t ← splice_out y.color y.left y.right y.above
    some (map_tree (take_place y.entry.1) t)

  unfoldable pub rb_delete : Pointer E → Option (Tree E)
  unfolding delete_at
  rb_delete z = delete_at z.color z.left z.entry z.right z.above
