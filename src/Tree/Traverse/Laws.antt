-- ===== src/Tree/Traverse/Laws.antt =====
-- The first traversal of a tree goes along `tree_successor`, and so sees every entry once, in order.
use band_width_limiter.Base.{
  ℕ, zero, suc, ◌<◌, ◌≡◌, refl, sym, ap, ◌∙◌, Bool, true, false, Option, none, some, List, [], ◌∷◌,
  map, arith,
}
use band_width_limiter.Tree.Shape.{
  Color, Tree, leaf, node, Frame, left_of, right_of, Pointer, plug, whole, inorder, map_tree,
}
use band_width_limiter.Tree.Query.{leftmost, climb_right, successor_of, tree_successor}
use band_width_limiter.Tree.Query.Neighbour.{
  behind, after_entry, IsNext, tree_successor-IsNext, leftmost-IsNext,
}
use band_width_limiter.Tree.Traverse.{
  mark_visited, start, climb_visited, mark_found, next_above, next_of, next, walk, traverse,
}

module _ {ℓ} {E : Type ℓ} where
  -- A tree whose nodes all have the one flag.
  abbrev pub flagged : Bool → Tree E → Tree (Bool × E)
  flagged b t = map_tree (λ e. (b, e)) t

  -- The flags on the way down: what is to the left was visited, what is to the right was not.
  abbrev staged : Frame E → Frame (Bool × E)
  staged (left_of c e r) = left_of c (false, e) (flagged false r)
  staged (right_of c l e) = right_of c (flagged true l) (true, e)

  -- A pointer in a traversal that has come to it.
  abbrev reached : Pointer E → Pointer (Bool × E)
  reached p = record {
    color = p.color;
    left = flagged true p.left;
    entry = (true, p.entry);
    right = flagged false p.right;
    above = map staged p.above;
  }

  abbrev reached_next : Option (Pointer E) → Option (Pointer (Bool × E))
  reached_next none = none
  reached_next (some p) = some (reached p)

  leftmost-reached :
      (c : Color) (l : Tree E) (e : E) (r : Tree E) (fs : List (Frame E))
      → mark_visited (leftmost c (flagged false l) (false, e) (flagged false r) (map staged fs))
        ≡ reached (leftmost c l e r fs)
  unfolding leftmost mark_visited map_tree
  leftmost-reached c leaf e r fs = refl
  leftmost-reached c (node lc ll le lr) e r fs = leftmost-reached lc ll le lr (left_of c e r ∷ fs)

  climb_reached :
      (t : Tree E) (fs : List (Frame E))
      → mark_found (climb_visited (flagged true t) (map staged fs))
        ≡ reached_next (climb_right t fs)
  unfolding climb_visited mark_found mark_visited climb_right map_tree
  climb_reached t [] = refl
  climb_reached t (left_of c e r ∷ fs) = refl
  climb_reached t (right_of c l e ∷ fs) = climb_reached (node c l e t) fs

  next_of_reached :
      (c : Color) (l : Tree E) (e : E) (r : Tree E) (fs : List (Frame E))
      → next_of c (flagged true l) (true, e) (flagged false r) (map staged fs)
        ≡ reached_next (successor_of c l e r fs)
  unfolding next_of next_above successor_of map_tree
  next_of_reached c l e leaf fs = climb_reached (node c l e leaf) fs
  next_of_reached c l e (node rc rl re rr) fs =
      ap some (leftmost-reached rc rl re rr (right_of c l e ∷ fs))

  next_reached : (p : Pointer E) → next (reached p) ≡ reached_next (tree_successor p)
  unfolding next tree_successor
  next_reached p = next_of_reached p.color p.left p.entry p.right p.above

  abbrev pub count : List E → ℕ
  count [] = 0
  count (x ∷ xs) = suc (count xs)

  walk_next :
      (fuel : ℕ) (t : Tree E) (xs : List E) (o : Option (Pointer E))
      → IsNext t xs o
      → count xs < fuel
      → walk fuel (reached_next o) ≡ some xs
  unfolding walk
  walk_next zero t xs o h le = absurd (omega (arith, le))
  walk_next (suc fuel) t xs none h le = ap some (sym h)
  walk_next (suc fuel) t xs (some s) h le =
      let shorter : count xs ≡ suc (count (after_entry s)) = ap count h.1 in
      let rest : walk fuel (next (reached s)) ≡ some (after_entry s) =
        ap (walk fuel) (next_reached s)
        ∙ walk_next fuel (whole s) (after_entry s) (tree_successor s) (tree_successor-IsNext s)
            (omega (arith, shorter, le)) in
      rw (rest) (ap some (sym h.1))

  -- The loop over `start` and `next` on a tree whose nodes were not visited sees the sequence of
  -- entries: every entry once, from left to right. Rounds more than entries are enough.
  pub traverse-inorder :
      (t : Tree E) (fuel : ℕ)
      → count (inorder t) < fuel
      → traverse fuel (flagged false t) ≡ some (inorder t)
  unfolding traverse start map_tree inorder behind plug
  traverse-inorder leaf fuel le = walk_next fuel leaf [] none refl le
  traverse-inorder (node c l e r) fuel le =
      ap (λ p. walk fuel (some p)) (leftmost-reached c l e r [])
      ∙ walk_next fuel (node c l e r) (inorder (node c l e r)) (some (leftmost c l e r []))
          (leftmost-IsNext c l e r []) le
