-- ===== src/Tree/Traverse.antt =====
-- The traversal by `start` and `next`. The entries carry the flag `visited` of their nodes, and the
-- state is `current_traverse_point`; the trees are those of `rb_tree_insert`, whose flags are false.
pub mod Laws
use band_width_limiter.Base.{
  ℕ, zero, suc, Bool, true, false, not, Option, none, some, List, [], ◌∷◌,
}
use band_width_limiter.Tree.Shape.{Color, Tree, leaf, node, Frame, left_of, right_of, Pointer}
use band_width_limiter.Tree.Query.{leftmost}

module _ {ℓ} {E : Type ℓ} where
  -- `current_traverse_point->visited = true`
  unfoldable pub mark_visited : Pointer (Bool × E) → Pointer (Bool × E)
  mark_visited p = record p { entry = (true, p.entry.1) }

  -- `start`: in an empty tree it returns NULL.
  unfoldable pub start : Tree (Bool × E) → Option (Pointer (Bool × E))
  unfolding mark_visited leftmost
  start leaf = none
  start (node c l e r) = some (mark_visited (leftmost c l e r []))

  -- `while (current->visited) { if (current->parent == root) return NULL; current = current->parent; }`
  -- from the node with these fields, which is visited.
  unfoldable pub climb_visited :
      Tree (Bool × E) → List (Frame (Bool × E)) → Option (Pointer (Bool × E))
  climb_visited t [] = none
  climb_visited t (left_of c (true, e) r ∷ fs) = climb_visited (node c t (true, e) r) fs
  climb_visited t (left_of c (false, e) r ∷ fs) =
      some (record { color = c; left = t; entry = (false, e); right = r; above = fs })
  climb_visited t (right_of c l (true, e) ∷ fs) = climb_visited (node c l (true, e) t) fs
  climb_visited t (right_of c l (false, e) ∷ fs) =
      some (record { color = c; left = l; entry = (false, e); right = t; above = fs })

  unfoldable pub mark_found : Option (Pointer (Bool × E)) → Option (Pointer (Bool × E))
  unfolding mark_visited
  mark_found none = none
  mark_found (some p) = some (mark_visited p)

  -- The branches of `next` that do not go down to the right.
  unfoldable pub next_above :
      Color
      → Tree (Bool × E)
      → Bool × E
      → Tree (Bool × E)
      → List (Frame (Bool × E))
      → Option (Pointer (Bool × E))
  unfolding climb_visited mark_found
  next_above c l (true, e) r fs = mark_found (climb_visited (node c l (true, e) r) fs)
  next_above c l (false, e) r fs =
      some (record { color = c; left = l; entry = (true, e); right = r; above = fs })

  unfoldable pub next_of :
      Color
      → Tree (Bool × E)
      → Bool × E
      → Tree (Bool × E)
      → List (Frame (Bool × E))
      → Option (Pointer (Bool × E))
  unfolding next_above mark_visited leftmost
  next_of c l e leaf fs = next_above c l e leaf fs
  next_of c l e (node rc rl (true, re) rr) fs = next_above c l e (node rc rl (true, re) rr) fs
  next_of c l e (node rc rl (false, re) rr) fs =
      some (mark_visited (leftmost rc rl (false, re) rr (right_of c l e ∷ fs)))

  -- `next`: NULL is `none`.
  unfoldable pub next : Pointer (Bool × E) → Option (Pointer (Bool × E))
  unfolding next_of
  next p = next_of p.color p.left p.entry p.right p.above

  -- The loop `for (s = start(tree); s != NULL; s = next(tree))`: the entries it sees, or `none` if it
  -- takes more rounds than these.
  unfoldable pub walk : ℕ → Option (Pointer (Bool × E)) → Option (List E)
  walk zero p = none
  walk (suc fuel) none = some []
  walk (suc fuel) (some p) = elim (walk fuel (next p)) [
    | none ↦ none
    | some es ↦ some (p.entry.1 ∷ es)
  ]

  unfoldable pub traverse : ℕ → Tree (Bool × E) → Option (List E)
  unfolding start walk
  traverse fuel t = walk fuel (start t)
