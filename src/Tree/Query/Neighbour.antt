-- ===== src/Tree/Query/Neighbour.antt =====
-- `tree_successor` and `tree_predecessor` against the sequence of entries.
use band_width_limiter.Base.{
  ◌≡◌, refl, ap, ◌∙◌, Option, none, some, List, [], ◌∷◌, ◌++◌, append_assoc,
}
use band_width_limiter.Tree.Shape.{
  Color, Tree, leaf, node, Frame, left_of, right_of, Pointer, plug, whole, inorder,
}
use band_width_limiter.Tree.Query.{
  leftmost, rightmost, climb_right, climb_left, tree_successor, tree_predecessor,
}

module _ {ℓ} {E : Type ℓ} where
  -- What the frames put behind, and before, the entries of the subtree below them.
  unfoldable pub behind : List (Frame E) → List E → List E
  behind [] xs = xs
  behind (left_of c e r ∷ fs) xs = behind fs (xs ++ (e ∷ inorder r))
  behind (right_of c l e ∷ fs) xs = behind fs xs

  unfoldable pub before : List (Frame E) → List E → List E
  before [] xs = xs
  before (left_of c e r ∷ fs) xs = before fs xs
  before (right_of c l e ∷ fs) xs = before fs (inorder l ++ (e ∷ xs))

  -- The entries of the tree behind the one at a pointer, and before it.
  abbrev pub after_entry : Pointer E → List E
  after_entry p = behind p.above (inorder p.right)

  abbrev before_entry : Pointer E → List E
  before_entry p = before p.above (inorder p.left)

  behind-cons : (fs : List (Frame E)) (e : E) (xs : List E) → behind fs (e ∷ xs) ≡ e ∷ behind fs xs
  unfolding behind
  behind-cons [] e xs = refl
  behind-cons (left_of c d r ∷ fs) e xs = behind-cons fs e (xs ++ (d ∷ inorder r))
  behind-cons (right_of c l d ∷ fs) e xs = behind-cons fs e xs

  before-snoc :
      (fs : List (Frame E)) (xs : List E) (e : E)
      → before fs (xs ++ (e ∷ [])) ≡ before fs xs ++ (e ∷ [])
  unfolding before
  before-snoc [] xs e = refl
  before-snoc (left_of c d r ∷ fs) xs e = before-snoc fs xs e
  before-snoc (right_of c l d ∷ fs) xs e =
      ap (before fs) (simp append_assoc) ∙ before-snoc fs (inorder l ++ (d ∷ xs)) e

  -- `s` points into the tree `t`, and `xs` are its entry and those behind it.
  abbrev pub IsNext : Tree E → List E → Option (Pointer E) → Type ℓ
  IsNext t xs none = xs ≡ []
  IsNext t xs (some s) = (whole s ≡ t) × (xs ≡ s.entry ∷ after_entry s)

  abbrev IsPrevious : Tree E → List E → Option (Pointer E) → Type ℓ
  IsPrevious t xs none = xs ≡ []
  IsPrevious t xs (some s) = (whole s ≡ t) × (xs ≡ before_entry s ++ (s.entry ∷ []))

  pub leftmost-IsNext :
      (c : Color) (l : Tree E) (e : E) (r : Tree E) (fs : List (Frame E))
      → IsNext
          (plug (node c l e r) fs)
          (behind fs (inorder l ++ (e ∷ inorder r)))
          (some (leftmost c l e r fs))
  unfolding leftmost whole inorder behind plug
  leftmost-IsNext c leaf e r fs = (refl, behind-cons fs e (inorder r))
  leftmost-IsNext c (node lc ll le lr) e r fs = leftmost-IsNext lc ll le lr (left_of c e r ∷ fs)

  rightmost-IsPrevious :
      (c : Color) (l : Tree E) (e : E) (r : Tree E) (fs : List (Frame E))
      → IsPrevious
          (plug (node c l e r) fs)
          (before fs (inorder l ++ (e ∷ inorder r)))
          (some (rightmost c l e r fs))
  unfolding rightmost whole inorder before plug
  rightmost-IsPrevious c l e leaf fs = (refl, before-snoc fs (inorder l) e)
  rightmost-IsPrevious c l e (node rc rl re rr) fs =
      rightmost-IsPrevious rc rl re rr (right_of c l e ∷ fs)

  climb_right-IsNext :
      (t : Tree E) (fs : List (Frame E)) → IsNext (plug t fs) (behind fs []) (climb_right t fs)
  unfolding climb_right whole behind plug
  climb_right-IsNext t [] = refl
  climb_right-IsNext t (left_of c e r ∷ fs) = (refl, behind-cons fs e (inorder r))
  climb_right-IsNext t (right_of c l e ∷ fs) = climb_right-IsNext (node c l e t) fs

  climb_left-IsPrevious :
      (t : Tree E) (fs : List (Frame E)) → IsPrevious (plug t fs) (before fs []) (climb_left t fs)
  unfolding climb_left whole before plug
  climb_left-IsPrevious t [] = refl
  climb_left-IsPrevious t (right_of c l e ∷ fs) = (refl, before-snoc fs (inorder l) e)
  climb_left-IsPrevious t (left_of c e r ∷ fs) = climb_left-IsPrevious (node c t e r) fs

  successor_of-IsNext :
      (c : Color) (l : Tree E) (e : E) (r : Tree E) (fs : List (Frame E))
      → IsNext
          (plug (node c l e r) fs)
          (behind fs (inorder r))
          (tree_successor (record { color = c; left = l; entry = e; right = r; above = fs }))
  unfolding tree_successor behind inorder plug
  successor_of-IsNext c l e leaf fs = climb_right-IsNext (node c l e leaf) fs
  successor_of-IsNext c l e (node rc rl re rr) fs =
      leftmost-IsNext rc rl re rr (right_of c l e ∷ fs)

  predecessor_of-IsPrevious :
      (c : Color) (l : Tree E) (e : E) (r : Tree E) (fs : List (Frame E))
      → IsPrevious
          (plug (node c l e r) fs)
          (before fs (inorder l))
          (tree_predecessor (record { color = c; left = l; entry = e; right = r; above = fs }))
  unfolding tree_predecessor before inorder plug
  predecessor_of-IsPrevious c leaf e r fs = climb_left-IsPrevious (node c leaf e r) fs
  predecessor_of-IsPrevious c (node lc ll le lr) e r fs =
      rightmost-IsPrevious lc ll le lr (left_of c e r ∷ fs)

  -- `tree_successor` points into the same tree, at the entry that comes next in the sequence of
  -- entries; it returns `nil` only at the last entry.
  pub tree_successor-IsNext : (p : Pointer E) → IsNext (whole p) (after_entry p) (tree_successor p)
  unfolding whole
  tree_successor-IsNext p = successor_of-IsNext p.color p.left p.entry p.right p.above

  -- `tree_predecessor` points into the same tree, at the entry that comes just before in the
  -- sequence of entries; it returns `nil` only at the first entry.
  pub tree_predecessor-IsPrevious :
      (p : Pointer E) → IsPrevious (whole p) (before_entry p) (tree_predecessor p)
  unfolding whole
  tree_predecessor-IsPrevious p = predecessor_of-IsPrevious p.color p.left p.entry p.right p.above
