-- ===== src/Tree/Shape.antt =====
-- `red_black_node_struct` and the pointers into a tree. A subtree is a value; the sentinel `nil` is
-- `leaf`. A node pointer is the subtree below it with the frames above it (its chain of `parent`
-- pointers, innermost first), so the sentinel `root` is the empty list of frames.
use band_width_limiter.Base.{◌≡◌, refl, Bool, true, false, Option, none, some, List, [], ◌∷◌, ◌++◌}

pub data Color : Type 0 where
  red black : Color

pub data Tree {ℓ} (E : Type ℓ) : Type ℓ where
  leaf : Tree E
  node : Color → Tree E → E → Tree E → Tree E

-- The parent of a left child and of a right child: its colour, entry and other subtree.
pub data Frame {ℓ} (E : Type ℓ) : Type ℓ where
  left_of : Color → E → Tree E → Frame E
  right_of : Color → Tree E → E → Frame E

-- A pointer to a node that is not a sentinel.
pub record Pointer {ℓ} (E : Type ℓ) : Type ℓ where
  pub color : Color
  pub left : Tree E
  pub entry : E
  pub right : Tree E
  pub above : List (Frame E)

module _ {ℓ} {E : Type ℓ} where
  -- `!x->red`; the sentinel `nil` is black.
  abbrev pub is_black : Tree E → Bool
  is_black leaf = true
  is_black (node red l e r) = false
  is_black (node black l e r) = true

  -- `x->red = 0`, which changes nothing at `nil`.
  abbrev pub blacken : Tree E → Tree E
  blacken leaf = leaf
  blacken (node c l e r) = node black l e r

  unfoldable pub frame : Tree E → Frame E → Tree E
  frame t (left_of c e r) = node c t e r
  frame t (right_of c l e) = node c l e t

  -- The whole tree, from the subtree at a pointer.
  unfoldable pub plug : Tree E → List (Frame E) → Tree E
  unfolding frame
  plug t [] = t
  plug t (f ∷ fs) = plug (frame t f) fs

  abbrev pub here : Pointer E → Tree E
  here p = node p.color p.left p.entry p.right

  unfoldable pub whole : Pointer E → Tree E
  unfolding plug
  whole p = plug (here p) p.above

  -- The entries from left to right.
  unfoldable pub inorder : Tree E → List E
  inorder leaf = []
  inorder (node c l e r) = inorder l ++ (e ∷ inorder r)

  -- The entries of the whole tree, from those of the subtree at a pointer.
  unfoldable pub around : List (Frame E) → List E → List E
  unfolding inorder
  around [] xs = xs
  around (left_of c e r ∷ fs) xs = around fs (xs ++ (e ∷ inorder r))
  around (right_of c l e ∷ fs) xs = around fs (inorder l ++ (e ∷ xs))

  pub inorder-plug :
      (t : Tree E) (fs : List (Frame E)) → inorder (plug t fs) ≡ around fs (inorder t)
  unfolding plug around
  inorder-plug t [] = refl
  inorder-plug t (left_of c e r ∷ fs) = inorder-plug (node c t e r) fs
  inorder-plug t (right_of c l e ∷ fs) = inorder-plug (node c l e t) fs

  pub inorder-blacken : (t : Tree E) → inorder (blacken t) ≡ inorder t
  unfolding inorder
  inorder-blacken leaf = refl
  inorder-blacken (node c l e r) = refl

  -- `left_rotate`: `none` stands for a rotation that would lift the sentinel `nil`.
  unfoldable pub left_rotate : Tree E → Option (Tree E)
  left_rotate (node c a x (node d b y e)) = some (node d (node c a x b) y e)
  left_rotate _ = none

  unfoldable pub right_rotate : Tree E → Option (Tree E)
  right_rotate (node c (node d a x b) y e) = some (node d a x (node c b y e))
  right_rotate _ = none

module _ {ℓ κ} {E : Type ℓ} {F : Type κ} where
  unfoldable pub map_tree : (E → F) → Tree E → Tree F
  map_tree f leaf = leaf
  map_tree f (node c l e r) = node c (map_tree f l) (f e) (map_tree f r)

  unfoldable pub map_frame : (E → F) → Frame E → Frame F
  unfolding map_tree
  map_frame f (left_of c e r) = left_of c (f e) (map_tree f r)
  map_frame f (right_of c l e) = right_of c (map_tree f l) (f e)

module _ {ℓ κ} {K : Type ℓ} {V : Type κ} where
  -- The node after a write to `node->info`, and the whole tree after it.
  unfoldable pub with_info : Pointer (K × V) → V → Pointer (K × V)
  with_info p v = record p { entry = (p.entry.0, v) }

  unfoldable pub set_info : Pointer (K × V) → V → Tree (K × V)
  unfolding whole with_info
  set_info p v = whole (with_info p v)
