-- ===== src/Tree/Destroy.antt =====
-- `rb_tree_destroy`: what it frees, in its order, with the functions of rb_tree_helper.c that a tree is
-- created with.
use mathlib.Core.List.{Perm, perm_append_comm}
use mathlib.Core.List.Perm
use band_width_limiter.Base.{List, [], ◌∷◌, ◌++◌, append_assoc}
use band_width_limiter.Tree.Shape.{Tree, leaf, node, inorder}

-- A key, an information, a node, the two sentinels, and the structure of the tree. The key and the
-- information of a node are blocks of their own.
pub data Freed {ℓ} (E : Type ℓ) : Type ℓ where
  freed_key freed_info freed_node : E → Freed E
  freed_root freed_nil freed_tree : Freed E

-- What the blocks of the entries are, entry by entry.
abbrev pub pieces {ℓ} : {E : Type ℓ} → (E → List (Freed E)) → List E → List (Freed E)
pieces f [] = []
pieces f (e ∷ es) = f e ++ pieces f es

module _ {ℓ} {E : Type ℓ} where
  unfoldable pub int_dest : E → List (Freed E)
  int_dest e = freed_key e ∷ []

  unfoldable pub info_dest : E → List (Freed E)
  info_dest e = freed_info e ∷ []

  -- Its call of `free` is a comment.
  unfoldable pub uint32_dest : E → List (Freed E)
  uint32_dest e = []

  unfoldable tree_dest_helper :
      (E → List (Freed E)) → (E → List (Freed E)) → Tree E → List (Freed E)
  tree_dest_helper destroy_key destroy_info leaf = []
  tree_dest_helper destroy_key destroy_info (node c l e r) =
      tree_dest_helper destroy_key destroy_info l
      ++ (tree_dest_helper destroy_key destroy_info r
          ++ (destroy_key e ++ (destroy_info e ++ (freed_node e ∷ []))))

  unfoldable pub rb_tree_destroy :
      (E → List (Freed E)) → (E → List (Freed E)) → Tree E → List (Freed E)
  unfolding tree_dest_helper
  rb_tree_destroy destroy_key destroy_info t =
      tree_dest_helper destroy_key destroy_info t ++ (freed_root ∷ freed_nil ∷ freed_tree ∷ [])

  pieces-append :
      (f : E → List (Freed E)) (xs ys : List E)
      → Perm (pieces f (xs ++ ys)) (pieces f xs ++ pieces f ys)
  pieces-append f [] ys = Perm.rfl
  pieces-append f (x ∷ xs) ys =
      rw (append_assoc (f x) (pieces f xs) (pieces f ys))
        (Perm.append Perm.rfl (pieces-append f xs ys))

  module _ (destroy_key destroy_info : E → List (Freed E)) where
    abbrev pub freed : E → List (Freed E)
    freed e = destroy_key e ++ (destroy_info e ++ (freed_node e ∷ []))

    tree_dest_helper-perm :
        (t : Tree E) → Perm (tree_dest_helper destroy_key destroy_info t) (pieces freed (inorder t))
    unfolding tree_dest_helper inorder
    tree_dest_helper-perm leaf = Perm.rfl
    tree_dest_helper-perm (node c l e r) =
        Perm.trans
          (Perm.append (tree_dest_helper-perm l) (
            Perm.trans (Perm.append (tree_dest_helper-perm r) Perm.rfl)
              (perm_append_comm (pieces freed (inorder r)) (freed e))))
          (Perm.symm (pieces-append freed (inorder l) (e ∷ inorder r)))

    -- What is freed for each entry, and then the two sentinels and the structure.
    pub rb_tree_destroy-perm :
        (t : Tree E)
        → Perm
            (rb_tree_destroy destroy_key destroy_info t)
            (pieces freed (inorder t) ++ (freed_root ∷ freed_nil ∷ freed_tree ∷ []))
    unfolding rb_tree_destroy
    rb_tree_destroy-perm t = Perm.append (tree_dest_helper-perm t) Perm.rfl
