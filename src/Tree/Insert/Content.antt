-- ===== src/Tree/Insert/Content.antt =====
-- What an insertion does to the sequence of entries.
use band_width_limiter.Base.{
  ◌≡◌, refl, ap, ◌∙◌, Option, none, some, List, [], ◌∷◌, ◌++◌, append_assoc, arith, ◌>>=◌, All-imp,
}
use band_width_limiter.Tree.Order.{Ord}
use band_width_limiter.Tree.Sorted.{
  ◌≼◌, ≼_trans, IsSorted, place, place-append, place-append_gt, IsSorted-left, IsSorted-right,
  IsSorted-before,
}
use band_width_limiter.Tree.Shape.{
  red, black, Tree, leaf, node, Frame, left_of, right_of, plug, inorder, around, inorder-plug,
  inorder-blacken,
}
use band_width_limiter.Tree.Insert.{
  insert_fix_up, finish, lift_left, lift_right, lift_inner_left, lift_inner_right, descend,
  rb_tree_insert,
}

module _ {ℓ} {E : Type ℓ} where
  -- `o` is a tree with these entries, unless it is a fault.
  abbrev pub Holds : List E → Option (Tree E) → Type ℓ
  Holds xs none = Unit
  Holds xs (some t) = inorder t ≡ xs

  finish-Holds : (fs : List (Frame E)) (t : Tree E) → Holds (around fs (inorder t)) (finish fs t)
  unfolding finish
  finish-Holds fs t = inorder-blacken (plug t fs) ∙ inorder-plug t fs

  bind_finish-Holds :
      (xs : List E) (o : Option (Tree E)) (fs : List (Frame E))
      → Holds xs o
      → Holds (around fs xs) (o >>= finish fs)
  unfolding around finish
  bind_finish-Holds xs none fs h = tt
  bind_finish-Holds xs (some t) fs h = finish-Holds fs t ∙ ap (around fs) h

  lift_left-Holds :
      (x : Tree E) (pe : E) (ps : Tree E) (ge : E) (y : Tree E)
      → Holds ((inorder x ++ (pe ∷ inorder ps)) ++ (ge ∷ inorder y)) (lift_left x pe ps ge y)
  unfolding lift_left inorder
  lift_left-Holds x pe ps ge y = simp append_assoc

  lift_right-Holds :
      (y : Tree E) (ge : E) (ps : Tree E) (pe : E) (x : Tree E)
      → Holds (inorder y ++ (ge ∷ (inorder ps ++ (pe ∷ inorder x)))) (lift_right y ge ps pe x)
  unfolding lift_right inorder
  lift_right-Holds y ge ps pe x = simp append_assoc

  lift_inner_left-Holds :
      (ps : Tree E) (pe : E) (x : Tree E) (ge : E) (y : Tree E)
      → Holds ((inorder ps ++ (pe ∷ inorder x)) ++ (ge ∷ inorder y)) (lift_inner_left ps pe x ge y)
  unfolding lift_inner_left inorder
  lift_inner_left-Holds ps pe leaf ge y = tt
  lift_inner_left-Holds ps pe (node c l e r) ge y = simp append_assoc

  lift_inner_right-Holds :
      (y : Tree E) (ge : E) (x : Tree E) (pe : E) (ps : Tree E)
      → Holds (inorder y ++ (ge ∷ (inorder x ++ (pe ∷ inorder ps)))) (lift_inner_right y ge x pe ps)
  unfolding lift_inner_right inorder
  lift_inner_right-Holds y ge leaf pe ps = tt
  lift_inner_right-Holds y ge (node c l e r) pe ps = simp append_assoc

  -- The fix-up keeps the sequence of entries.
  pub insert_fix_up-Holds :
      (x : Tree E) (fs : List (Frame E)) → Holds (around fs (inorder x)) (insert_fix_up x fs)
  unfolding insert_fix_up inorder around
  insert_fix_up-Holds x [] = finish-Holds [] x
  insert_fix_up-Holds x (left_of black pe ps ∷ fs) = finish-Holds (left_of black pe ps ∷ fs) x
  insert_fix_up-Holds x (right_of black ps pe ∷ fs) = finish-Holds (right_of black ps pe ∷ fs) x
  insert_fix_up-Holds x (left_of red pe ps ∷ []) = tt
  insert_fix_up-Holds x (right_of red ps pe ∷ []) = tt
  insert_fix_up-Holds x (left_of red pe ps ∷ left_of gc ge (node red yl ye yr) ∷ fs) =
      insert_fix_up-Holds (node red (node black x pe ps) ge (node black yl ye yr)) fs
  insert_fix_up-Holds x (right_of red ps pe ∷ left_of gc ge (node red yl ye yr) ∷ fs) =
      insert_fix_up-Holds (node red (node black ps pe x) ge (node black yl ye yr)) fs
  insert_fix_up-Holds x (left_of red pe ps ∷ right_of gc (node red yl ye yr) ge ∷ fs) =
      insert_fix_up-Holds (node red (node black yl ye yr) ge (node black x pe ps)) fs
  insert_fix_up-Holds x (right_of red ps pe ∷ right_of gc (node red yl ye yr) ge ∷ fs) =
      insert_fix_up-Holds (node red (node black yl ye yr) ge (node black ps pe x)) fs
  insert_fix_up-Holds x (left_of red pe ps ∷ left_of gc ge y ∷ fs) =
      bind_finish-Holds ((inorder x ++ (pe ∷ inorder ps)) ++ (ge ∷ inorder y))
        (lift_left x pe ps ge y) fs (lift_left-Holds x pe ps ge y)
  insert_fix_up-Holds x (right_of red ps pe ∷ left_of gc ge y ∷ fs) =
      bind_finish-Holds ((inorder ps ++ (pe ∷ inorder x)) ++ (ge ∷ inorder y))
        (lift_inner_left ps pe x ge y) fs (lift_inner_left-Holds ps pe x ge y)
  insert_fix_up-Holds x (left_of red pe ps ∷ right_of gc y ge ∷ fs) =
      bind_finish-Holds (inorder y ++ (ge ∷ (inorder x ++ (pe ∷ inorder ps))))
        (lift_inner_right y ge x pe ps) fs (lift_inner_right-Holds y ge x pe ps)
  insert_fix_up-Holds x (right_of red ps pe ∷ right_of gc y ge ∷ fs) =
      bind_finish-Holds (inorder y ++ (ge ∷ (inorder ps ++ (pe ∷ inorder x))))
        (lift_right y ge ps pe x) fs (lift_right-Holds y ge ps pe x)

module _ {ℓ κ} {K : Type ℓ} {V : Type κ} ⦃o : Ord K⦄ where
  -- Linking the new node below the frames found puts it where `place` does.
  descend-around :
      (k : K) (v : V) (t : Tree (K × V)) (fs : List (Frame (K × V)))
      → IsSorted (inorder t)
      → around (descend k t fs) ((k, v) ∷ []) ≡ around fs (place k v (inorder t))
  unfolding descend inorder around place
  descend-around k v leaf fs s = refl
  descend-around k v (node c l e r) fs s = ground (
    arith,
    descend-around k v l (left_of c e r ∷ fs) (IsSorted-left (inorder l) (e ∷ inorder r) s),
    descend-around k v r (right_of c l e ∷ fs) (IsSorted-right (inorder l) (e ∷ inorder r) s).1,
    place-append_gt k v (inorder l) e (inorder r),
    place-append k v (inorder l) (e ∷ inorder r),
    λ (h : e.0 ≼ k).
        All-imp (λ d b. ≼_trans d.0 e.0 k b h) (inorder l)
          (IsSorted-before (inorder l) e (inorder r) s),
  )

  -- In a tree in key order, an insertion that does not fault puts the new entry behind the entries
  -- of the same key, before those of greater keys.
  pub inorder-rb_tree_insert :
      (t u : Tree (K × V)) (k : K) (v : V)
      → IsSorted (inorder t)
      → rb_tree_insert t k v ≡ some u
      → inorder u ≡ place k v (inorder t)
  unfolding rb_tree_insert inorder around
  inorder-rb_tree_insert t u k v s h =
      rw h at (insert_fix_up-Holds (node red leaf (k, v) leaf) (descend k t []))
      ∙ descend-around k v t [] s
