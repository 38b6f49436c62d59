-- ===== src/Tree/Insert/Balance.antt =====
-- `rb_tree_insert` does not fault on a red-black tree, and keeps the red-black invariant.
use Prim.Native.Nat.Ordering.{lt, eq, gt}
use band_width_limiter.Base.{ℕ, zero, ◌≡◌, some, List, [], ◌∷◌, Ordering}
use band_width_limiter.Tree.Order.{Ord}
use band_width_limiter.Tree.Shape.{
  Color, red, black, Tree, node, Frame, left_of, right_of, blacken, plug,
}
use band_width_limiter.Tree.Balance.{
  Balanced, nil, red_node, black_node, Fits, top, black_left, black_right, red_left, red_right,
  IsRedBlack, Succeeds, succeeds, Succeeds-some, blacken-Balanced, plug-Balanced, Under, under,
}
use band_width_limiter.Tree.Insert.{insert_fix_up, descend, rb_tree_insert}

module _ {ℓ} {E : Type ℓ} where
  end-Succeeds :
      {d : Color} {n : ℕ} {t : Tree E} {fs : List (Frame E)}
      → Fits d n fs
      → Balanced black n t
      → Succeeds (some (blacken (plug t fs)))
  end-Succeeds up b = succeeds (blacken-Balanced (plug-Balanced up b).1)

  -- The loop, at a red node with black children whose surroundings are in order.
  insert_fix_up-Succeeds :
      {d : Color} {n : ℕ} {l r : Tree E} {fs : List (Frame E)} (e : E)
      → Balanced black n l
      → Balanced black n r
      → Fits d n fs
      → Succeeds (insert_fix_up (node red l e r) fs)
  unfolding insert_fix_up plug
  insert_fix_up-Succeeds e a b top = succeeds (blacken-Balanced (red_node a b))
  insert_fix_up-Succeeds e a b (black_left s up) = end-Succeeds up (black_node (red_node a b) s)
  insert_fix_up-Succeeds e a b (black_right s up) = end-Succeeds up (black_node s (red_node a b))
  insert_fix_up-Succeeds e a b (red_left s (black_left (red_node u v) up)) =
      insert_fix_up-Succeeds _ (black_node (red_node a b) s) (black_node u v) up
  insert_fix_up-Succeeds e a b (red_right s (black_left (red_node u v) up)) =
      insert_fix_up-Succeeds _ (black_node s (red_node a b)) (black_node u v) up
  insert_fix_up-Succeeds e a b (red_left s (black_right (red_node u v) up)) =
      insert_fix_up-Succeeds _ (black_node u v) (black_node (red_node a b) s) up
  insert_fix_up-Succeeds e a b (red_right s (black_right (red_node u v) up)) =
      insert_fix_up-Succeeds _ (black_node u v) (black_node s (red_node a b)) up
  insert_fix_up-Succeeds e a b (red_left s (black_left nil up)) =
      end-Succeeds up (black_node (red_node a b) (red_node s nil))
  insert_fix_up-Succeeds e a b (red_right s (black_left nil up)) =
      end-Succeeds up (black_node (red_node s a) (red_node b nil))
  insert_fix_up-Succeeds e a b (red_left s (black_right nil up)) =
      end-Succeeds up (black_node (red_node nil a) (red_node b s))
  insert_fix_up-Succeeds e a b (red_right s (black_right nil up)) =
      end-Succeeds up (black_node (red_node nil s) (red_node a b))
  insert_fix_up-Succeeds e a b (red_left s (black_left (black_node u v) up)) =
      end-Succeeds up (black_node (red_node a b) (red_node s (black_node u v)))
  insert_fix_up-Succeeds e a b (red_right s (black_left (black_node u v) up)) =
      end-Succeeds up (black_node (red_node s a) (red_node b (black_node u v)))
  insert_fix_up-Succeeds e a b (red_left s (black_right (black_node u v) up)) =
      end-Succeeds up (black_node (red_node (black_node u v) a) (red_node b s))
  insert_fix_up-Succeeds e a b (red_right s (black_right (black_node u v) up)) =
      end-Succeeds up (black_node (red_node (black_node u v) s) (red_node a b))

  abbrev FitsSome : List (Frame E) → Type ℓ
  FitsSome fs = (d : Color) × Fits d zero fs

  pick :
      (x : Ordering) (a b : List (Frame E))
      → FitsSome a
      → FitsSome b
      → FitsSome (elim x [ gt ↦ a | _ ↦ b ])
  pick lt a b h k = k
  pick eq a b h k = k
  pick gt a b h k = h

module _ {ℓ κ} {K : Type ℓ} {V : Type κ} ⦃o : Ord K⦄ where
  descend-FitsSome :
      (k : K) {c : Color} {n : ℕ} {t : Tree (K × V)} (d : Color) (fs : List (Frame (K × V)))
      → Balanced c n t
      → Fits d n fs
      → Under c d fs
      → FitsSome (descend k t fs)
  unfolding descend
  descend-FitsSome k d fs nil up u = (d, up)
  descend-FitsSome k {t = node _ l e r} black (f ∷ fs) (red_node a b) up u =
      pick (o.cmp e.0 k) (descend k l (left_of red e r ∷ f ∷ fs))
        (descend k r (right_of red l e ∷ f ∷ fs))
        (descend-FitsSome k red (left_of red e r ∷ f ∷ fs) a (red_left b up) tt)
        (descend-FitsSome k red (right_of red l e ∷ f ∷ fs) b (red_right a up) tt)
  descend-FitsSome k black [] (red_node a b) up u = absurd u
  descend-FitsSome k red fs (red_node a b) up u = absurd u
  descend-FitsSome k {t = node _ l e r} d fs (black_node {c = p} {d = q} a b) up u =
      pick (o.cmp e.0 k) (descend k l (left_of black e r ∷ fs))
        (descend k r (right_of black l e ∷ fs))
        (descend-FitsSome k black (left_of black e r ∷ fs) a (black_left b up)
          (under p (left_of black e r) fs))
        (descend-FitsSome k black (right_of black l e ∷ fs) b (black_right a up)
          (under q (right_of black l e) fs))

  -- On every red-black tree `rb_tree_insert` returns a red-black tree: it never rotates or paints
  -- a sentinel.
  pub rb_tree_insert-IsRedBlack :
      (t : Tree (K × V)) (k : K) (v : V)
      → IsRedBlack t
      → (u : Tree (K × V)) × (rb_tree_insert t k v ≡ some u) × IsRedBlack u
  unfolding rb_tree_insert
  rb_tree_insert-IsRedBlack t k v (n, b) =
      Succeeds-some (insert_fix_up-Succeeds (k, v) nil nil (descend-FitsSome k black [] b top tt).1)
