-- ===== src/Tree/Delete/Balance.antt =====
-- `rb_delete` does not fault on a red-black tree, and keeps the red-black invariant.
use band_width_limiter.Base.{ℕ, suc, ◌≡◌, true, Option, some, List, [], ◌∷◌, ◌>>=◌, map}
use band_width_limiter.Tree.Shape.{
  Color, red, black, Tree, leaf, node, Frame, left_of, right_of, Pointer, plug, map_tree, map_frame,
  whole, here,
}
use band_width_limiter.Tree.Balance.{
  Balanced, nil, red_node, black_node, Fits, top, black_left, black_right, red_left, red_right,
  IsRedBlack, Succeeds, succeeds, Succeeds-some, blacken-Balanced, plug-Balanced, plug_red-Balanced,
  Under, under, unplug,
}
use band_width_limiter.Tree.Query.{leftmost}
use band_width_limiter.Tree.Delete.{
  Round, up, done, repair_left, repair_right, settle, after_red, rb_delete_fix_up, splice_out, mark,
  take_place, delete_at, rb_delete,
}

module _ {ℓ} {E : Type ℓ} where
  settle-IsRedBlack : (fs : List (Frame E)) {t : Tree E} → IsRedBlack t → IsRedBlack (settle fs t)
  unfolding settle
  settle-IsRedBlack [] h = h
  settle-IsRedBlack (f ∷ fs) h = blacken-Balanced h.1

  -- What a round makes of a parent of this colour, whose child `x` has `n` black nodes on every path
  -- and should have one more: it mends the subtree, or it passes the lack on to the parent, which
  -- ends it if the parent is red.
  data Mends : Color → ℕ → Option (Round E) → Type ℓ where
    red_done : {n : ℕ} {t : Tree E} → Balanced red (suc n) t → Mends red n (some (done t))
    red_up :
        {n : ℕ} {l r : Tree E} {e : E}
        → Balanced black (suc n) (node black l e r)
        → Mends red n (some (up (node red l e r)))
    black_done :
        {n : ℕ} {t : Tree E} → Balanced black (suc (suc n)) t → Mends black n (some (done t))
    black_up : {n : ℕ} {t : Tree E} → Balanced black (suc n) t → Mends black n (some (up t))

  Mends-done :
      (c : Color) {n : ℕ} {l r : Tree E} (e : E)
      → Balanced black (suc n) l
      → Balanced black (suc n) r
      → Mends c n (some (done (node c l e r)))
  Mends-done red e a b = red_done (red_node a b)
  Mends-done black e a b = black_done (black_node a b)

  Mends-up :
      (c : Color) {p q : Color} {n : ℕ} {l r : Tree E} (e : E)
      → Balanced p n l
      → Balanced q n r
      → Mends c n (some (up (node c l e r)))
  Mends-up red e a b = red_up (black_node a b)
  Mends-up black e a b = black_up (black_node a b)

  repair_left-Mends :
      {p q u : Color} {n : ℕ} {x wl wr : Tree E} (c : Color) (pe we : E)
      → Balanced p n x
      → Balanced q n wl
      → Balanced u n wr
      → Mends c n (repair_left x c pe (node black wl we wr))
  unfolding repair_left
  repair_left-Mends c pe we x a (red_node b b') = Mends-done c we (black_node x a) (black_node b b')
  repair_left-Mends c pe we x (red_node a a') nil =
      Mends-done c _ (black_node x a) (black_node a' nil)
  repair_left-Mends c pe we x (red_node a a') (black_node b b') =
      Mends-done c _ (black_node x a) (black_node a' (black_node b b'))
  repair_left-Mends c pe we x nil nil = Mends-up c pe x (red_node nil nil)
  repair_left-Mends c pe we x (black_node a a') (black_node b b') =
      Mends-up c pe x (red_node (black_node a a') (black_node b b'))

  repair_right-Mends :
      {p q u : Color} {n : ℕ} {x wl wr : Tree E} (c : Color) (pe we : E)
      → Balanced p n x
      → Balanced q n wl
      → Balanced u n wr
      → Mends c n (repair_right x c pe (node black wl we wr))
  unfolding repair_right
  repair_right-Mends c pe we x (red_node a a') nil =
      Mends-done c we (black_node a a') (black_node nil x)
  repair_right-Mends c pe we x (red_node a a') (black_node b b') =
      Mends-done c we (black_node a a') (black_node (black_node b b') x)
  repair_right-Mends c pe we x (red_node a a') (red_node b b') =
      Mends-done c we (black_node a a') (black_node (red_node b b') x)
  repair_right-Mends c pe we x nil (red_node b b') =
      Mends-done c _ (black_node nil b) (black_node b' x)
  repair_right-Mends c pe we x (black_node a a') (red_node b b') =
      Mends-done c _ (black_node (black_node a a') b) (black_node b' x)
  repair_right-Mends c pe we x nil nil = Mends-up c pe (red_node nil nil) x
  repair_right-Mends c pe we x (black_node a a') (black_node b b') =
      Mends-up c pe (red_node (black_node a a') (black_node b b')) x

  sibling_left :
      {p : Color} {n : ℕ} {x w : Tree E} (c : Color) (pe : E)
      → Balanced p n x
      → Balanced black (suc n) w
      → Mends c n (repair_left x c pe w)
  sibling_left c pe x (black_node {e} a b) = repair_left-Mends c pe e x a b

  sibling_right :
      {p : Color} {n : ℕ} {x w : Tree E} (c : Color) (pe : E)
      → Balanced p n x
      → Balanced black (suc n) w
      → Mends c n (repair_right x c pe w)
  sibling_right c pe x (black_node {e} a b) = repair_right-Mends c pe e x a b

  after_red_left :
      {d : Color} {n : ℕ} {wr : Tree E} {fs : List (Frame E)} {o : Option (Round E)} (we : E)
      → Mends red n o
      → Fits d (suc (suc n)) fs
      → Balanced black (suc n) wr
      → Succeeds (o >>= λ r. some (after_red (left_of black we wr) fs r))
  unfolding after_red
  after_red_left we (red_up t) above b = succeeds (plug-Balanced above (black_node t b))
  after_red_left {fs} we (red_done t) above b =
      succeeds (settle-IsRedBlack fs (plug-Balanced above (black_node t b)))

  after_red_right :
      {d : Color} {n : ℕ} {wl : Tree E} {fs : List (Frame E)} {o : Option (Round E)} (we : E)
      → Mends red n o
      → Fits d (suc (suc n)) fs
      → Balanced black (suc n) wl
      → Succeeds (o >>= λ r. some (after_red (right_of black wl we) fs r))
  unfolding after_red
  after_red_right we (red_up t) above b = succeeds (plug-Balanced above (black_node b t))
  after_red_right {fs} we (red_done t) above b =
      succeeds (settle-IsRedBlack fs (plug-Balanced above (black_node b t)))

  round_black :
      {d : Color} {n : ℕ} {fs : List (Frame E)} {o : Option (Round E)}
      → Mends black n o
      → Fits d (suc (suc n)) fs
      → ((t : Tree E) → Balanced black (suc n) t → Succeeds (rb_delete_fix_up t fs))
      → Succeeds (
          o >>= λ r. elim r [
            | up t ↦ rb_delete_fix_up t fs
            | done t ↦ some (settle fs (plug t fs))
          ])
  round_black (black_up t) above next = next _ t
  round_black {fs} (black_done t) above next =
      succeeds (settle-IsRedBlack fs (plug-Balanced above t))

  round_red :
      {n : ℕ} {f : Frame E} {fs : List (Frame E)} {o : Option (Round E)}
      → Mends red n o
      → Fits black (suc n) (f ∷ fs)
      → Succeeds (
          o >>= λ r. elim r [
            | up t ↦ rb_delete_fix_up t (f ∷ fs)
            | done t ↦ some (settle (f ∷ fs) (plug t (f ∷ fs)))
          ])
  unfolding rb_delete_fix_up
  round_red (red_up t) above = succeeds (plug-Balanced above t)
  round_red {f} {fs} (red_done t) above =
      succeeds (settle-IsRedBlack (f ∷ fs) (plug_red-Balanced above t))

  -- The loop, at a subtree that has one black node less on every path than its surroundings ask for.
  rb_delete_fix_up-Succeeds :
      {c d : Color} {n : ℕ} (x : Tree E) {fs : List (Frame E)}
      → Balanced c n x
      → Fits d (suc n) fs
      → Succeeds (rb_delete_fix_up x fs)
  unfolding rb_delete_fix_up
  rb_delete_fix_up-Succeeds x b top = succeeds (blacken-Balanced b)
  rb_delete_fix_up-Succeeds leaf b (black_left {e = pe} (red_node {e = we} u v) above) =
      after_red_left we (sibling_left red pe b u) above v
  rb_delete_fix_up-Succeeds leaf b (black_left {e = pe} (black_node u v) above) =
      round_black (sibling_left black pe b (black_node u v)) above
        (λ t h. rb_delete_fix_up-Succeeds {c = black} t h above)
  rb_delete_fix_up-Succeeds leaf b (red_left {e = pe} (black_node u v) above) =
      round_red (sibling_left red pe b (black_node u v)) above
  rb_delete_fix_up-Succeeds (node black l e r) b
        (black_left {e = pe} (red_node {e = we} u v) above) =
      after_red_left we (sibling_left red pe b u) above v
  rb_delete_fix_up-Succeeds (node black l e r) b (black_left {e = pe} (black_node u v) above) =
      round_black (sibling_left black pe b (black_node u v)) above
        (λ t h. rb_delete_fix_up-Succeeds {c = black} t h above)
  rb_delete_fix_up-Succeeds (node black l e r) b (red_left {e = pe} (black_node u v) above) =
      round_red (sibling_left red pe b (black_node u v)) above
  rb_delete_fix_up-Succeeds (node red l e r) (red_node a b) (black_left s above) =
      succeeds (plug-Balanced (black_left s above) (black_node a b))
  rb_delete_fix_up-Succeeds (node red l e r) (red_node a b) (red_left s above) =
      succeeds (plug-Balanced (red_left s above) (black_node a b))
  rb_delete_fix_up-Succeeds leaf b (black_right {e = pe} (red_node {e = we} u v) above) =
      after_red_right we (sibling_right red pe b v) above u
  rb_delete_fix_up-Succeeds leaf b (black_right {e = pe} (black_node u v) above) =
      round_black (sibling_right black pe b (black_node u v)) above
        (λ t h. rb_delete_fix_up-Succeeds {c = black} t h above)
  rb_delete_fix_up-Succeeds leaf b (red_right {e = pe} (black_node u v) above) =
      round_red (sibling_right red pe b (black_node u v)) above
  rb_delete_fix_up-Succeeds (node black l e r) b
        (black_right {e = pe} (red_node {e = we} u v) above) =
      after_red_right we (sibling_right red pe b v) above u
  rb_delete_fix_up-Succeeds (node black l e r) b (black_right {e = pe} (black_node u v) above) =
      round_black (sibling_right black pe b (black_node u v)) above
        (λ t h. rb_delete_fix_up-Succeeds {c = black} t h above)
  rb_delete_fix_up-Succeeds (node black l e r) b (red_right {e = pe} (black_node u v) above) =
      round_red (sibling_right red pe b (black_node u v)) above
  rb_delete_fix_up-Succeeds (node red l e r) (red_node a b) (black_right s above) =
      succeeds (plug-Balanced (black_right s above) (black_node a b))
  rb_delete_fix_up-Succeeds (node red l e r) (red_node a b) (red_right s above) =
      succeeds (plug-Balanced (red_right s above) (black_node a b))

  -- Taking out a node with at most one child.
  splice_left :
      {c c' d : Color} {n : ℕ} {e : E} {r : Tree E} {fs : List (Frame E)}
      → Balanced c n (node c' leaf e r)
      → Fits d n fs
      → Succeeds (splice_out c' leaf r fs)
  unfolding splice_out
  splice_left (red_node nil b) above = succeeds (plug-Balanced above b)
  splice_left (black_node nil b) above = rb_delete_fix_up-Succeeds _ b above

  splice_right :
      {c c' d : Color} {n : ℕ} {e : E} {l : Tree E} {fs : List (Frame E)}
      → Balanced c n (node c' l e leaf)
      → Fits d n fs
      → Succeeds (splice_out c' l leaf fs)
  unfolding splice_out
  splice_right (red_node (black_node _ _) b) above = elim b [ ]
  splice_right (black_node (black_node _ _) b) above = elim b [ ]
  splice_right (red_node nil nil) above = succeeds (plug-Balanced above nil)
  splice_right (black_node nil nil) above = rb_delete_fix_up-Succeeds leaf nil above
  splice_right (black_node (red_node a b) nil) above =
      rb_delete_fix_up-Succeeds _ (red_node a b) above

  -- The leftmost node of a subtree may be taken out.
  leftmost-Succeeds :
      {c c' : Color} {n : ℕ} {l : Tree E} {e : E} {r : Tree E} (d : Color) (fs : List (Frame E))
      → Balanced c' n (node c l e r)
      → Fits d n fs
      → Under c' d fs
      → let y = leftmost c l e r fs in Succeeds (splice_out y.color y.left y.right y.above)
  unfolding leftmost
  leftmost-Succeeds {l = leaf} d fs b above u = splice_left b above
  leftmost-Succeeds {l = node _ ll le lr} {e} {r} black (f ∷ fs) (red_node a b) above u =
      leftmost-Succeeds red (left_of red e r ∷ f ∷ fs) a (red_left b above) tt
  leftmost-Succeeds {l = node _ ll le lr} black [] (red_node a b) above u = absurd u
  leftmost-Succeeds {l = node _ ll le lr} red fs (red_node a b) above u = absurd u
  leftmost-Succeeds {l = node p ll le lr} {e} {r} d fs (black_node {c = q} a b) above u =
      leftmost-Succeeds black (left_of black e r ∷ fs) a (black_left b above)
        (under q (left_of black e r) fs)

module _ {ℓ κ} {E : Type ℓ} {F : Type κ} (f : E → F) where
  map_tree-Balanced :
      {c : Color} {n : ℕ} {t : Tree E} → Balanced c n t → Balanced c n (map_tree f t)
  unfolding map_tree
  map_tree-Balanced nil = nil
  map_tree-Balanced (red_node a b) = red_node (map_tree-Balanced a) (map_tree-Balanced b)
  map_tree-Balanced (black_node a b) = black_node (map_tree-Balanced a) (map_tree-Balanced b)

  map_frame-Fits :
      {d : Color} {n : ℕ} {fs : List (Frame E)} → Fits d n fs → Fits d n (map (map_frame f) fs)
  unfolding map_frame
  map_frame-Fits top = top
  map_frame-Fits (black_left s above) = black_left (map_tree-Balanced s) (map_frame-Fits above)
  map_frame-Fits (black_right s above) = black_right (map_tree-Balanced s) (map_frame-Fits above)
  map_frame-Fits (red_left s above) = red_left (map_tree-Balanced s) (map_frame-Fits above)
  map_frame-Fits (red_right s above) = red_right (map_tree-Balanced s) (map_frame-Fits above)

  map_tree-Succeeds : {o : Option (Tree E)} → Succeeds o → Succeeds (o >>= λ t. some (map_tree f t))
  map_tree-Succeeds (succeeds h) = succeeds (_, map_tree-Balanced h.1)

module _ {ℓ} {E : Type ℓ} where
  delete_at-Succeeds :
      {c c' : Color} {n : ℕ} {l : Tree E} {e : E} {r : Tree E} (d : Color) (fs : List (Frame E))
      → Balanced c' n (node c l e r)
      → Fits d n fs
      → Under c' d fs
      → Succeeds (delete_at c l e r fs)
  unfolding delete_at
  delete_at-Succeeds {l = leaf} d fs b above u = splice_left b above
  delete_at-Succeeds {l = node _ _ _ _} {r = leaf} d fs b above u = splice_right b above
  delete_at-Succeeds {l = node lc ll le lr} {e} {r = node rc rl re rr} black (f ∷ fs) (red_node a b)
        above u =
      map_tree-Succeeds (take_place _) (
        leftmost-Succeeds red
          (right_of red (map_tree mark (node lc ll le lr)) (true, e)
            ∷ map (map_frame mark) (f ∷ fs))
          (map_tree-Balanced mark b)
          (red_right (map_tree-Balanced mark a) (map_frame-Fits mark above)) tt)
  delete_at-Succeeds {l = node _ _ _ _} {r = node _ _ _ _} black [] (red_node a b) above u =
      absurd u
  delete_at-Succeeds {l = node _ _ _ _} {r = node _ _ _ _} red fs (red_node a b) above u = absurd u
  delete_at-Succeeds {l = node lc ll le lr} {e} {r = node rc rl re rr} d fs (black_node {d = q} a b)
        above u =
      let z = right_of black (map_tree mark (node lc ll le lr)) (true, e) in
      map_tree-Succeeds (take_place _) (
        leftmost-Succeeds black (z ∷ map (map_frame mark) fs) (map_tree-Balanced mark b)
          (black_right (map_tree-Balanced mark a) (map_frame-Fits mark above))
          (under q z (map (map_frame mark) fs)))

  -- At every node of a red-black tree `rb_delete` returns a red-black tree: it never rotates or
  -- paints a sentinel.
  pub rb_delete-IsRedBlack :
      (z : Pointer E) → IsRedBlack (whole z) → (u : Tree E) × (rb_delete z ≡ some u) × IsRedBlack u
  unfolding rb_delete whole
  rb_delete-IsRedBlack z h =
      let (c, d, n, b, above, u) = unplug (here z) z.above h in
      Succeeds-some (delete_at-Succeeds d z.above b above u)
