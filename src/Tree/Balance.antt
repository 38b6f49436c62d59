-- ===== src/Tree/Balance.antt =====
-- The red-black invariant, for a tree and for the surroundings of a subtree.
use band_width_limiter.Base.{ℕ, suc, zero, ◌≡◌, refl, Option, some, List, [], ◌∷◌}
use band_width_limiter.Tree.Shape.{
  Color, red, black, Tree, leaf, node, Frame, left_of, right_of, frame, plug, blacken,
}

module _ {ℓ} {E : Type ℓ} where
  -- A subtree with this colour at its root and this number of black nodes on every path down: a red
  -- node has black children.
  pub data Balanced : Color → ℕ → Tree E → Type ℓ where
    nil : Balanced black zero leaf
    red_node :
        {n : ℕ} {e : E} {l r : Tree E}
        → Balanced black n l
        → Balanced black n r
        → Balanced red n (node red l e r)
    black_node :
        {n : ℕ} {c d : Color} {e : E} {l r : Tree E}
        → Balanced c n l
        → Balanced d n r
        → Balanced black (suc n) (node black l e r)

  -- Frames whose innermost node has this colour, and which make a whole tree with a black root of
  -- any subtree that has the given number of black nodes, and is black if the colour is red.
  pub data Fits : Color → ℕ → List (Frame E) → Type ℓ where
    top : {n : ℕ} → Fits black n []
    black_left :
        {n : ℕ} {c d : Color} {e : E} {r : Tree E} {fs : List (Frame E)}
        → Balanced c n r
        → Fits d (suc n) fs
        → Fits black n (left_of black e r ∷ fs)
    black_right :
        {n : ℕ} {c d : Color} {e : E} {l : Tree E} {fs : List (Frame E)}
        → Balanced c n l
        → Fits d (suc n) fs
        → Fits black n (right_of black l e ∷ fs)
    red_left :
        {n : ℕ} {e : E} {r : Tree E} {f : Frame E} {fs : List (Frame E)}
        → Balanced black n r
        → Fits black n (f ∷ fs)
        → Fits red n (left_of red e r ∷ f ∷ fs)
    red_right :
        {n : ℕ} {e : E} {l : Tree E} {f : Frame E} {fs : List (Frame E)}
        → Balanced black n l
        → Fits black n (f ∷ fs)
        → Fits red n (right_of red l e ∷ f ∷ fs)

  -- The invariant of a whole tree.
  abbrev pub IsRedBlack : Tree E → Type ℓ
  IsRedBlack t = (n : ℕ) × Balanced black n t

  -- No fault, and the whole tree that is returned has the invariant.
  pub data Succeeds : Option (Tree E) → Type ℓ where
    succeeds : {t : Tree E} → IsRedBlack t → Succeeds (some t)

  pub Succeeds-some :
      {o : Option (Tree E)} → Succeeds o → (t : Tree E) × (o ≡ some t) × IsRedBlack t
  Succeeds-some (succeeds {t} h) = (t, refl, h)

  pub blacken-Balanced : {c : Color} {n : ℕ} {t : Tree E} → Balanced c n t → IsRedBlack (blacken t)
  blacken-Balanced nil = (_, nil)
  blacken-Balanced (red_node a b) = (_, black_node a b)
  blacken-Balanced (black_node a b) = (_, black_node a b)

  -- A subtree that may be red, under a black node or at the top.
  pub plug-Balanced :
      {d : Color} {n : ℕ} {t : Tree E} {fs : List (Frame E)}
      → Fits d n fs
      → Balanced black n t
      → IsRedBlack (plug t fs)
  unfolding plug
  plug-Balanced top b = (_, b)
  plug-Balanced (black_left s up) b = plug-Balanced up (black_node b s)
  plug-Balanced (black_right s up) b = plug-Balanced up (black_node s b)
  plug-Balanced (red_left s (black_left u up)) b = plug-Balanced up (black_node (red_node b s) u)
  plug-Balanced (red_left s (black_right u up)) b = plug-Balanced up (black_node u (red_node b s))
  plug-Balanced (red_right s (black_left u up)) b = plug-Balanced up (black_node (red_node s b) u)
  plug-Balanced (red_right s (black_right u up)) b = plug-Balanced up (black_node u (red_node s b))

  -- A red subtree may stand under a black node.
  pub plug_red-Balanced :
      {n : ℕ} {t : Tree E} {f : Frame E} {fs : List (Frame E)}
      → Fits black n (f ∷ fs)
      → Balanced red n t
      → IsRedBlack (plug t (f ∷ fs))
  unfolding plug
  plug_red-Balanced (black_left u above) b = plug-Balanced above (black_node b u)
  plug_red-Balanced (black_right u above) b = plug-Balanced above (black_node u b)

  -- A subtree of the first colour may stand under these frames, whose innermost has the second.
  abbrev pub Under : Color → Color → List (Frame E) → Type 0
  Under black d fs = Unit
  Under red black (f ∷ fs) = Unit
  Under red black [] = ⊥
  Under red red fs = ⊥

  pub under : (c : Color) (f : Frame E) (fs : List (Frame E)) → Under c black (f ∷ fs)
  under red f fs = tt
  under black f fs = tt

  abbrev Stands : Tree E → List (Frame E) → Type ℓ
  Stands t fs = (c : Color) × (d : Color) × (n : ℕ) × Balanced c n t × Fits d n fs × Under c d fs

  left_child :
      {c p : Color} {n : ℕ} {t : Tree E} {e : E} {r : Tree E} (d : Color) (fs : List (Frame E))
      → Balanced p n (node c t e r)
      → Fits d n fs
      → Under p d fs
      → Stands t (left_of c e r ∷ fs)
  left_child black (f ∷ fs) (red_node a b) above u = (black, red, _, a, red_left b above, tt)
  left_child black [] (red_node a b) above u = absurd u
  left_child red fs (red_node a b) above u = absurd u
  left_child {e} {r} d fs (black_node {c = q} a b) above u =
      (q, black, _, a, black_left b above, under q (left_of black e r) fs)

  right_child :
      {c p : Color} {n : ℕ} {l : Tree E} {e : E} {t : Tree E} (d : Color) (fs : List (Frame E))
      → Balanced p n (node c l e t)
      → Fits d n fs
      → Under p d fs
      → Stands t (right_of c l e ∷ fs)
  right_child black (f ∷ fs) (red_node a b) above u = (black, red, _, b, red_right a above, tt)
  right_child black [] (red_node a b) above u = absurd u
  right_child red fs (red_node a b) above u = absurd u
  right_child {l} {e} d fs (black_node {d = q} a b) above u =
      (q, black, _, b, black_right a above, under q (right_of black l e) fs)

  -- From the invariant of a whole tree to a subtree and its surroundings.
  pub unplug : (t : Tree E) (fs : List (Frame E)) → IsRedBlack (plug t fs) → Stands t fs
  unfolding plug frame
  unplug t [] (n, b) = (black, black, n, b, top, tt)
  unplug t (left_of c e r ∷ fs) h =
      let (p, d, n, b, above, u) = unplug (node c t e r) fs h in left_child d fs b above u
  unplug t (right_of c l e ∷ fs) h =
      let (p, d, n, b, above, u) = unplug (node c l e t) fs h in right_child d fs b above u

  -- And back.
  pub replug :
      {c : Color} {n : ℕ} {t : Tree E} (d : Color) (fs : List (Frame E))
      → Balanced c n t
      → Fits d n fs
      → Under c d fs
      → IsRedBlack (plug t fs)
  replug d fs nil above u = plug-Balanced above nil
  replug d fs (black_node a b) above u = plug-Balanced above (black_node a b)
  replug black (f ∷ fs) (red_node a b) above u = plug_red-Balanced above (red_node a b)
  replug black [] (red_node a b) above u = absurd u
  replug red fs (red_node a b) above u = absurd u
