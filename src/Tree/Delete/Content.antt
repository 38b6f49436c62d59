-- ===== src/Tree/Delete/Content.antt =====
-- What a deletion does to the sequence of entries.
use mathlib.Core.Path.{subst}
use mathlib.Core.List.{append-nil, map-append}
use native.Mathlib.Omega.{arith}
use band_width_limiter.Base.{
  ◌≡◌, refl, sym, ap, ◌∙◌, Option, none, some, List, [], ◌∷◌, ◌++◌, append_assoc, map, ◌⊎◌, inl,
  inr, ◌>>=◌, Bool, true, false,
}
use band_width_limiter.Tree.Shape.{
  Color, red, black, Tree, leaf, node, Frame, left_of, right_of, Pointer, plug, inorder, around,
  inorder-plug, inorder-blacken, blacken, map_tree, map_frame,
}
use band_width_limiter.Tree.Insert.Content.{Holds}
use band_width_limiter.Tree.Query.{leftmost}
use band_width_limiter.Tree.Delete.{
  Round, up, done, repair_left, repair_right, settle, after_red, rb_delete_fix_up, splice_out, mark,
  take_place, delete_at, rb_delete,
}

module _ {ℓ} {E : Type ℓ} where
  abbrev RoundHolds : List E → Option (Round E) → Type ℓ
  RoundHolds xs none = Unit
  RoundHolds xs (some (up t)) = inorder t ≡ xs
  RoundHolds xs (some (done t)) = inorder t ≡ xs

  repair_left-Holds :
      (x : Tree E) (c : Color) (pe : E) (w : Tree E)
      → RoundHolds (inorder x ++ (pe ∷ inorder w)) (repair_left x c pe w)
  unfolding repair_left inorder
  repair_left-Holds x c pe leaf = tt
  repair_left-Holds x c pe (node wc leaf we leaf) = refl
  repair_left-Holds x c pe (node wc leaf we (node red rl re rr)) = simp append_assoc
  repair_left-Holds x c pe (node wc leaf we (node black rl re rr)) = refl
  repair_left-Holds x c pe (node wc (node red ll le lr) we leaf) = simp append_assoc
  repair_left-Holds x c pe (node wc (node red ll le lr) we (node red rl re rr)) = simp append_assoc
  repair_left-Holds x c pe (node wc (node red ll le lr) we (node black rl re rr)) =
      simp append_assoc
  repair_left-Holds x c pe (node wc (node black ll le lr) we leaf) = refl
  repair_left-Holds x c pe (node wc (node black ll le lr) we (node red rl re rr)) =
      simp append_assoc
  repair_left-Holds x c pe (node wc (node black ll le lr) we (node black rl re rr)) = refl

  repair_right-Holds :
      (x : Tree E) (c : Color) (pe : E) (w : Tree E)
      → RoundHolds (inorder w ++ (pe ∷ inorder x)) (repair_right x c pe w)
  unfolding repair_right inorder
  repair_right-Holds x c pe leaf = tt
  repair_right-Holds x c pe (node wc leaf we leaf) = simp append_assoc
  repair_right-Holds x c pe (node wc leaf we (node red rl re rr)) = simp append_assoc
  repair_right-Holds x c pe (node wc leaf we (node black rl re rr)) = simp append_assoc
  repair_right-Holds x c pe (node wc (node red ll le lr) we leaf) = simp append_assoc
  repair_right-Holds x c pe (node wc (node red ll le lr) we (node red rl re rr)) = simp append_assoc
  repair_right-Holds x c pe (node wc (node red ll le lr) we (node black rl re rr)) =
      simp append_assoc
  repair_right-Holds x c pe (node wc (node black ll le lr) we leaf) = simp append_assoc
  repair_right-Holds x c pe (node wc (node black ll le lr) we (node red rl re rr)) =
      simp append_assoc
  repair_right-Holds x c pe (node wc (node black ll le lr) we (node black rl re rr)) =
      simp append_assoc

  inorder-settle : (fs : List (Frame E)) (t : Tree E) → inorder (settle fs t) ≡ inorder t
  unfolding settle
  inorder-settle [] t = refl
  inorder-settle (f ∷ fs) t = inorder-blacken t

  inorder_settled :
      (fs : List (Frame E)) (t : Tree E) {xs : List E}
      → inorder t ≡ xs
      → inorder (settle fs (plug t fs)) ≡ around fs xs
  inorder_settled fs t h = inorder-settle fs (plug t fs) ∙ inorder-plug t fs ∙ ap (around fs) h

  red_left-Holds :
      (xs : List E) (we : E) (wr : Tree E) (fs : List (Frame E)) (o : Option (Round E))
      → RoundHolds xs o
      → Holds
          (around fs (xs ++ (we ∷ inorder wr)))
          (o >>= λ r. some (after_red (left_of black we wr) fs r))
  unfolding after_red around inorder
  red_left-Holds xs we wr fs none h = tt
  red_left-Holds xs we wr fs (some (up t)) h =
      inorder-plug (node black (blacken t) we wr) fs
      ∙ ap (λ ys. around fs (ys ++ (we ∷ inorder wr))) (inorder-blacken t ∙ h)
  red_left-Holds xs we wr fs (some (done t)) h =
      inorder_settled fs (node black t we wr) (ap (λ ys. ys ++ (we ∷ inorder wr)) h)

  red_right-Holds :
      (wl : Tree E) (we : E) (xs : List E) (fs : List (Frame E)) (o : Option (Round E))
      → RoundHolds xs o
      → Holds
          (around fs (inorder wl ++ (we ∷ xs)))
          (o >>= λ r. some (after_red (right_of black wl we) fs r))
  unfolding after_red around inorder
  red_right-Holds wl we xs fs none h = tt
  red_right-Holds wl we xs fs (some (up t)) h =
      inorder-plug (node black wl we (blacken t)) fs
      ∙ ap (λ ys. around fs (inorder wl ++ (we ∷ ys))) (inorder-blacken t ∙ h)
  red_right-Holds wl we xs fs (some (done t)) h =
      inorder_settled fs (node black wl we t) (ap (λ ys. inorder wl ++ (we ∷ ys)) h)

  round-Holds :
      (xs : List E) (fs : List (Frame E)) (next : Tree E → Option (Tree E)) (o : Option (Round E))
      → ((t : Tree E) → Holds (around fs (inorder t)) (next t))
      → RoundHolds xs o
      → Holds
          (around fs xs)
          (o >>= λ r. elim r [ up t ↦ next t | done t ↦ some (settle fs (plug t fs)) ])
  round-Holds xs fs next none ih h = tt
  round-Holds xs fs next (some (up t)) ih h = subst (λ ys. Holds (around fs ys) (next t)) h (ih t)
  round-Holds xs fs next (some (done t)) ih h = inorder_settled fs t h

  -- The fix-up keeps the sequence of entries.
  pub rb_delete_fix_up-Holds :
      (x : Tree E) (fs : List (Frame E)) → Holds (around fs (inorder x)) (rb_delete_fix_up x fs)
  unfolding rb_delete_fix_up inorder around
  rb_delete_fix_up-Holds x [] = inorder-blacken x
  rb_delete_fix_up-Holds (node red l e r) (f ∷ fs) = inorder-plug (node black l e r) (f ∷ fs)
  rb_delete_fix_up-Holds x (left_of c pe (node red wl we wr) ∷ fs) =
      subst
        (λ ys.
          Holds (around fs ys)
            (repair_left x red pe wl >>= λ r. some (after_red (left_of black we wr) fs r)))
        (append_assoc (inorder x) (pe ∷ inorder wl) (we ∷ inorder wr))
        (red_left-Holds (inorder x ++ (pe ∷ inorder wl)) we wr fs (repair_left x red pe wl)
          (repair_left-Holds x red pe wl))
  rb_delete_fix_up-Holds x (right_of c (node red wl we wr) pe ∷ fs) =
      subst
        (λ ys.
          Holds (around fs ys)
            (repair_right x red pe wr >>= λ r. some (after_red (right_of black wl we) fs r)))
        (sym (append_assoc (inorder wl) (we ∷ inorder wr) (pe ∷ inorder x)))
        (red_right-Holds wl we (inorder wr ++ (pe ∷ inorder x)) fs (repair_right x red pe wr)
          (repair_right-Holds x red pe wr))
  rb_delete_fix_up-Holds x (left_of c pe w ∷ fs) =
      round-Holds (inorder x ++ (pe ∷ inorder w)) fs (λ t. rb_delete_fix_up t fs)
        (repair_left x c pe w) (λ t. rb_delete_fix_up-Holds t fs) (repair_left-Holds x c pe w)
  rb_delete_fix_up-Holds x (right_of c w pe ∷ fs) =
      round-Holds (inorder w ++ (pe ∷ inorder x)) fs (λ t. rb_delete_fix_up t fs)
        (repair_right x c pe w) (λ t. rb_delete_fix_up-Holds t fs) (repair_right-Holds x c pe w)

  splice_out-Holds :
      (c : Color) (l r : Tree E) (fs : List (Frame E))
      → (l ≡ leaf) ⊎ (r ≡ leaf)
      → Holds (around fs (inorder l ++ inorder r)) (splice_out c l r fs)
  unfolding splice_out inorder
  splice_out-Holds red leaf r fs h = inorder-plug r fs
  splice_out-Holds black leaf r fs h = rb_delete_fix_up-Holds r fs
  splice_out-Holds red (node d a b f) leaf fs h =
      inorder-plug (node d a b f) fs ∙ ap (around fs) (sym (append-nil _))
  splice_out-Holds black (node d a b f) leaf fs h =
      subst (λ ys. Holds (around fs ys) (rb_delete_fix_up (node d a b f) fs)) (sym (append-nil _))
        (rb_delete_fix_up-Holds (node d a b f) fs)
  splice_out-Holds c (node d a b f) (node d' a' b' f') fs h = ground arith

  -- Taking the leftmost node out of a subtree drops its first entry.
  leftmost_dropped :
      (c : Color) (l : Tree E) (e : E) (r : Tree E) (fs : List (Frame E))
      → let y = leftmost c l e r fs in
        (ys : List E) × (inorder l ++ (e ∷ inorder r) ≡ y.entry ∷ ys)
        × (around y.above (inorder y.left ++ inorder y.right) ≡ around fs ys)
        × (y.left ≡ leaf)
  unfolding leftmost inorder around
  leftmost_dropped c leaf e r fs = (inorder r, refl, refl, refl)
  leftmost_dropped c (node lc ll le lr) e r fs =
      let (ys, first, rest, bare) = leftmost_dropped lc ll le lr (left_of c e r ∷ fs) in
      (ys ++ (e ∷ inorder r), ap (λ zs. zs ++ (e ∷ inorder r)) first, rest, bare)

  take_place-mark : (y : E) (xs : List E) → map (take_place y) (map mark xs) ≡ xs
  unfolding take_place mark
  take_place-mark y [] = refl
  take_place-mark y (x ∷ xs) = ap (λ zs. x ∷ zs) (take_place-mark y xs)

module _ {ℓ κ} {E : Type ℓ} {F : Type κ} (f : E → F) where
  inorder-map_tree : (t : Tree E) → inorder (map_tree f t) ≡ map f (inorder t)
  unfolding inorder map_tree
  inorder-map_tree leaf = refl
  inorder-map_tree (node c l e r) = simp (inorder-map_tree l, inorder-map_tree r, map-append)

module _ {ℓ} {E : Type ℓ} (y : E) where
  map-around :
      (fs : List (Frame E)) (xs : List (Bool × E))
      → map (take_place y) (around (map (map_frame mark) fs) xs) ≡ around fs (map (take_place y) xs)
  unfolding around map_frame mark take_place
  map-around [] xs = refl
  map-around (left_of c e r ∷ fs) xs =
      map-around fs (xs ++ ((false, e) ∷ inorder (map_tree mark r)))
      ∙ ap (around fs) (simp (map-append, inorder-map_tree, take_place-mark))
  map-around (right_of c l e ∷ fs) xs =
      map-around fs (inorder (map_tree mark l) ++ ((false, e) ∷ xs))
      ∙ ap (around fs) (simp (map-append, inorder-map_tree, take_place-mark))

  Holds-map_tree :
      (xs : List (Bool × E)) (o : Option (Tree (Bool × E)))
      → Holds xs o
      → Holds (map (take_place y) xs) (o >>= λ t. some (map_tree (take_place y) t))
  Holds-map_tree xs none h = tt
  Holds-map_tree xs (some t) h = inorder-map_tree (take_place y) t ∙ ap (map (take_place y)) h

module _ {ℓ} {E : Type ℓ} where
  take_place_own : (y : Bool × E) → take_place y.1 y ≡ y.1
  unfolding take_place
  take_place_own (true, e) = refl
  take_place_own (false, e) = refl

  -- With the marks gone, the successor stands in the place of the marked entry and is missing
  -- from its own.
  moved :
      (l r : Tree E) (e : E) (fs : List (Frame E)) (y : Bool × E) (ys : List (Bool × E))
      → inorder (map_tree mark r) ≡ y ∷ ys
      → map
          (take_place y.1)
          (around (map (map_frame mark) fs) (inorder (map_tree mark l) ++ ((true, e) ∷ ys)))
        ≡ around fs (inorder l ++ inorder r)
  unfolding take_place
  moved l r e fs y ys h =
      let same : inorder r ≡ y.1 ∷ map (take_place y.1) ys =
        sym (take_place-mark y.1 (inorder r))
        ∙ ap (map (take_place y.1)) (sym (inorder-map_tree mark r) ∙ h)
        ∙ ap (λ z. z ∷ map (take_place y.1) ys) (take_place_own y) in
      map-around y.1 fs (inorder (map_tree mark l) ++ ((true, e) ∷ ys))
      ∙ ap (around fs) (rw same (simp (map-append, inorder-map_tree, take_place-mark)))

  delete_at-Holds :
      (c : Color) (l : Tree E) (e : E) (r : Tree E) (fs : List (Frame E))
      → Holds (around fs (inorder l ++ inorder r)) (delete_at c l e r fs)
  unfolding delete_at around inorder
  delete_at-Holds c leaf e r fs = splice_out-Holds c leaf r fs (inl refl)
  delete_at-Holds c (node lc ll le lr) e leaf fs =
      splice_out-Holds c (node lc ll le lr) leaf fs (inr refl)
  delete_at-Holds c (node lc ll le lr) e (node rc rl re rr) fs =
      let z = right_of c (map_tree mark (node lc ll le lr)) (true, e) in
      let above = z ∷ map (map_frame mark) fs in
      let y = leftmost rc (map_tree mark rl) (mark re) (map_tree mark rr) above in
      let (ys, first, rest, bare) =
        leftmost_dropped rc (map_tree mark rl) (mark re) (map_tree mark rr) above in
      subst
        (λ zs. Holds zs (
          splice_out y.color y.left y.right y.above >>= λ t.
          some (map_tree (take_place y.entry.1) t)))
        (ap (map (take_place y.entry.1)) rest
          ∙ moved (node lc ll le lr) (node rc rl re rr) e fs y.entry ys first)
        (Holds-map_tree y.entry.1 (around y.above (inorder y.left ++ inorder y.right))
          (splice_out y.color y.left y.right y.above)
          (splice_out-Holds y.color y.left y.right y.above (inl bare)))

  -- A deletion that does not fault takes the entry at the pointer out of the sequence of entries,
  -- and keeps all others in their order.
  pub inorder-rb_delete :
      (z : Pointer E) (u : Tree E)
      → rb_delete z ≡ some u
      → inorder u ≡ around z.above (inorder z.left ++ inorder z.right)
  unfolding rb_delete
  inorder-rb_delete z u h = rw h at (delete_at-Holds z.color z.left z.entry z.right z.above)
