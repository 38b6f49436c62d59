-- ===== src/Tree/Table/Laws.antt =====
-- The laws of the tree as a finite map.
use mathlib.Core.Path.{subst, fun_ext}
use mathlib.Core.List.{append-nil}
use band_width_limiter.Base.{
  ℕ, ◌≡◌, refl, sym, ap, ◌∙◌, Option, none, some, List, [], ◌∷◌, ◌++◌, append_assoc, arith,
  Ordering-cases, inl, inr,
}
use band_width_limiter.Tree.Order.{Ord}
use band_width_limiter.Tree.Shape.{
  Color, Tree, leaf, node, Frame, left_of, right_of, Pointer, whole, here, plug, with_info,
  set_info, inorder, around, inorder-plug,
}
use band_width_limiter.Tree.Balance.{IsRedBlack, Balanced, red_node, black_node, unplug, replug}
use band_width_limiter.Tree.Query.{query_from, rb_exact_query}
use band_width_limiter.Tree.Query.Laws.{rb_exact_query_sound}
use band_width_limiter.Tree.Insert.{rb_tree_insert}
use band_width_limiter.Tree.Insert.Content.{inorder-rb_tree_insert}
use band_width_limiter.Tree.Insert.Balance.{rb_tree_insert-IsRedBlack}
use band_width_limiter.Tree.Delete.{rb_delete}
use band_width_limiter.Tree.Delete.Content.{inorder-rb_delete}
use band_width_limiter.Tree.Delete.Balance.{rb_delete-IsRedBlack}
use band_width_limiter.Tree.Table.Keys.{
  Increasing, lookup, update, lookup-append, lookup_before, lookup_at, lookup_behind,
  Increasing-left, Increasing-right, Increasing-before, Increasing-remove, Increasing-store,
  Increasing-place, Increasing-IsSorted, lookup-place, lookup-store, lookup-remove,
}

module _ {ℓ} {E : Type ℓ} where
  -- The frames put some entries before those of the subtree, and some behind.
  ends :
      (fs : List (Frame E))
      → (pre : List E) × (post : List E) × ((xs : List E) → around fs xs ≡ pre ++ (xs ++ post))
  unfolding around
  ends [] = ([], [], λ xs. sym (append-nil xs))
  ends (left_of c e r ∷ fs) =
      let (pre, post, split) = ends fs in
      (pre, e ∷ (inorder r ++ post), λ xs. split (xs ++ (e ∷ inorder r)) ∙ simp append_assoc)
  ends (right_of c l e ∷ fs) =
      let (pre, post, split) = ends fs in
      (
        pre ++ (inorder l ++ (e ∷ [])),
        post,
        λ xs. split (inorder l ++ (e ∷ xs)) ∙ simp append_assoc,
      )

  renamed :
      {c c' : Color} {n : ℕ} {l r : Tree E} {d e : E}
      → Balanced c n (node c' l d r)
      → Balanced c n (node c' l e r)
  renamed (red_node a b) = red_node a b
  renamed (black_node a b) = black_node a b

module _ {ℓ κ} {K : Type ℓ} {V : Type κ} ⦃o : Ord K⦄ where
  -- A red-black search tree with distinct keys.
  pub record IsTable (t : Tree (K × V)) : Type (ℓ ⊔ κ) where
    pub increasing : Increasing (inorder t)
    pub balanced : IsRedBlack t

  -- The value that a lookup leads to.
  abbrev pub info_of : Option (Pointer (K × V)) → Option V
  info_of none = none
  info_of (some p) = some p.entry.1

  abbrev pub find : Tree (K × V) → K → Option V
  find t q = info_of (rb_exact_query t q)

  query_from-lookup :
      (t : Tree (K × V)) (q : K) (fs : List (Frame (K × V)))
      → Increasing (inorder t)
      → info_of (query_from t q fs) ≡ lookup (inorder t) q
  unfolding query_from inorder lookup
  query_from-lookup leaf q fs s = refl
  query_from-lookup (node c l e r) q fs s =
      let rest = Increasing-right (inorder l) (e ∷ inorder r) s in
      let first = Increasing-before (inorder l) e (inorder r) s in
      ground (
        arith,
        lookup-append (inorder l) (e ∷ inorder r) q,
        query_from-lookup l q (left_of c e r ∷ fs) (Increasing-left (inorder l) (e ∷ inorder r) s),
        query_from-lookup r q (right_of c l e ∷ fs) rest.1,
        lookup_before q e.0 (inorder l),
        lookup_at q e.0 (inorder l),
        lookup_behind q e.0 (inorder r),
        rest.0,
        first,
        o.eq_of_cmp e.0 q,
        o.lt_of_gt e.0 q,
      )

  -- In a table a lookup in the tree is a lookup in the sequence of entries.
  pub find-lookup : {t : Tree (K × V)} (q : K) → IsTable t → find t q ≡ lookup (inorder t) q
  unfolding rb_exact_query
  find-lookup {t} q h = query_from-lookup t q [] h.increasing

  pub missing :
      {t : Tree (K × V)} (k : K)
      → IsTable t
      → rb_exact_query t k ≡ none
      → lookup (inorder t) k ≡ none
  missing k h e = sym (find-lookup k h) ∙ ap info_of e

  -- A tree whose entries read as a change of those of `t` is that change of the finite map.
  reads :
      {t u : Tree (K × V)} (k : K) (v : Option V) (q : K) {xs : List (K × V)}
      → IsTable u
      → IsTable t
      → inorder u ≡ xs
      → lookup xs q ≡ update (lookup (inorder t)) k v q
      → find u q ≡ update (find t) k v q
  reads {t} k v q hu ht order e =
      find-lookup q hu
      ∙ subst (λ xs. lookup xs q ≡ update (find t) k v q) (sym order)
          (e ∙ ap (λ f. update f k v q) (sym (fun_ext λ x. find-lookup x ht)))

  set_info-IsRedBlack :
      (p : Pointer (K × V)) (v : V) → IsRedBlack (whole p) → IsRedBlack (set_info p v)
  unfolding set_info
  set_info-IsRedBlack p v h =
      let (c, d, n, b, above, u) = unplug (here p) p.above h in replug d p.above (renamed b) above u

  -- The entries before and behind a node that was looked up, and what a write and a deletion there
  -- make of the sequence.
  pub pointed :
      (t : Tree (K × V)) (k : K) (p : Pointer (K × V))
      → rb_exact_query t k ≡ some p
      → (pre : List (K × V)) × (post : List (K × V)) × (inorder t ≡ pre ++ ((k, p.entry.1) ∷ post))
        × ((v : V) → inorder (set_info p v) ≡ pre ++ ((k, v) ∷ post))
        × ((u : Tree (K × V)) → rb_delete p ≡ some u → inorder u ≡ pre ++ post)
  unfolding set_info inorder
  pointed t k p e =
      let (pre, post, split) = ends p.above in
      let (same, key) = rb_exact_query_sound t k e in
      (
        pre ++ inorder p.left,
        inorder p.right ++ post,
        ap inorder (sym same)
            ∙ inorder-plug (here p) p.above
            ∙ split (inorder (here p))
            ∙ rw (← key) (simp append_assoc),
        λ v.
            inorder-plug (node p.color p.left (p.entry.0, v) p.right) p.above
            ∙ split (inorder p.left ++ ((p.entry.0, v) ∷ inorder p.right))
            ∙ rw (← key) (simp append_assoc),
        λ u got.
            inorder-rb_delete p u got
            ∙ split (inorder p.left ++ inorder p.right)
            ∙ simp append_assoc,
      )

  query_from-set_info :
      (t : Tree (K × V)) (q : K) (fs : List (Frame (K × V))) (p : Pointer (K × V)) (v : V)
      → query_from t q fs ≡ some p
      → (u : Tree (K × V)) × (set_info p v ≡ plug u fs) × (query_from u q fs ≡ some (with_info p v))
  unfolding query_from set_info plug
  query_from-set_info leaf q fs p v h = absurd (ground arith)
  query_from-set_info (node c l e r) q fs p v h = elim (Ordering-cases (o.cmp e.0 q)) [
    | inl less ↦
        let (u, same, got) = query_from-set_info r q (right_of c l e ∷ fs) p v (ground arith) in
        (node c l e u, same, rw (less, query_from) got)
    | inr (inl equal) ↦ (node c l (e.0, v) r, ground arith, rw (equal, query_from) (ground arith))
    | inr (inr greater) ↦
        let (u, same, got) = query_from-set_info l q (left_of c e r ∷ fs) p v (ground arith) in
        (node c u e r, same, rw (greater, query_from) got)
  ]

  -- The node is found again, with its new `info`.
  pub rb_exact_query-set_info :
      (t : Tree (K × V)) (k : K) (p : Pointer (K × V)) (v : V)
      → rb_exact_query t k ≡ some p
      → rb_exact_query (set_info p v) k ≡ some (with_info p v)
  unfolding rb_exact_query plug
  rb_exact_query-set_info t k p v h =
      let (u, same, got) = query_from-set_info t k [] p v h in rw same got

  -- In a red-black search tree with distinct keys, inserting a missing key returns such a tree,
  -- which as a finite map is the old one changed at that key.
  pub find-insert :
      (t : Tree (K × V)) (k : K) (v : V)
      → IsTable t
      → rb_exact_query t k ≡ none
      → (u : Tree (K × V)) × (rb_tree_insert t k v ≡ some u)
        × IsTable u
        × ((q : K) → find u q ≡ update (find t) k (some v) q)
  find-insert t k v h e =
      let (u, got, balanced) = rb_tree_insert-IsRedBlack t k v h.balanced in
      let order =
        inorder-rb_tree_insert t u k v (Increasing-IsSorted (inorder t) h.increasing) got in
      let table : IsTable u = record {
        increasing = rw order (Increasing-place k v (inorder t) h.increasing (missing k h e));
        balanced = balanced;
      } in
      (
        u,
        got,
        table,
        λ q. reads k (some v) q table h order (lookup-place k v (inorder t) q (missing k h e)),
      )

  -- In a red-black search tree with distinct keys, writing the `info` of the node that the lookup
  -- of a key found gives such a tree, which as a finite map is the old one changed at that key.
  pub find-set_info :
      (t : Tree (K × V)) (k : K) (p : Pointer (K × V)) (v : V)
      → IsTable t
      → rb_exact_query t k ≡ some p
      → IsTable (set_info p v) × ((q : K) → find (set_info p v) q ≡ update (find t) k (some v) q)
  find-set_info t k p v h e =
      let (pre, post, at, stored, removed) = pointed t k p e in
      let order = stored v in
      let table : IsTable (set_info p v) = record {
        increasing =
            subst Increasing (sym order)
              (Increasing-store pre k p.entry.1 v post (subst Increasing at h.increasing));
        balanced =
            set_info-IsRedBlack p v
              (subst IsRedBlack (sym (rb_exact_query_sound t k e).0) h.balanced);
      } in
      (
        table,
        λ q. reads k (some v) q table h order (
            lookup-store pre k p.entry.1 v post q (subst Increasing at h.increasing)
            ∙ ap (λ xs. update (lookup xs) k (some v) q) (sym at)),
      )

  -- In a red-black search tree with distinct keys, deleting the node that the lookup of a key
  -- found returns such a tree, which as a finite map is the old one without that key.
  pub find-delete :
      (t : Tree (K × V)) (k : K) (p : Pointer (K × V))
      → IsTable t
      → rb_exact_query t k ≡ some p
      → (u : Tree (K × V)) × (rb_delete p ≡ some u)
        × IsTable u
        × ((q : K) → find u q ≡ update (find t) k none q)
  find-delete t k p h e =
      let (pre, post, at, stored, removed) = pointed t k p e in
      let (u, got, balanced) =
        rb_delete-IsRedBlack p (subst IsRedBlack (sym (rb_exact_query_sound t k e).0) h.balanced) in
      let order = removed u got in
      let table : IsTable u = record {
        increasing =
            subst Increasing (sym order)
              (Increasing-remove pre (k, p.entry.1) post (subst Increasing at h.increasing));
        balanced = balanced;
      } in
      (
        u,
        got,
        table,
        λ q. reads k none q table h order (
            lookup-remove pre k p.entry.1 post q (subst Increasing at h.increasing)
            ∙ ap (λ xs. update (lookup xs) k none q) (sym at)),
      )
