-- ===== src/Tree/Query/Laws.antt =====
-- What the lookup and the two neighbour walks return.
use Prim.Native.Nat.Ordering.{lt, gt}
use mathlib.Core.Path.{subst}
use band_width_limiter.Base.{
  ◌≡◌, ◌≢◌, sym, none, some, List, [], ◌∷◌, arith, All, All-append, All-imp,
}
use band_width_limiter.Tree.Order.{Ord}
use band_width_limiter.Tree.Shape.{
  Tree, leaf, node, Frame, left_of, right_of, Pointer, plug, whole, inorder,
}
use band_width_limiter.Tree.Sorted.{◌≼◌, IsSorted, IsSorted-left, IsSorted-right, IsSorted-before}
use band_width_limiter.Tree.Query.{query_from, rb_exact_query}

module _ {ℓ} {K : Type ℓ} ⦃o : Ord K⦄ where
  ne_of_lt : (x e q : K) → x ≼ e → o.cmp e q ≡ lt → x ≢ q
  ne_of_lt x e q b h p = b (subst (λ y. o.cmp y e ≡ gt) (sym p) (o.gt_of_lt e q h))

  ne_of_gt : (x e q : K) → e ≼ x → o.cmp e q ≡ gt → x ≢ q
  ne_of_gt x e q b h p = b (subst (λ y. o.cmp e y ≡ gt) (sym p) h)

module _ {ℓ κ} {K : Type ℓ} {V : Type κ} ⦃o : Ord K⦄ where
  query_from_sound :
      (t : Tree (K × V)) (q : K) (fs : List (Frame (K × V))) (p : Pointer (K × V))
      → query_from t q fs ≡ some p
      → (whole p ≡ plug t fs) × (p.entry.0 ≡ q)
  unfolding query_from whole plug
  query_from_sound leaf q fs p h = cc
  query_from_sound (node c l e r) q fs p h = ground (
    arith,
    query_from_sound l q (left_of c e r ∷ fs) p,
    query_from_sound r q (right_of c l e ∷ fs) p,
    o.eq_of_cmp e.0 q,
  )

  -- A pointer returned by `rb_exact_query` is into the tree given, at a node with the key asked
  -- for.
  pub rb_exact_query_sound :
      (t : Tree (K × V)) (q : K) {p : Pointer (K × V)}
      → rb_exact_query t q ≡ some p
      → (whole p ≡ t) × (p.entry.0 ≡ q)
  unfolding rb_exact_query plug
  rb_exact_query_sound t q h = query_from_sound t q [] _ h

  -- The key of no entry in this list is `q`.
  abbrev Misses : K → List (K × V) → Type ℓ
  Misses q xs = All (λ d. d.0 ≢ q) xs

  Misses-before :
      (q e : K) (xs : List (K × V)) → o.cmp e q ≡ lt → All (λ d. d.0 ≼ e) xs → Misses q xs
  Misses-before q e xs h b = All-imp (λ d c. ne_of_lt d.0 e q c h) xs b

  Misses-behind :
      (q e : K) (xs : List (K × V)) → o.cmp e q ≡ gt → All (λ d. e ≼ d.0) xs → Misses q xs
  Misses-behind q e xs h b = All-imp (λ d c. ne_of_gt d.0 e q c h) xs b

  query_from_complete :
      (t : Tree (K × V)) (q : K) (fs : List (Frame (K × V)))
      → IsSorted (inorder t)
      → query_from t q fs ≡ none
      → Misses q (inorder t)
  unfolding query_from inorder
  query_from_complete leaf q fs s h = tt
  query_from_complete (node c l e r) q fs s h =
      let after = IsSorted-right (inorder l) (e ∷ inorder r) s in
      ground (
        arith,
        query_from_complete l q (left_of c e r ∷ fs) (IsSorted-left (inorder l) (e ∷ inorder r) s),
        query_from_complete r q (right_of c l e ∷ fs) after.1,
        Misses-before q e.0 (inorder l),
        Misses-behind q e.0 (inorder r),
        IsSorted-before (inorder l) e (inorder r) s,
        after.0,
        All-append (λ d. d.0 ≢ q) (inorder l) (e ∷ inorder r),
        o.cmp_refl q,
      )

  -- In a tree in key order, `rb_exact_query` returns NULL only if no entry has the key.
  pub rb_exact_query_complete :
      (t : Tree (K × V)) (q : K)
      → IsSorted (inorder t)
      → rb_exact_query t q ≡ none
      → Misses q (inorder t)
  unfolding rb_exact_query
  rb_exact_query_complete t q s h = query_from_complete t q [] s h
