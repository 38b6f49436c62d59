-- ===== src/Tree/Table/Keys.antt =====
-- Sequences of entries with distinct keys in increasing order, and lookup in such a sequence.
use Prim.Native.Nat.Ordering.{lt, eq}
use mathlib.Core.Path.{subst}
use band_width_limiter.Base.{
  ◌≡◌, ◌≢◌, ◌⊎◌, inl, inr, Ordering-cases, refl, Option, none, some, List, [], ◌∷◌, ◌++◌, arith,
  All, All-append, All-left, All-right, All-imp,
}
use band_width_limiter.Tree.Order.{Ord}
use band_width_limiter.Tree.Sorted.{IsSorted, place, All-place}

module _ {ℓ} {K : Type ℓ} ⦃o : Ord K⦄ where
  infix 50 ◌≺◌
  abbrev pub ◌≺◌ : K → K → Type 0
  a ≺ b = o.cmp a b ≡ lt

  pub ≺_trans : (a b c : K) → a ≺ b → b ≺ c → a ≺ c
  ≺_trans a b c h k =
      ground (arith, o.gt_of_lt a b h, o.gt_of_lt b c k, o.gt_trans c b a, o.lt_of_gt c a)

abbrev pub or_else {ℓ} : {V : Type ℓ} → Option V → Option V → Option V
or_else (some v) w = some v
or_else none w = w

module _ {ℓ κ} {K : Type ℓ} {V : Type κ} ⦃o : Ord K⦄ where
  abbrev pub Increasing : List (K × V) → Type 0
  Increasing [] = Unit
  Increasing (e ∷ es) = All (λ d. e.0 ≺ d.0) es × Increasing es

  -- The value at a key.
  unfoldable pub lookup : List (K × V) → K → Option V
  lookup [] q = none
  lookup (e ∷ es) q = elim (o.cmp e.0 q) [ eq ↦ some e.1 | _ ↦ lookup es q ]

  -- A change of a finite map at one key.
  abbrev pub update : (K → Option V) → K → Option V → K → Option V
  update f k v q = elim (o.cmp k q) [ eq ↦ v | _ ↦ f q ]

  -- The two cases of a read after an update.
  pub update-cases :
      (f : K → Option V) (k : K) (v : Option V) (q : K)
      → ((k ≡ q) × (update f k v q ≡ v)) ⊎ ((o.cmp k q ≢ eq) × (update f k v q ≡ f q))
  update-cases f k v q = elim (Ordering-cases (o.cmp k q)) [
    | inl e ↦ inr (ground arith, rw (e, update))
    | inr (inl e) ↦ inl (o.eq_of_cmp k q e, rw (e, update))
    | inr (inr e) ↦ inr (ground arith, rw (e, update))
  ]

  pub update_self : (f : K → Option V) (k : K) (v : Option V) → update f k v k ≡ v
  update_self f k v = rw (o.cmp_refl k, update)

  pub update_twice :
      (f g : K → Option V) (k : K) (v w : Option V)
      → ((q : K) → g q ≡ update f k v q)
      → (q : K) → update g k w q ≡ update f k w q
  update_twice f g k v w h q = ground (arith, h q)

  pub lookup-append :
      (xs ys : List (K × V)) (q : K) → lookup (xs ++ ys) q ≡ or_else (lookup xs q) (lookup ys q)
  unfolding lookup
  lookup-append [] ys q = refl
  lookup-append (x ∷ xs) ys q = ground (arith, lookup-append xs ys q)

  pub lookup_before :
      (q e : K) (xs : List (K × V)) → e ≺ q → All (λ d. d.0 ≺ e) xs → lookup xs q ≡ none
  unfolding lookup
  lookup_before q e [] h b = refl
  lookup_before q e (x ∷ xs) h b = ground (arith, ≺_trans x.0 e q b.0 h, lookup_before q e xs h b.1)

  pub lookup_at : (q e : K) (xs : List (K × V)) → e ≡ q → All (λ d. d.0 ≺ e) xs → lookup xs q ≡ none
  unfolding lookup
  lookup_at q e [] p b = refl
  lookup_at q e (x ∷ xs) p b = ground (arith, subst (λ k. x.0 ≺ k) p b.0, lookup_at q e xs p b.1)

  pub lookup_behind :
      (q e : K) (xs : List (K × V)) → q ≺ e → All (λ d. e ≺ d.0) xs → lookup xs q ≡ none
  unfolding lookup
  lookup_behind q e [] h b = refl
  lookup_behind q e (x ∷ xs) h b =
      ground (arith, o.gt_of_lt q x.0 (≺_trans q e x.0 h b.0), lookup_behind q e xs h b.1)

  pub lookup_from :
      (q e : K) (xs : List (K × V)) → e ≡ q → All (λ d. e ≺ d.0) xs → lookup xs q ≡ none
  unfolding lookup
  lookup_from q e [] p b = refl
  lookup_from q e (x ∷ xs) p b =
      ground (arith, o.gt_of_lt q x.0 (subst (λ k. k ≺ x.0) p b.0), lookup_from q e xs p b.1)

  pub Increasing-left : (xs ys : List (K × V)) → Increasing (xs ++ ys) → Increasing xs
  Increasing-left [] ys s = tt
  Increasing-left (x ∷ xs) ys s = (All-left _ xs ys s.0, Increasing-left xs ys s.1)

  pub Increasing-right : (xs ys : List (K × V)) → Increasing (xs ++ ys) → Increasing ys
  Increasing-right [] ys s = s
  Increasing-right (x ∷ xs) ys s = Increasing-right xs ys s.1

  pub Increasing-before :
      (xs : List (K × V)) (e : K × V) (ys : List (K × V))
      → Increasing (xs ++ (e ∷ ys))
      → All (λ d. d.0 ≺ e.0) xs
  Increasing-before [] e ys s = tt
  Increasing-before (x ∷ xs) e ys s =
      ((All-right _ xs (e ∷ ys) s.0).0, Increasing-before xs e ys s.1)

  pub Increasing-remove :
      (xs : List (K × V)) (e : K × V) (ys : List (K × V))
      → Increasing (xs ++ (e ∷ ys))
      → Increasing (xs ++ ys)
  Increasing-remove [] e ys s = s.1
  Increasing-remove (x ∷ xs) e ys s = (
    All-append _ xs ys (All-left _ xs (e ∷ ys) s.0) (All-right _ xs (e ∷ ys) s.0).1,
    Increasing-remove xs e ys s.1,
  )

  -- A new value at an old key.
  pub Increasing-store :
      (xs : List (K × V)) (k : K) (v w : V) (ys : List (K × V))
      → Increasing (xs ++ ((k, v) ∷ ys))
      → Increasing (xs ++ ((k, w) ∷ ys))
  Increasing-store [] k v w ys s = s
  Increasing-store (x ∷ xs) k v w ys s = (
    All-append _ xs ((k, w) ∷ ys) (All-left _ xs ((k, v) ∷ ys) s.0)
        (All-right _ xs ((k, v) ∷ ys) s.0),
    Increasing-store xs k v w ys s.1,
  )

  pub Increasing-place :
      (k : K) (v : V) (xs : List (K × V))
      → Increasing xs
      → lookup xs k ≡ none
      → Increasing (place k v xs)
  unfolding place lookup
  Increasing-place k v [] s h = (tt, tt)
  Increasing-place k v (x ∷ xs) s h = ground (
    arith,
    All-place (λ d. x.0 ≺ d.0) k v xs,
    Increasing-place k v xs s.1,
    o.lt_of_gt x.0 k,
    λ (b : k ≺ x.0). All-imp (λ d c. ≺_trans k x.0 d.0 b c) xs s.0,
  )

  pub Increasing-IsSorted : (xs : List (K × V)) → Increasing xs → IsSorted xs
  Increasing-IsSorted [] s = tt
  Increasing-IsSorted (x ∷ xs) s =
      (All-imp (λ d h. ground arith) xs s.0, Increasing-IsSorted xs s.1)

  pub lookup-place :
      (k : K) (v : V) (xs : List (K × V)) (q : K)
      → lookup xs k ≡ none
      → lookup (place k v xs) q ≡ update (lookup xs) k (some v) q
  unfolding place lookup
  lookup-place k v [] q h = refl
  lookup-place k v (x ∷ xs) q h =
      ground (arith, lookup-place k v xs q, o.eq_of_cmp k q, o.eq_of_cmp x.0 q)

  pub lookup-store :
      (xs : List (K × V)) (k : K) (v w : V) (ys : List (K × V)) (q : K)
      → Increasing (xs ++ ((k, v) ∷ ys))
      → lookup (xs ++ ((k, w) ∷ ys)) q ≡ update (lookup (xs ++ ((k, v) ∷ ys))) k (some w) q
  unfolding lookup
  lookup-store [] k v w ys q s = ground arith
  lookup-store (x ∷ xs) k v w ys q s =
      let before = (All-right _ xs ((k, v) ∷ ys) s.0).0 in
      ground (
        arith,
        lookup-store xs k v w ys q s.1,
        o.eq_of_cmp k q,
        o.eq_of_cmp x.0 q,
        before,
        o.gt_of_lt x.0 k before,
      )

  pub lookup-remove :
      (xs : List (K × V)) (k : K) (v : V) (ys : List (K × V)) (q : K)
      → Increasing (xs ++ ((k, v) ∷ ys))
      → lookup (xs ++ ys) q ≡ update (lookup (xs ++ ((k, v) ∷ ys))) k none q
  unfolding lookup
  lookup-remove [] k v ys q s =
      ground (arith, lookup_behind q k ys, o.eq_of_cmp k q, lookup_from q k ys, s.0)
  lookup-remove (x ∷ xs) k v ys q s =
      let before = (All-right _ xs ((k, v) ∷ ys) s.0).0 in
      ground (
        arith,
        lookup-remove xs k v ys q s.1,
        o.eq_of_cmp k q,
        o.eq_of_cmp x.0 q,
        before,
        o.gt_of_lt x.0 k before,
      )
