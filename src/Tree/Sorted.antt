-- ===== src/Tree/Sorted.antt =====
-- Sequences of entries in key order, and the two changes that the tree makes to them. Equal keys
-- are allowed: `rb_tree_insert` puts a new entry behind the entries of the same key.
use Prim.Native.Nat.Ordering.{gt}
use band_width_limiter.Base.{
  ◌≡◌, ◌≢◌, refl, List, [], ◌∷◌, ◌++◌, arith, All, All-append, All-left, All-right, All-imp,
}
use band_width_limiter.Tree.Order.{Ord}

module _ {ℓ} {K : Type ℓ} ⦃o : Ord K⦄ where
  -- The key `a` is not greater than `b`.
  infix 50 ◌≼◌
  abbrev pub ◌≼◌ : K → K → Type 0
  a ≼ b = o.cmp a b ≢ gt

  pub ≼_trans : (a b c : K) → a ≼ b → b ≼ c → a ≼ c
  ≼_trans a b c h k = grind (arith, o.eq_of_cmp, o.lt_of_gt, o.gt_of_lt, o.gt_trans)

  pub ≼_of_gt : (a b : K) → o.cmp a b ≡ gt → b ≼ a
  ≼_of_gt a b h = ground (arith, o.lt_of_gt a b h)

module _ {ℓ κ} {K : Type ℓ} {V : Type κ} ⦃o : Ord K⦄ where
  abbrev pub IsSorted : List (K × V) → Type (ℓ ⊔ κ)
  IsSorted [] = Unit
  IsSorted (e ∷ es) = All (λ d. e.0 ≼ d.0) es × IsSorted es

  -- The new entry goes before the first entry with a greater key.
  unfoldable pub place : K → V → List (K × V) → List (K × V)
  place k v [] = (k, v) ∷ []
  place k v (e ∷ es) = elim (o.cmp e.0 k) [ gt ↦ (k, v) ∷ e ∷ es | _ ↦ e ∷ place k v es ]

  pub place-append_gt :
      (k : K) (v : V) (xs : List (K × V)) (e : K × V) (ys : List (K × V))
      → o.cmp e.0 k ≡ gt
      → place k v (xs ++ (e ∷ ys)) ≡ place k v xs ++ (e ∷ ys)
  unfolding place
  place-append_gt k v [] e ys h = ground arith
  place-append_gt k v (x ∷ xs) e ys h = ground (arith, place-append_gt k v xs e ys h)

  pub place-append :
      (k : K) (v : V) (xs ys : List (K × V))
      → All (λ d. d.0 ≼ k) xs
      → place k v (xs ++ ys) ≡ xs ++ place k v ys
  unfolding place
  place-append k v [] ys h = refl
  place-append k v (x ∷ xs) ys h = ground (arith, place-append k v xs ys h.1)

  pub All-place {μ} :
      (P : K × V → Type μ) (k : K) (v : V) (xs : List (K × V))
      → P (k, v)
      → All P xs
      → All P (place k v xs)
  unfolding place
  All-place P k v [] p h = (p, tt)
  All-place P k v (x ∷ xs) p h = ground (arith, All-place P k v xs p h.1)

  pub IsSorted-left : (xs ys : List (K × V)) → IsSorted (xs ++ ys) → IsSorted xs
  IsSorted-left [] ys s = tt
  IsSorted-left (x ∷ xs) ys s = (All-left _ xs ys s.0, IsSorted-left xs ys s.1)

  pub IsSorted-right : (xs ys : List (K × V)) → IsSorted (xs ++ ys) → IsSorted ys
  IsSorted-right [] ys s = s
  IsSorted-right (x ∷ xs) ys s = IsSorted-right xs ys s.1

  pub IsSorted-before :
      (xs : List (K × V)) (e : K × V) (ys : List (K × V))
      → IsSorted (xs ++ (e ∷ ys))
      → All (λ d. d.0 ≼ e.0) xs
  IsSorted-before [] e ys s = tt
  IsSorted-before (x ∷ xs) e ys s = ((All-right _ xs (e ∷ ys) s.0).0, IsSorted-before xs e ys s.1)

  -- Taking an entry out keeps the order.
  pub IsSorted-remove :
      (xs : List (K × V)) (e : K × V) (ys : List (K × V))
      → IsSorted (xs ++ (e ∷ ys))
      → IsSorted (xs ++ ys)
  IsSorted-remove [] e ys s = s.1
  IsSorted-remove (x ∷ xs) e ys s = (
    All-append _ xs ys (All-left _ xs (e ∷ ys) s.0) (All-right _ xs (e ∷ ys) s.0).1,
    IsSorted-remove xs e ys s.1,
  )

  -- Placing an entry keeps the order.
  pub place-IsSorted : (k : K) (v : V) (xs : List (K × V)) → IsSorted xs → IsSorted (place k v xs)
  unfolding place
  place-IsSorted k v [] s = (tt, tt)
  place-IsSorted k v (x ∷ xs) s = ground (
    arith,
    All-place (λ d. x.0 ≼ d.0) k v xs,
    place-IsSorted k v xs s.1,
    ≼_of_gt x.0 k,
    λ (h : k ≼ x.0). All-imp (λ d b. ≼_trans k x.0 d.0 h b) xs s.0,
  )
