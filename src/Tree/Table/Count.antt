-- ===== src/Tree/Table/Count.antt =====
-- How many entries of a table have a property, under the changes of the table.
use band_width_limiter.Base.{
  ℕ, zero, suc, ◌+◌, ◌≤◌, ◌≡◌, refl, sym, ap, ◌∙◌, Bool, true, some, List, [], ◌∷◌, ◌++◌, arith,
  ◌⊎◌, inl, inr, Bool-cases, if◌then◌else◌,
}
use band_width_limiter.Tree.Order.{Ord}
use band_width_limiter.Tree.Shape.{Tree, Pointer, set_info, inorder}
use band_width_limiter.Tree.Sorted.{place}
use band_width_limiter.Tree.Query.{rb_exact_query}
use band_width_limiter.Tree.Insert.{rb_tree_insert}
use band_width_limiter.Tree.Insert.Content.{inorder-rb_tree_insert}
use band_width_limiter.Tree.Delete.{rb_delete}
use band_width_limiter.Tree.Table.Keys.{lookup, Increasing, Increasing-IsSorted, lookup_from}
use band_width_limiter.Tree.Table.Laws.{IsTable, find, find-lookup, pointed}

module _ {ℓ κ} {K : Type ℓ} {V : Type κ} where
  -- The number of entries whose value passes a test.
  unfoldable pub count_if : (V → Bool) → List (K × V) → ℕ
  count_if f [] = 0
  count_if f (e ∷ es) = (if f e.1 then 1 else 0) + count_if f es

  count_if-append :
      (f : V → Bool) (xs ys : List (K × V)) → count_if f (xs ++ ys) ≡ count_if f xs + count_if f ys
  unfolding count_if
  count_if-append f [] ys = omega arith
  count_if-append f (x ∷ xs) ys = omega (arith, count_if-append f xs ys)

module _ {ℓ κ} {K : Type ℓ} {V : Type κ} ⦃o : Ord K⦄ where
  count_if-place :
      (f : V → Bool) (k : K) (v : V) (xs : List (K × V))
      → count_if f (place k v xs) ≡ (if f v then 1 else 0) + count_if f xs
  unfolding count_if place
  count_if-place f k v [] = refl
  count_if-place f k v (x ∷ xs) = ground (arith, count_if-place f k v xs)

  -- An entry that passes is counted.
  count_if-lookup :
      (f : V → Bool) (xs : List (K × V)) (q : K) (v : V)
      → lookup xs q ≡ some v
      → f v ≡ true
      → 1 ≤ count_if f xs
  unfolding count_if lookup
  count_if-lookup f [] q v h p = cc
  count_if-lookup f (x ∷ xs) q v h p = ground (arith, count_if-lookup f xs q v)

  count_if-cases :
      (f : V → Bool) (xs : List (K × V))
      → Increasing xs
      → (count_if f xs ≡ 0) ⊎ ((q : K) × (v : V) × (lookup xs q ≡ some v) × (f v ≡ true))
  unfolding count_if lookup
  count_if-cases f [] s = inl refl
  count_if-cases f (x ∷ xs) s = elim (Bool-cases (f x.1)) [
    | inl yes' ↦ inr (x.0, x.1, rw (o.cmp_refl x.0, lookup), yes')
    | inr no' ↦ elim (count_if-cases f xs s.1) [
      | inl zero' ↦ inl (rw (no', zero'))
      | inr (q, v, at, passes) ↦
          inr (q, v, ground (arith, lookup_from q x.0 xs, o.eq_of_cmp x.0 q, s.0), passes)
    ]
  ]

  unfoldable pub count_in : (V → Bool) → Tree (K × V) → ℕ
  unfolding count_if
  count_in f t = count_if f (inorder t)

  pub count_in-find :
      {t : Tree (K × V)} (f : V → Bool) (q : K) (v : V)
      → IsTable t
      → find t q ≡ some v
      → f v ≡ true
      → 1 ≤ count_in f t
  unfolding count_in
  count_in-find {t} f q v h e p = count_if-lookup f (inorder t) q v (sym (find-lookup q h) ∙ e) p

  -- Either no entry passes, or there is one at some key.
  pub count_in-cases :
      {t : Tree (K × V)} (f : V → Bool)
      → IsTable t
      → (count_in f t ≡ 0) ⊎ ((q : K) × (v : V) × (find t q ≡ some v) × (f v ≡ true))
  unfolding count_in
  count_in-cases {t} f h = elim (count_if-cases f (inorder t) h.increasing) [
    | inl none' ↦ inl none'
    | inr (q, v, at, passes) ↦ inr (q, v, find-lookup q h ∙ at, passes)
  ]

  pub count_in-insert :
      (f : V → Bool) (t u : Tree (K × V)) (k : K) (v : V)
      → IsTable t
      → rb_tree_insert t k v ≡ some u
      → count_in f u ≡ (if f v then 1 else 0) + count_in f t
  unfolding count_in
  count_in-insert f t u k v h e =
      rw (inorder-rb_tree_insert t u k v (Increasing-IsSorted (inorder t) h.increasing) e)
        (count_if-place f k v (inorder t))

  pub count_in-delete :
      (f : V → Bool) (t u : Tree (K × V)) (k : K) (p : Pointer (K × V))
      → rb_exact_query t k ≡ some p
      → rb_delete p ≡ some u
      → (if f p.entry.1 then 1 else 0) + count_in f u ≡ count_in f t
  unfolding count_in count_if
  count_in-delete f t u k p e d =
      let (pre, post, at, stored, removed) = pointed t k p e in
      rw (at, removed u d)
        (omega (arith, count_if-append f pre post, count_if-append f pre ((k, p.entry.1) ∷ post)))

  pub count_in-set_info :
      (f : V → Bool) (t : Tree (K × V)) (k : K) (p : Pointer (K × V)) (v : V)
      → rb_exact_query t k ≡ some p
      → f v ≡ f p.entry.1
      → count_in f (set_info p v) ≡ count_in f t
  unfolding count_in count_if
  count_in-set_info f t k p v e same =
      let (pre, post, at, stored, removed) = pointed t k p e in
      rw (at, stored v)
        (omega (
          arith,
          ap (λ (b : Bool). if b then suc zero else zero) same,
          count_if-append f pre ((k, v) ∷ post),
          count_if-append f pre ((k, p.entry.1) ∷ post),
        ))
