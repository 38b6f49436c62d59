-- ===== src/Links/Chain.antt =====
-- Which sequence of members a memory holds, and what a new member does to it.
use band_width_limiter.Base.{
  ℕ, zero, suc, ◌≡◌, ◌≢◌, refl, sym, ap, ◌∙◌, true, false, List, [], ◌∷◌, ◌++◌, ◌==◌, some, arith,
  append_nil, append_assoc, All, All-append, All-right, ◌<◌,
}
use band_width_limiter.Links.{
  Memory, write, set_next, set_prev, init_list_head, add_list, list_add_tail, visit, list_for_each,
}

-- From `a` over the members to `b`, in both directions.
abbrev pub Chain : Memory → ℕ → List ℕ → ℕ → Type 0
Chain m a [] b = (m.next a ≡ b) × (m.prev b ≡ a)
Chain m a (x ∷ xs) b = (m.next a ≡ x) × (m.prev x ≡ a) × Chain m x xs b

abbrev pub Apart : ℕ → List ℕ → Type 0
Apart a xs = All (λ x. a ≢ x) xs

abbrev pub Unique : List ℕ → Type 0
Unique [] = Unit
Unique (x ∷ xs) = Apart x xs × Unique xs

-- The list at a head: the circle through its members, none of which is there twice or is the head.
pub record IsList (m : Memory) (head : ℕ) (xs : List ℕ) : Type 0 where
  pub chain : Chain m head xs head
  pub apart : Apart head xs
  pub unique : Unique xs

pub write_same : (f : ℕ → ℕ) (a v : ℕ) → write f a v a ≡ v
unfolding write
write_same f a v = let e : (a == a) ≡ true = ground arith in rw e refl

pub write_other : (f : ℕ → ℕ) (a v q : ℕ) → q ≢ a → write f a v q ≡ f q
unfolding write
write_other f a v q h = let e : (q == a) ≡ false = ground (arith, h) in rw e refl

pub init_list_head-IsList : (head : ℕ) (m : Memory) → IsList (init_list_head head m) head []
unfolding init_list_head set_next set_prev
init_list_head-IsList head m = record {
  chain = (write_same m.next head head, write_same m.prev head head);
  apart = tt;
  unique = tt;
}

module _ (m : Memory) (new p b : ℕ) where
  next_at : (q : ℕ) → q ≢ p → q ≢ new → (add_list new p b m).next q ≡ m.next q
  unfolding add_list set_next set_prev
  next_at q hp hn = write_other (write m.next new b) p new q hp ∙ write_other m.next new b q hn

  prev_at : (q : ℕ) → q ≢ b → q ≢ new → (add_list new p b m).prev q ≡ m.prev q
  unfolding add_list set_next set_prev
  prev_at q hb hn = write_other (write m.prev b new) new p q hn ∙ write_other m.prev b new q hb

  next_last : (add_list new p b m).next p ≡ new
  unfolding add_list set_next set_prev
  next_last = write_same (write m.next new b) p new

  next_new : new ≢ p → (add_list new p b m).next new ≡ b
  unfolding add_list set_next set_prev
  next_new h = write_other (write m.next new b) p new new h ∙ write_same m.next new b

  prev_new : (add_list new p b m).prev new ≡ p
  unfolding add_list set_next set_prev
  prev_new = write_same (write m.prev b new) new p

  prev_end : b ≢ new → (add_list new p b m).prev b ≡ new
  unfolding add_list set_next set_prev
  prev_end h = write_other (write m.prev b new) new p b h ∙ write_same m.prev b new

-- The last member is one of the chain.
last-Apart :
    (m : Memory) (q a : ℕ) (xs : List ℕ) (b : ℕ) → Chain m a xs b → Apart q (a ∷ xs) → q ≢ m.prev b
last-Apart m q a [] b c h = λ e. h.0 (e ∙ c.1)
last-Apart m q a (x ∷ xs) b c h = last-Apart m q x xs b c.2 h.1

Chain-add :
    (m : Memory) (new a : ℕ) (xs : List ℕ) (b : ℕ)
    → Chain m a xs b
    → Apart new (a ∷ xs)
    → new ≢ b
    → Unique (a ∷ xs)
    → Apart b xs
    → Chain (add_list new (m.prev b) b m) a (xs ++ (new ∷ [])) b
Chain-add m new a [] b c fresh nb u hb =
    let p = m.prev b in
    (
      ap (add_list new p b m).next (sym c.1) ∙ next_last m new p b,
      prev_new m new p b ∙ c.1,
      (next_new m new p b (λ e. fresh.0 (e ∙ c.1)), prev_end m new p b (λ e. nb (sym e))),
    )
Chain-add m new a (x ∷ xs) b c fresh nb u hb =
    let p = m.prev b in
    (
      next_at m new p b a (last-Apart m a x xs b c.2 u.0) (λ e. fresh.0 (sym e)) ∙ c.0,
      prev_at m new p b x (λ e. hb.0 (sym e)) (λ e. fresh.1.0 (sym e)) ∙ c.1,
      Chain-add m new x xs b c.2 fresh.1 nb u.1 hb.1,
    )

Unique-add : (xs : List ℕ) (new : ℕ) → Unique xs → Apart new xs → Unique (xs ++ (new ∷ []))
Unique-add [] new u h = (tt, tt)
Unique-add (x ∷ xs) new u h =
    (All-append (λ y. x ≢ y) xs (new ∷ []) u.0 ((λ e. h.0 (sym e)), tt), Unique-add xs new u.1 h.1)

list_add_tail-IsList :
    (m : Memory) (head new : ℕ) (xs : List ℕ)
    → IsList m head xs
    → Apart new (head ∷ xs)
    → IsList (list_add_tail new head m) head (xs ++ (new ∷ []))
unfolding list_add_tail
list_add_tail-IsList m head new xs l fresh = record {
  chain = Chain-add m new head xs head l.chain fresh fresh.0 (l.apart, l.unique) l.apart;
  apart = All-append (λ y. head ≢ y) xs (new ∷ []) l.apart ((λ e. fresh.0 (sym e)), tt);
  unique = Unique-add xs new l.unique fresh.1;
}

abbrev pub count : List ℕ → ℕ
count [] = 0
count (x ∷ xs) = suc (count xs)

visit-Chain :
    (m : Memory) (head a : ℕ) (xs : List ℕ) (fuel : ℕ)
    → Chain m a xs head
    → Apart head xs
    → count xs < fuel
    → visit fuel head (m.next a) m ≡ some xs
unfolding visit
visit-Chain m head a xs zero c h le = absurd (omega (arith, le))
visit-Chain m head a [] (suc fuel) c h le =
    let same : (m.next a == head) ≡ true = ground (arith, c.0) in rw (same, visit) refl
visit-Chain m head a (x ∷ xs) (suc fuel) c h le =
    let other : (x == head) ≡ false = ground (arith, h.0) in
    ap (λ q. visit (suc fuel) head q m) c.0
    ∙ rw (other, visit) rw (visit-Chain m head x xs fuel c.2 h.1 (omega (arith, le))) refl

pub list_for_each-IsList :
    (m : Memory) (head : ℕ) (xs : List ℕ) (fuel : ℕ)
    → IsList m head xs
    → count xs < fuel
    → list_for_each fuel head m ≡ some xs
unfolding list_for_each
list_for_each-IsList m head xs fuel l le = visit-Chain m head head xs fuel l.chain l.apart le

Unique-mid : (xs : List ℕ) (y : ℕ) (ys : List ℕ) → Unique (xs ++ (y ∷ ys)) → Apart y xs
Unique-mid [] y ys u = tt
Unique-mid (x ∷ xs) y ys u =
    ((λ e. (All-right (λ z. x ≢ z) xs (y ∷ ys) u.0).0 (sym e)), Unique-mid xs y ys u.1)

-- A list that is built by `list_add_tail` from an empty one, in the order of the members.
abbrev pub add_all : ℕ → List ℕ → Memory → Memory
add_all head [] m = m
add_all head (x ∷ xs) m = add_all head xs (list_add_tail x head m)

pub add_all-IsList :
    (head : ℕ) (xs ys : List ℕ) (m : Memory)
    → IsList m head xs
    → Unique (xs ++ ys)
    → Apart head ys
    → IsList (add_all head ys m) head (xs ++ ys)
add_all-IsList head xs [] m l u h = rw (append_nil xs) l
add_all-IsList head xs (y ∷ ys) m l u h =
    let fresh = Unique-mid xs y ys u in
    rw⁻¹ (append_assoc xs (y ∷ []) ys) (
      add_all-IsList head (xs ++ (y ∷ [])) ys (list_add_tail y head m)
        (list_add_tail-IsList m head y xs l ((λ e. h.0 (sym e)), fresh))
        (rw (append_assoc xs (y ∷ []) ys) u) h.1)
