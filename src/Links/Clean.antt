-- ===== src/Links/Clean.antt =====
-- The release of a list: every member is freed once, in the order of the list.
use band_width_limiter.Base.{
  ℕ, zero, suc, ◌<◌, ◌≡◌, ◌≢◌, refl, sym, ap, ◌∙◌, true, false, List, [], ◌∷◌, ◌==◌, Option, some,
  arith,
}
use band_width_limiter.Links.{
  Memory, write, set_next, set_prev, init_list_head, delete_list, clean_from, do_cleanup_list,
  list_for_each, list_poison1, list_poison2,
}
use band_width_limiter.Links.Chain.{
  Chain, Apart, Unique, IsList, write_same, write_other, count, add_all, init_list_head-IsList,
  add_all-IsList, list_for_each-IsList,
}

module _ (m : Memory) (entry before after : ℕ) (hp : m.prev entry ≡ before)
    (hn : m.next entry ≡ after) where
  next_before : before ≢ entry → (delete_list entry m).next before ≡ after
  unfolding delete_list set_next set_prev
  next_before h =
      write_other (write m.next (m.prev entry) (m.next entry)) entry list_poison1 before h
      ∙ ap (λ q. write m.next q (m.next entry) before) hp
      ∙ write_same m.next before (m.next entry)
      ∙ hn

  prev_after : after ≢ entry → (delete_list entry m).prev after ≡ before
  unfolding delete_list set_next set_prev
  prev_after h =
      write_other (write m.prev (m.next entry) (m.prev entry)) entry list_poison2 after h
      ∙ ap (λ q. write m.prev q (m.prev entry) after) hn
      ∙ write_same m.prev after (m.prev entry)
      ∙ hp

  next_rest : (q : ℕ) → q ≢ before → q ≢ entry → (delete_list entry m).next q ≡ m.next q
  unfolding delete_list set_next set_prev
  next_rest q hb he =
      write_other (write m.next (m.prev entry) (m.next entry)) entry list_poison1 q he
      ∙ write_other m.next (m.prev entry) (m.next entry) q (λ e. hb (e ∙ hp))

  prev_rest : (q : ℕ) → q ≢ after → q ≢ entry → (delete_list entry m).prev q ≡ m.prev q
  unfolding delete_list set_next set_prev
  prev_rest q ha he =
      write_other (write m.prev (m.next entry) (m.prev entry)) entry list_poison2 q he
      ∙ write_other m.prev (m.next entry) (m.prev entry) q (λ e. ha (e ∙ hn))

  -- The chain behind the member that follows stays.
  Chain-rest :
      (a : ℕ) (xs : List ℕ) (b : ℕ)
      → Chain m a xs b
      → Apart before (a ∷ xs)
      → Apart entry (a ∷ xs)
      → Apart after xs
      → after ≢ b
      → entry ≢ b
      → Chain (delete_list entry m) a xs b
  Chain-rest a [] b c hb he ha ab eb = (
    next_rest a (λ e. hb.0 (sym e)) (λ e. he.0 (sym e)) ∙ c.0,
    prev_rest b (λ e. ab (sym e)) (λ e. eb (sym e)) ∙ c.1,
  )
  Chain-rest a (x ∷ xs) b c hb he ha ab eb = (
    next_rest a (λ e. hb.0 (sym e)) (λ e. he.0 (sym e)) ∙ c.0,
    prev_rest x (λ e. ha.0 (sym e)) (λ e. he.1.0 (sym e)) ∙ c.1,
    Chain-rest x xs b c.2 hb.1 he.1 ha.1 ab eb,
  )

-- Without its first member, a list is the list of the others.
delete_list-IsList :
    (m : Memory) (head x : ℕ) (xs : List ℕ)
    → IsList m head (x ∷ xs)
    → IsList (delete_list x m) head xs
delete_list-IsList m head x [] l = record {
  chain = (
    next_before m x head head l.chain.1 l.chain.2.0 l.apart.0,
    prev_after m x head head l.chain.1 l.chain.2.0 l.apart.0,
  );
  apart = tt;
  unique = tt;
}
delete_list-IsList m head x (y ∷ ys) l = record {
  chain = (
    next_before m x head y l.chain.1 l.chain.2.0 l.apart.0,
    prev_after m x head y l.chain.1 l.chain.2.0 (λ e. l.unique.0.0 (sym e)),
    Chain-rest m x head y l.chain.1 l.chain.2.0 y ys head l.chain.2.2 l.apart.1 l.unique.0
        l.unique.1.0 (λ e. l.apart.1.0 (sym e)) (λ e. l.apart.0 (sym e)),
  );
  apart = l.apart.1;
  unique = l.unique.1;
}

-- All members are freed, in their order, and the head is the empty list.
abbrev pub Cleaned : ℕ → List ℕ → Option (List ℕ × Memory) → Type 0
Cleaned head xs r = (after : Memory) × (r ≡ some (xs, after)) × IsList after head []

first_next :
    (m : Memory) (head x : ℕ) (xs : List ℕ)
    → IsList m head (x ∷ xs)
    → (delete_list x m).next head ≡ m.next x
first_next m head x [] l = next_before m x head (m.next x) l.chain.1 refl l.apart.0
first_next m head x (y ∷ ys) l = next_before m x head (m.next x) l.chain.1 refl l.apart.0

clean_from-Cleaned :
    (m : Memory) (head : ℕ) (xs : List ℕ) (fuel : ℕ)
    → IsList m head xs
    → count xs < fuel
    → Cleaned head xs (clean_from fuel head (m.next head) (m.next (m.next head)) m)
unfolding clean_from
clean_from-Cleaned m head xs zero l le = absurd (omega (arith, le))
clean_from-Cleaned m head [] (suc fuel) l le =
    let same : (m.next head == head) ≡ true = ground (arith, l.chain.0) in
    (m, rw (same, clean_from) refl, l)
clean_from-Cleaned m head (x ∷ xs) (suc fuel) l le =
    let other : (x == head) ≡ false = ground (arith, l.apart.0) in
    let m1 = delete_list x m in
    let (after, got, empty) =
      clean_from-Cleaned m1 head xs fuel (delete_list-IsList m head x xs l) (omega (arith, le)) in
    let step =
      ap (λ q. clean_from fuel head q (m1.next q) m1) (sym (first_next m head x xs l)) ∙ got in
    (
      after,
      ap (λ q. clean_from (suc fuel) head q (m.next q) m) l.chain.0
          ∙ rw (other, clean_from) rw (step) refl,
      empty,
    )

-- Let members be added by `list_add_tail` to a list that `INIT_LIST_HEAD` made empty. If no member
-- is the head and none is there twice, `list_for_each` visits them in the order in which they were
-- added, and `do_cleanup_list` frees each of them once, in that order, and leaves the head with
-- the empty list; rounds more than members are enough for both.
pub add_all-Cleaned :
    (m : Memory) (head : ℕ) (xs : List ℕ) (fuel : ℕ)
    → Unique xs
    → Apart head xs
    → count xs < fuel
    → (list_for_each fuel head (add_all head xs (init_list_head head m)) ≡ some xs)
      × Cleaned head xs (do_cleanup_list fuel head (add_all head xs (init_list_head head m)))
unfolding do_cleanup_list
add_all-Cleaned m head xs fuel u h le =
    let built =
      add_all-IsList head [] xs (init_list_head head m) (init_list_head-IsList head m) u h in
    (
      list_for_each-IsList (add_all head xs (init_list_head head m)) head xs fuel built le,
      clean_from-Cleaned (add_all head xs (init_list_head head m)) head xs fuel built le,
    )
