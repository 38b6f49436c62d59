-- ===== src/Sock/Copy.antt =====
-- `copy_fd`, by which `dup` and `dup2` copy what is known of a descriptor.
use Prim.Native.Nat.Ordering.{lt, eq, gt}
use mathlib.Core.Path.{subst}
use band_width_limiter.Base.{
  ℕ, suc, ◌+◌, ◌≤◌, ◌≡◌, ◌≢◌, refl, sym, ap, ◌∙◌, Bool, true, false, Option, none, some, List, [],
  ◌∷◌, ◌⊎◌, inl, inr, arith, Option-cases, Ordering-cases, All,
}
use band_width_limiter.Base.Int.{ℤ}
use band_width_limiter.Base.Outcome.{Outcome, ok, crashed, Returns}
use band_width_limiter.Tree.Order.{Ord, fd_ord}
use band_width_limiter.Tree.Shape.{inorder}
use band_width_limiter.Tree.Sorted.{place}
use band_width_limiter.Tree.Query.{rb_exact_query}
use band_width_limiter.Tree.Insert.Balance.{rb_tree_insert-IsRedBlack}
use band_width_limiter.Tree.Insert.Content.{inorder-rb_tree_insert}
use band_width_limiter.Tree.Table.Keys.{
  Increasing, Increasing-IsSorted, lookup, lookup_from, update_self, ◌≺◌,
}
use band_width_limiter.Tree.Table.Laws.{IsTable, find, info_of, find-insert, find-lookup}
use band_width_limiter.Sock.{SocketFd, AcpSocketFd, SockStruct, get_dest_port, copy_fd}
use band_width_limiter.Sock.Invariant.{IsValid}
use band_width_limiter.Sock.Port.{node_of, no_node, update_other}

-- `get_dest_port` over what the two trees say.
abbrev port_at : Option SocketFd → Outcome (Option ℕ)
port_at none = crashed
port_at (some r) = ok (some r.port)

abbrev port_by : (ℤ → Option SocketFd) → Option AcpSocketFd → Outcome (Option ℕ)
port_by roots none = ok none
port_by roots (some a) = port_at (roots a.root_fd_number)

get_dest_port-port_by :
    (s : SockStruct) (fd : ℤ)
    → get_dest_port s fd ≡ port_by (find s.sock_rb) (find s.acp_socket_rb fd)
unfolding get_dest_port
get_dest_port-port_by s fd = elim (Option-cases (rb_exact_query s.acp_socket_rb fd)) [
  | inl e ↦ rw (e, get_dest_port) refl
  | inr (node, e) ↦ elim (Option-cases (rb_exact_query s.sock_rb node.entry.1.root_fd_number)) [
    | inl f ↦ rw (e, f, get_dest_port) refl
    | inr (root, f) ↦ rw (e, f, get_dest_port) refl
  ]
]

-- After a copy, the new descriptor goes where the old one goes, and all others stay.
abbrev pub Copied : SockStruct → ℤ → ℤ → SockStruct × Bool → Type 0
Copied s old_fd new_fd (s', b) =
    (s'.sock_rb ≡ s.sock_rb)
    × (get_dest_port s' new_fd ≡ get_dest_port s old_fd)
    × ((q : ℤ) → new_fd ≢ q → get_dest_port s' q ≡ get_dest_port s q)

pub copy_fd-Copied :
    (s : SockStruct) (old_fd new_fd : ℤ)
    → IsValid s
    → find s.acp_socket_rb new_fd ≡ none
    → Returns (Copied s old_fd new_fd) (copy_fd s old_fd new_fd)
unfolding copy_fd
copy_fd-Copied s old_fd new_fd v free =
    elim (Option-cases (rb_exact_query s.acp_socket_rb old_fd)) [
      | inl e ↦ (
        (s, false),
        rw (e, copy_fd) refl,
        (
          refl,
          get_dest_port-port_by s new_fd
              ∙ ap (port_by (find s.sock_rb)) (free ∙ sym (ap info_of e))
              ∙ sym (get_dest_port-port_by s old_fd),
          λ q apart. refl,
        ),
      )
      | inr (node, e) ↦
          let (t, got, table, reads) =
            find-insert s.acp_socket_rb new_fd node.entry.1 v.accepted
              (no_node s.acp_socket_rb new_fd free) in
          let s' : SockStruct = record s { acp_socket_rb = t } in
          (
            (s', true),
            rw (e, got, copy_fd) refl,
            (
              refl,
              get_dest_port-port_by s' new_fd
                  ∙ ap (port_by (find s.sock_rb)) (
                      reads new_fd
                      ∙ update_self (find s.acp_socket_rb) new_fd (some node.entry.1)
                      ∙ sym (ap info_of e))
                  ∙ sym (get_dest_port-port_by s old_fd),
              λ q apart.
                  get_dest_port-port_by s' q
                  ∙ ap (port_by (find s.sock_rb))
                      (reads q ∙ update_other (find s.acp_socket_rb) new_fd _ q apart)
                  ∙ sym (get_dest_port-port_by s q),
            ),
          )
    ]

module _ {K V : Type 0} ⦃o : Ord K⦄ where
  place-cases :
      (k : K) (v : V) (x : K × V) (xs : List (K × V))
      → ((o.cmp x.0 k ≡ gt) × (place k v (x ∷ xs) ≡ (k, v) ∷ x ∷ xs))
        ⊎ (((o.cmp x.0 k ≡ eq) ⊎ (o.cmp x.0 k ≡ lt)) × (place k v (x ∷ xs) ≡ x ∷ place k v xs))
  unfolding place
  place-cases k v x xs = elim (Ordering-cases (o.cmp x.0 k)) [
    | inl e ↦ inr (inr e, ground arith)
    | inr (inl e) ↦ inr (inl e, ground arith)
    | inr (inr e) ↦ inl (e, ground arith)
  ]

  placed :
      (P : K × V → Type 0) (k : K) (v : V) (xs : List (K × V)) → All P (place k v xs) → P (k, v)
  unfolding place
  placed P k v [] h = h.0
  placed P k v (x ∷ xs) h = elim (place-cases k v x xs) [
    | inl (_, e) ↦ (subst (All P) e h).0
    | inr (_, e) ↦ placed P k v xs (subst (All P) e h).1
  ]

  lookup_tail :
      (k : K) (x : K × V) (xs : List (K × V)) (w : V)
      → o.cmp x.0 k ≢ eq
      → lookup (x ∷ xs) k ≡ some w
      → lookup xs k ≡ some w
  unfolding lookup
  lookup_tail k x xs w h e = ground (arith, h)

  -- How many entries a key has.
  abbrev pub entries_at : K → List (K × V) → ℕ
  entries_at k [] = 0
  entries_at k (x ∷ xs) = (elim (o.cmp x.0 k) [ eq ↦ 1 | lt ↦ 0 | gt ↦ 0 ]) + entries_at k xs

  entries_at-lookup :
      (k : K) (w : V) (xs : List (K × V)) → lookup xs k ≡ some w → 1 ≤ entries_at k xs
  unfolding lookup
  entries_at-lookup k w [] e = absurd (cc e)
  entries_at-lookup k w (x ∷ xs) e = elim (Ordering-cases (o.cmp x.0 k)) [
    | inl h ↦ rw (h, entries_at) (omega (arith, entries_at-lookup k w xs (ground (arith, e, h))))
    | inr (inl h) ↦ rw (h, entries_at) (omega arith)
    | inr (inr h) ↦
        rw (h, entries_at) (omega (arith, entries_at-lookup k w xs (ground (arith, e, h))))
  ]

  entries_at-place :
      (k : K) (v : V) (xs : List (K × V)) → entries_at k (place k v xs) ≡ suc (entries_at k xs)
  unfolding place
  entries_at-place k v [] = rw (o.cmp_refl k, entries_at) (omega arith)
  entries_at-place k v (x ∷ xs) = elim (place-cases k v x xs) [
    | inl (_, e) ↦ rw (e, entries_at) rw (o.cmp_refl k) (omega arith)
    | inr (_, e) ↦ rw (e, entries_at) (omega (arith, entries_at-place k v xs))
  ]

  -- A second entry of a key.
  place_twice :
      (k : K) (v w : V) (xs : List (K × V)) → lookup xs k ≡ some w → Increasing (place k v xs) → ⊥
  unfolding place lookup
  place_twice k v w [] e h = cc e
  place_twice k v w (x ∷ xs) e h = elim (place-cases k v x xs) [
    | inr (inr before, same) ↦
        place_twice k v w xs (lookup_tail k x xs w (λ here. absurd (cc (sym before ∙ here))) e)
          (subst Increasing same h).1
    | inr (inl here, same) ↦
        absurd (cc (sym here ∙ placed (λ d. x.0 ≺ d.0) k v xs (subst Increasing same h).0))
    | inl (behind, same) ↦
        let rest = lookup_tail k x xs w (λ here. absurd (cc (sym behind ∙ here))) e in
        absurd (cc (sym rest ∙ lookup_from k k xs refl (subst Increasing same h).0.1))
  ]

-- `copy_fd` does not search for the new descriptor. In a valid state, if both descriptors are
-- accepted (they may be one), it leaves a tree in which the new descriptor has two entries or
-- more, and which is no table.
pub copy_fd_twice :
    (s : SockStruct) (old_fd new_fd : ℤ) (a b : AcpSocketFd)
    → IsValid s
    → find s.acp_socket_rb old_fd ≡ some a
    → find s.acp_socket_rb new_fd ≡ some b
    → Returns
        (λ (s', _).
          (2 ≤ entries_at new_fd (inorder s'.acp_socket_rb)) × (¬ IsTable s'.acp_socket_rb))
        (copy_fd s old_fd new_fd)
unfolding copy_fd
copy_fd_twice s old_fd new_fd a b v e f =
    let t = s.acp_socket_rb in
    let (node, got, _) = node_of t old_fd a e in
    let (u, inserted, _) = rb_tree_insert-IsRedBlack t new_fd node.entry.1 v.accepted.balanced in
    let there = sym (find-lookup new_fd v.accepted) ∙ f in
    let order =
      inorder-rb_tree_insert t u new_fd node.entry.1
        (Increasing-IsSorted (inorder t) v.accepted.increasing) inserted in
    (
      (record s { acp_socket_rb = u }, true),
      rw (got, inserted, copy_fd) refl,
      (
        rw (order) rw (entries_at-place new_fd node.entry.1 (inorder t))
            (omega (arith, entries_at-lookup new_fd b (inorder t) there)),
        λ table.
            place_twice new_fd node.entry.1 b (inorder t) there (rw (order) at table.increasing),
      ),
    )
