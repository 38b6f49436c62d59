-- ===== src/Sock/Release.antt =====
-- `unregister_socket_descriptor` in a valid state.
use Prim.Native.Nat.{pred}
use band_width_limiter.Base.{
  ℕ, zero, suc, ◌+◌, ◌≤◌, ◌≡◌, refl, sym, ap, ◌∙◌, Bool, true, false, Option, none, some, ◌⊎◌, inl,
  inr, arith, Option-cases, eq_of_some, if◌then◌else◌,
}
use band_width_limiter.Base.Int.{ℤ, pos_part, pos, negsuc, ◌+ℤ◌, le_ℤ}
use band_width_limiter.Base.Outcome.{ok, Returns}
use band_width_limiter.Tree.Order.{fd_ord}
use band_width_limiter.Tree.Shape.{Tree, Pointer, with_info, set_info}
use band_width_limiter.Tree.Query.{rb_exact_query}
use band_width_limiter.Tree.Delete.{rb_delete}
use band_width_limiter.Tree.Table.Keys.{update, update-cases, update_twice}
use band_width_limiter.Tree.Table.Laws.{
  IsTable, find, info_of, find-set_info, find-delete, rb_exact_query-set_info,
}
use band_width_limiter.Tree.Table.Count.{count_in, count_in-find, count_in-delete}
use band_width_limiter.Sock.{
  SocketFd, AcpSocketFd, SockStruct, give_back, release_root, unregister_socket_descriptor,
}
use band_width_limiter.Sock.Invariant.{IsValid, has_root}
use band_width_limiter.Sock.Accept.{has_root_self, has_root_other}

abbrev one_less : SocketFd → SocketFd
one_less r = record r { ref_count = r.ref_count +ℤ negsuc 0 }

pos_decr : (n : ℕ) → pos (suc n) +ℤ negsuc 0 ≡ pos n
unfolding ◌+ℤ◌
pos_decr n = ground arith

-- The root after one of `suc n` references is given back.
abbrev pub root_left : ℕ → SocketFd → Option SocketFd
root_left zero r = none
root_left (suc n) r = some (one_less r)

give_back_last :
    (p : Pointer (ℤ × SocketFd)) (r : SocketFd) {u : Tree (ℤ × SocketFd)}
    → le_ℤ r.ref_count (pos 0) ≡ true
    → rb_delete (with_info p r) ≡ some u
    → give_back p r ≡ ok u
unfolding give_back
give_back_last p r h e = rw (h, e)

give_back_more :
    (p : Pointer (ℤ × SocketFd)) (r : SocketFd)
    → le_ℤ r.ref_count (pos 0) ≡ false
    → give_back p r ≡ ok (set_info p r)
unfolding give_back
give_back_more p r h = rw h

-- The test of the code, after one of `suc n` references is given back.
count_left :
    (n : ℕ) (r : SocketFd)
    → r.ref_count ≡ pos (suc n)
    → le_ℤ (one_less r).ref_count (pos 0) ≡ le_ℤ (pos n) (pos 0)
count_left n r c = ap (λ z. le_ℤ z (pos 0)) (ap (λ z. z +ℤ negsuc 0) c ∙ pos_decr n)

-- The tree of roots after one reference to the root at `fd`, which has `suc n`, is given back.
pub release_root-Returns :
    (n : ℕ) {t : Tree (ℤ × SocketFd)} (fd : ℤ) (p : Pointer (ℤ × SocketFd))
    → IsTable t
    → rb_exact_query t fd ≡ some p
    → p.entry.1.ref_count ≡ pos (suc n)
    → Returns
        (λ u. IsTable u × ((q : ℤ) → find u q ≡ update (find t) fd (root_left n p.entry.1) q))
        (release_root p)
unfolding release_root
release_root-Returns zero {t} fd p h e c =
    let r = one_less p.entry.1 in
    let (table, reads) = find-set_info t fd p r h e in
    let again = rb_exact_query-set_info t fd p r e in
    let (u, got, table', reads') = find-delete (set_info p r) fd (with_info p r) table again in
    (
      u,
      give_back_last p r (count_left 0 p.entry.1 c) got,
      (
        table',
        λ q. reads' q ∙ update_twice (find t) (find (set_info p r)) fd (some r) none reads q,
      ),
    )
release_root-Returns (suc n) {t} fd p h e c =
    let r = one_less p.entry.1 in
    let (table, reads) = find-set_info t fd p r h e in
    (
      set_info p r,
      give_back_more p r (count_left (suc n) p.entry.1 c ∙ ground arith),
      (table, reads),
    )

root_left-some : (n : ℕ) (r : SocketFd) → 1 ≤ n → (r' : SocketFd) × (root_left n r ≡ some r')
root_left-some zero r h = absurd (omega arith)
root_left-some (suc n) r h = (one_less r, refl)

pub root_left_count :
    (n : ℕ) (r r' : SocketFd)
    → r.ref_count ≡ pos (suc n)
    → root_left n r ≡ some r'
    → r'.ref_count ≡ pos n
root_left_count zero r r' c e = cc
root_left_count (suc n) r r' c e =
    ap (λ x. x.ref_count) (sym (eq_of_some e)) ∙ ap (λ z. z +ℤ negsuc 0) c ∙ pos_decr (suc n)

-- A valid state, with an accepted descriptor less and a reference less to its root.
module _ {s : SockStruct} (s' : SockStruct) (fd : ℤ) (a : AcpSocketFd) (n : ℕ) (r : SocketFd)
    (v : IsValid s) (table : IsTable s'.acp_socket_rb)
    (root : find s.sock_rb a.root_fd_number ≡ some r) (held : r.ref_count ≡ pos (suc n))
    (accepts : (q : ℤ) → find s'.acp_socket_rb q ≡ update (find s.acp_socket_rb) fd none q)
    (roots : (q : ℤ)
      → find s'.sock_rb q ≡ update (find s.sock_rb) a.root_fd_number (root_left n r) q)
    (counts : (f : AcpSocketFd → Bool)
      → (if f a then 1 else 0) + count_in f s'.acp_socket_rb ≡ count_in f s.acp_socket_rb) where
  -- `n` accepted descriptors of the root are left.
  left_count : count_in (has_root a.root_fd_number) s'.acp_socket_rb ≡ n
  left_count =
      let before = v.counted a.root_fd_number r root in
      let same : suc n ≡ count_in (has_root a.root_fd_number) s.acp_socket_rb =
        ap pos_part (sym held ∙ before) in
      omega (
        arith,
        counts (has_root a.root_fd_number),
        ap (λ (b : Bool). if b then suc zero else zero) (has_root_self a.root_fd_number a refl),
        same,
      )

  release-linked :
      (q : ℤ) (b : AcpSocketFd)
      → find s'.acp_socket_rb q ≡ some b
      → (r' : SocketFd) × (find s'.sock_rb b.root_fd_number ≡ some r')
  release-linked q b at = elim (update-cases (find s.acp_socket_rb) fd none q) [
    | inl (same, gone) ↦ absurd (cc (sym gone ∙ sym (accepts q) ∙ at))
    | inr (other, kept) ↦
        let (r', old) = v.linked q b (sym kept ∙ sym (accepts q) ∙ at) in
        elim (update-cases (find s.sock_rb) a.root_fd_number (root_left n r) b.root_fd_number) [
          | inl (same, new) ↦
              let used =
                count_in-find (has_root a.root_fd_number) q b table at
                  (has_root_self a.root_fd_number b (sym same)) in
              let (r'', stands) = root_left-some n r (omega (arith, used, left_count)) in
              (r'', roots b.root_fd_number ∙ new ∙ stands)
          | inr (apart, still) ↦ (r', roots b.root_fd_number ∙ still ∙ old)
        ]
  ]

  release-counted :
      (q : ℤ) (r' : SocketFd)
      → find s'.sock_rb q ≡ some r'
      → r'.ref_count ≡ pos (count_in (has_root q) s'.acp_socket_rb)
  release-counted q r' at =
      elim (update-cases (find s.sock_rb) a.root_fd_number (root_left n r) q) [
        | inl (same, new) ↦
            root_left_count n r r' held (sym new ∙ sym (roots q) ∙ at)
            ∙ ap pos (sym left_count ∙ ap (λ k. count_in (has_root k) s'.acp_socket_rb) same)
        | inr (apart, still) ↦
            v.counted q r' (sym still ∙ sym (roots q) ∙ at)
            ∙ ap pos (
                omega (
                  arith,
                  counts (has_root q),
                  ap (λ (b : Bool). if b then suc zero else zero) (has_root_other q a apart),
                ))
      ]

-- What `unregister_socket_descriptor` does: an accepted descriptor goes, with one reference to its
-- root, and the root goes with its last reference; a descriptor that is not accepted changes nothing.
-- The result is true in both cases.
abbrev pub Released : SockStruct → ℤ → SockStruct × Bool → Type 0
Released s fd (s', b) =
    IsValid s'
    × (b ≡ true)
    × (((a : AcpSocketFd) × (r : SocketFd) × (n : ℕ) × (find s.acp_socket_rb fd ≡ some a)
          × (find s.sock_rb a.root_fd_number ≡ some r)
          × (r.ref_count ≡ pos (suc n))
          × ((q : ℤ) → find s'.acp_socket_rb q ≡ update (find s.acp_socket_rb) fd none q)
          × ((q : ℤ)
              → find s'.sock_rb q ≡ update (find s.sock_rb) a.root_fd_number (root_left n r) q))
        ⊎ ((find s.acp_socket_rb fd ≡ none) × (s' ≡ s)))

-- A root of an accepted descriptor has a reference.
held_count :
    {s : SockStruct} (fd : ℤ) (a : AcpSocketFd) (r : SocketFd)
    → IsValid s
    → find s.acp_socket_rb fd ≡ some a
    → find s.sock_rb a.root_fd_number ≡ some r
    → (n : ℕ) × (r.ref_count ≡ pos (suc n))
held_count {s} fd a r v at root =
    let c = count_in (has_root a.root_fd_number) s.acp_socket_rb in
    let used =
      count_in-find (has_root a.root_fd_number) fd a v.accepted at
        (has_root_self a.root_fd_number a refl) in
    (pred c, v.counted a.root_fd_number r root ∙ ap pos (omega (arith, used)))

pub linked_node :
    {s : SockStruct} (fd : ℤ) (node : Pointer (ℤ × AcpSocketFd))
    → IsValid s
    → rb_exact_query s.acp_socket_rb fd ≡ some node
    → (root : Pointer (ℤ × SocketFd)) × (rb_exact_query s.sock_rb node.entry.1.root_fd_number
        ≡ some root)
linked_node {s} fd node v e =
    let (r, old) = v.linked fd node.entry.1 (ap info_of e) in
    elim (Option-cases (rb_exact_query s.sock_rb node.entry.1.root_fd_number)) [
      | inl f ↦ absurd (cc (sym old ∙ ap info_of f))
      | inr found ↦ found
    ]

-- From a valid state `unregister_socket_descriptor` returns true in a valid state. An accepted
-- descriptor goes, with one reference to its root, and the root goes with its last reference; a
-- descriptor that is not accepted changes nothing.
pub unregister-Released :
    (s : SockStruct) (fd : ℤ)
    → IsValid s
    → Returns (Released s fd) (unregister_socket_descriptor s fd)
unfolding unregister_socket_descriptor
unregister-Released s fd v = elim (Option-cases (rb_exact_query s.acp_socket_rb fd)) [
  | inl e ↦ ((s, true), rw (e, unregister_socket_descriptor), (v, refl, inr (ap info_of e, refl)))
  | inr (node, e) ↦
      let a = node.entry.1 in
      let (root, f) = linked_node fd node v e in
      let r = root.entry.1 in
      let (n, held) = held_count fd a r v (ap info_of e) (ap info_of f) in
      let (t, gave, after) = release_root-Returns n a.root_fd_number root v.roots f held in
      let (table, roots) = after in
      let (u, got, table', accepts) = find-delete s.acp_socket_rb fd node v.accepted e in
      let counts = λ (g : AcpSocketFd → Bool). count_in-delete g s.acp_socket_rb u fd node e got in
      let s' : SockStruct = record { sock_rb = t; acp_socket_rb = u } in
      (
        (s', true),
        rw (e, f, gave, got, unregister_socket_descriptor),
        (
          record {
            roots = table;
            accepted = table';
            linked = release-linked s' fd a n r v table' (ap info_of f) held accepts roots counts;
            counted = release-counted s' fd a n r v table' (ap info_of f) held accepts roots counts;
          },
          refl,
          inl (a, r, n, ap info_of e, ap info_of f, held, accepts, roots),
        ),
      )
]
