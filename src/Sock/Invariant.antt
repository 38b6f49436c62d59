-- ===== src/Sock/Invariant.antt =====
-- The invariant of the socket bookkeeping, its first state, and `init_sock`.
use Prim.Native.Nat.Ordering.{eq}
use mathlib.Core.Path.{subst}
use band_width_limiter.Base.{
  ℕ, ◌≡◌, refl, sym, ap, ◌∙◌, Bool, true, false, none, some, ◌⊎◌, inl, inr, arith, Option-cases,
  eq_of_some,
}
use band_width_limiter.Base.Int.{ℤ, pos}
use band_width_limiter.Base.Outcome.{Returns}
use band_width_limiter.Tree.Order.{int_comp, fd_ord, int_comp-IsLawful}
use band_width_limiter.Tree.Shape.{Tree, inorder}
use band_width_limiter.Tree.Balance.{nil}
use band_width_limiter.Tree.Query.{rb_exact_query}
use band_width_limiter.Tree.Table.Keys.{update, update-cases}
use band_width_limiter.Tree.Table.Laws.{IsTable, find, info_of, find-insert}
use band_width_limiter.Tree.Table.Count.{count_in, count_in-cases}
use band_width_limiter.Sock.{SocketFd, AcpSocketFd, SockStruct, setup_sock_env, init_sock}

-- The descriptor was accepted on this root.
abbrev pub has_root : ℤ → AcpSocketFd → Bool
has_root fd a = elim (int_comp fd a.root_fd_number) [ eq ↦ true | _ ↦ false ]

-- Both trees are tables; every accepted descriptor has a registered root; and a root counts the
-- accepted descriptors that name it.
pub record IsValid (s : SockStruct) : Type 0 where
  pub roots : IsTable s.sock_rb
  pub accepted : IsTable s.acp_socket_rb
  pub linked :
      (fd : ℤ) (a : AcpSocketFd)
      → find s.acp_socket_rb fd ≡ some a
      → (r : SocketFd) × (find s.sock_rb a.root_fd_number ≡ some r)
  pub counted :
      (fd : ℤ) (r : SocketFd)
      → find s.sock_rb fd ≡ some r
      → r.ref_count ≡ pos (count_in (has_root fd) s.acp_socket_rb)

pub setup_sock_env-IsValid : IsValid setup_sock_env
unfolding setup_sock_env rb_exact_query inorder
setup_sock_env-IsValid = record {
  roots = record { increasing = tt; balanced = (_, nil) };
  accepted = record { increasing = tt; balanced = (_, nil) };
  linked = λ fd a e. absurd (ground arith);
  counted = λ fd r e. absurd (ground arith);
}

-- No accepted descriptor names a root that is not registered.
count_unlinked :
    {s : SockStruct} (fd : ℤ)
    → IsValid s
    → find s.sock_rb fd ≡ none
    → count_in (has_root fd) s.acp_socket_rb ≡ 0
unfolding int_comp
count_unlinked {s} fd v e = elim (count_in-cases (has_root fd) v.accepted) [
  | inl none' ↦ none'
  | inr (q, a, at, names) ↦
      let (r, root) = v.linked q a at in
      absurd (ground (arith, int_comp-IsLawful.eq_of_cmp fd a.root_fd_number, root, e))
]

-- A new root, without accepted descriptors, in a valid state.
module _ {s : SockStruct} (fd : ℤ) (r : SocketFd) (v : IsValid s) (e : find s.sock_rb fd ≡ none)
    (none' : r.ref_count ≡ pos 0) {t : Tree (ℤ × SocketFd)} (table : IsTable t)
    (reads : (q : ℤ) → find t q ≡ update (find s.sock_rb) fd (some r) q) where
  add_root-linked :
      (q : ℤ) (a : AcpSocketFd)
      → find s.acp_socket_rb q ≡ some a
      → (r' : SocketFd) × (find t a.root_fd_number ≡ some r')
  add_root-linked q a at =
      let (r', old) = v.linked q a at in
      elim (update-cases (find s.sock_rb) fd (some r) a.root_fd_number) [
        | inl (same, new) ↦ (r, reads a.root_fd_number ∙ new)
        | inr (other, kept) ↦ (r', reads a.root_fd_number ∙ kept ∙ old)
      ]

  add_root-counted :
      (q : ℤ) (r' : SocketFd)
      → find t q ≡ some r'
      → r'.ref_count ≡ pos (count_in (has_root q) s.acp_socket_rb)
  add_root-counted q r' at = elim (update-cases (find s.sock_rb) fd (some r) q) [
    | inl (same, new) ↦
        ap (λ x. x.ref_count) (sym (eq_of_some (sym new ∙ sym (reads q) ∙ at)))
        ∙ none'
        ∙ ap pos (sym (count_unlinked q v (subst (λ k. find s.sock_rb k ≡ none) same e)))
    | inr (other, kept) ↦ v.counted q r' (sym kept ∙ sym (reads q) ∙ at)
  ]

-- What `init_sock` does: a descriptor that is not registered becomes a root with the port and no
-- reference, and the call says so; otherwise nothing changes.
abbrev pub Inited : SockStruct → ℤ → ℕ → SockStruct × Bool → Type 0
Inited s fd port (s', b) =
    IsValid s'
    × (s'.acp_socket_rb ≡ s.acp_socket_rb)
    × (((find s.sock_rb fd ≡ none)
          × (b ≡ true)
          × ((q : ℤ)
              → find s'.sock_rb q
                ≡ update (find s.sock_rb) fd (some (record { port = port; ref_count = pos 0 })) q))
        ⊎ ((r : SocketFd) × (find s.sock_rb fd ≡ some r) × (b ≡ false) × (s' ≡ s)))

-- From a valid state `init_sock` returns in a valid state, with the accepted descriptors as they
-- were. A descriptor that is no root becomes one, with the port and no reference, and the result
-- is true; for a root nothing changes, and the result is false.
pub init_sock-Inited :
    (s : SockStruct) (fd : ℤ) (port : ℕ)
    → IsValid s
    → Returns (Inited s fd port) (init_sock s fd port)
unfolding init_sock
init_sock-Inited s fd port v =
    let r : SocketFd = record { port = port; ref_count = pos 0 } in
    elim (Option-cases (rb_exact_query s.sock_rb fd)) [
      | inl e ↦
          let (t, got, table, reads) = find-insert s.sock_rb fd r v.roots e in
          (
            (record s { sock_rb = t }, true),
            rw (e, got, init_sock),
            (
              record {
                roots = table;
                accepted = v.accepted;
                linked = add_root-linked fd r v (ap info_of e) refl table reads;
                counted = add_root-counted fd r v (ap info_of e) refl table reads;
              },
              refl,
              inl (ap info_of e, refl, reads),
            ),
          )
      | inr (p, e) ↦
          ((s, false), rw (e, init_sock), (v, refl, inr (p.entry.1, ap info_of e, refl, refl)))
    ]
