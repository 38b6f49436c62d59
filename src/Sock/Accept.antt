-- ===== src/Sock/Accept.antt =====
-- `register_sock` in a valid state.
use Prim.Native.Nat.Ordering.{eq}
use mathlib.Core.Path.{subst}
use band_width_limiter.Base.{
  ℕ, ◌+◌, ◌≡◌, ◌≢◌, refl, sym, ap, ◌∙◌, Bool, true, false, none, some, ◌⊎◌, inl, inr, arith,
  Option-cases, eq_of_some, if◌then◌else◌,
}
use band_width_limiter.Base.Int.{ℤ, pos, ◌+ℤ◌}
use band_width_limiter.Base.Outcome.{Returns}
use band_width_limiter.Tree.Order.{Ord, int_comp, fd_ord, int_comp-IsLawful}
use band_width_limiter.Tree.Shape.{set_info}
use band_width_limiter.Tree.Query.{rb_exact_query}
use band_width_limiter.Tree.Table.Keys.{update, update-cases}
use band_width_limiter.Tree.Table.Laws.{find, info_of, find-insert, find-set_info}
use band_width_limiter.Tree.Table.Count.{count_in, count_in-insert}
use band_width_limiter.Sock.{no_time, SocketFd, AcpSocketFd, SockStruct, register_sock}
use band_width_limiter.Sock.Invariant.{IsValid, has_root}

pub has_root_self : (fd : ℤ) (a : AcpSocketFd) → a.root_fd_number ≡ fd → has_root fd a ≡ true
unfolding int_comp
has_root_self fd a e = ground (arith, int_comp-IsLawful.cmp_refl fd)

pub has_root_other :
    (fd : ℤ) (a : AcpSocketFd) → Ord.cmp fd_ord a.root_fd_number fd ≢ eq → has_root fd a ≡ false
unfolding int_comp fd_ord
has_root_other fd a h = ground arith

pos_incr : (n : ℕ) → pos n +ℤ pos 1 ≡ pos (1 + n)
unfolding ◌+ℤ◌
pos_incr n = ground arith

abbrev pub fresh_on : ℤ → AcpSocketFd
fresh_on org = record {
  root_fd_number = org;
  start_time_active_read = no_time;
  start_time_active_write = no_time;
}

abbrev pub one_more : SocketFd → SocketFd
one_more r = record r { ref_count = r.ref_count +ℤ pos 1 }

-- A valid state, with a new accepted descriptor on the root `r`.
module _ {s : SockStruct} (s' : SockStruct) (org listen : ℤ) (r : SocketFd) (v : IsValid s)
    (root : find s.sock_rb org ≡ some r)
    (accepts : (q : ℤ)
      → find s'.acp_socket_rb q ≡ update (find s.acp_socket_rb) listen (some (fresh_on org)) q)
    (roots : (q : ℤ) → find s'.sock_rb q ≡ update (find s.sock_rb) org (some (one_more r)) q)
    (counts : (f : AcpSocketFd → Bool)
      → count_in f s'.acp_socket_rb
        ≡ (if f (fresh_on org) then 1 else 0) + count_in f s.acp_socket_rb) where
  stays :
      (fd : ℤ) (r' : SocketFd)
      → find s.sock_rb fd ≡ some r'
      → (r'' : SocketFd) × (find s'.sock_rb fd ≡ some r'')
  stays fd r' old = elim (update-cases (find s.sock_rb) org (some (one_more r)) fd) [
    | inl (same, new) ↦ (one_more r, roots fd ∙ new)
    | inr (other, kept) ↦ (r', roots fd ∙ kept ∙ old)
  ]

  accept-linked :
      (q : ℤ) (a : AcpSocketFd)
      → find s'.acp_socket_rb q ≡ some a
      → (r' : SocketFd) × (find s'.sock_rb a.root_fd_number ≡ some r')
  accept-linked q a at = elim (update-cases (find s.acp_socket_rb) listen (some (fresh_on org)) q) [
    | inl (same, new) ↦
        subst (λ k. (r' : SocketFd) × (find s'.sock_rb k ≡ some r'))
          (ap (λ x. x.root_fd_number) (eq_of_some (sym new ∙ sym (accepts q) ∙ at)))
          (stays org r root)
    | inr (other, kept) ↦
        let (r', old) = v.linked q a (sym kept ∙ sym (accepts q) ∙ at) in
        stays a.root_fd_number r' old
  ]

  accept-counted :
      (fd : ℤ) (r' : SocketFd)
      → find s'.sock_rb fd ≡ some r'
      → r'.ref_count ≡ pos (count_in (has_root fd) s'.acp_socket_rb)
  accept-counted fd r' at = elim (update-cases (find s.sock_rb) org (some (one_more r)) fd) [
    | inl (same, new) ↦
        rw (counts (has_root fd), has_root_self fd (fresh_on org) same)
          (ap (λ x. x.ref_count) (sym (eq_of_some (sym new ∙ sym (roots fd) ∙ at)))
            ∙ ap (λ x. x +ℤ pos 1)
                (v.counted fd r (subst (λ k. find s.sock_rb k ≡ some r) same root))
            ∙ pos_incr (count_in (has_root fd) s.acp_socket_rb))
    | inr (other, kept) ↦
        rw (counts (has_root fd), has_root_other fd (fresh_on org) other)
          (v.counted fd r' (sym kept ∙ sym (roots fd) ∙ at) ∙ ap pos (omega arith))
  ]

-- What `register_sock` does: where the root is registered and the descriptor is not yet accepted, the
-- descriptor is accepted on the root, which counts it; otherwise nothing changes. The result says
-- which.
abbrev pub Registered : SockStruct → ℤ → ℤ → SockStruct × Bool → Type 0
Registered s org listen (s', b) =
    IsValid s'
    × (((r : SocketFd) × (find s.sock_rb org ≡ some r)
          × (find s.acp_socket_rb listen ≡ none)
          × (b ≡ true)
          × ((q : ℤ)
              → find s'.acp_socket_rb q
                ≡ update (find s.acp_socket_rb) listen (some (fresh_on org)) q)
          × ((q : ℤ) → find s'.sock_rb q ≡ update (find s.sock_rb) org (some (one_more r)) q))
        ⊎ (((find s.sock_rb org ≡ none) ⊎ (find s.acp_socket_rb listen ≢ none))
            × (b ≡ false)
            × (s' ≡ s)))

-- From a valid state `register_sock` returns in a valid state. Where the root is registered and
-- the descriptor is not yet accepted, the descriptor is accepted on the root, which counts it, and
-- the result is true; otherwise nothing changes, and the result is false.
pub register_sock-Registered :
    (s : SockStruct) (org listen : ℤ)
    → IsValid s
    → Returns (Registered s org listen) (register_sock s org listen)
unfolding register_sock
register_sock-Registered s org listen v = elim (Option-cases (rb_exact_query s.sock_rb org)) [
  | inl e ↦ ((s, false), rw (e, register_sock), (v, inr (inl (ap info_of e), refl, refl)))
  | inr (root, e) ↦ elim (Option-cases (rb_exact_query s.acp_socket_rb listen)) [
    | inr (acp, f) ↦ (
      (s, false),
      rw (e, f, register_sock),
      (v, inr (inr (λ p. absurd (cc (sym (ap info_of f) ∙ p))), refl, refl)),
    )
    | inl f ↦
        let (t, got, table, accepts) =
          find-insert s.acp_socket_rb listen (fresh_on org) v.accepted f in
        let (table', roots) = find-set_info s.sock_rb org root (one_more root.entry.1) v.roots e in
        let counts = λ (g : AcpSocketFd → Bool).
          count_in-insert g s.acp_socket_rb t listen (fresh_on org) v.accepted got in
        let s' : SockStruct = record {
          sock_rb = set_info root (one_more root.entry.1);
          acp_socket_rb = t;
        } in
        (
          (s', true),
          rw (e, f, got, register_sock),
          (
            record {
              roots = table';
              accepted = table;
              linked =
                  accept-linked s' org listen root.entry.1 v (ap info_of e) accepts roots counts;
              counted =
                  accept-counted s' org listen root.entry.1 v (ap info_of e) accepts roots counts;
            },
            inl (root.entry.1, ap info_of e, ap info_of f, refl, accepts, roots),
          ),
        )
  ]
]
