-- ===== src/Sock/Port.antt =====
-- `get_dest_port` and the two time stamps, in a valid state, and `copy_fd`.
use band_width_limiter.Base.{
  ℕ, ◌≡◌, ◌≢◌, refl, sym, ap, ◌∙◌, Option, none, some, inl, inr, Option-cases, eq_of_some,
}
use band_width_limiter.Base.Int.{ℤ, pos}
use band_width_limiter.Base.Outcome.{crashed, Returns, ◌>>=◌}
use band_width_limiter.Tree.Order.{fd_ord}
use band_width_limiter.Tree.Shape.{Tree, Pointer}
use band_width_limiter.Tree.Query.{rb_exact_query}
use band_width_limiter.Tree.Table.Keys.{update, update-cases, update_self}
use band_width_limiter.Tree.Table.Laws.{IsTable, find, info_of, find-insert, find-delete}
use band_width_limiter.Sock.{
  SocketFd, AcpSocketFd, SockStruct, get_dest_port, copy_fd, unregister_socket_descriptor,
}
use band_width_limiter.Sock.Invariant.{IsValid}
use band_width_limiter.Sock.Release.{release_root-Returns, linked_node}

-- What `get_dest_port` finds: the port of the root of an accepted descriptor, and `false` for any other
-- descriptor.
abbrev pub PortOf : SockStruct → ℤ → Option ℕ → Type 0
PortOf s fd none = find s.acp_socket_rb fd ≡ none
PortOf s fd (some port) =
    (a : AcpSocketFd) × (r : SocketFd) × (find s.acp_socket_rb fd ≡ some a)
    × (find s.sock_rb a.root_fd_number ≡ some r)
    × (r.port ≡ port)

-- In a valid state `get_dest_port` reads no NULL pointer: it gives the port of the root of an
-- accepted descriptor, and false only for a descriptor that is not accepted.
pub get_dest_port-PortOf :
    (s : SockStruct) (fd : ℤ) → IsValid s → Returns (PortOf s fd) (get_dest_port s fd)
unfolding get_dest_port
get_dest_port-PortOf s fd v = elim (Option-cases (rb_exact_query s.acp_socket_rb fd)) [
  | inl e ↦ (none, rw (e, get_dest_port), ap info_of e)
  | inr (node, e) ↦
      let (root, f) = linked_node fd node v e in
      (
        some root.entry.1.port,
        rw (e, f, get_dest_port),
        (node.entry.1, root.entry.1, ap info_of e, ap info_of f, refl),
      )
]

-- The defect of the two functions: whatever the state, an accepted descriptor whose root is not
-- registered is read through NULL.
get_dest_port-crashed :
    (s : SockStruct) (fd : ℤ) (a : AcpSocketFd)
    → find s.acp_socket_rb fd ≡ some a
    → find s.sock_rb a.root_fd_number ≡ none
    → get_dest_port s fd ≡ crashed
unfolding get_dest_port
get_dest_port-crashed s fd a e f = elim (Option-cases (rb_exact_query s.acp_socket_rb fd)) [
  | inl g ↦ absurd (cc (sym e ∙ ap info_of g))
  | inr (node, g) ↦
      let same : node.entry.1 ≡ a = eq_of_some (sym (ap info_of g) ∙ e) in
      elim (Option-cases (rb_exact_query s.sock_rb node.entry.1.root_fd_number)) [
        | inl h ↦ rw (g, h, get_dest_port)
        | inr (root, h) ↦
            absurd (cc (sym (ap info_of h) ∙ ap (λ x. find s.sock_rb x.root_fd_number) same ∙ f))
      ]
]

-- What is found is a node of the tree.
pub node_of :
    {V : Type 0} (t : Tree (ℤ × V)) (k : ℤ) (v : V)
    → find t k ≡ some v
    → (node : Pointer (ℤ × V)) × (rb_exact_query t k ≡ some node) × (node.entry.1 ≡ v)
node_of t k v e = elim (Option-cases (rb_exact_query t k)) [
  | inl f ↦ absurd (cc (sym e ∙ ap info_of f))
  | inr (node, f) ↦ (node, f, eq_of_some (sym (ap info_of f) ∙ e))
]

-- The node of a descriptor, and nothing for a missing one.
pub no_node : {V : Type 0} (t : Tree (ℤ × V)) (k : ℤ) → find t k ≡ none → rb_exact_query t k ≡ none
no_node t k e = elim (Option-cases (rb_exact_query t k)) [
  | inl f ↦ f
  | inr (node, f) ↦ absurd (cc (sym (ap info_of f) ∙ e))
]

pub update_other :
    {V : Type 0} (f : ℤ → Option V) (k : ℤ) (v : Option V) (q : ℤ) → k ≢ q → update f k v q ≡ f q
update_other f k v q apart = elim (update-cases f k v q) [
  | inl (same, _) ↦ absurd (apart same)
  | inr (_, got) ↦ got
]

copied_then_closed :
    (s : SockStruct) (old_fd new_fd : ℤ) (t : Tree (ℤ × AcpSocketFd)) (a : AcpSocketFd)
    (r : SocketFd)
    → IsTable s.sock_rb
    → IsTable t
    → old_fd ≢ new_fd
    → find t old_fd ≡ some a
    → find t new_fd ≡ some a
    → find s.sock_rb a.root_fd_number ≡ some r
    → r.ref_count ≡ pos 1
    → (unregister_socket_descriptor (record s { acp_socket_rb = t }) old_fd >>= λ (s2, _).
        get_dest_port s2 new_fd)
      ≡ crashed
unfolding unregister_socket_descriptor
copied_then_closed s old_fd new_fd t a r roots table apart old new root one =
    let (node, e, here) = node_of t old_fd a old in
    let (top, f, info) =
      node_of s.sock_rb node.entry.1.root_fd_number r
        (ap (λ x. find s.sock_rb x.root_fd_number) here ∙ root) in
    let (u, released, (_, gone)) =
      release_root-Returns 0 node.entry.1.root_fd_number top roots f
        (ap (λ x. x.ref_count) info ∙ one) in
    let (w, deleted, _, kept) = find-delete t old_fd node table e in
    rw (unregister_socket_descriptor, e, f, released, deleted)
      (get_dest_port-crashed (record { sock_rb = u; acp_socket_rb = w }) new_fd a
        (kept new_fd ∙ update_other (find t) old_fd none new_fd apart ∙ new)
        (ap (find u) (ap (λ x. x.root_fd_number) (sym here))
          ∙ gone node.entry.1.root_fd_number
          ∙ update_self (find s.sock_rb) node.entry.1.root_fd_number none))

-- A copied descriptor does not count as a reference. In a valid state, let a descriptor be
-- accepted on a root that has one reference, and another descriptor not be accepted: after
-- `copy_fd` from the first to the second, and `unregister_socket_descriptor` of the first,
-- `get_dest_port` of the second reads a NULL pointer.
pub copy_fd-crashed :
    (s : SockStruct) (old_fd new_fd : ℤ) (a : AcpSocketFd) (r : SocketFd)
    → IsValid s
    → find s.acp_socket_rb old_fd ≡ some a
    → find s.acp_socket_rb new_fd ≡ none
    → find s.sock_rb a.root_fd_number ≡ some r
    → r.ref_count ≡ pos 1
    → (copy_fd s old_fd new_fd >>= λ (s1, _).
        unregister_socket_descriptor s1 old_fd >>= λ (s2, _). get_dest_port s2 new_fd)
      ≡ crashed
unfolding copy_fd
copy_fd-crashed s old_fd new_fd a r v e f root one =
    let (node, at, here) = node_of s.acp_socket_rb old_fd a e in
    let (t, got, table, reads) =
      find-insert s.acp_socket_rb new_fd node.entry.1 v.accepted
        (no_node s.acp_socket_rb new_fd f) in
    let apart : old_fd ≢ new_fd = λ same. cc (sym e ∙ ap (find s.acp_socket_rb) same ∙ f) in
    rw (copy_fd, at, got)
      (copied_then_closed s old_fd new_fd t a r v.roots table apart
        (reads old_fd
          ∙ update_other (find s.acp_socket_rb) new_fd _ old_fd (λ same. apart (sym same))
          ∙ e)
        (reads new_fd ∙ update_self (find s.acp_socket_rb) new_fd _ ∙ ap some here) root one)
