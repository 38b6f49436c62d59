-- ===== src/Tests/Sockets.antt =====
-- The sockets of fd.c at a small state.
use mathlib.Core.Path.{subst}
use band_width_limiter.Base.{◌≡◌, inl, inr, refl, sym, ap, ◌∙◌, none, some, arith, Ordering-cases}
use band_width_limiter.Base.Int.{pos}
use band_width_limiter.Base.Outcome.{crashed, ◌>>=◌, Returns}
use band_width_limiter.Tree.Order.{Ord, fd_ord, int_comp}
use band_width_limiter.Tree.Shape.{black, leaf, node, inorder}
use band_width_limiter.Tree.Balance.{nil, black_node}
use band_width_limiter.Tree.Query.{rb_exact_query, query_from}
use band_width_limiter.Tree.Table.Laws.{IsTable, find}
use band_width_limiter.Tree.Table.Count.{count_in, count_if}
use band_width_limiter.Sock.{
  no_time, SocketFd, AcpSocketFd, SockStruct, copy_fd, get_dest_port, unregister_socket_descriptor,
}
use band_width_limiter.Sock.Invariant.{IsValid, has_root}
use band_width_limiter.Sock.Release.{Released, unregister-Released}
use band_width_limiter.Sock.Port.{PortOf, copy_fd-crashed}

-- Descriptor 5 was accepted on the socket 3 of port 80.
abbrev pub web_root : SocketFd
web_root = record { port = 80; ref_count = pos 1 }

abbrev pub client : AcpSocketFd
client = record {
  root_fd_number = pos 3;
  start_time_active_read = no_time;
  start_time_active_write = no_time;
}

abbrev pub sockets : SockStruct
sockets = record {
  sock_rb = node black leaf (pos 3, web_root) leaf;
  acp_socket_rb = node black leaf (pos 5, client) leaf;
}

-- A tree of one node finds its entry.
pub find_single :
    {K V : Type 0} ⦃o : Ord K⦄ (k : K) (v : V) (q : K) (w : V)
    → find (node black leaf (k, v) leaf) q ≡ some w
    → (k ≡ q) × (v ≡ w)
unfolding rb_exact_query query_from
find_single ⦃o⦄ k v q w h = elim (Ordering-cases (o.cmp k q)) [
  | inl e ↦ absurd (ground (arith, e, h))
  | inr (inl e) ↦ (o.eq_of_cmp k q e, ground (arith, e, h))
  | inr (inr e) ↦ absurd (ground (arith, e, h))
]

pub single-IsTable :
    {K V : Type 0} ⦃o : Ord K⦄ (k : K) (v : V) → IsTable (node black leaf (k, v) leaf)
unfolding inorder
single-IsTable k v = record { increasing = (tt, tt); balanced = (_, black_node nil nil) }

pub root_found : find sockets.sock_rb (pos 3) ≡ some web_root
unfolding rb_exact_query query_from fd_ord int_comp
root_found = refl

pub client_found : find sockets.acp_socket_rb (pos 5) ≡ some client
unfolding rb_exact_query query_from fd_ord int_comp
client_found = refl

pub client_missing : find sockets.acp_socket_rb (pos 6) ≡ none
unfolding rb_exact_query query_from fd_ord int_comp
client_missing = refl

clients_counted : pos 1 ≡ pos (count_in (has_root (pos 3)) sockets.acp_socket_rb)
unfolding count_in count_if inorder int_comp
clients_counted = refl

pub sockets-IsValid : IsValid sockets
sockets-IsValid = record {
  roots = single-IsTable (pos 3) web_root;
  accepted = single-IsTable (pos 5) client;
  linked = λ fd a e.
      let (_, same) = find_single (pos 5) client fd a e in
      (web_root, ap (λ x. find sockets.sock_rb x.root_fd_number) (sym same) ∙ root_found);
  counted = λ fd r e.
      let (at, same) = find_single (pos 3) web_root fd r e in
      subst (λ x. r.ref_count ≡ pos (count_in (has_root x) sockets.acp_socket_rb)) at
        (ap (λ x. x.ref_count) (sym same) ∙ clients_counted);
}

pub client-PortOf : PortOf sockets (pos 5) (some 80)
client-PortOf = (client, web_root, client_found, root_found, refl)

unregister_example :
    Returns (Released sockets (pos 5)) (unregister_socket_descriptor sockets (pos 5))
unregister_example = unregister-Released sockets (pos 5) sockets-IsValid

copy_fd_example :
    (copy_fd sockets (pos 5) (pos 6) >>= λ (s1, _).
    unregister_socket_descriptor s1 (pos 5) >>= λ (s2, _). get_dest_port s2 (pos 6))
    ≡ crashed
copy_fd_example =
    copy_fd-crashed sockets (pos 5) (pos 6) client web_root sockets-IsValid client_found
      client_missing root_found refl
