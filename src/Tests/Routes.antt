-- ===== src/Tests/Routes.antt =====
-- The routes, and what becomes of descriptors, at small states.
use mathlib.Core.Path.{subst}
use mathlib.Core.Option
use band_width_limiter.Base.{◌≤◌, ◌||◌, ◌≡◌, refl, sym, ap, ◌∙◌, none, some, [], ◌∷◌, arith}
use band_width_limiter.Base.Int.{ℤ, pos, eq_ℤ}
use band_width_limiter.Base.Outcome.{ok, Returns}
use band_width_limiter.Tree.Order.{fd_ord, int_comp, port_ord, uint32_comp}
use band_width_limiter.Tree.Shape.{black, red, leaf, node, inorder}
use band_width_limiter.Tree.Balance.{nil}
use band_width_limiter.Tree.Query.{rb_exact_query, query_from}
use band_width_limiter.Tree.Table.Laws.{IsTable, find}
use band_width_limiter.Tree.Table.Count.{count_in, count_if}
use band_width_limiter.Sock.{SocketFd, AcpSocketFd, SockStruct, get_dest_port, copy_fd, init_sock}
use band_width_limiter.Sock.Invariant.{IsValid, has_root}
use band_width_limiter.Sock.Copy.{entries_at, copy_fd_twice}
use band_width_limiter.Env.{is_port_registered, query_port}
use band_width_limiter.Tree.Insert.{rb_tree_insert}
use band_width_limiter.Env.Limits.{port_of}
use band_width_limiter.Controller.{Controller, regis_new_created_socket}
use band_width_limiter.Controller.Invariant.{IsController}
use band_width_limiter.Overload.Safety.{run-IsController}
use band_width_limiter.Overload.{run, step, bind, dup, accept_of, close_of, bind_of}
use band_width_limiter.Overload.Copies.{Duplicated, dup-Duplicated}
use band_width_limiter.Overload.Routes.Stays.{stays_limited}
use band_width_limiter.Overload.Routes.{view}
use band_width_limiter.Overload.Routes.Run.{Followed, run-Followed}
use band_width_limiter.Overload.Routes.Defects.{second_client_escapes, closed_socket_stays}
use band_width_limiter.Overload.Routes.Races.{
  World, close_parts, accept_parts, Ends, reused_descriptor_escapes,
}
use band_width_limiter.Tests.Sockets.{
  sockets, web_root, sockets-IsValid, client, client_found, client_missing, find_single,
  single-IsTable,
}
use band_width_limiter.Tests.Calls.{
  web, limits, limits-IsEnv, web_found, controller, controller-IsController, session,
}

run_routes_example : Returns (Followed controller session) (run controller session)
run_routes_example = run-Followed controller session controller-IsController

dup_example :
    Returns (Duplicated controller (pos 5) (pos 6)) (dup controller (pos 5) (pos 6) (pos 6))
dup_example =
    dup-Duplicated controller (pos 5) (pos 6) (pos 6) controller-IsController client_missing
      (λ e. cc e)

dup_twice_example :
    Returns
      (λ (s', _).
        (2 ≤ entries_at (pos 5) (inorder s'.acp_socket_rb)) × (¬ IsTable s'.acp_socket_rb))
      (copy_fd sockets (pos 5) (pos 5))
dup_twice_example =
    copy_fd_twice sockets (pos 5) (pos 5) client client sockets-IsValid client_found client_found

-- The socket 3 listens on port 80, and has no client.
abbrev idle_root : SocketFd
idle_root = record { port = 80; ref_count = pos 0 }

abbrev idle_sockets : SockStruct
idle_sockets = record { sock_rb = node black leaf (pos 3, idle_root) leaf; acp_socket_rb = leaf }

no_client : (q : ℤ) → find idle_sockets.acp_socket_rb q ≡ none
unfolding rb_exact_query query_from
no_client q = refl

none_counted : pos 0 ≡ pos (count_in (has_root (pos 3)) idle_sockets.acp_socket_rb)
unfolding count_in count_if inorder
none_counted = refl

empty-IsTable : IsTable {K = ℤ} {V = AcpSocketFd} leaf
unfolding inorder
empty-IsTable = record { increasing = tt; balanced = (_, nil) }

idle_sockets-IsValid : IsValid idle_sockets
idle_sockets-IsValid = record {
  roots = single-IsTable (pos 3) idle_root;
  accepted = empty-IsTable;
  linked = λ fd a e. absurd (cc (sym (no_client fd) ∙ e));
  counted = λ fd r e.
      let (at, same) = find_single (pos 3) idle_root fd r e in
      subst (λ x. r.ref_count ≡ pos (count_in (has_root x) idle_sockets.acp_socket_rb)) at
        (ap (λ x. x.ref_count) (sym same) ∙ none_counted);
}

abbrev idle : Controller
idle = record { soc_str = idle_sockets; reg_env_str = limits }

idle-IsController : IsController idle
idle-IsController = record {
  sockets = idle_sockets-IsValid;
  limits = limits-IsEnv;
  covered = λ fd r e.
      let (_, same) = find_single (pos 3) idle_root fd r e in
      (web, ap (λ x. port_of limits x.port) (sym same) ∙ web_found);
}

listens : (view idle.soc_str).ports (pos 3) ≡ some 80
unfolding rb_exact_query query_from fd_ord int_comp
listens = refl

no_route : (q : ℤ) → (view idle.soc_str).sockets q ≡ none
no_route q = ap (Option.map (λ (a : AcpSocketFd). a.root_fd_number)) (no_client q)

second_client_example :
    Returns
      (λ c'. get_dest_port c'.soc_str (pos 5) ≡ ok (some 80))
      (run idle (accept_of (pos 3) (pos 5) ∷ []))
    × Returns
        (λ c'. get_dest_port c'.soc_str (pos 6) ≡ ok none)
        (run idle (accept_of (pos 3) (pos 5) ∷ close_of (pos 5) ∷ accept_of (pos 3) (pos 6) ∷ []))
second_client_example =
    second_client_escapes idle (pos 3) 5 6 80 idle-IsController listens
      (λ q e. cc (sym (no_route q) ∙ e)) (no_route (pos 5)) (no_route (pos 6))

closed_socket_example :
    Returns
      (λ c'. get_dest_port c'.soc_str (pos 5) ≡ ok (some 80))
      (run idle (close_of (pos 3) ∷ bind_of (pos 3) 443 ∷ accept_of (pos 3) (pos 5) ∷ []))
closed_socket_example =
    closed_socket_stays idle (pos 3) 5 80 443 idle-IsController listens (no_route (pos 3))
      (no_route (pos 5))

-- The sockets 3 and 4 listen on port 80, and descriptor 5 was accepted on the first.
abbrev two : Controller
two = record {
  soc_str = record {
    sock_rb = node black leaf (pos 3, web_root) (node red leaf (pos 4, idle_root) leaf);
    acp_socket_rb = sockets.acp_socket_rb;
  };
  reg_env_str = limits;
}

bound_run : run controller (bind_of (pos 4) 80 ∷ []) ≡ ok two
unfolding run step bind regis_new_created_socket init_sock is_port_registered query_port
    rb_exact_query query_from fd_ord int_comp port_ord uint32_comp rb_tree_insert
bound_run = refl

two-IsController : IsController two
two-IsController =
    let (c, got, v) =
      run-IsController controller (bind_of (pos 4) 80 ∷ []) controller-IsController in
    let same : c ≡ two = cc (sym got ∙ bound_run) in subst IsController same v

listens_too : (view two.soc_str).ports (pos 4) ≡ some 80
unfolding rb_exact_query query_from fd_ord int_comp
listens_too = refl

taken : (view two.soc_str).sockets (pos 5) ≡ some (pos 3)
unfolding rb_exact_query query_from fd_ord int_comp
taken = refl

-- The descriptors 3, 4 and 5 are open.
abbrev busy : World
busy = record {
  controller = two;
  is_open = λ fd. eq_ℤ fd (pos 3) || (eq_ℤ fd (pos 4) || eq_ℤ fd (pos 5));
}

reused_descriptor_example :
    Ends busy (close_parts (pos 5)) (accept_parts (pos 4) (pos 5)) (pos 5) (some 80)
    × Ends busy (close_parts (pos 5)) (accept_parts (pos 4) (pos 5)) (pos 5) none
reused_descriptor_example =
    reused_descriptor_escapes busy (pos 4) (pos 3) 5 80 two-IsController refl listens_too taken
      (λ e. ground (arith, e))

client_port : get_dest_port controller.soc_str (pos 5) ≡ ok (some 80)
unfolding get_dest_port rb_exact_query query_from fd_ord int_comp
client_port = refl

stays_example :
    Returns
      (λ c'. IsController c' × (get_dest_port c'.soc_str (pos 5) ≡ ok (some 80)))
      (run controller session)
stays_example =
    stays_limited controller session (pos 5) 80 controller-IsController client_port
      (tt, (tt, (tt, ((λ e. ground (arith, e)), (tt, tt)))))
