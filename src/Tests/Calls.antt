-- ===== src/Tests/Calls.antt =====
-- The port table, the controller and the wrappers at a small state.
use mathlib.Core.Path.{subst}
use band_width_limiter.Base.{
  ℕ, zero, suc, ◌^◌, ◌-◌, ◌≡◌, refl, sym, ap, ◌∙◌, some, List, [], ◌∷◌, arith, true, false,
  eq_of_some,
}
use band_width_limiter.Base.Int.{ℤ, pos, negsuc, ◌≤ℤ◌}
use band_width_limiter.Base.Outcome.{Returns, ok}
use band_width_limiter.Tree.Order.{port_ord, fd_ord, uint32_comp}
use band_width_limiter.Tree.Shape.{black, Tree, leaf, node, inorder}
use band_width_limiter.Tree.Balance.{nil, black_node}
use band_width_limiter.Tree.Query.{rb_exact_query, query_from}
use band_width_limiter.Tree.Table.Laws.{IsTable}
use band_width_limiter.Sock.{Timespec, no_time}
use band_width_limiter.Env.{PortStruct, RegisterEnv, query_port}
use band_width_limiter.Env.Limits.{port_of, IsEnv}
use band_width_limiter.Controller.{Controller, allow, pre_op}
use band_width_limiter.Controller.Grant.{Served, allow-Served}
use band_width_limiter.Controller.Invariant.{IsController}
use band_width_limiter.Overload.{
  transfer, run, Call, transfer_of, close_of, accept_of, bind_of, connect_of,
}
use band_width_limiter.Base.{◌+◌, ◌*◌, ◌<◌}
use band_width_limiter.Base.Int.{◌-ℤ◌, ◌+ℤ◌, ◌*ℤ◌}
use band_width_limiter.Sock.{is_acp_sock_fd_present, get_dest_port}
use band_width_limiter.Env.{get_init_down_limit, get_time_val, get_remaining_byte_count}
use band_width_limiter.Controller.{get_port_remaining_byte, time_difference}
use band_width_limiter.Controller.{nano_mult, sleep_until}
use band_width_limiter.Controller.Delay.{sleep_until-Exact}
use band_width_limiter.Overload.Safety.{run-IsController}
use band_width_limiter.Overload.Threads.{
  Flight, before_libc, System, begins, Reach, at_start, later,
}
use band_width_limiter.Overload.Threads.Overlap.{asks, copies, Reach-copies}
use band_width_limiter.Overload.Threads.Safe.{Safe, Reach-Safe}
use band_width_limiter.Overload.Transfer.{Transferred, transfer-Transferred}
use band_width_limiter.Overload.Budget.{Spent, transfer-Spent, transfer-unlimited}
use band_width_limiter.Tests.Sockets.{
  sockets, web_root, sockets-IsValid, client-PortOf, find_single,
}

-- Port 80 may read 4000 bytes a second, of which 1500 are left, and write without a limit.
abbrev pub web : PortStruct
web = record {
  up_limit = negsuc 0;
  bind_port = 80;
  down_limit = pos 4000;
  start_time_read = no_time;
  start_time_write = no_time;
  remaining_read = pos 1500;
  remaining_write = pos 0;
  latency = 0;
}

abbrev ports : Tree (ℕ × PortStruct)
ports = node black leaf (80, web) leaf

abbrev pub limits : RegisterEnv
limits = record { port_rb = some ports }

abbrev pub controller : Controller
controller = record { soc_str = sockets; reg_env_str = limits }

ports-IsTable : IsTable ports
unfolding inorder
ports-IsTable = record { increasing = (tt, tt); balanced = (_, black_node nil nil) }

pub limits-IsEnv : IsEnv limits
limits-IsEnv t e = subst IsTable (eq_of_some e) ports-IsTable

pub web_found : port_of limits 80 ≡ some web
unfolding query_port rb_exact_query query_from port_ord uint32_comp
web_found = refl

pub controller-IsController : IsController controller
controller-IsController = record {
  sockets = sockets-IsValid;
  limits = limits-IsEnv;
  covered = λ fd r e.
      let (_, same) = find_single (pos 3) web_root fd r e in
      (web, ap (λ x. port_of limits x.port) (sym same) ∙ web_found);
}

-- A libc that transfers one byte, unless it is asked for none.
abbrev pub one_byte : ℕ → ℤ
one_byte zero = pos 0
one_byte (suc n) = pos 1

pub one_byte-IsLawful : (m : ℕ) → one_byte m ≤ℤ pos m
one_byte-IsLawful zero = ground arith
one_byte-IsLawful (suc n) = ground arith

abbrev pub now : Timespec
now = record { tv_sec = pos 0; tv_nsec = pos 700 }

allow_example : Served controller 80 true web now (allow controller 80 true now)
allow_example = allow-Served controller 80 true web now limits-IsEnv web_found

-- A client is accepted and served, and the socket is closed.
abbrev pub session : List Call
session =
    bind_of (pos 7) 80
    ∷ accept_of (pos 7) (pos 8)
    ∷ transfer_of one_byte (pos 8) 9000 true now now
    ∷ close_of (pos 8)
    ∷ connect_of (pos 9) 80
    ∷ []

run_example : Returns IsController (run controller session)
run_example = run-IsController controller session controller-IsController

transfer_example :
    Returns
      (Transferred one_byte controller (pos 5) 9000 true now now)
      (transfer one_byte controller (pos 5) 9000 true now (some now))
transfer_example =
    transfer-Transferred one_byte controller (pos 5) 9000 true now now controller-IsController

transfer_budget_example :
    Returns
      (Spent controller 80 true 4000 1500 9000)
      (transfer one_byte controller (pos 5) 9000 true now (some now))
transfer_budget_example =
    transfer-Spent one_byte controller (pos 5) 9000 true now now 80 web 4000 1500
      controller-IsController one_byte-IsLawful (omega arith) client-PortOf web_found
      (refl, refl, omega arith)

transfer_unlimited_example :
    Returns
      (λ (c', n). n ≡ one_byte (2 ^ 64 - 1))
      (transfer one_byte controller (pos 5) 9000 false now (some now))
transfer_unlimited_example =
    transfer-unlimited one_byte controller (pos 5) 9000 false now now 80 web controller-IsController
      (omega arith) client-PortOf web_found refl

sleep_until_example :
    (seconds nanoseconds : ℕ) × (sleep_until (pos 250)
      ≡ record { tv_sec = pos seconds; tv_nsec = pos nanoseconds })
    × (nanoseconds < nano_mult)
    × (pos nano_mult -ℤ pos 250 ≡ pos (seconds * nano_mult + nanoseconds))
sleep_until_example = sleep_until-Exact (pos 250) (omega arith)

-- Two threads that are between their sections at once may each transfer what is left of the window.
abbrev one_flight : Flight
one_flight = record { fd = pos 5; flag = true; asked = 1500; active = true }

overlap_run : before_libc controller (pos 5) 9000 true now ≡ ok (controller, one_flight)
unfolding before_libc pre_op query_port rb_exact_query query_from port_ord uint32_comp fd_ord
    is_acp_sock_fd_present get_port_remaining_byte get_dest_port get_init_down_limit time_difference
    ◌-ℤ◌ ◌+ℤ◌ ◌*ℤ◌ get_time_val get_remaining_byte_count
overlap_run = refl

abbrev two_flights : System
two_flights = record { controller = controller; flights = one_flight ∷ one_flight ∷ [] }

two_flights-Reach : Reach controller two_flights
two_flights-Reach =
    later (later at_start (begins (pos 5) 9000 true now overlap_run))
      (begins (pos 5) 9000 true now overlap_run)

threads_example : Safe two_flights
threads_example = Reach-Safe controller two_flights controller-IsController two_flights-Reach

overlap_example :
    Reach controller
      (record { controller = controller; flights = copies 3 (asks (pos 5) true 1500) })
unfolding time_difference ◌-ℤ◌ ◌+ℤ◌ ◌*ℤ◌
overlap_example =
    Reach-copies controller (pos 5) 9000 true now 80 web 4000 1500 3 controller-IsController
      client-PortOf web_found refl refl (omega arith) (omega arith) (omega arith) (ground arith)
