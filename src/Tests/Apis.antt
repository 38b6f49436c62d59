-- ===== src/Tests/Apis.antt =====
-- A program that calls the exported functions.
use band_width_limiter.Base.{◌≡◌, refl, none, List, [], ◌∷◌, All, arith}
use band_width_limiter.Base.Int.{pos}
use band_width_limiter.Base.Outcome.{ok, Returns}
use band_width_limiter.Text.{getenv, equal, atoi}
use band_width_limiter.Controller.{no_ports}
use band_width_limiter.Controller.Init.{init_process}
use band_width_limiter.Controller.Invariant.{IsController, setup-IsController}
use band_width_limiter.Overload.Start.{no_ports-IsEnv}
use band_width_limiter.Overload.Process.{fresh_process}
use band_width_limiter.Overload.Api.{SockAddr, Libc, address_port}
use band_width_limiter.Overload.Api.Serve.{
  Visit, call_socket, call_bind, call_read, call_close, serve_all,
}
use band_width_limiter.Overload.Api.Transparent.{
  IsPlain, ServedAll, address_port_lem, serve_all-ServedAll,
}
use band_width_limiter.Tests.Calls.{now}
use band_width_limiter.Tests.Launches.{kept, opens, finds, unlimited, first}

-- A local socket with the path `/tmp`: its first two bytes, 47 and 116, are read as a port.
abbrev local_address : SockAddr
local_address = 1 ∷ 0 ∷ 47 ∷ 116 ∷ 109 ∷ 112 ∷ 0 ∷ []

address_port_example : address_port local_address ≡ ok 12148
address_port_example = address_port_lem 1 0 12148 (109 ∷ 112 ∷ 0 ∷ []) (omega arith)

-- A libc that moves one byte, and gives out the descriptor 7.
abbrev plain_libc : Libc
plain_libc = record {
  socket = λ domain kind protocol. pos 7;
  close = λ fd. pos 0;
  read = λ fd n. pos 1;
  recv = λ fd n flags. pos 1;
  readv = λ fd n. pos 1;
  recvfrom = λ fd n flags. pos 1;
  write = λ fd n. pos 1;
  send = λ fd n flags. pos 1;
  writev = λ fd n. pos 1;
  sendto = λ fd n flags addr. pos 1;
  select = λ n. pos 1;
  poll = λ n timeout. pos 1;
  accept = λ fd. pos 7;
  dup = λ fd. pos 7;
  dup2 = λ fd new. new;
  bind = λ fd addr. pos 0;
  connect = λ fd addr. pos 0;
}

abbrev visited : List Visit
visited =
    record { libc = plain_libc; now = now; clock = now; api = call_socket (pos 1) (pos 1) (pos 0) }
    ∷ record { libc = plain_libc; now = now; clock = now; api = call_bind (pos 7) local_address }
    ∷ record { libc = plain_libc; now = now; clock = now; api = call_read (pos 7) 100 }
    ∷ record { libc = plain_libc; now = now; clock = now; api = call_close (pos 7) }
    ∷ []

abbrev start_visit : Visit
start_visit = record {
  libc = plain_libc;
  now = now;
  clock = now;
  api = call_socket (pos 2) (pos 1) (pos 0);
}

visited-IsPlain : All (λ v. IsPlain v.api) (start_visit ∷ visited)
visited-IsPlain = (tt, (tt, ((12148, address_port_example), (tt, (tt, tt)))))

first-IsController : IsController first
first-IsController = setup-IsController no_ports no_ports-IsEnv

serve_all_example :
    Returns
      (ServedAll 7 unlimited (start_visit ∷ visited))
      (serve_all 0 kept none opens finds (fresh_process unlimited) (start_visit ∷ visited))
unfolding init_process getenv equal atoi
serve_all_example =
    serve_all-ServedAll 0 kept none opens finds unlimited unlimited first 7 start_visit visited refl
      refl (λ name. refl) first-IsController visited-IsPlain
