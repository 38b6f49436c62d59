-- ===== src/Overload/Rate.antt =====
-- The wrappers in time. The clock is counted in nanoseconds; the sleep of the limiter lets its time
-- pass, and the program idles, and libc takes its time, as long as they like.
pub mod Bound
pub mod Turns
pub mod Capped
use band_width_limiter.Base.{
  ℕ, ◌+◌, ◌*◌, ◌/◌, ◌%◌, Bool, true, false, Option, none, some, List, [], ◌∷◌, if◌then◌else◌, ◌==◌,
  not,
}
use band_width_limiter.Base.Int.{ℤ, pos, pos_part}
use band_width_limiter.Base.Outcome.{Outcome, ok, exited, crashed, out_of_fuel, ◌>>=◌}
use band_width_limiter.Sock.{Timespec, get_dest_port, is_acp_sock_fd_present}
use band_width_limiter.Controller.{Controller, Allowance, get_port_remaining_byte, nano_mult}
use band_width_limiter.Overload.{Call, close_of, accept_of, bind_of, connect_of, step, transfer}

-- What `clock_gettime` gives.
abbrev pub at_ns : ℕ → Timespec
at_ns t = record { tv_sec = pos (t / nano_mult); tv_nsec = pos (t % nano_mult) }

abbrev pub slept_ns : Option Timespec → ℕ
slept_ns none = 0
slept_ns (some ts) = pos_part ts.tv_sec * nano_mult + pos_part ts.tv_nsec

abbrev pub sleep_in : Outcome Allowance → ℕ
sleep_in (ok (c, bytes, sleep)) = slept_ns sleep
sleep_in (exited n) = 0
sleep_in crashed = 0
sleep_in out_of_fuel = 0

-- How long `pre_op` sleeps.
unfoldable pub sleep_of : Controller → ℤ → Bool → Timespec → ℕ
sleep_of c fd flag now =
    if not (is_acp_sock_fd_present c.soc_str fd)
    then 0
    else sleep_in (get_port_remaining_byte c fd flag now)

-- A wrapper that keeps the books of the sockets.
pub data Keeping : Type 0 where
  closes : ℤ → Keeping
  accepts : ℤ → ℤ → Keeping
  binds : ℤ → ℕ → Keeping
  connects : ℤ → ℕ → Keeping

abbrev pub call_of : Keeping → Call
call_of (closes fd) = close_of fd
call_of (accepts fd acp_fd) = accept_of fd acp_fd
call_of (binds fd port) = bind_of fd port
call_of (connects fd port) = connect_of fd port

-- A call, the time that passes before it, and for a transfer the time from the end of the sleep to the
-- second reading of the clock. A `readv` (with the flag true) or `writev` of a descriptor hands its
-- arguments to libc, which takes some time and answers a number.
pub data Turn : Type 0 where
  moves : (idle took : ℕ) → (ℕ → ℤ) → ℤ → ℕ → Bool → Turn
  keeps : (idle : ℕ) → Keeping → Turn
  vectors : (took : ℕ) → ℤ → ℤ → Bool → Turn

abbrev pub same_flag : Bool → Bool → Bool
same_flag true b = b
same_flag false b = not b

abbrev pub goes_to : ℕ → Outcome (Option ℕ) → Bool
goes_to port (ok (some q)) = q == port
goes_to port (ok none) = false
goes_to port (exited n) = false
goes_to port crashed = false
goes_to port out_of_fuel = false

-- The bytes of a transfer that the port moved in the direction.
abbrev pub share : ℕ → Bool → Controller → ℤ → Bool → ℤ → ℕ
share port flag c fd way n =
    if same_flag flag way
    then (if goes_to port (get_dest_port c.soc_str fd) then pos_part n else 0)
    else 0

-- The calls one after the other from a time on: the time at the end, and the bytes that the port moved
-- in the direction.
unfoldable pub live : ℕ → Bool → ℕ → Controller → List Turn → Outcome (Controller × ℕ × ℕ)
live port flag t c [] = ok (c, t, 0)
live port flag t c (moves idle took libc fd count way ∷ turns) =
    let now = t + idle in
    let clock = now + sleep_of c fd way (at_ns now) + took in
    transfer libc c fd count way (at_ns now) (some (at_ns clock)) >>= λ (c1, n).
    live port flag clock c1 turns >>= λ (c2, end, moved).
    ok (c2, end, share port flag c fd way n + moved)
live port flag t c (keeps idle call ∷ turns) =
    step c (call_of call) >>= λ c1. live port flag (t + idle) c1 turns
live port flag t c (vectors took fd n way ∷ turns) =
    live port flag (t + took) c turns >>= λ (c2, end, moved).
    ok (c2, end, share port flag c fd way n + moved)

-- The bytes that `readv`, or `writev`, answers in a row of calls.
abbrev pub vectored : Bool → List Turn → ℕ
vectored flag [] = 0
vectored flag (moves idle took libc fd count way ∷ turns) = vectored flag turns
vectored flag (keeps idle call ∷ turns) = vectored flag turns
vectored flag (vectors took fd n way ∷ turns) =
    (if same_flag flag way then pos_part n else 0) + vectored flag turns
