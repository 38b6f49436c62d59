-- ===== src/Overload.antt =====
-- The wrappers of overload.c, after the first call has set the environment up. What a function of libc
-- returns is an argument: a number, or for a transfer a function of the size that it is passed. Here a
-- wrapper runs to its end; Overload/Threads has the orders in which threads take the lock, and
-- Overload/Routes/Races those of the calls of libc and the books.
pub mod Safety
pub mod Start
pub mod Process
pub mod Threads
pub mod Transfer
pub mod Budget
pub mod Window
pub mod Rate
pub mod Routes
pub mod Copies
pub mod Api
use Prim.Native.Nat.Ordering.{lt, eq, gt}
use band_width_limiter.Base.{
  ℕ, ◌+◌, ◌-◌, ◌%◌, ◌^◌, Bool, true, false, Option, none, some, List, [], ◌∷◌, if◌then◌else◌, not,
  ltb,
}
use band_width_limiter.Base.Int.{ℤ, pos, negsuc, lt_ℤ, eq_ℤ}
use band_width_limiter.Base.Outcome.{Outcome, ok, exited, crashed, ◌>>=◌}
use band_width_limiter.Sock.{Timespec, register_sock, unregister_socket_descriptor}
use band_width_limiter.Controller.{
  Controller, regis_new_created_socket, pre_op, do_update, update_time, func_dup_manager,
}

-- The conversions between `size_t` and `ssize_t`, of 64 bits.
unfoldable pub to_ssize : ℕ → ℤ
to_ssize n = if ltb n (2 ^ 63) then pos n else negsuc (2 ^ 64 - 1 - n)

unfoldable pub to_size : ℤ → ℕ
to_size (pos n) = n % 2 ^ 64
to_size (negsuc n) = 2 ^ 64 - 1 - n % 2 ^ 64

-- After the transfer itself.
unfoldable pub account : Controller → ℤ → Bool → Option Timespec → ℤ → Outcome (Controller × ℤ)
account c fd flag clock done = if not (lt_ℤ (pos 0) done) then ok (c, done) else do
  charged ← do_update c done fd flag
  (stamped, _) ← update_time charged fd flag clock
  ok (stamped, done)

-- `read`, `recv` and `recvfrom` with the flag true, `write`, `send` and `sendto` with it false. The
-- times are those of the two readings of the clock.
unfoldable pub transfer :
    (ℕ → ℤ) → Controller → ℤ → ℕ → Bool → Timespec → Option Timespec → Outcome (Controller × ℤ)
unfolding account to_ssize to_size
transfer libc c fd count flag now clock = do
  (c1, demand, active) ← pre_op c fd (to_ssize count) flag now
  if active then account c1 fd flag clock (libc (to_size demand)) else ok (c1, libc count)

-- The books of `close`, which are kept once libc has closed the descriptor.
unfoldable pub close : Controller → ℤ → Outcome Controller
close c fd = do
  (soc_str, _) ← unregister_socket_descriptor c.soc_str fd
  ok (record c { soc_str = soc_str })

-- The books of `accept`: `acp_fd` is what libc has returned.
unfoldable pub accept : Controller → ℤ → ℤ → Outcome Controller
accept c fd acp_fd =
    if eq_ℤ acp_fd (negsuc 0)
    then ok c
    else do (soc_str, _) ← register_sock c.soc_str fd acp_fd; ok (record c { soc_str = soc_str })

-- `dup` and `dup2`: the result of libc, and the new descriptor.
unfoldable pub dup : Controller → ℤ → ℤ → ℤ → Outcome Controller
dup c old_fd result new_fd =
    if eq_ℤ result (negsuc 0) then ok c else func_dup_manager c old_fd new_fd

unfoldable pub bind : Controller → ℤ → ℕ → Outcome Controller
bind c fd port = do (after, _) ← regis_new_created_socket c fd port; ok after

unfoldable pub connect : Controller → ℤ → ℕ → Outcome Controller
connect c fd port = do
  (after, registered) ← regis_new_created_socket c fd port
  if not registered then ok after else do
    (soc_str, _) ← register_sock after.soc_str fd fd
    ok (record after { soc_str = soc_str })

-- A call of a wrapper, with what libc answers and what the clock shows.
pub data Call : Type 0 where
  transfer_of : (ℕ → ℤ) → ℤ → ℕ → Bool → Timespec → Timespec → Call
  close_of : ℤ → Call
  accept_of : ℤ → ℤ → Call
  bind_of : ℤ → ℕ → Call
  connect_of : ℤ → ℕ → Call

unfoldable pub step : Controller → Call → Outcome Controller
step c (transfer_of libc fd count flag now clock) = do
  (after, _) ← transfer libc c fd count flag now (some clock)
  ok after
step c (close_of fd) = close c fd
step c (accept_of fd acp_fd) = accept c fd acp_fd
step c (bind_of fd port) = bind c fd port
step c (connect_of fd port) = connect c fd port

-- The calls of a program, in their order.
unfoldable pub run : Controller → List Call → Outcome Controller
unfolding step
run c [] = ok c
run c (call ∷ calls) = do after ← step c call; run after calls
