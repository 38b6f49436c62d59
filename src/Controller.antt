-- ===== src/Controller.antt =====
-- The controller of interface.c: it ties the sockets of fd.c to the port limits of register_env.c.
-- The clock, and what `nanosleep` gives, are arguments.
pub mod Grant
pub mod Delay
pub mod PreOp
pub mod Sockets
pub mod Invariant
pub mod Init
pub mod CleanUp
use Prim.Native.Nat.Ordering.{lt, eq, gt}
use band_width_limiter.Base.{
  ℕ, ◌+◌, ◌-◌, ◌/◌, ◌%◌, Bool, true, false, Option, none, some, List, [], ◌∷◌, if◌then◌else◌, not,
}
use band_width_limiter.Base.Int.{ℤ, pos, negsuc, ◌+ℤ◌, ◌-ℤ◌, ◌*ℤ◌, lt_ℤ, le_ℤ, eq_ℤ}
use band_width_limiter.Base.Outcome.{Outcome, ok, exited, crashed, ◌>>=◌}
use band_width_limiter.Sock.{
  Timespec, SockStruct, setup_sock_env, init_sock, copy_fd, get_dest_port, is_acp_sock_fd_present,
  insert_start_time_of_packet,
}
use band_width_limiter.Env.{
  RegisterEnv, do_register, is_port_registered, get_init_up_limit, get_init_down_limit,
  get_time_val, update_time_val, get_remaining_byte_count, update_byte_count, set_byte_count_window,
}

-- `controller_struct`, less the tables of functions.
pub record Controller : Type 0 where
  pub soc_str : SockStruct
  pub reg_env_str : RegisterEnv

-- The structure that `safe_malloc` leaves for the ports.
abbrev pub no_ports : RegisterEnv
no_ports = record { port_rb = none }

-- `__init_env__` when the ports come from the environment variables, whose numbers are the arguments.
-- `do_register` only ever returns true, so the sockets are always set up.
unfoldable pub init_env : ℤ → ℤ → ℤ → ℤ → Outcome (Controller × Bool)
init_env port up_limit down_limit latency = do
  (env, done) ← do_register no_ports port up_limit down_limit latency
  ok (record { soc_str = setup_sock_env; reg_env_str = env }, done)

unfoldable pub regis_new_created_socket : Controller → ℤ → ℕ → Outcome (Controller × Bool)
regis_new_created_socket c sock_fd port =
    if not (is_port_registered c.reg_env_str port) then ok (c, false) else do
      (soc_str, done) ← init_sock c.soc_str sock_fd port
      ok (record c { soc_str = soc_str }, done)

-- `NANO_MULT`, a second in nanoseconds.
abbrev pub nano_mult : ℕ
nano_mult = 1000000000

unfoldable pub time_difference : Timespec → Timespec → ℤ
time_difference old_time current_time =
    (current_time.tv_sec *ℤ pos nano_mult +ℤ current_time.tv_nsec)
    -ℤ (old_time.tv_sec *ℤ pos nano_mult +ℤ old_time.tv_nsec)

-- How one call of `nanosleep` ends.
pub data Sleep : Type 0 where
  slept : Sleep
  interrupted : Timespec → Sleep
  bad_address : Sleep
  bad_request : Sleep

-- `do_complete_nanosleep` over the ends of its calls: the requests made, and the result. A list that
-- is too short leaves the loop waiting.
unfoldable pub do_complete_nanosleep : Timespec → List Sleep → List Timespec × Option ℤ
do_complete_nanosleep treq [] = (treq ∷ [], none)
do_complete_nanosleep treq (slept ∷ more) = (treq ∷ [], some (pos 0))
do_complete_nanosleep treq (interrupted tret ∷ more) =
    let (requests, result) = do_complete_nanosleep tret more in (treq ∷ requests, result)
do_complete_nanosleep treq (bad_address ∷ more) = (treq ∷ [], some (negsuc 0))
do_complete_nanosleep treq (bad_request ∷ more) = (treq ∷ [], some (negsuc 0))

-- The division of C, which rounds to 0.
unfoldable pub quotient : ℤ → ℕ → ℤ
quotient (pos n) d = pos (n / d)
quotient (negsuc n) d = pos 0 -ℤ pos ((n + 1) / d)

unfoldable pub modulo : ℤ → ℕ → ℤ
modulo (pos n) d = pos (n % d)
modulo (negsuc n) d = pos 0 -ℤ pos ((n + 1) % d)

-- The time to sleep when the window is spent `time_diff` nanoseconds after the last access.
unfoldable pub sleep_until : ℤ → Timespec
unfolding quotient modulo
sleep_until time_diff =
    let delay_sleep = pos nano_mult -ℤ time_diff in
    record { tv_sec = quotient delay_sleep nano_mult; tv_nsec = modulo delay_sleep nano_mult }

-- What a call of `get_port_remaining_byte` gives: the controller, the bytes, and the sleep it did.
abbrev pub Allowance : Type 0
Allowance = Controller × ℤ × Option Timespec

-- The window is set to `size`.
unfoldable pub set_window : Controller → ℕ → ℤ → Bool → Controller
set_window c port size flag = record c {
  reg_env_str = (set_byte_count_window c.reg_env_str port size flag).0;
}

unfoldable pub get_init_limit : Controller → ℕ → Bool → ℤ
get_init_limit c port flag =
    if not flag
    then get_init_up_limit c.reg_env_str port
    else get_init_down_limit c.reg_env_str port

-- The body for a port with a limit.
unfoldable pub limited : Controller → ℕ → Bool → Timespec → ℤ → Allowance
unfolding set_window sleep_until
limited c port flag current_time limit =
    let time_diff = time_difference (get_time_val c.reg_env_str port flag) current_time in
    let left = get_remaining_byte_count c.reg_env_str port flag in
    if lt_ℤ (pos nano_mult) time_diff
    then (set_window c port limit flag, limit, none)
    else if le_ℤ left (pos 0)
    then (set_window c port limit flag, limit, some (sleep_until time_diff))
    else (c, left, none)

-- `__get_port_remainf_byte__`, once the port is known.
unfoldable pub allow : Controller → ℕ → Bool → Timespec → Allowance
unfolding limited get_init_limit set_window
allow c port flag current_time =
    let limit = get_init_limit c port flag in
    if eq_ℤ limit (negsuc 0)
    then (set_window c port (pos 0) flag, limit, none)
    else limited c port flag current_time limit

-- `__get_port_remainf_byte__`. A descriptor that is not registered ends the process.
unfoldable pub get_port_remaining_byte : Controller → ℤ → Bool → Timespec → Outcome Allowance
unfolding allow
get_port_remaining_byte c acp_sock_fd flag current_time = do
  found ← get_dest_port c.soc_str acp_sock_fd
  elim found [ none ↦ exited 0 | some port ↦ ok (allow c port flag current_time) ]

unfoldable pub update_time : Controller → ℤ → Bool → Option Timespec → Outcome (Controller × Bool)
update_time c acp_sock_fd flag clock = do
  found ← get_dest_port c.soc_str acp_sock_fd
  elim found [
    | none ↦ ok (c, false)
    | some port ↦
        let (env, done) = update_time_val c.reg_env_str port flag clock in
        ok (record c { reg_env_str = env }, done)
  ]

unfoldable pub do_update : Controller → ℤ → ℤ → Bool → Outcome Controller
do_update c access_byte_count acp_soc_fd flag =
    if not (lt_ℤ (pos 0) access_byte_count) then ok c else do
      found ← get_dest_port c.soc_str acp_soc_fd
      elim found [
        | none ↦ ok c
        | some port ↦ ok (record c {
          reg_env_str = (update_byte_count c.reg_env_str port access_byte_count flag).0;
        })
      ]

unfoldable init_start_time_for_latency : Controller → ℤ → Bool → Timespec → Controller × Bool
init_start_time_for_latency c acp_soc_fd flag current_time =
    let (soc_str, done) = insert_start_time_of_packet c.soc_str acp_soc_fd flag current_time in
    (record c { soc_str = soc_str }, done)

-- `__pre_op__`: the controller, the demand after the call, and the result.
unfoldable pub pre_op : Controller → ℤ → ℤ → Bool → Timespec → Outcome (Controller × ℤ × Bool)
pre_op c acp_sock_fd demand flag current_time =
    if not (is_acp_sock_fd_present c.soc_str acp_sock_fd) then ok (c, demand, false) else do
      (after, access_byte_count, _) ← get_port_remaining_byte c acp_sock_fd flag current_time
      ok (after, (if le_ℤ access_byte_count demand then access_byte_count else demand), true)

unfoldable pub func_dup_manager : Controller → ℤ → ℤ → Outcome Controller
func_dup_manager c old_fd new_fd = do
  (soc_str, _) ← copy_fd c.soc_str old_fd new_fd
  ok (record c { soc_str = soc_str })
