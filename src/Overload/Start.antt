-- ===== src/Overload/Start.antt =====
-- A program from its first call: the set-up of the sockets and of the ports, and then the calls.
use mathlib.Core.Path.{subst}
use band_width_limiter.Base.{sym, Bool, List, inl, inr, Bool-cases}
use band_width_limiter.Base.Int.{ℤ, negsuc, eq_ℤ}
use band_width_limiter.Base.Outcome.{Outcome, Returns, ◌>>=◌}
use band_width_limiter.Tree.Order.{fd_ord, port_ord}
use band_width_limiter.Sock.{setup_sock_env}
use band_width_limiter.Env.{RegisterEnv}
use band_width_limiter.Env.Limits.{IsEnv}
use band_width_limiter.Env.Setup.{RegisteredOne, do_register-RegisteredOne}
use band_width_limiter.Controller.{Controller, no_ports, init_env}
use band_width_limiter.Controller.Invariant.{IsController, setup-IsController}
use band_width_limiter.Overload.{Call, run}
use band_width_limiter.Overload.Safety.{run-IsController}

pub no_ports-IsEnv : IsEnv no_ports
no_ports-IsEnv t e = absurd (cc e)

pub RegisteredOne-IsEnv :
    (env : RegisterEnv) (port up_limit down_limit latency : ℤ) (r : RegisterEnv × Bool)
    → IsEnv env
    → RegisteredOne env port up_limit down_limit latency r
    → IsEnv r.0
RegisteredOne-IsEnv env port up_limit down_limit latency r h (_, left) =
    elim (Bool-cases (eq_ℤ port (negsuc 0))) [
      | inl e ↦ subst IsEnv (sym (rw e at left)) h
      | inr e ↦ (rw e at left).0
    ]

-- The set-up, then the calls of the program.
abbrev program : ℤ → ℤ → ℤ → ℤ → List Call → Outcome Controller
program port up_limit down_limit latency calls = do
  (c, _) ← init_env port up_limit down_limit latency
  run c calls

-- After `init_env` with any port, limits and latency from the environment variables, every
-- sequence of calls of the wrappers (transfers, `close`, `accept`, `bind` and `connect`, whatever
-- libc answers) runs to its end in a valid state: no NULL pointer is read, no sentinel of a tree
-- is painted or rotated, and the process does not exit. `dup` and `dup2` are not among the calls,
-- and the clock of a transfer works.
program-IsController :
    (port up_limit down_limit latency : ℤ) (calls : List Call)
    → Returns IsController (program port up_limit down_limit latency calls)
unfolding init_env
program-IsController port up_limit down_limit latency calls =
    let ((env, b), got, registered) =
      do_register-RegisteredOne no_ports port up_limit down_limit latency in
    let h =
      RegisteredOne-IsEnv no_ports port up_limit down_limit latency (env, b) no_ports-IsEnv
        registered in
    let (c, got', v) =
      run-IsController (record { soc_str = setup_sock_env; reg_env_str = env }) calls
        (setup-IsController env h) in
    (c, rw (got) got', v)
