-- ===== src/Controller/Init.antt =====
-- `__init_env__` on the environment of the process and the configuration file, with the two functions
-- of register_env.c that it chooses from.
pub mod FromFile
use band_width_limiter.Base.{
  ℕ, Bool, true, false, Option, none, some, List, [], ◌∷◌, if◌then◌else◌, not,
}
use band_width_limiter.Base.Int.{ℤ, pos, negsuc, eq_ℤ}
use band_width_limiter.Base.Outcome.{Outcome, ok, crashed, ◌>>=◌}
use band_width_limiter.Tree.Shape.{leaf}
use band_width_limiter.Sock.{setup_sock_env}
use band_width_limiter.Text.{Bytes, atoi, Environment, getenv, setenv}
use band_width_limiter.Text.Variables.{
  var_config_flag, var_glibc_path, var_up_limits, var_down_limits, var_ports, var_latency,
}
use band_width_limiter.Env.{RegisterEnv, register_ports, do_register}
use band_width_limiter.Config.{Text, null, parse_config}
use band_width_limiter.Controller.{Controller, no_ports}

-- `atoi(getenv( name ))`, which reads a NULL pointer if the variable is not set.
unfoldable pub number_of : Bytes → Environment → Outcome ℤ
number_of name vars = elim (getenv name vars) [ none ↦ crashed | some value ↦ ok (atoi value) ]

-- `__do_register__`, from its calls of `getenv` on. The variables of the limits are read only if the
-- port is not -1.
unfoldable pub do_register_from_vars : RegisterEnv → Environment → Outcome (RegisterEnv × Bool)
unfolding number_of
do_register_from_vars env vars = do
  port ← number_of var_ports vars
  if eq_ℤ port (negsuc 0) then ok (env, true) else do
    up_limit ← number_of var_up_limits vars
    down_limit ← number_of var_down_limits vars
    latency ← number_of var_latency vars
    do_register env port up_limit down_limit latency

-- `setenv("RESILIENCE_GLIBC_PATH",c_str.libc_path,1)`. A path that was read lies in an array of
-- `__parse_config__`, which has returned, and a path that was not read is a pointer that was never
-- set: `left` is what is found there, if it can be read at all.
unfoldable pub export_path : (Text → Option Bytes) → Text → Environment → Outcome Environment
export_path left null vars = crashed
export_path left libc_path vars = elim (left libc_path) [
  | none ↦ crashed
  | some path ↦ ok (setenv var_glibc_path path vars)
]

-- `__do_register_from_config__`: the rounds for the parser, the file if it can be opened, and the
-- environment. A result of the parser other than 0 counts as true, so its -1 does. The
-- list of the ports is released at the end.
unfoldable pub do_register_from_config :
    ℕ
    → (Text → Option Bytes)
    → Option Bytes
    → RegisterEnv
    → Environment
    → Outcome (RegisterEnv × Bool × Environment)
unfolding export_path
do_register_from_config fuel left file env vars = do
  (result, c_str) ← parse_config fuel file
  if eq_ℤ result (pos 0) then ok (env, false, vars) else do
    port_rb ← register_ports c_str.ports leaf
    vars' ← export_path left c_str.libc_path vars
    ok (record { port_rb = some port_rb }, true, vars')

-- The choice between the two.
unfoldable pub register_by_flag :
    ℤ
    → ℕ
    → (Text → Option Bytes)
    → Option Bytes
    → Environment
    → Outcome (RegisterEnv × Bool × Environment)
unfolding do_register_from_vars do_register_from_config
register_by_flag flag fuel left file vars =
    if eq_ℤ flag (pos 1)
    then do_register_from_config fuel left file no_ports vars
    else (do_register_from_vars no_ports vars >>= λ (env, done). ok (env, done, vars))

-- `__init_env__`: the controller, or `none` if it returns false.
unfoldable pub init_process :
    ℕ
    → (Text → Option Bytes)
    → Option Bytes
    → Environment
    → Outcome (Option Controller × Environment)
unfolding number_of register_by_flag
init_process fuel left file vars = do
  flag ← number_of var_config_flag vars
  (env, done, vars') ← register_by_flag flag fuel left file vars
  ok (if done then some (record { soc_str = setup_sock_env; reg_env_str = env }) else none, vars')
