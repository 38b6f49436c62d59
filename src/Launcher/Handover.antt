-- ===== src/Launcher/Handover.antt =====
-- From the launcher to the library: the variables that `main` sets are those that `__init_env__` reads.
use band_width_limiter.Base.{
  ℕ, ◌≤◌, ◌<◌, ◌≡◌, inl, inr, Bool-cases, refl, sym, ap, ◌∙◌, true, false, Option, some, List, [],
  ◌∷◌, ◌++◌, arith, ltb,
}
use band_width_limiter.Base.Int.{ℤ, negsuc, eq_ℤ}
use band_width_limiter.Base.Outcome.{ok, Returns}
use band_width_limiter.Text.{Bytes, length, Environment, getenv, setenv, atoi, equal}
use band_width_limiter.Text.Variables.{
  var_config_flag, var_glibc_path, var_up_limits, var_down_limits, var_ips, var_ports, var_latency,
  var_sys_ip, var_ipc_port, var_ld_preload, set_all, getenv-set_all,
}
use band_width_limiter.Sock.{setup_sock_env}
use band_width_limiter.Env.{RegisterEnv, do_register}
use band_width_limiter.Env.Setup.{Distinct, RegisteredOne, do_register-RegisteredOne}
use band_width_limiter.Config.{Text, string}
use band_width_limiter.Config.Whole.{Source, IsSource, file_text, config_of, rounds}
use band_width_limiter.Controller.{Controller, no_ports}
use band_width_limiter.Controller.Invariant.{IsController, setup-IsController}
use band_width_limiter.Controller.Init.{
  number_of, do_register_from_vars, register_by_flag, init_process,
}
use band_width_limiter.Controller.Init.FromFile.{FromPorts, number_of_set, init_process-FromPorts}
use band_width_limiter.Overload.Start.{no_ports-IsEnv, RegisteredOne-IsEnv}
use band_width_limiter.Launcher.{
  Settings, Exec, parse, count_words, max_args, lib_name, max_path_length, execute, minus_one,
  flag_on, call, export_settings, start,
}

-- The command has two words or more, and it and the directory fit the arrays of `main`.
abbrev pub Fits : Settings → Bytes → Type 0
Fits s dir =
    (2 ≤ count_words (parse s.command))
    × (count_words (parse s.command) < max_args)
    × (length (dir ++ lib_name) < max_path_length)

-- What is executed, when the variables were `vars`.
abbrev exec_of : Settings → Bytes → Environment → Exec
exec_of s dir vars = record {
  argv = parse s.command;
  vars = setenv var_ld_preload (dir ++ lib_name) (setenv var_glibc_path s.glibc vars);
}

ltb-true : (a b : ℕ) → a < b → ltb a b ≡ true
ltb-true a b h = ground (arith, h)

executed :
    (argv : List Bytes) (vars : Environment)
    → 2 ≤ count_words argv
    → execute argv vars ≡ ok (some (record { argv = argv; vars = vars }))
unfolding execute
executed [] vars two = absurd (omega (arith, two))
executed (program ∷ []) vars two = absurd (omega (arith, two))
executed (program ∷ next ∷ args) vars two = refl

called :
    (s : Settings) (dir : Bytes) (vars : Environment)
    → Fits s dir
    → call s (some dir) vars ≡ ok (some (exec_of s dir vars))
unfolding call
called s dir vars (two, few, short) =
    rw (ltb-true (count_words (parse s.command)) max_args few) rw
      (ltb-true (length (dir ++ lib_name)) max_path_length short) (executed (parse s.command) _ two)

-- The variables that are set without a configuration file, the last first.
abbrev exported : Settings → Bytes → Environment
exported s dir =
    (var_ld_preload, dir ++ lib_name)
    ∷ (var_glibc_path, s.glibc)
    ∷ (var_config_flag, minus_one)
    ∷ (var_ipc_port, s.ipc_port)
    ∷ (var_sys_ip, s.sys_ip)
    ∷ (var_latency, s.latency)
    ∷ (var_down_limits, s.down_limit)
    ∷ (var_ports, s.port)
    ∷ (var_ips, s.ip_addr)
    ∷ (var_up_limits, s.up_limit)
    ∷ []

unlimited :
    (env : RegisterEnv) (port up_limit down_limit latency : ℤ)
    → eq_ℤ port (negsuc 0) ≡ true
    → do_register env port up_limit down_limit latency ≡ ok (env, true)
unfolding do_register
unlimited env port up_limit down_limit latency e = rw (e, do_register) refl

-- `__do_register__` reads its numbers from the variables.
do_register_vars :
    (env : RegisterEnv) (vars : Environment) (port up_limit down_limit latency : ℤ)
    → number_of var_ports vars ≡ ok port
    → number_of var_up_limits vars ≡ ok up_limit
    → number_of var_down_limits vars ≡ ok down_limit
    → number_of var_latency vars ≡ ok latency
    → do_register_from_vars env vars ≡ do_register env port up_limit down_limit latency
unfolding do_register_from_vars
do_register_vars env vars port up_limit down_limit latency a b c d =
    elim (Bool-cases (eq_ℤ port (negsuc 0))) [
      | inl e ↦ rw (a) rw (e) (sym (unlimited env port up_limit down_limit latency e))
      | inr e ↦ rw (a) rw (e) rw (b) rw (c) rw (d) refl
    ]

start_plain :
    (s : Settings) (cwd : Option Bytes) (vars : Environment)
    → s.flag_config ≡ false
    → s.if_glib ≡ true
    → s.cmd_flag ≡ true
    → start s cwd vars ≡ call s cwd (export_settings s vars)
unfolding start
start_plain s cwd vars e1 e2 e3 = simp (start, e1, e2, e3)

start_config :
    (s : Settings) (cwd : Option Bytes) (vars : Environment)
    → s.flag_config ≡ true
    → s.cmd_flag ≡ true
    → start s cwd vars ≡ call s cwd (setenv var_config_flag flag_on vars)
unfolding start
start_config s cwd vars e1 e2 = simp (start, e1, e2)

-- The controller is valid and has the port of the settings, and `dlopen` is given their path of libc.
abbrev pub Launched : Settings → Option Controller × Environment → Type 0
Launched s (found, vars) =
    (c : Controller) × (found ≡ some c)
    × IsController c
    × RegisteredOne no_ports (atoi s.port) (atoi s.up_limit) (atoi s.down_limit) (atoi s.latency)
        (c.reg_env_str, true)
    × (getenv var_glibc_path vars ≡ some s.glibc)

-- A number that was exported.
exported_number :
    (s : Settings) (dir : Bytes) (vars : Environment) (name value : Bytes)
    → getenv name (exported s dir) ≡ some value
    → number_of name (set_all (exported s dir) vars) ≡ ok (atoi value)
exported_number s dir vars name value e =
    number_of_set name value (set_all (exported s dir) vars)
      (getenv-set_all name value (exported s dir) vars e)

registered_vars :
    (s : Settings) (dir : Bytes) (vars : Environment)
    → do_register_from_vars no_ports (set_all (exported s dir) vars)
      ≡ do_register no_ports (atoi s.port) (atoi s.up_limit) (atoi s.down_limit) (atoi s.latency)
unfolding getenv equal
registered_vars s dir vars =
    do_register_vars no_ports (set_all (exported s dir) vars) (atoi s.port) (atoi s.up_limit)
      (atoi s.down_limit) (atoi s.latency) (exported_number s dir vars var_ports s.port refl)
      (exported_number s dir vars var_up_limits s.up_limit refl)
      (exported_number s dir vars var_down_limits s.down_limit refl)
      (exported_number s dir vars var_latency s.latency refl)

by_variables :
    (fuel : ℕ) (left : Text → Option Bytes) (file : Option Bytes) (vars : Environment)
    (env : RegisterEnv)
    → number_of var_config_flag vars ≡ ok (negsuc 0)
    → do_register_from_vars no_ports vars ≡ ok (env, true)
    → init_process fuel left file vars
      ≡ ok (some (record { soc_str = setup_sock_env; reg_env_str = env }), vars)
unfolding init_process register_by_flag
by_variables fuel left file vars env flag got = rw (flag) rw (got) refl

-- With settings that name libc and a command and do not ask for the configuration file, and a
-- command of two words or more that fits, and a directory that fits, the launcher executes the
-- command, and in its environment `init_env` returns a valid controller with the port and the limits of the settings and no other
-- port (none at all at the port -1), and `RESILIENCE_GLIBC_PATH` is the path of the settings.
pub start-Launched :
    (s : Settings) (dir : Bytes) (vars : Environment) (fuel : ℕ) (left : Text → Option Bytes)
    (file : Option Bytes)
    → s.flag_config ≡ false
    → s.if_glib ≡ true
    → s.cmd_flag ≡ true
    → Fits s dir
    → (e : Exec) × (start s (some dir) vars ≡ ok (some e))
      × Returns (Launched s) (init_process fuel left file e.vars)
unfolding getenv equal atoi export_settings
start-Launched s dir vars fuel left file e1 e2 e3 fits =
    let ((env, b), got, (done, reg)) =
      do_register-RegisteredOne no_ports (atoi s.port) (atoi s.up_limit) (atoi s.down_limit)
        (atoi s.latency) in
    let h =
      RegisteredOne-IsEnv no_ports (atoi s.port) (atoi s.up_limit) (atoi s.down_limit)
        (atoi s.latency) (env, b) no_ports-IsEnv (done, reg) in
    let final = set_all (exported s dir) vars in
    (
      exec_of s dir (export_settings s vars),
      start_plain s (some dir) vars e1 e2 e3 ∙ called s dir (export_settings s vars) fits,
      (
        (some (record { soc_str = setup_sock_env; reg_env_str = env }), final),
        by_variables fuel left file final env
            (exported_number s dir vars var_config_flag minus_one refl)
            (registered_vars s dir vars ∙ got ∙ ap (λ x. ok (env, x)) done),
        (
          record { soc_str = setup_sock_env; reg_env_str = env },
          refl,
          setup-IsController env h,
          (refl, reg),
          getenv-set_all var_glibc_path s.glibc (exported s dir) vars refl,
        ),
      ),
    )

-- With `-f`, the library starts from the configuration file.
pub start-FromPorts :
    (s : Settings) (dir path : Bytes) (vars : Environment) (src : Source) (fuel : ℕ)
    (left : Text → Option Bytes)
    → s.flag_config ≡ true
    → s.cmd_flag ≡ true
    → Fits s dir
    → IsSource src
    → rounds src ≤ fuel
    → Distinct (config_of src).ports
    → left (string src.path) ≡ some path
    → (e : Exec) × (start s (some dir) vars ≡ ok (some e))
      × Returns
          (FromPorts (config_of src).ports path)
          (init_process fuel left (some (file_text src)) e.vars)
unfolding getenv equal atoi
start-FromPorts s dir path vars src fuel left e1 e2 fits h le d there =
    let set =
      (var_ld_preload, dir ++ lib_name)
      ∷ (var_glibc_path, s.glibc)
      ∷ (var_config_flag, flag_on)
      ∷ [] in
    (
      exec_of s dir (setenv var_config_flag flag_on vars),
      start_config s (some dir) vars e1 e2
          ∙ called s dir (setenv var_config_flag flag_on vars) fits,
      init_process-FromPorts src fuel left path flag_on (set_all set vars) h le d there
          (getenv-set_all var_config_flag flag_on set vars refl) refl,
    )
