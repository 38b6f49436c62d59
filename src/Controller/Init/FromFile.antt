-- ===== src/Controller/Init/FromFile.antt =====
-- The set-up from a configuration file.
use mathlib.Core.Path.{subst}
use band_width_limiter.Base.{
  ℕ, ◌≤◌, ◌≡◌, refl, ap, ◌∙◌, true, Option, none, some, List, [], ◌∷◌, All, eq_of_some,
}
use band_width_limiter.Base.Int.{ℤ, pos}
use band_width_limiter.Base.Outcome.{ok, Returns}
use band_width_limiter.Tree.Order.{port_ord}
use band_width_limiter.Tree.Shape.{Tree, leaf}
use band_width_limiter.Tree.Table.Keys.{lookup, or_else}
use band_width_limiter.Tree.Table.Laws.{IsTable, find}
use band_width_limiter.Sock.{setup_sock_env}
use band_width_limiter.Text.{Bytes, atoi, Environment, getenv, setenv}
use band_width_limiter.Text.Variables.{var_config_flag, var_glibc_path, getenv-setenv}
use band_width_limiter.Env.{PortStr, PortStruct, RegisterEnv, register_ports}
use band_width_limiter.Env.Limits.{port_of, port_of-find, IsEnv}
use band_width_limiter.Env.Setup.{Distinct, entries, register_ports-lookup, leaf-IsTable, find-leaf}
use band_width_limiter.Config.{Text, string, parse_config}
use band_width_limiter.Config.Whole.{
  Source, IsSource, file_text, config_of, rounds, parse_config-file_text,
}
use band_width_limiter.Controller.{Controller, no_ports}
use band_width_limiter.Controller.Invariant.{IsController, setup-IsController}
use band_width_limiter.Controller.Init.{
  number_of, export_path, do_register_from_config, register_by_flag, init_process,
}

all_missing : (ps : List PortStr) → All (λ p. find {V = PortStruct} leaf p.port_no ≡ none) ps
all_missing [] = tt
all_missing (p ∷ ps) = (find-leaf p.port_no, all_missing ps)

or_else-none {ℓ} : {A : Type ℓ} (o : Option A) → or_else o none ≡ o
or_else-none none = refl
or_else-none (some a) = refl

-- The loop over the parsed ports, from the empty tree.
registered :
    (ps : List PortStr)
    → Distinct ps
    → Returns
        (λ u. IsTable u × ((q : ℕ) → find u q ≡ lookup (entries ps) q))
        (register_ports ps leaf)
registered ps d =
    let (u, got, (table, reads)) = register_ports-lookup ps leaf leaf-IsTable d (all_missing ps) in
    (
      u,
      got,
      (
        table,
        λ q.
            reads q
            ∙ ap (or_else (lookup (entries ps) q)) (find-leaf q)
            ∙ or_else-none (lookup (entries ps) q),
      ),
    )

-- The controller has the ports of the list, and `dlopen` is given the path.
abbrev pub FromPorts : List PortStr → Bytes → Option Controller × Environment → Type 0
FromPorts ps path (found, vars) =
    (c : Controller) × (found ≡ some c)
    × IsController c
    × ((q : ℕ) → port_of c.reg_env_str q ≡ lookup (entries ps) q)
    × (getenv var_glibc_path vars ≡ some path)

table-IsEnv : (u : Tree (ℕ × PortStruct)) → IsTable u → IsEnv (record { port_rb = some u })
table-IsEnv u h t e = subst IsTable (eq_of_some e) h

pub number_of_set :
    (name value : Bytes) (vars : Environment)
    → getenv name vars ≡ some value
    → number_of name vars ≡ ok (atoi value)
unfolding number_of
number_of_set name value vars e = rw (e, number_of) refl

module _ (s : Source) (fuel : ℕ) (left : Text → Option Bytes) (path : Bytes) (vars : Environment)
    (u : Tree (ℕ × PortStruct)) (there : left (string s.path) ≡ some path)
    (parsed : parse_config fuel (some (file_text s)) ≡ ok (pos 1, config_of s))
    (got : register_ports (config_of s).ports leaf ≡ ok u) where
  exported : export_path left (string s.path) vars ≡ ok (setenv var_glibc_path path vars)
  unfolding export_path
  exported = rw (there, export_path) refl

  from_file :
      do_register_from_config fuel left (some (file_text s)) no_ports vars
      ≡ ok (record { port_rb = some u }, true, setenv var_glibc_path path vars)
  unfolding do_register_from_config
  from_file = rw (parsed) rw (got) rw (exported) refl

  by_flag :
      (flag : ℤ)
      → flag ≡ pos 1
      → register_by_flag flag fuel left (some (file_text s)) vars
        ≡ ok (record { port_rb = some u }, true, setenv var_glibc_path path vars)
  unfolding register_by_flag
  by_flag flag e = rw (e) from_file

-- With `RESILIENCE_CONFIGFLAG` at 1 and a file that is written from a source of the right form in
-- which no port is repeated, and if the string of its path can still be read when `setenv` copies
-- it, `init_env` returns a valid controller: each port of the file has the structure of its line,
-- there is no other port, and `RESILIENCE_GLIBC_PATH` is what was read of the path.
pub init_process-FromPorts :
    (s : Source) (fuel : ℕ) (left : Text → Option Bytes) (path flag : Bytes) (vars : Environment)
    → IsSource s
    → rounds s ≤ fuel
    → Distinct (config_of s).ports
    → left (string s.path) ≡ some path
    → getenv var_config_flag vars ≡ some flag
    → atoi flag ≡ pos 1
    → Returns
        (FromPorts (config_of s).ports path)
        (init_process fuel left (some (file_text s)) vars)
unfolding init_process
init_process-FromPorts s fuel left path flag vars h le d there set one =
    let (u, got, (table, reads)) = registered (config_of s).ports d in
    let env : RegisterEnv = record { port_rb = some u } in
    let parsed = parse_config-file_text s fuel h le in
    (
      (
        some (record { soc_str = setup_sock_env; reg_env_str = env }),
        setenv var_glibc_path path vars,
      ),
      rw (number_of_set var_config_flag flag vars set) rw
          (by_flag s fuel left path vars u there parsed got (atoi flag) one) refl,
      (
        record { soc_str = setup_sock_env; reg_env_str = env },
        refl,
        setup-IsController env (table-IsEnv u table),
        (λ q. port_of-find env u refl q ∙ reads q),
        getenv-setenv var_glibc_path path vars,
      ),
    )
