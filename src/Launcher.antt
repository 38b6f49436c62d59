-- ===== src/Launcher.antt =====
-- The launcher resilience.c: it turns its options into environment variables, and executes the command
-- with the library preloaded. What `getopt` finds is a list of options with their arguments (`optarg`
-- of an option without one is empty, and is not used), `getcwd` is an argument, and the result is
-- what is passed to `execvp`.
pub mod Words
pub mod Options
pub mod Handover
pub mod Program
pub mod Limit
pub mod FileLimit
use Prim.Native.Nat.Ordering.{lt, eq, gt}
use band_width_limiter.Base.{
  ℕ, suc, ◌+◌, Bool, true, false, not, ◌&&◌, ◌||◌, Option, none, some, List, [], ◌∷◌, ◌++◌, leb,
  ltb, ◌==◌, if◌then◌else◌,
}
use band_width_limiter.Base.Outcome.{Outcome, ok, exited, crashed, ◌>>=◌}
use band_width_limiter.Text.{Bytes, length, Environment, setenv}
use band_width_limiter.Text.Variables.{
  var_config_flag, var_glibc_path, var_up_limits, var_down_limits, var_ips, var_ports, var_latency,
  var_sys_ip, var_ipc_port, var_ld_preload,
}

-- The variables of `main`.
pub record Settings : Type 0 where
  pub flag_config : Bool
  pub port : Bytes
  pub ip_addr : Bytes
  pub sys_ip : Bytes
  pub up_limit : Bytes
  pub down_limit : Bytes
  pub glibc : Bytes
  pub latency : Bytes
  pub command : Bytes
  pub ipc_port : Bytes
  pub if_glib : Bool
  pub cmd_flag : Bool

abbrev pub minus_one : Bytes
minus_one = b'-' ∷ b'1' ∷ []

abbrev local_host : Bytes
local_host = b'1' ∷ b'2' ∷ b'7' ∷ b'.' ∷ b'0' ∷ b'.' ∷ b'0' ∷ b'.' ∷ b'1' ∷ []

abbrev pub defaults : Settings
defaults = record {
  flag_config = false;
  port = minus_one;
  ip_addr = local_host;
  sys_ip = local_host;
  up_limit = minus_one;
  down_limit = minus_one;
  glibc = [];
  latency = [];
  command = [];
  ipc_port = b'8' ∷ b'8' ∷ b'8' ∷ b'8' ∷ [];
  if_glib = false;
  cmd_flag = false;
}

-- What a case of the `switch` does; `EXIT_FAILURE` is 1.
unfoldable pub set_option : ℕ → Bytes → Settings → Outcome Settings
set_option opt optarg s =
    if opt == b'f' || opt == b'F'
    then ok (record s { flag_config = true })
    else if opt == b'u' || opt == b'U'
    then ok (record s { up_limit = optarg })
    else if opt == b'd' || opt == b'D'
    then ok (record s { down_limit = optarg })
    else if opt == b'l' || opt == b'L'
    then ok (record s { latency = optarg })
    else if opt == b'i'
    then ok (record s { ip_addr = optarg })
    else if opt == b'I'
    then ok (record s { sys_ip = optarg; port = optarg })
    else if opt == b'p'
    then ok (record s { port = optarg })
    else if opt == b'P'
    then ok (record s { ipc_port = optarg })
    else if opt == b'v' || opt == b'V'
    then ok s
    else if opt == b'g' || opt == b'G'
    then ok (record s { glibc = optarg; if_glib = true })
    else if opt == b'C' || opt == b'c'
    then ok (record s { command = optarg; cmd_flag = true })
    else if opt == b'?'
    then ok s
    else exited 1

-- The loop over the options, which ends behind a path of libc.
unfoldable pub set_options : List (ℕ × Bytes) → Settings → Outcome Settings
unfolding set_option
set_options [] s = ok s
set_options ((opt, optarg) ∷ opts) s = elim s.if_glib [
  | true ↦ ok s
  | false ↦ set_option opt optarg s >>= λ t. set_options opts t
]

abbrev pub is_blank : ℕ → Bool
is_blank c = c == b' ' || c == b'\t' || c == b'\n'

-- `parse` in its loop: before a word, or in one.
unfoldable pub parse_from : Option Bytes → Bytes → List Bytes
parse_from none [] = [] ∷ []
parse_from (some word) [] = word ∷ []
parse_from none (c ∷ line) = elim (is_blank c) [
  | true ↦ parse_from none line
  | false ↦ parse_from (some (c ∷ [])) line
]
parse_from (some word) (c ∷ line) = elim (is_blank c) [
  | true ↦ word ∷ parse_from none line
  | false ↦ parse_from (some (word ++ (c ∷ []))) line
]

-- `parse`: the arguments in front of the NULL.
unfoldable pub parse : Bytes → List Bytes
unfolding parse_from
parse [] = []
parse (c ∷ line) = parse_from none (c ∷ line)

-- `"/"` and `LIB_NAME`
abbrev pub lib_name : Bytes
lib_name =
    b'/' ∷ b'B' ∷ b'a' ∷ b'n' ∷ b'd' ∷ b'w' ∷ b'i' ∷ b'd' ∷ b't' ∷ b'h' ∷ b'L' ∷ b'i' ∷ b'm' ∷ b'i'
    ∷ b't' ∷ b'e' ∷ b'r' ∷ b'/' ∷ b'b' ∷ b'u' ∷ b'i' ∷ b'l' ∷ b'd' ∷ b'-' ∷ b'3' ∷ b'2' ∷ b'/'
    ∷ b'l' ∷ b'i' ∷ b'b' ∷ b'c' ∷ b'_' ∷ b'b' ∷ b'a' ∷ b'n' ∷ b'd' ∷ b'.' ∷ b's' ∷ b'o' ∷ []

-- `MAX_PATH_LENGTH`, and the room in `argv2`
abbrev pub max_path_length : ℕ
max_path_length = 256

abbrev pub max_args : ℕ
max_args = 64

abbrev pub count_words : List Bytes → ℕ
count_words [] = 0
count_words (w ∷ ws) = suc (count_words ws)

-- What `execvp` is called with, and the environment then.
pub record Exec : Type 0 where
  pub argv : List Bytes
  pub vars : Environment

-- `execute` prints the first two arguments: none of them may be missing, or NULL.
unfoldable pub execute : List Bytes → Environment → Outcome (Option Exec)
execute [] vars = crashed
execute (program ∷ []) vars = crashed
execute (program ∷ next ∷ args) vars =
    ok (some (record { argv = program ∷ next ∷ args; vars = vars }))

-- From the label `CALL` on: `none` if `getcwd` fails. A command of too many words overruns `argv2`,
-- and a long directory the buffer of the path.
unfoldable pub call : Settings → Option Bytes → Environment → Outcome (Option Exec)
unfolding parse setenv execute
call s cwd vars =
    let argv = parse s.command in
    if ltb (count_words argv) max_args
    then (elim cwd [
      | none ↦ ok none
      | some dir ↦
          if ltb (length (dir ++ lib_name)) max_path_length
          then execute argv
              (setenv var_ld_preload (dir ++ lib_name) (setenv var_glibc_path s.glibc vars))
          else crashed
    ])
    else crashed

abbrev pub flag_on : Bytes
flag_on = b'1' ∷ []

-- The variables of a run without the configuration file, in the order in which they are set.
unfoldable pub export_settings : Settings → Environment → Environment
unfolding setenv
export_settings s vars = setenv var_config_flag minus_one (
    setenv var_ipc_port s.ipc_port (
      setenv var_sys_ip s.sys_ip (
        setenv var_latency s.latency (
          setenv var_down_limits s.down_limit (
            setenv var_ports s.port
              (setenv var_ips s.ip_addr (setenv var_up_limits s.up_limit vars)))))))

-- `main` behind the loop; `usage` exits with status 1.
unfoldable pub start : Settings → Option Bytes → Environment → Outcome (Option Exec)
unfolding call export_settings
start s cwd vars =
    if s.flag_config
    then (if not s.cmd_flag then exited 1 else call s cwd (setenv var_config_flag flag_on vars))
    else if not s.if_glib || not s.cmd_flag
    then exited 1
    else call s cwd (export_settings s vars)

unfoldable pub main : List (ℕ × Bytes) → Option Bytes → Environment → Outcome (Option Exec)
unfolding set_options start
main opts cwd vars = set_options opts defaults >>= λ s. start s cwd vars
