-- ===== src/Tests/Launches.antt =====
-- The launcher, and a process from its first call on.
use band_width_limiter.Base.{
  ℕ, ◌≡◌, refl, Bool, true, false, Option, none, some, List, [], ◌∷◌, ◌++◌, arith, inl,
}
use band_width_limiter.Base.Int.{pos, negsuc}
use band_width_limiter.Base.Outcome.{ok, exited, Returns}
use band_width_limiter.Text.{Bytes, Environment, getenv, equal, atoi}
use band_width_limiter.Text.Variables.{var_config_flag, var_glibc_path, var_ports}
use band_width_limiter.Sock.{setup_sock_env}
use band_width_limiter.Env.{to_uint32, PortStr}
use band_width_limiter.Env.Setup.{Distinct}
use band_width_limiter.Config.{Text}
use band_width_limiter.Config.Whole.{file_text, config_of}
use band_width_limiter.Controller.{Controller, no_ports}
use band_width_limiter.Controller.Init.{init_process}
use band_width_limiter.Controller.Init.FromFile.{FromPorts, init_process-FromPorts}
use band_width_limiter.Overload.{bind_of, close_of}
use band_width_limiter.Overload.Process.{
  LibcName, fresh_process, Wrapper, counted, passed, wrap_all,
}
use band_width_limiter.Launcher.{Settings, defaults, Exec, parse, parse_from, start, main}
use band_width_limiter.Launcher.Words.{join, parse-join}
use band_width_limiter.Launcher.Options.{main_ends}
use band_width_limiter.Launcher.Handover.{Fits}
use band_width_limiter.Launcher.Program.{Running, start-Running, start_config-Running}
use band_width_limiter.Launcher.Limit.{Capped, start-Capped}
use band_width_limiter.Launcher.FileLimit.{CappedLine, start_config-CappedLine}
use band_width_limiter.Tests.Rates.{visits, visits-IsFair}
use band_width_limiter.Tests.Files.{codes, source, source-IsSource}

abbrev list_files : List Bytes
list_files = codes "ls" ∷ codes "-l" ∷ []

parse_example :
    (parse (join list_files) ≡ list_files)
    × (parse (join list_files ++ (b' ' ∷ [])) ≡ list_files ++ ([] ∷ []))
parse_example =
    parse-join list_files ((λ e. cc, (refl, (refl, tt))), ((λ e. cc, (refl, (refl, tt))), tt))

abbrev command_option : List (ℕ × Bytes)
command_option = (b'c', codes "ls") ∷ []

abbrev port_option : List (ℕ × Bytes)
port_option = (b'p', codes "80") ∷ []

main_example :
    (main (port_option ++ ((b'g', codes "/lib/c") ∷ command_option)) none []
      ≡ main (port_option ++ ((b'g', codes "/lib/c") ∷ [])) none [])
    × (main ((b'g', codes "/lib/c") ∷ command_option) none [] ≡ exited 1)
main_example = main_ends port_option command_option b'g' (codes "/lib/c") none [] (inl refl)

-- `-p 80 -d 4 -c "ls -l" -g /lib/c`
abbrev settings : Settings
settings = record defaults {
  port = codes "80";
  down_limit = codes "4";
  command = codes "ls -l";
  cmd_flag = true;
  glibc = codes "/lib/c";
  if_glib = true;
}

-- `-f -c "ls -l"`
abbrev config_settings : Settings
config_settings = record defaults { flag_config = true; command = codes "ls -l"; cmd_flag = true }

settings-Fits : Fits settings (codes "/home")
unfolding parse parse_from
settings-Fits = (omega arith, omega arith, omega arith)

config_settings-Fits : Fits config_settings (codes "/home")
unfolding parse parse_from
config_settings-Fits = (omega arith, omega arith, omega arith)

source-Distinct : Distinct (config_of source).ports
unfolding to_uint32 atoi
source-Distinct = ground arith

-- What is left of a path behind its array: here, the path.
abbrev pub kept : Text → Option Bytes
kept t = some (codes "/lib/c")

abbrev pub opens : Option Bytes → Option ℕ
opens path = some 7

abbrev pub finds : ℕ → LibcName → Bool
finds handle name = true

abbrev served : List Wrapper
served = counted (bind_of (pos 7) 80) ∷ counted (close_of (pos 7)) ∷ []

process_example :
    (e : Exec) × (start settings (some (codes "/home")) [] ≡ ok (some e))
    × Running 7 (wrap_all 0 kept none opens finds (fresh_process e.vars) (passed ∷ served))
process_example =
    start-Running settings (codes "/home") [] 0 kept none opens finds 7 passed served refl refl refl
      settings-Fits refl (λ name. refl)

config_process_example :
    (e : Exec) × (start config_settings (some (codes "/home")) [] ≡ ok (some e))
    × Running 7 (
        wrap_all 30 kept
          (some (file_text source))
          opens
          finds
          (fresh_process e.vars)
          (passed ∷ served))
config_process_example =
    start_config-Running config_settings (codes "/home") (codes "/lib/c") [] source 30 kept opens
      finds 7 passed served refl refl config_settings-Fits source-IsSource (omega arith)
      source-Distinct refl refl (λ name. refl)

abbrev flag_set : Environment
flag_set = (var_config_flag, codes "1") ∷ []

init_process_example :
    Returns
      (FromPorts (config_of source).ports (codes "/lib/c"))
      (init_process 30 kept (some (file_text source)) flag_set)
unfolding getenv equal atoi
init_process_example =
    init_process-FromPorts source 30 kept (codes "/lib/c") (codes "1") flag_set source-IsSource
      (omega arith) source-Distinct refl refl refl

-- No port is limited.
abbrev pub unlimited : Environment
unlimited =
    (var_config_flag, codes "-1") ∷ (var_ports, codes "-1") ∷ (var_glibc_path, codes "/lib/c") ∷ []

abbrev pub first : Controller
first = record { soc_str = setup_sock_env; reg_env_str = no_ports }

launch_rate_example :
    (e : Exec) × (start settings (some (codes "/home")) [] ≡ ok (some e))
    × Returns (Capped settings true 4 9 visits) (init_process 0 kept none e.vars)
unfolding atoi
launch_rate_example =
    start-Capped settings (codes "/home") [] 0 kept none true 4 9 visits refl refl refl
      settings-Fits (λ e. cc e) refl (omega arith) visits-IsFair

-- The lines of the two ports.
abbrev web_line : PortStr
web_line = record { port_no = 80; up_limit = negsuc 0; down_limit = pos 4; latency = 0 }

abbrev ssh_line : PortStr
ssh_line = record { port_no = 22; up_limit = pos 10; down_limit = pos 20; latency = 5 }

file_rate_example :
    (e : Exec) × (start config_settings (some (codes "/home")) [] ≡ ok (some e))
    × Returns
        (CappedLine ssh_line false 10 9 visits)
        (init_process 30 kept (some (file_text source)) e.vars)
unfolding to_uint32 atoi
file_rate_example =
    start_config-CappedLine config_settings (codes "/home") (codes "/lib/c") [] source 30 kept
      (web_line ∷ []) ssh_line [] false 10 9 visits refl refl config_settings-Fits source-IsSource
      (omega arith) refl source-Distinct refl refl (omega arith) visits-IsFair
