-- ===== src/Launcher/Program.antt =====
-- A whole run: the launcher, the set-up on the first call, and the calls of the program.
use band_width_limiter.Base.{ℕ, ◌≤◌, ◌≡◌, ap, ◌∙◌, Bool, true, false, Option, some, List, ◌∷◌}
use band_width_limiter.Base.Outcome.{Outcome, ok, Returns}
use band_width_limiter.Text.{Bytes, Environment}
use band_width_limiter.Env.Setup.{Distinct}
use band_width_limiter.Config.{Text, string}
use band_width_limiter.Config.Whole.{Source, IsSource, file_text, config_of, rounds}
use band_width_limiter.Overload.Process.{LibcName, Process, fresh_process, Wrapper, wrap_all}
use band_width_limiter.Overload.Process.Once.{IsRunning, Returns-wrap_all}
use band_width_limiter.Launcher.{Settings, Exec, start}
use band_width_limiter.Launcher.Handover.{Fits, start-Launched, start-FromPorts}

-- The process is set up on the library at `handle`, with some environment.
abbrev pub Running : ℕ → Outcome Process → Type 0
Running handle o = (vars : Environment) × Returns (IsRunning handle vars) o

-- With settings that name libc and a command and do not ask for the configuration file, and a
-- command of two words or more that fits, and a directory that fits, the launcher executes the
-- command. If `dlopen` finds the libc that was named and `dlsym` its functions, every sequence of
-- calls of the wrappers by that process, set up by the first of them in the environment of the
-- launcher, runs to its end in a valid state: no NULL pointer is read, no sentinel of a tree is
-- painted or rotated, and the process does not exit. `dup` and `dup2` are not among the calls, and
-- the clock of a transfer works.
pub start-Running :
    (s : Settings) (dir : Bytes) (vars : Environment) (fuel : ℕ) (left : Text → Option Bytes)
    (file : Option Bytes) (dlopen : Option Bytes → Option ℕ) (dlsym : ℕ → LibcName → Bool)
    (handle : ℕ) (w : Wrapper) (ws : List Wrapper)
    → s.flag_config ≡ false
    → s.if_glib ≡ true
    → s.cmd_flag ≡ true
    → Fits s dir
    → dlopen (some s.glibc) ≡ some handle
    → ((name : LibcName) → dlsym handle name ≡ true)
    → (e : Exec) × (start s (some dir) vars ≡ ok (some e))
      × Running handle (wrap_all fuel left file dlopen dlsym (fresh_process e.vars) (w ∷ ws))
start-Running s dir vars fuel left file dlopen dlsym handle w ws e1 e2 e3 fits opens loads =
    let (e, started, ((found, after), init, (c, some_c, valid, _, path))) =
      start-Launched s dir vars fuel left file e1 e2 e3 fits in
    (
      e,
      started,
      (
        after,
        Returns-wrap_all fuel left file dlopen dlsym e.vars after c handle w ws
            (init ∙ ap (λ x. ok (x, after)) some_c) (ap dlopen path ∙ opens) loads valid,
      ),
    )

-- With settings that ask for the configuration file and name a command, and a command of two words
-- or more that fits, and a directory that fits, the launcher executes the command. If the file is
-- written from a source of the right form in which no port is repeated, the string of its path can
-- still be read when `setenv` copies it, `dlopen` finds libc there and `dlsym` its functions,
-- every sequence of calls of the wrappers by that process, set up by the first of them, runs to
-- its end in a valid state. `dup` and `dup2` are not among the calls, and the clock of a transfer
-- works.
pub start_config-Running :
    (s : Settings) (dir path : Bytes) (vars : Environment) (src : Source) (fuel : ℕ)
    (left : Text → Option Bytes) (dlopen : Option Bytes → Option ℕ) (dlsym : ℕ → LibcName → Bool)
    (handle : ℕ) (w : Wrapper) (ws : List Wrapper)
    → s.flag_config ≡ true
    → s.cmd_flag ≡ true
    → Fits s dir
    → IsSource src
    → rounds src ≤ fuel
    → Distinct (config_of src).ports
    → left (string src.path) ≡ some path
    → dlopen (some path) ≡ some handle
    → ((name : LibcName) → dlsym handle name ≡ true)
    → (e : Exec) × (start s (some dir) vars ≡ ok (some e))
      × Running handle
          (wrap_all fuel left (some (file_text src)) dlopen dlsym (fresh_process e.vars) (w ∷ ws))
start_config-Running s dir path vars src fuel left dlopen dlsym handle w ws e1 e2 fits h le d there
      opens loads =
    let (e, started, ((found, after), init, (c, some_c, valid, _, set))) =
      start-FromPorts s dir path vars src fuel left e1 e2 fits h le d there in
    (
      e,
      started,
      (
        after,
        Returns-wrap_all fuel left (some (file_text src)) dlopen dlsym e.vars after c handle w ws
            (init ∙ ap (λ x. ok (x, after)) some_c) (ap dlopen set ∙ opens) loads valid,
      ),
    )
