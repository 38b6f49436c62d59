-- ===== src/Launcher/Limit.antt =====
-- From an option of the launcher to the bytes that the port moves.
use band_width_limiter.Base.{
  ℕ, ◌+◌, ◌-◌, ◌*◌, ◌/◌, ◌≤◌, ◌<◌, ◌≡◌, ◌≢◌, refl, ap, ◌∙◌, Bool, true, false, Option, none, some,
  List, All, arith, Bool-cases, inl, inr,
}
use band_width_limiter.Base.Int.{ℤ, pos, negsuc, eq_ℤ, ◌*ℤ◌}
use band_width_limiter.Base.Outcome.{ok, Returns}
use band_width_limiter.Text.{Bytes, Environment, atoi}
use band_width_limiter.Tree.Order.{port_ord}
use band_width_limiter.Tree.Table.Keys.{update_self}
use band_width_limiter.Env.{RegisterEnv, PortStr, to_uint32, scaled, new_port}
use band_width_limiter.Env.Limits.{port_of}
use band_width_limiter.Env.Setup.{RegisteredOne, described}
use band_width_limiter.Config.{Text}
use band_width_limiter.Controller.{Controller, no_ports, nano_mult}
use band_width_limiter.Controller.Init.{init_process}
use band_width_limiter.Overload.Rate.{Turn, vectored, live}
use band_width_limiter.Overload.Rate.Turns.{HasWindow}
use band_width_limiter.Overload.Rate.Capped.{IsFairTurn, live-Capped}
use band_width_limiter.Launcher.{Settings, Exec, start}
use band_width_limiter.Launcher.Handover.{Fits, start-Launched}

-- The option that limits a direction: the down limit for a read, the up limit for a write.
abbrev pub limit_option : Bool → Settings → Bytes
limit_option true s = s.down_limit
limit_option false s = s.up_limit

scaled_pos : (d : ℕ) → 0 < d → scaled (pos d) ≡ pos (d * 1000)
unfolding scaled ◌*ℤ◌
scaled_pos d h = ground (arith, h)

-- The limit of a direction, in a line of the configuration file or made of the options.
abbrev pub line_limit : Bool → PortStr → ℤ
line_limit true x = x.down_limit
line_limit false x = x.up_limit

-- The first window of a new port.
pub new_port-HasWindow :
    (x : PortStr) (flag : Bool) (d : ℕ)
    → line_limit flag x ≡ pos d
    → 0 < d
    → HasWindow flag (new_port x) (d * 1000) (d * 1000) 0
unfolding new_port
new_port-HasWindow x true d e h =
    let l : scaled x.down_limit ≡ pos (d * 1000) = ap scaled e ∙ scaled_pos d h in
    ((l, l, omega arith), refl)
new_port-HasWindow x false d e h =
    let l : scaled x.up_limit ≡ pos (d * 1000) = ap scaled e ∙ scaled_pos d h in
    ((l, l, omega arith), refl)

-- The options as such a line.
abbrev option_line : Settings → PortStr
option_line s = record {
  port_no = to_uint32 (atoi s.port);
  up_limit = atoi s.up_limit;
  down_limit = atoi s.down_limit;
  latency = to_uint32 (atoi s.latency);
}

line_limit-option_line :
    (s : Settings) (flag : Bool) → line_limit flag (option_line s) ≡ atoi (limit_option flag s)
line_limit-option_line s true = refl
line_limit-option_line s false = refl

registered_port :
    (env : RegisterEnv) (port up_limit down_limit latency : ℤ)
    → port ≢ negsuc 0
    → RegisteredOne no_ports port up_limit down_limit latency (env, true)
    → port_of env (to_uint32 port) ≡ some (described port up_limit down_limit latency)
registered_port env port up_limit down_limit latency apart (_, left) =
    elim (Bool-cases (eq_ℤ port (negsuc 0))) [
      | inl e ↦ absurd (apart (is_minus_one port e))
      | inr e ↦ (rw (e) at left).1 (to_uint32 port) ∙ update_self (λ _. none) (to_uint32 port) _
    ]
  where
    is_minus_one : (n : ℤ) → eq_ℤ n (negsuc 0) ≡ true → n ≡ negsuc 0
    is_minus_one (pos n) h = absurd (ground arith)
    is_minus_one (negsuc n) h = ground arith

-- The controller that the set-up left lets the port of the settings move at most `d` thousand bytes in
-- each second begun, and as much again.
abbrev pub Capped : Settings → Bool → ℕ → ℕ → List Turn → Option Controller × Environment → Type 0
Capped s flag d t turns (found, vars) =
    (c : Controller) × (found ≡ some c)
    × Returns
        (λ (c', end, moved). moved ≤ d * 1000 * (2 + (end - t) / nano_mult) + vectored flag turns)
        (live (to_uint32 (atoi s.port)) flag t c turns)

-- With settings that name libc, a command and a port other than -1, do not ask for the
-- configuration file, and limit a direction to `d` thousand bytes, more than none, and with a
-- command of two words or more that fits, and a directory that fits, the launcher executes the
-- command, and in its environment `init_env` returns a controller. From any time on, if libc
-- transfers at most what it is asked for and the demands are below 2^63, any row of calls of the
-- transfers, `readv`, `writev`, `close`, `accept`, `bind` and `connect` returns, and in it the
-- descriptors that are accepted for the port move in the direction at most `d` thousand bytes for
-- each whole second that passes, twice as many more, and what the calls of `readv` (for a write,
-- of `writev`) in the row answer, which have no limit. The clock shows the time that passes, a
-- sleep lasts at least as long as it was asked for, and a call ends before the next begins; `dup`
-- and `dup2` are not among the calls.
pub start-Capped :
    (s : Settings) (dir : Bytes) (vars : Environment) (fuel : ℕ) (left : Text → Option Bytes)
    (file : Option Bytes) (flag : Bool) (d t : ℕ) (turns : List Turn)
    → s.flag_config ≡ false
    → s.if_glib ≡ true
    → s.cmd_flag ≡ true
    → Fits s dir
    → atoi s.port ≢ negsuc 0
    → atoi (limit_option flag s) ≡ pos d
    → 0 < d
    → All IsFairTurn turns
    → (e : Exec) × (start s (some dir) vars ≡ ok (some e))
      × Returns (Capped s flag d t turns) (init_process fuel left file e.vars)
start-Capped s dir vars fuel left file flag d t turns e1 e2 e3 fits port limit some' fair =
    let (e, started, ((found, after), init, (c, some_c, valid, registered, _))) =
      start-Launched s dir vars fuel left file e1 e2 e3 fits in
    let (r, got, (_, _, few)) =
      live-Capped (to_uint32 (atoi s.port)) flag t c turns
        (described (atoi s.port) (atoi s.up_limit) (atoi s.down_limit) (atoi s.latency)) (d * 1000)
        (d * 1000) 0 valid fair
        (registered_port c.reg_env_str (atoi s.port) (atoi s.up_limit) (atoi s.down_limit)
          (atoi s.latency) port registered)
        (new_port-HasWindow (option_line s) flag d (line_limit-option_line s flag ∙ limit) some')
        (omega arith) in
    (e, started, ((found, after), init, (c, some_c, (r, got, grind (arith, few)))))
