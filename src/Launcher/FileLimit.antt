-- ===== src/Launcher/FileLimit.antt =====
-- From a line of the configuration file to the bytes that its port moves.
use mathlib.Core.Path.{subst}
use band_width_limiter.Base.{
  sym, [], ◌∷◌, ◌++◌, All-right, ℕ, ◌+◌, ◌-◌, ◌*◌, ◌/◌, ◌≤◌, ◌<◌, ◌≡◌, refl, ap, ◌∙◌, Bool, true,
  Option, some, List, All, arith, inl, inr,
}
use band_width_limiter.Base.Int.{pos}
use band_width_limiter.Base.Outcome.{ok, Returns}
use band_width_limiter.Text.{Bytes, Environment}
use band_width_limiter.Tree.Order.{port_ord}
use band_width_limiter.Tree.Table.Keys.{lookup}
use band_width_limiter.Env.{PortStr, new_port}
use band_width_limiter.Env.Limits.{port_of}
use band_width_limiter.Env.Setup.{Distinct, entries, lookup_first}
use band_width_limiter.Config.{Text, string}
use band_width_limiter.Config.Whole.{Source, IsSource, file_text, config_of, rounds}
use band_width_limiter.Controller.{Controller, nano_mult}
use band_width_limiter.Controller.Init.{init_process}
use band_width_limiter.Overload.Rate.{Turn, vectored, live}
use band_width_limiter.Overload.Rate.Capped.{IsFairTurn, live-Capped}
use band_width_limiter.Launcher.{Settings, Exec, start}
use band_width_limiter.Launcher.Limit.{line_limit, new_port-HasWindow}
use band_width_limiter.Launcher.Handover.{Fits, start-FromPorts}

-- A line among lines with other ports.
lookup_line :
    (xs : List PortStr) (x : PortStr) (ys : List PortStr)
    → Distinct (xs ++ (x ∷ ys))
    → lookup (entries (xs ++ (x ∷ ys))) x.port_no ≡ some (new_port x)
lookup_line [] x ys d = elim (lookup_first (x.port_no, new_port x) (entries ys) x.port_no) [
  | inl (_, got) ↦ got
  | inr (other, _) ↦ absurd (other refl)
]
lookup_line (y ∷ xs) x ys (apart, d) =
    elim (lookup_first (y.port_no, new_port y) (entries (xs ++ (x ∷ ys))) x.port_no) [
      | inl (same, _) ↦ absurd ((All-right _ xs (x ∷ ys) apart).0 same)
      | inr (_, got) ↦ got ∙ lookup_line xs x ys d
    ]

-- The same of the port of a line of the configuration file.
abbrev pub CappedLine :
    PortStr → Bool → ℕ → ℕ → List Turn → Option Controller × Environment → Type 0
CappedLine x flag d t turns (found, vars) =
    (c : Controller) × (found ≡ some c)
    × Returns
        (λ (c', end, moved). moved ≤ d * 1000 * (2 + (end - t) / nano_mult) + vectored flag turns)
        (live x.port_no flag t c turns)

-- With settings that ask for the configuration file and name a command, and a command of two words
-- or more that fits, and a directory that fits, the launcher executes the command. If the file is
-- written from a source of the right form in which no port is repeated, and the string of its path
-- can still be read when `setenv` copies it, `init_env` returns a controller; and if a line limits
-- a direction of its port to `d` thousand bytes, more than none, then from any time on, if libc
-- transfers at most what it is asked for and the demands are below 2^63, any row of calls of the
-- transfers, `readv`, `writev`, `close`, `accept`, `bind` and `connect` returns, and in it the
-- descriptors that are accepted for the port move in the direction at most `d` thousand bytes for
-- each whole second that passes, twice as many more, and what the calls of `readv` (for a write,
-- of `writev`) in the row answer, which have no limit. The clock shows the time that passes, a
-- sleep lasts at least as long as it was asked for, and a call ends before the next begins; `dup`
-- and `dup2` are not among the calls.
pub start_config-CappedLine :
    (s : Settings) (dir path : Bytes) (vars : Environment) (src : Source) (fuel : ℕ)
    (left : Text → Option Bytes) (xs : List PortStr) (x : PortStr) (ys : List PortStr) (flag : Bool)
    (d t : ℕ) (turns : List Turn)
    → s.flag_config ≡ true
    → s.cmd_flag ≡ true
    → Fits s dir
    → IsSource src
    → rounds src ≤ fuel
    → (config_of src).ports ≡ xs ++ (x ∷ ys)
    → Distinct (xs ++ (x ∷ ys))
    → left (string src.path) ≡ some path
    → line_limit flag x ≡ pos d
    → 0 < d
    → All IsFairTurn turns
    → (e : Exec) × (start s (some dir) vars ≡ ok (some e))
      × Returns (CappedLine x flag d t turns) (init_process fuel left (some (file_text src)) e.vars)
start_config-CappedLine s dir path vars src fuel left xs x ys flag d t turns e1 e2 fits h le lines
      apart there limit some' fair =
    let (e, started, ((found, after), init, (c, some_c, valid, ports, _))) =
      start-FromPorts s dir path vars src fuel left e1 e2 fits h le
        (subst Distinct (sym lines) apart) there in
    let here : port_of c.reg_env_str x.port_no ≡ some (new_port x) =
      ports x.port_no
      ∙ ap (λ ps. lookup (entries ps) x.port_no) lines
      ∙ lookup_line xs x ys apart in
    let (r, got, (_, _, few)) =
      live-Capped x.port_no flag t c turns (new_port x) (d * 1000) (d * 1000) 0 valid fair here
        (new_port-HasWindow x flag d limit some') (omega arith) in
    (e, started, ((found, after), init, (c, some_c, (r, got, grind (arith, few)))))
