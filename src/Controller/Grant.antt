-- ===== src/Controller/Grant.antt =====
-- What the controller allows a transfer: `get_port_remaining_byte` and `pre_op` seen through the port
-- table.
use mathlib.Core.Option
use band_width_limiter.Base.{
  ℕ, ◌≡◌, ◌≢◌, refl, sym, ap, ◌∙◌, Bool, true, false, Option, none, some, inl, inr, arith,
  Option-cases, Bool-cases,
}
use band_width_limiter.Base.Int.{ℤ, pos, negsuc, ◌≤ℤ◌, lt_ℤ, le_ℤ, eq_ℤ}
use band_width_limiter.Tree.Order.{port_ord}
use band_width_limiter.Tree.Table.Keys.{update, update-cases}
use band_width_limiter.Sock.{Timespec}
use band_width_limiter.Env.{
  PortStruct, RegisterEnv, query_port, get_init_up_limit, get_init_down_limit, get_time_val,
  get_remaining_byte_count, remaining, start_time, with_remaining,
}
use band_width_limiter.Env.Limits.{port_of, IsEnv, set_byte_count_window-Wrote}
use band_width_limiter.Controller.{
  Controller, Allowance, allow, limited, get_init_limit, set_window, time_difference, sleep_until,
  nano_mult,
}

-- The limit of a direction: down for a read, up for a write.
abbrev pub limit_of : Bool → PortStruct → ℤ
limit_of true p = p.down_limit
limit_of false p = p.up_limit

-- The nanoseconds since the last access of a port.
abbrev pub elapsed : Bool → PortStruct → Timespec → ℤ
elapsed flag p now = time_difference (start_time flag p) now

-- What a port with the structure `p` is allowed at a time, the counter that the call leaves, and the
-- sleep on the way.
pub data Granted (flag : Bool) (p : PortStruct) (now : Timespec)
    : ℤ → ℤ → Option Timespec → Type 0 where
  unlimited : limit_of flag p ≡ negsuc 0 → Granted flag p now (limit_of flag p) (pos 0) none
  renewed :
      limit_of flag p ≢ negsuc 0
      → lt_ℤ (pos nano_mult) (elapsed flag p now) ≡ true
      → Granted flag p now (limit_of flag p) (limit_of flag p) none
  waited :
      limit_of flag p ≢ negsuc 0
      → lt_ℤ (pos nano_mult) (elapsed flag p now) ≡ false
      → remaining flag p ≤ℤ pos 0
      → Granted flag p now
          (limit_of flag p)
          (limit_of flag p)
          (some (sleep_until (elapsed flag p now)))
  left_over :
      limit_of flag p ≢ negsuc 0
      → lt_ℤ (pos nano_mult) (elapsed flag p now) ≡ false
      → pos 1 ≤ℤ remaining flag p
      → Granted flag p now (remaining flag p) (remaining flag p) none

-- What the four reads of the table say of a port with a structure.
pub reads :
    (env : RegisterEnv) (port : ℕ) (p : PortStruct) (flag : Bool)
    → port_of env port ≡ some p
    → (get_init_up_limit env port ≡ p.up_limit)
      × (get_init_down_limit env port ≡ p.down_limit)
      × (get_time_val env port flag ≡ start_time flag p)
      × (get_remaining_byte_count env port flag ≡ remaining flag p)
unfolding get_init_up_limit get_init_down_limit get_time_val get_remaining_byte_count
reads env port p flag h = elim (Option-cases (query_port env port)) [
  | inl e ↦ absurd (ground arith)
  | inr (node, e) ↦
      let same : node.entry.1 ≡ p = ground arith in
      rw (e, get_init_up_limit, get_init_down_limit, get_time_val, get_remaining_byte_count)
        (
          ap (λ x. x.up_limit) same,
          ap (λ x. x.down_limit) same,
          ap (start_time flag) same,
          ap (remaining flag) same,
        )
]

-- A call that serves a port.
pub record Served (c : Controller) (port : ℕ) (flag : Bool) (p : PortStruct) (now : Timespec)
    (r : Allowance) : Type 0 where
  pub counter : ℤ
  pub granted : Granted flag p now r.1 counter r.2
  pub sockets : r.0.soc_str ≡ c.soc_str
  pub table : IsEnv r.0.reg_env_str
  pub ports :
      (q : ℕ)
      → port_of r.0.reg_env_str q
        ≡ update (port_of c.reg_env_str) port (some (with_remaining flag counter p)) q

window-Served :
    (c : Controller) (port : ℕ) (flag : Bool) (p : PortStruct) (now : Timespec) (size bytes : ℤ)
    (sleep : Option Timespec)
    → IsEnv c.reg_env_str
    → port_of c.reg_env_str port ≡ some p
    → Granted flag p now bytes size sleep
    → Served c port flag p now (set_window c port size flag, bytes, sleep)
unfolding set_window
window-Served c port flag p now size bytes sleep h e g =
    let w = set_byte_count_window-Wrote c.reg_env_str port size flag h in
    record {
      counter = size;
      granted = g;
      sockets = refl;
      table = w.table;
      ports = λ q.
          w.ports q
          ∙ ap
              (λ o. update (port_of c.reg_env_str) port (Option.map (with_remaining flag size) o) q)
              e;
    }

-- A counter that is written as it was.
unchanged :
    (env : RegisterEnv) (port : ℕ) (flag : Bool) (p : PortStruct) (q : ℕ)
    → port_of env port ≡ some p
    → port_of env q ≡ update (port_of env) port (some (with_remaining flag (remaining flag p) p)) q
unchanged env port true p q e = elim (update-cases (port_of env) port (some p) q) [
  | inl (same, got) ↦ ap (port_of env) (sym same) ∙ e ∙ sym got
  | inr (other, got) ↦ sym got
]
unchanged env port false p q e = elim (update-cases (port_of env) port (some p) q) [
  | inl (same, got) ↦ ap (port_of env) (sym same) ∙ e ∙ sym got
  | inr (other, got) ↦ sym got
]

positive : (n : ℤ) → le_ℤ n (pos 0) ≡ false → pos 1 ≤ℤ n
positive n h = ground arith

spent_up : (n : ℤ) → le_ℤ n (pos 0) ≡ true → n ≤ℤ pos 0
spent_up n h = ground arith

limited-Served :
    (c : Controller) (port : ℕ) (flag : Bool) (p : PortStruct) (now : Timespec)
    → IsEnv c.reg_env_str
    → port_of c.reg_env_str port ≡ some p
    → limit_of flag p ≢ negsuc 0
    → Served c port flag p now (limited c port flag now (limit_of flag p))
unfolding limited
limited-Served c port flag p now h e l =
    let (_, _, time, left) = reads c.reg_env_str port p flag e in
    let set = window-Served c port flag p now (limit_of flag p) (limit_of flag p) in
    rw (time, left)
      (elim (Bool-cases (lt_ℤ (pos nano_mult) (elapsed flag p now))) [
        | inl late ↦ rw (late) (set none h e (renewed l late))
        | inr early ↦ elim (Bool-cases (le_ℤ (remaining flag p) (pos 0))) [
          | inl spent ↦
              rw (early, spent)
                (set (some (sleep_until (elapsed flag p now))) h e
                  (waited l early (spent_up (remaining flag p) spent)))
          | inr more ↦
              rw (early, more)
                (record {
                  counter = remaining flag p;
                  granted = left_over l early (positive (remaining flag p) more);
                  sockets = refl;
                  table = h;
                  ports = λ q. unchanged c.reg_env_str port flag p q e;
                })
        ]
      ])

pub get_init_limit-limit_of :
    (c : Controller) (port : ℕ) (flag : Bool) (p : PortStruct)
    → port_of c.reg_env_str port ≡ some p
    → get_init_limit c port flag ≡ limit_of flag p
unfolding get_init_limit
get_init_limit-limit_of c port true p e = (reads c.reg_env_str port p true e).1
get_init_limit-limit_of c port false p e = (reads c.reg_env_str port p true e).0

no_limit : (n : ℤ) → eq_ℤ n (negsuc 0) ≡ true → n ≡ negsuc 0
no_limit (pos n) h = absurd (ground arith)
no_limit (negsuc n) h = ground arith

some_limit : (n : ℤ) → eq_ℤ n (negsuc 0) ≡ false → n ≢ negsuc 0
some_limit (pos n) h s = ground arith
some_limit (negsuc n) h s = ground arith

-- If the port table is a table and has the port, a call of `get_port_remaining_byte` for the port
-- grants what the policy `Granted` says: -1 without a limit, the limit when the last access is
-- more than a second ago or when nothing is left (after the sleep to the end of the window), and
-- else what is left. It leaves the counter of the policy in the direction, and every other port
-- and all sockets as they were.
pub allow-Served :
    (c : Controller) (port : ℕ) (flag : Bool) (p : PortStruct) (now : Timespec)
    → IsEnv c.reg_env_str
    → port_of c.reg_env_str port ≡ some p
    → Served c port flag p now (allow c port flag now)
unfolding allow
allow-Served c port flag p now h e =
    rw (get_init_limit-limit_of c port flag p e)
      (elim (Bool-cases (eq_ℤ (limit_of flag p) (negsuc 0))) [
        | inl un ↦ rw (un) (
            window-Served c port flag p now (pos 0) (limit_of flag p) none h e
              (unlimited (no_limit (limit_of flag p) un)))
        | inr lim ↦
            rw (lim) (limited-Served c port flag p now h e (some_limit (limit_of flag p) lim))
      ])
