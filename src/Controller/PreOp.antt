-- ===== src/Controller/PreOp.antt =====
-- `pre_op`, `do_update` and `update_time` in a valid state.
use mathlib.Core.Option
use band_width_limiter.Base.{
  ℕ, ◌≡◌, refl, ap, ◌∙◌, Bool, true, false, Option, none, some, ◌⊎◌, inl, inr, arith, Bool-cases,
  if◌then◌else◌,
}
use band_width_limiter.Base.Int.{ℤ, pos, le_ℤ, lt_ℤ, ◌≤ℤ◌}
use band_width_limiter.Base.Outcome.{Returns}
use band_width_limiter.Tree.Order.{port_ord, fd_ord}
use band_width_limiter.Tree.Table.Keys.{update}
use band_width_limiter.Tree.Table.Laws.{find}
use band_width_limiter.Sock.{Timespec}
use band_width_limiter.Sock.Port.{PortOf}
use band_width_limiter.Env.{
  PortStruct, deduct, update_byte_count, update_time_val, with_start_time, with_remaining,
}
use band_width_limiter.Env.Limits.{port_of, update_byte_count-Wrote, update_time_val-Wrote}
use band_width_limiter.Controller.{
  Controller, Allowance, get_port_remaining_byte, allow, pre_op, do_update, update_time,
}
use band_width_limiter.Controller.Grant.{Served, allow-Served}
use band_width_limiter.Controller.Invariant.{
  IsController, Covered-update, Covered-Wrote, nowhere, bound_for, destination,
}

-- The demand that is passed on.
abbrev pub cut : ℤ → ℤ → ℤ
cut demand bytes = if le_ℤ bytes demand then bytes else demand

-- What `pre_op` does: a descriptor that is not accepted is let through; the demand of any other is cut
-- to what its port is granted.
abbrev pub Prepared : Controller → ℤ → ℤ → Bool → Timespec → Controller × ℤ × Bool → Type 0
Prepared c fd demand flag now (c', demand', b) =
    IsController c'
    × (((find c.soc_str.acp_socket_rb fd ≡ none) × (b ≡ false) × (demand' ≡ demand) × (c' ≡ c))
        ⊎ ((port : ℕ) × (p : PortStruct) × (bytes : ℤ) × (sleep : Option Timespec) × PortOf
              c.soc_str fd (some port)
            × (port_of c.reg_env_str port ≡ some p)
            × Served c port flag p now (c', bytes, sleep)
            × (b ≡ true)
            × (demand' ≡ cut demand bytes)))

Served-IsController :
    (c : Controller) (port : ℕ) (flag : Bool) (p : PortStruct) (now : Timespec) (r : Allowance)
    → IsController c
    → Served c port flag p now r
    → IsController r.0
Served-IsController c port flag p now r v s = record {
  sockets = rw (s.sockets) v.sockets;
  limits = s.table;
  covered = rw (s.sockets) (
      Covered-update c.soc_str c.reg_env_str r.0.reg_env_str port (with_remaining flag s.counter p)
        v.covered s.ports);
}

-- From a valid state `pre_op` returns in a valid state: no NULL pointer is read, and the process
-- does not exit. A descriptor that is not accepted is let through with its demand, and nothing
-- changes; any other gets the smaller of its demand and of what its port is granted.
pub pre_op-Prepared :
    (c : Controller) (fd demand : ℤ) (flag : Bool) (now : Timespec)
    → IsController c
    → Returns (Prepared c fd demand flag now) (pre_op c fd demand flag now)
unfolding pre_op get_port_remaining_byte
pre_op-Prepared c fd demand flag now v = elim (destination c fd v) [
  | nowhere e got absent ↦
      ((c, demand, false), rw (absent, pre_op) refl, (v, inl (e, refl, refl, refl)))
  | bound_for port p at got present limits ↦
      let served = allow-Served c port flag p now v.limits limits in
      let (c', bytes, sleep) = allow c port flag now in
      (
        (c', cut demand bytes, true),
        rw (present, pre_op, get_port_remaining_byte, got) refl,
        (
          Served-IsController c port flag p now (c', bytes, sleep) v served,
          inr (port, p, bytes, sleep, at, limits, served, refl, refl),
        ),
      )
]

-- What `do_update` does with a positive count: the counters of the descriptor's port are charged.
abbrev Charged : Controller → ℤ → ℤ → Bool → Controller → Type 0
Charged c used fd flag c' =
    IsController c'
    × (c'.soc_str ≡ c.soc_str)
    × ((((find c.soc_str.acp_socket_rb fd ≡ none) ⊎ (used ≤ℤ pos 0)) × (c' ≡ c))
        ⊎ ((port : ℕ) × (p : PortStruct) × PortOf c.soc_str fd (some port)
            × (port_of c.reg_env_str port ≡ some p)
            × (pos 1 ≤ℤ used)
            × ((q : ℕ)
                → port_of c'.reg_env_str q
                  ≡ update (port_of c.reg_env_str) port (some (deduct flag used p)) q)))

not_positive : (n : ℤ) → lt_ℤ (pos 0) n ≡ false → n ≤ℤ pos 0
not_positive n h = ground arith

positive : (n : ℤ) → lt_ℤ (pos 0) n ≡ true → pos 1 ≤ℤ n
positive n h = ground arith

-- From a valid state `do_update` returns in a valid state with the same sockets. A positive count
-- is taken off the counters of the port of an accepted descriptor, by `deduct`; a count that is
-- not positive, and a descriptor that is not accepted, change nothing.
pub do_update-Charged :
    (c : Controller) (used fd : ℤ) (flag : Bool)
    → IsController c
    → Returns (Charged c used fd flag) (do_update c used fd flag)
unfolding do_update
do_update-Charged c used fd flag v = elim (Bool-cases (lt_ℤ (pos 0) used)) [
  | inr none' ↦
      (c, rw (none', do_update) refl, (v, refl, inl (inr (not_positive used none'), refl)))
  | inl some' ↦ elim (destination c fd v) [
    | nowhere e got absent ↦ (c, rw (some', do_update, got) refl, (v, refl, inl (inl e, refl)))
    | bound_for port p at got present limits ↦
        let w = update_byte_count-Wrote c.reg_env_str port used flag v.limits in
        (
          record c { reg_env_str = (update_byte_count c.reg_env_str port used flag).0 },
          rw (some', do_update, got) refl,
          (
            record {
              sockets = v.sockets;
              limits = w.table;
              covered =
                  Covered-Wrote c.soc_str c.reg_env_str port (deduct flag used) p _ v.covered limits
                    w;
            },
            refl,
            inr (
              port,
              p,
              at,
              limits,
              positive used some',
              λ q.
                  w.ports q
                  ∙ ap
                      (λ o. update (port_of c.reg_env_str) port (Option.map (deduct flag used) o) q)
                      limits,
            ),
          ),
        )
  ]
]

-- `update_time`, with a clock that works, stamps the port of an accepted descriptor.
abbrev Stamped : Controller → ℤ → Bool → Timespec → Controller × Bool → Type 0
Stamped c fd flag ts (c', b) =
    IsController c'
    × (c'.soc_str ≡ c.soc_str)
    × (((find c.soc_str.acp_socket_rb fd ≡ none) × (b ≡ false) × (c' ≡ c))
        ⊎ ((port : ℕ) × (p : PortStruct) × PortOf c.soc_str fd (some port)
            × (port_of c.reg_env_str port ≡ some p)
            × ((q : ℕ)
                → port_of c'.reg_env_str q
                  ≡ update (port_of c.reg_env_str) port (some (with_start_time flag ts p)) q)))

-- From a valid state, and with a clock that works, `update_time` returns in a valid state with the
-- same sockets: the port of an accepted descriptor gets the time in the direction; for any other
-- descriptor nothing changes and the result is false.
pub update_time-Stamped :
    (c : Controller) (fd : ℤ) (flag : Bool) (ts : Timespec)
    → IsController c
    → Returns (Stamped c fd flag ts) (update_time c fd flag (some ts))
unfolding update_time
update_time-Stamped c fd flag ts v = elim (destination c fd v) [
  | nowhere e got absent ↦ ((c, false), rw (update_time, got) refl, (v, refl, inl (e, refl, refl)))
  | bound_for port p at got present limits ↦
      let w = update_time_val-Wrote c.reg_env_str port flag ts v.limits in
      let (env, b) = update_time_val c.reg_env_str port flag (some ts) in
      (
        (record c { reg_env_str = env }, b),
        rw (update_time, got) refl,
        (
          record {
            sockets = v.sockets;
            limits = w.table;
            covered =
                Covered-Wrote c.soc_str c.reg_env_str port (with_start_time flag ts) p (env, b)
                  v.covered limits w;
          },
          refl,
          inr (
            port,
            p,
            at,
            limits,
            λ q.
                w.ports q
                ∙ ap
                    (λ o.
                      update (port_of c.reg_env_str) port (Option.map (with_start_time flag ts) o)
                        q)
                    limits,
          ),
        ),
      )
]
