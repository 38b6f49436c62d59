-- ===== src/Overload/Transfer.antt =====
-- What a transfer does to the port table.
use mathlib.Core.Path.{subst}
use band_width_limiter.Base.{
  ℕ, ◌≡◌, ◌≢◌, refl, sym, ap, ◌∙◌, Bool, true, Option, none, some, ◌⊎◌, inl, inr, arith, Bool-cases,
  eq_of_some, if◌then◌else◌,
}
use band_width_limiter.Base.Int.{ℤ, pos, lt_ℤ, ◌≤ℤ◌}
use band_width_limiter.Base.Outcome.{Returns}
use band_width_limiter.Tree.Order.{port_ord, fd_ord}
use band_width_limiter.Tree.Table.Keys.{update, update_self, update_twice, update-cases}
use band_width_limiter.Tree.Table.Laws.{find}
use band_width_limiter.Sock.{Timespec, SockStruct}
use band_width_limiter.Sock.Port.{PortOf}
use band_width_limiter.Env.{PortStruct, RegisterEnv, deduct, with_start_time, with_remaining}
use band_width_limiter.Env.Limits.{port_of}
use band_width_limiter.Controller.{Controller, do_update, update_time}
use band_width_limiter.Controller.Grant.{Granted}
use band_width_limiter.Controller.Invariant.{IsController}
use band_width_limiter.Controller.PreOp.{
  cut, pre_op-Prepared, do_update-Charged, update_time-Stamped,
}
use band_width_limiter.Overload.{transfer, account, to_ssize, to_size}

pub PortOf-unique :
    (s : SockStruct) (fd : ℤ) (port port' : ℕ)
    → PortOf s fd (some port)
    → PortOf s fd (some port')
    → port ≡ port'
PortOf-unique s fd port port' (a, r, e, f, same) (a', r', e', f', same') =
    let accepted : a ≡ a' = eq_of_some (sym e ∙ e') in
    let rs : r ≡ r' =
      eq_of_some (sym f ∙ ap (λ x. find s.sock_rb x.root_fd_number) accepted ∙ f') in
    sym same ∙ ap (λ x. x.port) rs ∙ same'

pub PortOf-accepted :
    (s : SockStruct) (fd : ℤ) (port : ℕ) → PortOf s fd (some port) → find s.acp_socket_rb fd ≢ none
PortOf-accepted s fd port (a, r, e, f, same) h = cc

-- What a transfer of `done` bytes makes of the structure of its port.
abbrev pub settled : Bool → Timespec → ℤ → PortStruct → PortStruct
settled flag clock done p =
    if lt_ℤ (pos 0) done then with_start_time flag clock (deduct flag done p) else p

not_positive : (n : ℤ) → lt_ℤ (pos 0) n ≡ true → n ≤ℤ pos 0 → ⊥
not_positive n h k = ground arith

-- Two descriptions of the port of a descriptor describe one change.
same_change :
    (s : SockStruct) (env : RegisterEnv) (fd : ℤ) (port port' : ℕ) (p p' : PortStruct)
    → PortOf s fd (some port)
    → PortOf s fd (some port')
    → port_of env port ≡ some p
    → port_of env port' ≡ some p'
    → (f : PortStruct → PortStruct) (q : ℕ)
    → update (port_of env) port' (some (f p')) q ≡ update (port_of env) port (some (f p)) q
same_change s env fd port port' p p' at at' e e' f q =
    let ports = PortOf-unique s fd port' port at' at in
    let infos : p' ≡ p = eq_of_some (sym e' ∙ ap (port_of env) ports ∙ e) in
    ap (λ k. update (port_of env) k (some (f p')) q) ports
    ∙ ap (λ x. update (port_of env) port (some (f x)) q) infos

update_same :
    (env : RegisterEnv) (port : ℕ) (p : PortStruct) (q : ℕ)
    → port_of env port ≡ some p
    → port_of env q ≡ update (port_of env) port (some p) q
update_same env port p q e = elim (update-cases (port_of env) port (some p) q) [
  | inl (same, got) ↦ ap (port_of env) (sym same) ∙ e ∙ sym got
  | inr (other, got) ↦ sym got
]

-- The descriptor of an accepted port is charged.
charged_at :
    (c : Controller) (used fd : ℤ) (flag : Bool) (port : ℕ) (p : PortStruct)
    → IsController c
    → PortOf c.soc_str fd (some port)
    → port_of c.reg_env_str port ≡ some p
    → lt_ℤ (pos 0) used ≡ true
    → Returns
        (λ c'.
          IsController c'
          × (c'.soc_str ≡ c.soc_str)
          × ((q : ℕ)
              → port_of c'.reg_env_str q
                ≡ update (port_of c.reg_env_str) port (some (deduct flag used p)) q))
        (do_update c used fd flag)
charged_at c used fd flag port p v at limits some' =
    let (c1, got, (v1, socks, charged)) = do_update-Charged c used fd flag v in
    (
      c1,
      got,
      (
        v1,
        socks,
        λ q. elim charged [
          | inl (inl e, _) ↦ absurd (PortOf-accepted c.soc_str fd port at e)
          | inl (inr few, _) ↦ absurd (not_positive used some' few)
          | inr (port', p', at', limits', _, reads) ↦
              reads q
              ∙ same_change c.soc_str c.reg_env_str fd port port' p p' at at' limits limits'
                  (deduct flag used) q
        ],
      ),
    )

stamped_at :
    (c : Controller) (fd : ℤ) (flag : Bool) (ts : Timespec) (port : ℕ) (p : PortStruct)
    → IsController c
    → PortOf c.soc_str fd (some port)
    → port_of c.reg_env_str port ≡ some p
    → Returns
        (λ (c', _).
          IsController c'
          × (c'.soc_str ≡ c.soc_str)
          × ((q : ℕ)
              → port_of c'.reg_env_str q
                ≡ update (port_of c.reg_env_str) port (some (with_start_time flag ts p)) q))
        (update_time c fd flag (some ts))
stamped_at c fd flag ts port p v at limits =
    let (r, got, (v1, socks, stamped)) = update_time-Stamped c fd flag ts v in
    (
      r,
      got,
      (
        v1,
        socks,
        λ q. elim stamped [
          | inl (e, _, _) ↦ absurd (PortOf-accepted c.soc_str fd port at e)
          | inr (port', p', at', limits', reads) ↦
              reads q
              ∙ same_change c.soc_str c.reg_env_str fd port port' p p' at at' limits limits'
                  (with_start_time flag ts) q
        ],
      ),
    )

account-settled :
    (c : Controller) (fd : ℤ) (flag : Bool) (clock : Timespec) (done : ℤ) (port : ℕ)
    (p : PortStruct)
    → IsController c
    → PortOf c.soc_str fd (some port)
    → port_of c.reg_env_str port ≡ some p
    → Returns
        (λ (c', n).
          IsController c'
          × (c'.soc_str ≡ c.soc_str)
          × (n ≡ done)
          × ((q : ℕ)
              → port_of c'.reg_env_str q
                ≡ update (port_of c.reg_env_str) port (some (settled flag clock done p)) q))
        (account c fd flag (some clock) done)
unfolding account
account-settled c fd flag clock done port p v at limits = elim (Bool-cases (lt_ℤ (pos 0) done)) [
  | inr stopped ↦ (
    (c, done),
    rw (stopped, account) refl,
    (v, refl, refl, λ q. rw (stopped) (update_same c.reg_env_str port p q limits)),
  )
  | inl some' ↦
      let (c1, got, (v1, socks, charged)) = charged_at c done fd flag port p v at limits some' in
      let p1 = deduct flag done p in
      let limits1 : port_of c1.reg_env_str port ≡ some p1 =
        charged port ∙ update_self (port_of c.reg_env_str) port (some p1) in
      let (r, got', (v2, socks', stamped)) =
        stamped_at c1 fd flag clock port p1 v1 (subst (λ s. PortOf s fd (some port)) (sym socks) at)
          limits1 in
      (
        (r.0, done),
        rw (some', account, got, got') refl,
        (
          v2,
          socks' ∙ socks,
          refl,
          λ q.
              stamped q
              ∙ update_twice (port_of c.reg_env_str) (port_of c1.reg_env_str) port (some p1) _
                  charged q
              ∙ rw (some') refl,
        ),
      )
]

-- What a call of `read`, `recv` and `recvfrom`, or of `write`, `send` and `sendto`, does. A descriptor
-- that is not accepted goes to libc as it is. For any other, libc is asked for what the port is
-- granted at most, and the port is charged what libc transferred.
abbrev pub Transferred :
    (ℕ → ℤ) → Controller → ℤ → ℕ → Bool → Timespec → Timespec → Controller × ℤ → Type 0
Transferred libc c fd count flag now clock (c', n) =
    IsController c'
    × (c'.soc_str ≡ c.soc_str)
    × (((find c.soc_str.acp_socket_rb fd ≡ none) × (n ≡ libc count) × (c' ≡ c))
        ⊎ ((port : ℕ) × (p : PortStruct) × (bytes counter : ℤ) × (sleep : Option Timespec) × PortOf
              c.soc_str fd (some port)
            × (port_of c.reg_env_str port ≡ some p)
            × Granted flag p now bytes counter sleep
            × (n ≡ libc (to_size (cut (to_ssize count) bytes)))
            × ((q : ℕ)
                → port_of c'.reg_env_str q
                  ≡ update (port_of c.reg_env_str) port
                      (some (settled flag clock n (with_remaining flag counter p))) q)))

-- In a valid state, and with a clock that works, `read`, `recv`, `recvfrom`, `write`, `send` and
-- `sendto` return in a valid state with the same sockets. A descriptor that is not accepted goes
-- to libc as it is, and nothing changes. For any other, libc is asked for the demand, cut to what
-- the policy `Granted` allows the port; afterwards the port has the counter of the policy, less
-- what libc transferred, and the time of a transfer that moved something, and the other ports are
-- as before.
pub transfer-Transferred :
    (libc : ℕ → ℤ) (c : Controller) (fd : ℤ) (count : ℕ) (flag : Bool) (now clock : Timespec)
    → IsController c
    → Returns
        (Transferred libc c fd count flag now clock)
        (transfer libc c fd count flag now (some clock))
unfolding transfer
transfer-Transferred libc c fd count flag now clock v =
    let ((c1, demand, active), got, (v1, prepared)) =
      pre_op-Prepared c fd (to_ssize count) flag now v in
    elim prepared [
      | inl (absent, off, _, same) ↦
          ((c, libc count), rw (transfer, got, off, same) refl, (v, refl, inl (absent, refl, refl)))
      | inr (port, p, bytes, sleep, at, limits, served, on, asked) ↦
          let p1 = with_remaining flag served.counter p in
          let done = libc (to_size demand) in
          let limits1 : port_of c1.reg_env_str port ≡ some p1 =
            served.ports port ∙ update_self (port_of c.reg_env_str) port (some p1) in
          let ((c2, n), got', (v2, socks, all, settles)) =
            account-settled c1 fd flag clock done port p1 v1
              (subst (λ s. PortOf s fd (some port)) (sym served.sockets) at) limits1 in
          (
            (c2, n),
            rw (transfer, got, on, got') refl,
            (
              v2,
              socks ∙ served.sockets,
              inr (
                port,
                p,
                bytes,
                served.counter,
                sleep,
                at,
                limits,
                served.granted,
                all ∙ ap (λ d. libc (to_size d)) asked,
                λ q.
                    settles q
                    ∙ update_twice (port_of c.reg_env_str) (port_of c1.reg_env_str) port (some p1) _
                        served.ports q
                    ∙ ap
                        (λ m.
                          update (port_of c.reg_env_str) port (some (settled flag clock m p1)) q)
                        (sym all),
              ),
            ),
          )
    ]
