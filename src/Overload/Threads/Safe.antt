-- ===== src/Overload/Threads/Safe.antt =====
-- In every order of the sections of the threads, the state stays valid and no section is stuck.
use mathlib.Core.Path.{subst}
use band_width_limiter.Base.{
  ℕ, ◌≡◌, refl, sym, ◌∙◌, Bool, true, false, some, Bool-cases, inl, inr, Option, if◌then◌else◌,
}
use band_width_limiter.Base.Int.{ℤ, pos, lt_ℤ}
use band_width_limiter.Base.Outcome.{Outcome, ok, exited, crashed, out_of_fuel, Returns, ◌>>=◌}
use band_width_limiter.Sock.{Timespec}
use band_width_limiter.Controller.{Controller, pre_op, do_update, update_time}
use band_width_limiter.Controller.Invariant.{IsController}
use band_width_limiter.Controller.PreOp.{pre_op-Prepared}
use band_width_limiter.Overload.{Call, step, transfer, account, to_ssize, to_size}
use band_width_limiter.Overload.Safety.{account-IsController, step-IsController}
use band_width_limiter.Overload.Threads.{
  Flight, before_libc, after_libc, System, Step, begins, ends, calls, Reach, at_start, later,
}

before_libc-IsController :
    (c : Controller) (fd : ℤ) (count : ℕ) (flag : Bool) (now : Timespec)
    → IsController c
    → Returns (λ (c', _). IsController c') (before_libc c fd count flag now)
unfolding before_libc
before_libc-IsController c fd count flag now v =
    let ((c1, demand, active), got, (v1, _)) = pre_op-Prepared c fd (to_ssize count) flag now v in
    let f : Flight = record {
      fd = fd;
      flag = flag;
      asked = if active then to_size demand else count;
      active = active;
    } in
    ((c1, f), rw (got) refl, v1)

after_libc-IsController :
    (c : Controller) (f : Flight) (clock : Timespec) (done : ℤ)
    → IsController c
    → Returns IsController (after_libc c f (some clock) done)
unfolding after_libc
after_libc-IsController c f clock done v = elim (Bool-cases f.active) [
  | inr off ↦ (c, rw (off) refl, v)
  | inl on ↦
      let ((c1, n), got, (v1, _)) = account-IsController c f.fd f.flag clock done v in
      (c1, rw (on) rw (got) refl, v1)
]

-- What returns is what was returned.
returned {ℓ κ} :
    {A : Type ℓ} (P : A → Type κ) (o : Outcome A) (a : A) → Returns P o → o ≡ ok a → P a
returned P o a (b, got, h) e = subst P (value (sym got ∙ e)) h
  where
    value : {A : Type ℓ} {x y : A} → ok x ≡ ok y → x ≡ y
    value h = cc

Step-IsController :
    {s t : System} → Step s t → IsController s.controller → IsController t.controller
Step-IsController {s} (begins {c} {f} fd count flag now e) v =
    returned (λ (x : Controller × Flight). IsController x.0) _ (c, f)
      (before_libc-IsController s.controller fd count flag now v) e
Step-IsController {s} (ends {c} xs f ys clock done _ e) v =
    returned IsController _ c (after_libc-IsController s.controller f clock done v) e
Step-IsController {s} (calls {c} call e) v =
    returned IsController _ c (step-IsController s.controller call v) e

Reach-IsController :
    {c : Controller} {s : System} → IsController c → Reach c s → IsController s.controller
Reach-IsController v at_start = v
Reach-IsController v (later r st) = Step-IsController st (Reach-IsController v r)

-- The state is valid, and a thread that takes the lock comes to the end of its section in a valid state.
abbrev pub Safe : System → Type 0
Safe s =
    IsController s.controller
    × ((fd : ℤ) (count : ℕ) (flag : Bool) (now : Timespec)
        → Returns (λ (c, _). IsController c) (before_libc s.controller fd count flag now))
    × ((f : Flight) (clock : Timespec) (done : ℤ)
        → Returns IsController (after_libc s.controller f (some clock) done))
    × ((call : Call) → Returns IsController (step s.controller call))

-- From a valid state of the controller, in every order in which threads take the lock (for the
-- part of a transfer before libc, for the part after it with whatever libc returned, and for the
-- other wrappers), the state stays valid, and every such part comes to its end in a valid state,
-- whoever takes the lock next. `dup` and `dup2` are left out, and the clock of a transfer works.
pub Reach-Safe : (c : Controller) (s : System) → IsController c → Reach c s → Safe s
Reach-Safe c s v r =
    let now = Reach-IsController v r in
    (
      now,
      λ fd count flag t. before_libc-IsController s.controller fd count flag t now,
      λ f clock done. after_libc-IsController s.controller f clock done now,
      λ call. step-IsController s.controller call now,
    )

-- A call that ends in `done`, and one whose result is put there again.
abbrev ended : ℤ → Outcome (Controller × Bool) → Outcome (Controller × ℤ)
ended done o = o >>= λ (y, _). ok (y, done)

abbrev only_state : Outcome (Controller × ℤ) → Outcome Controller
only_state o = o >>= λ (c, _). ok c

abbrev rejoined : ℤ → Outcome (Controller × ℤ) → Outcome (Controller × ℤ)
rejoined done o = only_state o >>= λ c. ok (c, done)

rejoined-ended :
    (done : ℤ) (o : Outcome (Controller × Bool)) → rejoined done (ended done o) ≡ ended done o
rejoined-ended done (ok a) = refl
rejoined-ended done (exited n) = refl
rejoined-ended done crashed = refl
rejoined-ended done out_of_fuel = refl

rejoined_tail :
    (done : ℤ) (o : Outcome Controller) (g : Controller → Outcome (Controller × Bool))
    → rejoined done (o >>= λ x. ended done (g x)) ≡ (o >>= λ x. ended done (g x))
rejoined_tail done (ok a) g = rejoined-ended done (g a)
rejoined_tail done (exited n) g = refl
rejoined_tail done crashed g = refl
rejoined_tail done out_of_fuel g = refl

rejoined-account :
    (c : Controller) (fd : ℤ) (flag : Bool) (clock : Option Timespec) (done : ℤ)
    → rejoined done (account c fd flag clock done) ≡ account c fd flag clock done
unfolding account
rejoined-account c fd flag clock done = elim (Bool-cases (lt_ℤ (pos 0) done)) [
  | inl e ↦
      rw (e, account)
        (rejoined_tail done (do_update c done fd flag) (λ x. update_time x fd flag clock))
  | inr e ↦ rw (e, account) refl
]

-- With no other thread between its two parts, a transfer is the part before libc followed by the
-- part after it.
pub transfer-after_libc :
    (libc : ℕ → ℤ) (c : Controller) (fd : ℤ) (count : ℕ) (flag : Bool) (now : Timespec)
    (clock : Option Timespec)
    → transfer libc c fd count flag now clock ≡ (
        before_libc c fd count flag now >>= λ (c1, f).
        after_libc c1 f clock (libc f.asked) >>= λ c2. ok (c2, libc f.asked))
unfolding transfer before_libc after_libc
transfer-after_libc libc c fd count flag now clock = go (pre_op c fd (to_ssize count) flag now)
  where
    flight : ℤ → Bool → Flight
    flight demand active = record {
      fd = fd;
      flag = flag;
      asked = if active then to_size demand else count;
      active = active;
    }

    go :
        (o : Outcome (Controller × ℤ × Bool))
        → (o >>= λ (c1, demand, active).
            if active
            then account c1 fd flag clock (libc (to_size demand))
            else ok (c1, libc count))
          ≡ ((o >>= λ (c1, demand, active). ok (c1, flight demand active)) >>= λ (c1, f).
              after_libc c1 f clock (libc f.asked) >>= λ c2. ok (c2, libc f.asked))
    go (ok (c1, demand, true)) = sym (rejoined-account c1 fd flag clock (libc (to_size demand)))
    go (ok (c1, demand, false)) = refl
    go (exited n) = refl
    go crashed = refl
    go out_of_fuel = refl
