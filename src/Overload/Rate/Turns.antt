-- ===== src/Overload/Rate/Turns.antt =====
-- What one transfer does to the window of a port, in time.
use band_width_limiter.Base.{
  ℕ, ◌+◌, ◌-◌, ◌≤◌, ◌≡◌, ◌≢◌, refl, sym, ap, ◌∙◌, Bool, true, false, Option, some, ◌⊎◌, inl, inr,
  arith, Bool-cases,
}
use band_width_limiter.Base.Int.{ℤ, pos, negsuc, pos_part, lt_ℤ, ◌≤ℤ◌, ◌-ℤ◌, ◌+ℤ◌, ◌*ℤ◌}
use band_width_limiter.Sock.{Timespec}
use band_width_limiter.Sock.Port.{PortOf}
use band_width_limiter.Env.{PortStruct, deduct, floor_zero, start_time, remaining, with_remaining}
use band_width_limiter.Env.Limits.{port_of}
use band_width_limiter.Controller.{
  Controller, nano_mult, time_difference, sleep_until, get_port_remaining_byte,
}
use band_width_limiter.Controller.Delay.{sleep_until-Exact}
use band_width_limiter.Controller.Grant.{
  Granted, unlimited, renewed, waited, left_over, limit_of, elapsed, allow-Served,
}
use band_width_limiter.Controller.Invariant.{IsController, nowhere, bound_for, destination}
use band_width_limiter.Overload.Transfer.{PortOf-accepted, PortOf-unique, settled}
use band_width_limiter.Overload.Budget.{
  HasBudget, settled-remaining, settled-limit, remaining_self, part_le,
}
use band_width_limiter.Overload.Rate.{at_ns, same_flag, slept_ns, sleep_of}
use band_width_limiter.Overload.Rate.Bound.{Drawn}

-- The port has the limit `l` in the direction, of which `b` bytes are left, and the last access was at
-- `s`.
abbrev pub HasWindow : Bool → PortStruct → ℕ → ℕ → ℕ → Type 0
HasWindow flag p l b s = HasBudget flag p l b × (start_time flag p ≡ at_ns s)

time_difference-at_ns : (s t : ℕ) → s ≤ t → time_difference (at_ns s) (at_ns t) ≡ pos (t - s)
unfolding time_difference ◌-ℤ◌ ◌+ℤ◌ ◌*ℤ◌
time_difference-at_ns s t h = ground arith

-- The sleep that ends the window of the last access.
slept_ns-sleep_until :
    (d : ℕ) → d ≤ nano_mult → slept_ns (some (sleep_until (pos d))) ≡ nano_mult - d
unfolding ◌-ℤ◌
slept_ns-sleep_until d h =
    let (seconds, nanoseconds, e, _, total) = sleep_until-Exact (pos d) (omega (arith, h)) in
    rw (e) (ground (arith, total, h))

waited_sleep :
    (flag : Bool) (p : PortStruct) (now : Timespec) {bytes counter : ℤ} {sleep : Option Timespec}
    → limit_of flag p ≢ negsuc 0
    → lt_ℤ (pos nano_mult) (elapsed flag p now) ≡ false
    → remaining flag p ≤ℤ pos 0
    → Granted flag p now bytes counter sleep
    → sleep ≡ some (sleep_until (elapsed flag p now))
waited_sleep flag p now l early spent (unlimited e) = absurd (l e)
waited_sleep flag p now l early spent (renewed _ late) = absurd (cc (sym early ∙ late))
waited_sleep flag p now l early spent (waited _ _ _) = refl
waited_sleep flag p now l early spent (left_over _ _ more) = absurd (omega (arith, spent, more))

-- With nothing left in the window, the limiter sleeps to its end.
pub sleep_of-waited :
    (c : Controller) (fd : ℤ) (flag : Bool) (port : ℕ) (p : PortStruct) (s now : ℕ)
    → IsController c
    → PortOf c.soc_str fd (some port)
    → port_of c.reg_env_str port ≡ some p
    → start_time flag p ≡ at_ns s
    → s ≤ now
    → limit_of flag p ≢ negsuc 0
    → lt_ℤ (pos nano_mult) (elapsed flag p (at_ns now)) ≡ false
    → remaining flag p ≤ℤ pos 0
    → s + nano_mult ≤ now + sleep_of c fd flag (at_ns now)
unfolding sleep_of get_port_remaining_byte
sleep_of-waited c fd flag port p s now v at limits stamped past l early spent =
    elim (destination c fd v) [
      | nowhere none' _ _ ↦ absurd (PortOf-accepted c.soc_str fd port at none')
      | bound_for port' p' at' got present limits' ↦
          let ports : port' ≡ port = PortOf-unique c.soc_str fd port' port at' at in
          let passed : elapsed flag p (at_ns now) ≡ pos (now - s) =
            ap (λ x. time_difference x (at_ns now)) stamped ∙ time_difference-at_ns s now past in
          let served = allow-Served c port flag p (at_ns now) v.limits limits in
          let slept = waited_sleep flag p (at_ns now) l early spent served.granted in
          let near : now - s ≤ nano_mult = ground (arith, rw (passed) at early) in
          rw (present, get_port_remaining_byte, got) rw (ports) rw (slept) rw (passed)
            (omega (arith, slept_ns-sleep_until (now - s) near))
    ]

-- What is granted until `clock` is what was left, or the limit a second after the last access.
pub granted_window :
    (flag : Bool) (p : PortStruct) (l b s now clock : ℕ) {bytes counter : ℤ}
    {sleep : Option Timespec}
    → HasWindow flag p l b s
    → s ≤ now
    → now ≤ clock
    → (limit_of flag p ≢ negsuc 0
        → lt_ℤ (pos nano_mult) (elapsed flag p (at_ns now)) ≡ false
        → remaining flag p ≤ℤ pos 0
        → s + nano_mult ≤ clock)
    → Granted flag p (at_ns now) bytes counter sleep
    → (k : ℕ) × (bytes ≡ pos k)
      × (counter ≡ pos k)
      × (k ≤ l)
      × ((k ≡ b) ⊎ ((k ≡ l) × (s + nano_mult ≤ clock)))
granted_window flag p l b s now clock ((limit, left, most), stamped) past on slept (unlimited e) =
    absurd (ground arith)
granted_window flag p l b s now clock ((limit, left, most), stamped) past on slept
      (renewed _ late) =
    let passed : elapsed flag p (at_ns now) ≡ pos (now - s) =
      ap (λ x. time_difference x (at_ns now)) stamped ∙ time_difference-at_ns s now past in
    let later : s + nano_mult ≤ clock = ground (arith, rw (passed) at late) in
    (l, limit, limit, omega arith, inr (refl, later))
granted_window flag p l b s now clock ((limit, left, most), stamped) past on slept
      (waited u early spent) =
    (l, limit, limit, omega arith, inr (refl, slept u early spent))
granted_window flag p l b s now clock ((limit, left, most), stamped) past on slept
      (left_over _ _ _) =
    (b, left, left, most, inl refl)

settled_start :
    (flag : Bool) (ts : Timespec) (n m : ℤ) (p : PortStruct)
    → lt_ℤ (pos 0) n ≡ true
    → start_time flag (settled flag ts n (with_remaining flag m p)) ≡ ts
settled_start true ts n m p e = rw (e) refl
settled_start false ts n m p e = rw (e) refl

unsettled_start :
    (flag : Bool) (ts : Timespec) (n m : ℤ) (p : PortStruct)
    → lt_ℤ (pos 0) n ≡ false
    → start_time flag (settled flag ts n (with_remaining flag m p)) ≡ start_time flag p
unsettled_start true ts n m p e = rw (e) refl
unsettled_start false ts n m p e = rw (e) refl

nothing : (n : ℤ) → lt_ℤ (pos 0) n ≡ false → pos_part n ≡ 0
nothing (pos n) e = ground arith
nothing (negsuc n) e = refl

-- What a turn makes of the window of a port in a direction, when it moves `m` bytes there.
abbrev pub Turned : Bool → PortStruct → ℕ → ℕ → ℕ → ℕ → ℕ → Type 0
Turned flag p l clock b s m =
    (b' : ℕ) × (s' : ℕ) × HasWindow flag p l b' s' × Drawn l clock b s m b' s'

-- A transfer of `n` bytes in the direction, at most the `k` that were granted.
pub settled-Turned :
    (flag : Bool) (p : PortStruct) (l b s clock k : ℕ) (n counter : ℤ)
    → HasWindow flag p l b s
    → counter ≡ pos k
    → k ≤ l
    → n ≤ℤ pos k
    → (k ≡ b) ⊎ ((k ≡ l) × (s + nano_mult ≤ clock))
    → Turned flag
        (settled flag (at_ns clock) n (with_remaining flag counter p))
        l
        clock
        b
        s
        (pos_part n)
settled-Turned flag p l b s clock k n counter ((limit, _, _), stamped) counts within few whose =
    let p1 = with_remaining flag counter p in
    let left =
      settled-remaining flag (at_ns clock) n p1 k (remaining_self flag counter p ∙ counts) few in
    let budget : HasBudget flag (settled flag (at_ns clock) n p1) l (k - pos_part n) =
      (settled-limit flag (at_ns clock) n counter p ∙ limit, left, omega (arith, within)) in
    let fits = part_le n k few in
    let drawn : ((k - pos_part n) + pos_part n ≡ b)
        ⊎ (((k - pos_part n) + pos_part n ≡ l) × (s + nano_mult ≤ clock)) =
      elim whose [
        | inl e ↦ inl (omega (arith, e, fits))
        | inr (e, late) ↦ inr (omega (arith, e, fits), late)
      ] in
    elim (Bool-cases (lt_ℤ (pos 0) n)) [
      | inl some' ↦ (
        k - pos_part n,
        clock,
        (budget, settled_start flag (at_ns clock) n counter p some'),
        (inr refl, drawn),
      )
      | inr none' ↦ (
        k - pos_part n,
        s,
        (budget, unsettled_start flag (at_ns clock) n counter p none' ∙ stamped),
        (inl (refl, nothing n none'), drawn),
      )
    ]

-- The window of the other direction stays.
pub settled_other :
    (flag way : Bool) (p : PortStruct) (l b s : ℕ) (ts : Timespec) (n counter : ℤ)
    → same_flag flag way ≡ false
    → HasWindow flag p l b s
    → HasWindow flag (settled way ts n (with_remaining way counter p)) l b s
unfolding deduct floor_zero
settled_other true true p l b s ts n counter h w = absurd (cc h)
settled_other false false p l b s ts n counter h w = absurd (cc h)
settled_other true false p l b s ts n counter h ((limit, left, most), stamped) =
    elim (Bool-cases (lt_ℤ (pos 0) n)) [
      | inl e ↦ rw (e) rw (left) ((limit, ground arith, most), stamped)
      | inr e ↦ rw (e) ((limit, left, most), stamped)
    ]
settled_other false true p l b s ts n counter h ((limit, left, most), stamped) =
    elim (Bool-cases (lt_ℤ (pos 0) n)) [
      | inl e ↦ rw (e) rw (left) ((limit, ground arith, most), stamped)
      | inr e ↦ rw (e) ((limit, left, most), stamped)
    ]
