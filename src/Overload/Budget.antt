-- ===== src/Overload/Budget.antt =====
-- The budget of a window: what transfers take of it, and what is left.
use mathlib.Core.Path.{subst}
use band_width_limiter.Base.{
  ℕ, ◌+◌, ◌-◌, ◌^◌, ◌≤◌, ◌<◌, ◌≡◌, refl, sym, ap, ◌∙◌, Bool, true, false, Option, some, ◌⊎◌, inl,
  inr, arith, Bool-cases, eq_of_some, ltb,
}
use band_width_limiter.Base.Int.{ℤ, pos, negsuc, pos_part, lt_ℤ, le_ℤ, ◌≤ℤ◌, ◌-ℤ◌}
use band_width_limiter.Base.Outcome.{Returns}
use band_width_limiter.Tree.Order.{port_ord, fd_ord}
use band_width_limiter.Tree.Table.Keys.{update_self}
use band_width_limiter.Sock.{Timespec}
use band_width_limiter.Sock.Port.{PortOf}
use band_width_limiter.Env.{
  PortStruct, deduct, floor_zero, with_start_time, with_remaining, remaining,
}
use band_width_limiter.Env.Limits.{port_of}
use band_width_limiter.Controller.{Controller}
use band_width_limiter.Controller.Grant.{Granted, limit_of, unlimited, renewed, waited, left_over}
use band_width_limiter.Controller.Invariant.{IsController}
use band_width_limiter.Controller.PreOp.{cut}
use band_width_limiter.Overload.{transfer, to_ssize, to_size}
use band_width_limiter.Overload.Transfer.{
  settled, PortOf-unique, PortOf-accepted, transfer-Transferred,
}

floor_zero-sub : (k n : ℕ) → n ≤ k → floor_zero (pos k -ℤ pos n) ≡ pos (k - n)
unfolding floor_zero ◌-ℤ◌
floor_zero-sub k n h = ground arith

deduct-remaining :
    (flag : Bool) (clock : Timespec) (n : ℤ) (p : PortStruct)
    → remaining flag (with_start_time flag clock (deduct flag n p))
      ≡ floor_zero (remaining flag p -ℤ n)
unfolding deduct
deduct-remaining true clock n p = refl
deduct-remaining false clock n p = refl

-- A transfer within the budget takes its bytes off the counter, and a failed one takes nothing.
pub settled-remaining :
    (flag : Bool) (clock : Timespec) (n : ℤ) (p : PortStruct) (k : ℕ)
    → remaining flag p ≡ pos k
    → n ≤ℤ pos k
    → remaining flag (settled flag clock n p) ≡ pos (k - pos_part n)
settled-remaining flag clock n p k h b = elim (Bool-cases (lt_ℤ (pos 0) n)) [
  | inl some' ↦
      rw (some')
        (deduct-remaining flag clock n p ∙ ap (λ m. floor_zero (m -ℤ n)) h ∙ taken n some' b)
  | inr none' ↦ rw (none') (h ∙ ap pos (kept n none'))
]
  where
    taken :
        (n : ℤ)
        → lt_ℤ (pos 0) n ≡ true
        → n ≤ℤ pos k
        → floor_zero (pos k -ℤ n) ≡ pos (k - pos_part n)
    taken (pos n) e b = floor_zero-sub k n (omega (arith, b))
    taken (negsuc n) e b = absurd (ground arith)

    kept : (n : ℤ) → lt_ℤ (pos 0) n ≡ false → k ≡ k - pos_part n
    kept (pos n) e = ground arith
    kept (negsuc n) e = ground arith

pub settled-limit :
    (flag : Bool) (clock : Timespec) (n m : ℤ) (p : PortStruct)
    → limit_of flag (settled flag clock n (with_remaining flag m p)) ≡ limit_of flag p
unfolding deduct
settled-limit true clock n m p = ground arith
settled-limit false clock n m p = ground arith

pub remaining_self :
    (flag : Bool) (m : ℤ) (p : PortStruct) → remaining flag (with_remaining flag m p) ≡ m
remaining_self true m p = refl
remaining_self false m p = refl

-- The size that libc is asked for is at most the demand and what is granted.
pub asked :
    (count k : ℕ)
    → count < 2 ^ 63
    → (to_size (cut (to_ssize count) (pos k)) ≤ count)
      × (to_size (cut (to_ssize count) (pos k)) ≤ k)
unfolding to_size to_ssize
asked count k h =
    let small : ltb count (2 ^ 63) ≡ true = ground arith in
    rw (small) (elim (Bool-cases (le_ℤ (pos k) (pos count))) [
      | inl e ↦ rw (e) (ground arith)
      | inr e ↦ rw (e) (ground arith)
    ])

-- The port has the limit `l` in the direction, of which `b` bytes are left.
abbrev pub HasBudget : Bool → PortStruct → ℕ → ℕ → Type 0
HasBudget flag p l b = (limit_of flag p ≡ pos l) × (remaining flag p ≡ pos b) × (b ≤ l)

-- What is granted is the new counter: what was left, or the whole limit.
Granted-HasBudget :
    (flag : Bool) (p : PortStruct) (now : Timespec) (l b : ℕ) {bytes counter : ℤ}
    {sleep : Option Timespec}
    → HasBudget flag p l b
    → Granted flag p now bytes counter sleep
    → (k : ℕ) × (bytes ≡ pos k) × (counter ≡ pos k) × (k ≤ l) × ((k ≡ b) ⊎ (k ≡ l))
Granted-HasBudget flag p now l b (limit, left, most) (unlimited e) = absurd (ground arith)
Granted-HasBudget flag p now l b (limit, left, most) (renewed _ _) =
    (l, limit, limit, omega arith, inr refl)
Granted-HasBudget flag p now l b (limit, left, most) (waited _ _ _) =
    (l, limit, limit, omega arith, inr refl)
Granted-HasBudget flag p now l b (limit, left, most) (left_over _ _ _) =
    (b, left, left, most, inl refl)

-- What a transfer leaves: it moved at most `count` bytes, and they came out of what was left of the
-- window, or of a whole new one.
abbrev pub Spent : Controller → ℕ → Bool → ℕ → ℕ → ℕ → Controller × ℤ → Type 0
Spent c port flag l b count (c', n) =
    IsController c'
    × (c'.soc_str ≡ c.soc_str)
    × (n ≤ℤ pos count)
    × ((p : PortStruct) × (b' : ℕ) × (port_of c'.reg_env_str port ≡ some p)
        × HasBudget flag p l b'
        × ((b' + pos_part n ≡ b) ⊎ (b' + pos_part n ≡ l)))

pub below : (n : ℤ) (m k : ℕ) → n ≤ℤ pos m → m ≤ k → n ≤ℤ pos k
below (pos n) m k h e = omega (arith, h, e)
below (negsuc n) m k h e = omega (arith, h, e)

pub part_le : (n : ℤ) (k : ℕ) → n ≤ℤ pos k → pos_part n ≤ k
part_le (pos n) k h = omega (arith, h)
part_le (negsuc n) k h = omega arith

-- In a valid state, let an accepted descriptor have a port with a limit of `l` bytes in the
-- direction, of which `b`, at most `l`, are left. If libc transfers at most what it is asked for,
-- and the demand is below 2^63, a transfer returns in a valid state with the same sockets, having
-- moved at most the demand; the limit is the same, and what was moved and what is left add up to
-- `b`, or to `l`, a whole new window.
pub transfer-Spent :
    (libc : ℕ → ℤ) (c : Controller) (fd : ℤ) (count : ℕ) (flag : Bool) (now clock : Timespec)
    (port : ℕ) (p : PortStruct) (l b : ℕ)
    → IsController c
    → ((m : ℕ) → libc m ≤ℤ pos m)
    → count < 2 ^ 63
    → PortOf c.soc_str fd (some port)
    → port_of c.reg_env_str port ≡ some p
    → HasBudget flag p l b
    → Returns (Spent c port flag l b count) (transfer libc c fd count flag now (some clock))
transfer-Spent libc c fd count flag now clock port p l b v lawful small at limits budget =
    let (r, got, (v1, socks, moved)) = transfer-Transferred libc c fd count flag now clock v in
    (
      r,
      got,
      elim moved [
        | inl (absent, _, _) ↦ absurd (PortOf-accepted c.soc_str fd port at absent)
        | inr (port', p', bytes, counter, sleep, at', limits', granted, done, settles) ↦
            let ports : port' ≡ port = PortOf-unique c.soc_str fd port' port at' at in
            let infos : p ≡ p' =
              eq_of_some (sym limits ∙ ap (port_of c.reg_env_str) (sym ports) ∙ limits') in
            let budget' = subst (λ x. HasBudget flag x l b) infos budget in
            let (k, bytes_k, counter_k, within, whose) =
              Granted-HasBudget flag p' now l b budget' granted in
            let (few, fits) = asked count k small in
            let n_size : r.1 ≤ℤ pos (to_size (cut (to_ssize count) (pos k))) =
              rw (done, bytes_k) (lawful (to_size (cut (to_ssize count) (pos k)))) in
            let n_count = below r.1 _ count n_size few in
            let n_k = below r.1 _ k n_size fits in
            let p1 = with_remaining flag counter p' in
            let left =
              settled-remaining flag clock r.1 p1 k (remaining_self flag counter p' ∙ counter_k)
                n_k in
            (
              v1,
              socks,
              n_count,
              (
                settled flag clock r.1 p1,
                k - pos_part r.1,
                ap (port_of r.0.reg_env_str) (sym ports)
                    ∙ settles port'
                    ∙ update_self (port_of c.reg_env_str) port' _,
                (settled-limit flag clock r.1 counter p' ∙ budget'.0, left, omega (arith, within)),
                elim whose [
                  | inl e ↦ inl (omega (arith, e, part_le r.1 k n_k))
                  | inr e ↦ inr (omega (arith, e, part_le r.1 k n_k))
                ],
              ),
            )
      ],
    )

Granted-unlimited :
    (flag : Bool) (p : PortStruct) (now : Timespec) {bytes counter : ℤ} {sleep : Option Timespec}
    → limit_of flag p ≡ negsuc 0
    → Granted flag p now bytes counter sleep
    → bytes ≡ negsuc 0
Granted-unlimited flag p now e (unlimited _) = e
Granted-unlimited flag p now e (renewed l _) = absurd (l e)
Granted-unlimited flag p now e (waited l _ _) = absurd (l e)
Granted-unlimited flag p now e (left_over l _ _) = absurd (l e)

all_ones : (count : ℕ) → count < 2 ^ 63 → to_size (cut (to_ssize count) (negsuc 0)) ≡ 2 ^ 64 - 1
unfolding to_size to_ssize
all_ones count h = let small : ltb count (2 ^ 63) ≡ true = ground arith in rw (small) (ground arith)

-- In a valid state, let an accepted descriptor have a port without a limit in the direction, and
-- the demand be below 2^63: a transfer asks libc for `SIZE_MAX` bytes, whatever the demand is.
pub transfer-unlimited :
    (libc : ℕ → ℤ) (c : Controller) (fd : ℤ) (count : ℕ) (flag : Bool) (now clock : Timespec)
    (port : ℕ) (p : PortStruct)
    → IsController c
    → count < 2 ^ 63
    → PortOf c.soc_str fd (some port)
    → port_of c.reg_env_str port ≡ some p
    → limit_of flag p ≡ negsuc 0
    → Returns (λ (c', n). n ≡ libc (2 ^ 64 - 1)) (transfer libc c fd count flag now (some clock))
transfer-unlimited libc c fd count flag now clock port p v small at limits free =
    let (r, got, (v1, socks, moved)) = transfer-Transferred libc c fd count flag now clock v in
    (
      r,
      got,
      elim moved [
        | inl (absent, _, _) ↦ absurd (PortOf-accepted c.soc_str fd port at absent)
        | inr (port', p', bytes, counter, sleep, at', limits', granted, done, settles) ↦
            let ports : port' ≡ port = PortOf-unique c.soc_str fd port' port at' at in
            let infos : p ≡ p' =
              eq_of_some (sym limits ∙ ap (port_of c.reg_env_str) (sym ports) ∙ limits') in
            let free' = ap (limit_of flag) (sym infos) ∙ free in
            done
            ∙ ap (λ m. libc (to_size (cut (to_ssize count) m)))
                (Granted-unlimited flag p' now free' granted)
            ∙ ap libc (all_ones count small)
      ],
    )
