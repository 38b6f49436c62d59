-- ===== src/Overload/Threads/Overlap.antt =====
-- Transfers that overlap: the counter of a window falls only in the second section.
use band_width_limiter.Base.{
  ℕ, zero, suc, ◌≤◌, ◌<◌, ◌^◌, ◌≡◌, refl, Bool, true, false, some, none, List, [], ◌∷◌, arith, ltb,
}
use band_width_limiter.Base.Int.{ℤ, pos, negsuc, lt_ℤ, le_ℤ, eq_ℤ, ◌≤ℤ◌}
use band_width_limiter.Base.Outcome.{ok}
use band_width_limiter.Sock.{Timespec}
use band_width_limiter.Sock.Port.{PortOf}
use band_width_limiter.Env.{PortStruct, remaining}
use band_width_limiter.Env.Limits.{port_of}
use band_width_limiter.Controller.{
  Controller, nano_mult, allow, limited, get_port_remaining_byte, pre_op,
}
use band_width_limiter.Controller.Grant.{limit_of, elapsed, reads, get_init_limit-limit_of}
use band_width_limiter.Controller.Invariant.{IsController, destination, nowhere, bound_for}
use band_width_limiter.Overload.{to_ssize, to_size}
use band_width_limiter.Overload.Transfer.{PortOf-unique, PortOf-accepted}
use band_width_limiter.Overload.Threads.{Flight, before_libc, begins, Reach, at_start, later}

-- What is left is granted, and the table stays as it is.
allow_left :
    (c : Controller) (port : ℕ) (flag : Bool) (p : PortStruct) (now : Timespec) (l b : ℕ)
    → port_of c.reg_env_str port ≡ some p
    → limit_of flag p ≡ pos l
    → remaining flag p ≡ pos b
    → 0 < b
    → elapsed flag p now ≤ℤ pos nano_mult
    → allow c port flag now ≡ (c, pos b, none)
unfolding allow limited
allow_left c port flag p now l b e limit left some' soon =
    let (_, _, time, count) = reads c.reg_env_str port p flag e in
    let early : lt_ℤ (pos nano_mult) (elapsed flag p now) ≡ false = ground (arith, soon) in
    let more : le_ℤ (pos b) (pos 0) ≡ false = ground (arith, some') in
    let limited' : eq_ℤ (pos l) (negsuc 0) ≡ false = ground arith in
    rw (get_init_limit-limit_of c port flag p e) rw (limit) rw (limited') rw (time, count) rw
      (early) rw (left) rw (more) refl

-- A transfer that is between its sections, asking for `b` bytes.
abbrev pub asks : ℤ → Bool → ℕ → Flight
asks fd flag b = record { fd = fd; flag = flag; asked = b; active = true }

to_ssize-small : (n : ℕ) → n < 2 ^ 63 → to_ssize n ≡ pos n
unfolding to_ssize
to_ssize-small n h = let e : ltb n (2 ^ 63) ≡ true = ground (arith, h) in rw (e) refl

to_size-small : (n : ℕ) → n < 2 ^ 63 → to_size (pos n) ≡ n
unfolding to_size
to_size-small n h = omega (arith, h)

module _ (c : Controller) (fd : ℤ) (count : ℕ) (flag : Bool) (now : Timespec) (port : ℕ)
    (p : PortStruct) (l b : ℕ) (v : IsController c) (at : PortOf c.soc_str fd (some port))
    (e : port_of c.reg_env_str port ≡ some p) (limit : limit_of flag p ≡ pos l)
    (left : remaining flag p ≡ pos b) (some' : 0 < b) (le : b ≤ count) (small : count < 2 ^ 63)
    (soon : elapsed flag p now ≤ℤ pos nano_mult) where
  pre_op_left : pre_op c fd (pos count) flag now ≡ ok (c, pos b, true)
  unfolding pre_op get_port_remaining_byte
  pre_op_left = elim (destination c fd v) [
    | nowhere none' _ _ ↦ absurd (PortOf-accepted c.soc_str fd port at none')
    | bound_for port' p' at' got present _ ↦
        let same : port' ≡ port = PortOf-unique c.soc_str fd port' port at' at in
        let enough : le_ℤ (pos b) (pos count) ≡ true = ground (arith, le) in
        rw (present, pre_op, get_port_remaining_byte, got) rw (same) rw
          (allow_left c port flag p now l b e limit left some' soon) rw (enough) refl
  ]

  before_libc_left : before_libc c fd count flag now ≡ ok (c, asks fd flag b)
  unfolding before_libc
  before_libc_left =
      rw (to_ssize-small count small) rw (pre_op_left) rw
        (to_size-small b (omega (arith, le, small))) refl

abbrev pub copies : ℕ → Flight → List Flight
copies zero f = []
copies (suc k) f = f ∷ copies k f

-- In a valid state, let an accepted descriptor have a port with a limit in the direction, of which
-- `b` bytes, more than none, are left, with the last access at most a second ago, and let a demand
-- be at least `b` and below 2^63. Then any number of transfers of the descriptor may be between
-- their two parts at once, each asking libc for all `b` bytes: the counter falls only afterwards.
pub Reach-copies :
    (c : Controller) (fd : ℤ) (count : ℕ) (flag : Bool) (now : Timespec) (port : ℕ) (p : PortStruct)
    (l b k : ℕ)
    → IsController c
    → PortOf c.soc_str fd (some port)
    → port_of c.reg_env_str port ≡ some p
    → limit_of flag p ≡ pos l
    → remaining flag p ≡ pos b
    → 0 < b
    → b ≤ count
    → count < 2 ^ 63
    → elapsed flag p now ≤ℤ pos nano_mult
    → Reach c (record { controller = c; flights = copies k (asks fd flag b) })
Reach-copies c fd count flag now port p l b zero v at e limit left some' le small soon = at_start
Reach-copies c fd count flag now port p l b (suc k) v at e limit left some' le small soon =
    later (Reach-copies c fd count flag now port p l b k v at e limit left some' le small soon) (
      begins fd count flag now
        (before_libc_left c fd count flag now port p l b v at e limit left some' le small soon))
