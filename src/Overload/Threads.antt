-- ===== src/Overload/Threads.antt =====
-- Threads: a transfer holds the lock twice, before it calls libc (`pre_op`) and after it (`do_update` and
-- `update_time`), and other threads may run in between. The other wrappers change the state in one
-- piece.
pub mod Safe
pub mod Overlap
use band_width_limiter.Base.{
  ℕ, ◌≡◌, Bool, true, false, Option, none, some, List, [], ◌∷◌, ◌++◌, if◌then◌else◌,
}
use band_width_limiter.Base.Int.{ℤ}
use band_width_limiter.Base.Outcome.{Outcome, ok, ◌>>=◌}
use band_width_limiter.Sock.{Timespec}
use band_width_limiter.Controller.{Controller, pre_op}
use band_width_limiter.Overload.{Call, step, account, to_ssize, to_size}

-- A transfer between its two sections: what libc is asked for, and whether the bytes will be counted.
pub record Flight : Type 0 where
  pub fd : ℤ
  pub flag : Bool
  pub asked : ℕ
  pub active : Bool

-- The first section.
unfoldable pub before_libc : Controller → ℤ → ℕ → Bool → Timespec → Outcome (Controller × Flight)
unfolding to_ssize to_size
before_libc c fd count flag now = do
  (c1, demand, active) ← pre_op c fd (to_ssize count) flag now
  ok (
    c1,
    record {
      fd = fd;
      flag = flag;
      asked = if active then to_size demand else count;
      active = active;
    },
  )

-- The second section, after libc has returned `done`.
unfoldable pub after_libc : Controller → Flight → Option Timespec → ℤ → Outcome Controller
unfolding account
after_libc c f clock done =
    if f.active then (account c f.fd f.flag clock done >>= λ (c1, _). ok c1) else ok c

-- The controller, and the transfers that wait for libc.
pub record System : Type 0 where
  pub controller : Controller
  pub flights : List Flight

-- What one thread does while it holds the lock.
pub data Step (s : System) : System → Type 0 where
  begins :
      {c : Controller} {f : Flight} (fd : ℤ) (count : ℕ) (flag : Bool) (now : Timespec)
      → before_libc s.controller fd count flag now ≡ ok (c, f)
      → Step s (record { controller = c; flights = f ∷ s.flights })
  ends :
      {c : Controller} (xs : List Flight) (f : Flight) (ys : List Flight) (clock : Timespec)
      (done : ℤ)
      → s.flights ≡ xs ++ (f ∷ ys)
      → after_libc s.controller f (some clock) done ≡ ok c
      → Step s (record { controller = c; flights = xs ++ ys })
  calls :
      {c : Controller} (call : Call)
      → step s.controller call ≡ ok c
      → Step s (record { controller = c; flights = s.flights })

-- Any number of steps of any threads.
pub data Reach (c : Controller) : System → Type 0 where
  at_start : Reach c (record { controller = c; flights = [] })
  later : {s t : System} → Reach c s → Step s t → Reach c t
