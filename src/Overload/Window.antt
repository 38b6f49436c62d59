-- ===== src/Overload/Window.antt =====
-- A row of transfers of one descriptor, and the windows that they fall into.
use mathlib.Core.Path.{subst}
use band_width_limiter.Base.{
  ℕ, ◌+◌, ◌^◌, ◌<◌, ◌≡◌, refl, sym, Bool, some, List, [], ◌∷◌, All, inl, inr,
}
use band_width_limiter.Base.Int.{ℤ, pos, pos_part, ◌≤ℤ◌}
use band_width_limiter.Base.Outcome.{Outcome, ok, Returns, ◌>>=◌}
use band_width_limiter.Sock.{Timespec}
use band_width_limiter.Sock.Port.{PortOf}
use band_width_limiter.Env.{PortStruct}
use band_width_limiter.Env.Limits.{port_of}
use band_width_limiter.Controller.{Controller}
use band_width_limiter.Controller.Invariant.{IsController}
use band_width_limiter.Overload.{transfer}
use band_width_limiter.Overload.Budget.{HasBudget, transfer-Spent}

-- A request of the program, with what libc answers and the two readings of the clock.
pub record Request : Type 0 where
  pub libc : ℕ → ℤ
  pub count : ℕ
  pub now : Timespec
  pub clock : Timespec

abbrev pub IsFair : Request → Type 0
IsFair r = ((m : ℕ) → r.libc m ≤ℤ pos m) × (r.count < 2 ^ 63)

-- The requests one after the other, and what each one moved.
unfoldable pub transfers : Controller → ℤ → Bool → List Request → Outcome (Controller × List ℤ)
transfers c fd flag [] = ok (c, [])
transfers c fd flag (r ∷ rs) = do
  (c1, n) ← transfer r.libc c fd r.count flag r.now (some r.clock)
  (c2, ns) ← transfers c1 fd flag rs
  ok (c2, n ∷ ns)

-- A bucket of at most `l` bytes, which holds `b` before the transfers and `b'` after them: each one
-- comes out of the bucket, or fills it first.
pub data Bucket (l : ℕ) : ℕ → List ℤ → ℕ → Type 0 where
  closed : {b : ℕ} → Bucket l b [] b
  taken :
      {b b1 b2 : ℕ} {n : ℤ} {ns : List ℤ}
      → b1 + pos_part n ≡ b
      → Bucket l b1 ns b2
      → Bucket l b (n ∷ ns) b2
  filled :
      {b b1 b2 : ℕ} {n : ℤ} {ns : List ℤ}
      → b1 + pos_part n ≡ l
      → Bucket l b1 ns b2
      → Bucket l b (n ∷ ns) b2

abbrev pub Metered : Controller → ℕ → Bool → ℕ → ℕ → Controller × List ℤ → Type 0
Metered c port flag l b (c', ns) =
    IsController c'
    × ((p : PortStruct) × (b' : ℕ) × (port_of c'.reg_env_str port ≡ some p)
        × HasBudget flag p l b'
        × Bucket l b ns b')

-- In a valid state, let an accepted descriptor have a port with a limit of `l` bytes in the
-- direction, of which `b`, at most `l`, are left. If libc transfers at most what it is asked for,
-- and the demands are below 2^63, any row of transfers of the descriptor in the direction returns
-- in a valid state, and what they moved is a run of a bucket of `l` bytes that holds `b` at first:
-- each transfer comes out of the bucket, or fills it first. The bucket holds what is left at the
-- end.
pub transfers-Metered :
    (c : Controller) (fd : ℤ) (flag : Bool) (rs : List Request) (port : ℕ) (p : PortStruct)
    (l b : ℕ)
    → IsController c
    → All IsFair rs
    → PortOf c.soc_str fd (some port)
    → port_of c.reg_env_str port ≡ some p
    → HasBudget flag p l b
    → Returns (Metered c port flag l b) (transfers c fd flag rs)
unfolding transfers
transfers-Metered c fd flag [] port p l b v fair at limits budget =
    ((c, []), refl, (v, (p, b, limits, budget, closed)))
transfers-Metered c fd flag (r ∷ rs) port p l b v ((lawful, small), fair) at limits budget =
    let ((c1, n), got, (v1, socks, _, (p1, b1, limits1, budget1, whose))) =
      transfer-Spent r.libc c fd r.count flag r.now r.clock port p l b v lawful small at limits
        budget in
    let ((c2, ns), got', (v2, (p2, b2, limits2, budget2, bucket))) =
      transfers-Metered c1 fd flag rs port p1 l b1 v1 fair
        (subst (λ s. PortOf s fd (some port)) (sym socks) at) limits1 budget1 in
    (
      (c2, n ∷ ns),
      rw (got, got') refl,
      (
        v2,
        (p2, b2, limits2, budget2, elim whose [ inl e ↦ taken e bucket | inr e ↦ filled e bucket ]),
      ),
    )
