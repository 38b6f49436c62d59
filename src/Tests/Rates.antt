-- ===== src/Tests/Rates.antt =====
-- The wrappers in time, at a small state.
use band_width_limiter.Base.{suc, ◌+◌, ◌-◌, ◌*◌, ◌/◌, ◌≤◌, refl, true, List, [], ◌∷◌, All, arith}
use band_width_limiter.Base.Int.{pos}
use band_width_limiter.Base.Outcome.{Returns}
use band_width_limiter.Controller.{nano_mult}
use band_width_limiter.Controller.Invariant.{IsController}
use band_width_limiter.Overload.Rate.{Turn, moves, keeps, vectors, accepts, closes, live}
use band_width_limiter.Overload.Rate.Capped.{IsFairTurn, live-Capped}
use band_width_limiter.Tests.Calls.{
  web, controller, controller-IsController, web_found, one_byte, one_byte-IsLawful,
}

-- A client reads, another is accepted and reads a second later, and the first one is closed.
abbrev pub visits : List Turn
visits =
    moves 700 20 one_byte (pos 5) 9000 true
    ∷ keeps 10 (accepts (pos 3) (pos 6))
    ∷ moves nano_mult 5 one_byte (pos 6) 4000 true
    ∷ vectors 8 (pos 6) (pos 700) true
    ∷ keeps 0 (closes (pos 5))
    ∷ []

pub visits-IsFair : All IsFairTurn visits
visits-IsFair =
    ((one_byte-IsLawful, omega arith), (tt, ((one_byte-IsLawful, omega arith), (tt, (tt, tt)))))

live_example :
    Returns
      (λ (c', end, moved).
        IsController c' × (3 ≤ end) × (moved ≤ 1500 + 4000 * suc ((end - 3) / nano_mult) + 700))
      (live 80 true 3 controller visits)
live_example =
    live-Capped 80 true 3 controller visits web 4000 1500 0 controller-IsController visits-IsFair
      web_found ((refl, refl, omega arith), refl) (omega arith)
