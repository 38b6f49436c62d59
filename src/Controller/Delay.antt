-- ===== src/Controller/Delay.antt =====
-- The sleep at the end of a spent window.
use band_width_limiter.Base.{
  ℕ, suc, ◌+◌, ◌*◌, ◌-◌, ◌/◌, ◌%◌, ◌<◌, ◌≡◌, refl, ap, ◌∙◌, some, List, [], ◌∷◌, ◌++◌, map, arith,
}
use band_width_limiter.Base.Int.{ℤ, pos, negsuc, ◌-ℤ◌, ◌≤ℤ◌}
use band_width_limiter.Sock.{Timespec}
use band_width_limiter.Controller.{
  nano_mult, quotient, modulo, sleep_until, slept, interrupted, do_complete_nanosleep,
}

difference : (d : ℤ) → d ≤ℤ pos nano_mult → (k : ℕ) × (pos nano_mult -ℤ d ≡ pos k)
unfolding ◌-ℤ◌
difference (pos n) h = (nano_mult - n, ground (arith, h))
difference (negsuc n) h = (nano_mult + suc n, ground (arith, h))

-- If the last access is at most a second old, or lies in the future, the sleep at the end of a
-- spent window is the rest of the second after it, and a valid request of `nanosleep`: neither
-- field is negative, and the nanoseconds are less than a second.
pub sleep_until-Exact :
    (d : ℤ)
    → d ≤ℤ pos nano_mult
    → (seconds nanoseconds : ℕ) × (sleep_until d
        ≡ record { tv_sec = pos seconds; tv_nsec = pos nanoseconds })
      × (nanoseconds < nano_mult)
      × (pos nano_mult -ℤ d ≡ pos (seconds * nano_mult + nanoseconds))
unfolding sleep_until quotient modulo
sleep_until-Exact d h =
    let (k, e) = difference d h in
    (k / nano_mult, k % nano_mult, rw (e) refl, omega arith, e ∙ ap pos (omega arith))

-- After any number of interruptions, `do_complete_nanosleep` asks for the time that each one left,
-- and returns 0 once a call of `nanosleep` sleeps to its end.
pub do_complete_nanosleep_interrupted :
    (treq : Timespec) (rests : List Timespec)
    → do_complete_nanosleep treq (map interrupted rests ++ (slept ∷ []))
      ≡ (treq ∷ rests, some (pos 0))
unfolding do_complete_nanosleep
do_complete_nanosleep_interrupted treq [] = refl
do_complete_nanosleep_interrupted treq (r ∷ rests) =
    rw (do_complete_nanosleep_interrupted r rests) refl
