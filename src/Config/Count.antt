-- ===== src/Config/Count.antt =====
-- Does the loop over the lines of the ports end? With every number of ports but the largest `size_t` it
-- does; with that one, which `NO_PORT=-1` gives, it goes on for ever.
use band_width_limiter.Base.{
  ℕ, zero, suc, ◌+◌, ◌-◌, ◌≤◌, ◌<◌, ◌^◌, ◌==◌, ◌≡◌, ◌≢◌, refl, sym, true, some, List, [], ◌∷◌, ◌++◌,
  arith, leb, Bool-cases, ◌⊎◌, inl, inr, Option-cases,
}
use band_width_limiter.Base.Outcome.{Outcome, ok, crashed, out_of_fuel}
use band_width_limiter.Text.{Bytes, length, fgets, split_line}
use band_width_limiter.Env.{PortStr}
use band_width_limiter.Config.{
  max_len, trim_end, trimmed, trim, Line, blank, incomplete, entry, line_of, next_loop, read_port,
  read_ports,
}

split_line_le : (room : ℕ) (file : Bytes) → length (split_line room file).1 ≤ length file
unfolding split_line
split_line_le zero file = omega arith
split_line_le (suc room) [] = omega arith
split_line_le (suc room) (c ∷ file) = elim (Bool-cases (c == b'\n')) [
  | inl e ↦ rw e (omega arith)
  | inr e ↦ rw e (let le = split_line_le room file in omega (arith, le))
]

split_line_lt :
    (room c : ℕ) (file : Bytes) → length (split_line (suc room) (c ∷ file)).1 < suc (length file)
unfolding split_line
split_line_lt room c file = elim (Bool-cases (c == b'\n')) [
  | inl e ↦ rw e (omega arith)
  | inr e ↦ rw e (let le = split_line_le room file in omega (arith, le))
]

-- `fgets` leaves a shorter file.
pub fgets_shorter :
    (file buff file' : Bytes) → fgets max_len file ≡ some (buff, file') → length file' < length file
unfolding fgets split_line
fgets_shorter [] buff file' e = absurd cc
fgets_shorter (c ∷ file) buff file' e =
    let tail : (split_line 1023 (c ∷ file)).1 ≡ file' = cc in
    let le = split_line_lt 1022 c file in rw (sym tail) le

pub Line-cases :
    (l : Line)
    → (l ≡ blank) ⊎ ((l ≡ incomplete) ⊎ ((name : Bytes) × (value : Bytes) × (l ≡ entry name value)))
Line-cases blank = inl refl
Line-cases incomplete = inr (inl refl)
Line-cases (entry name value) = inr (inr (name, value, refl))

trimmed_cases : (v : Bytes) → (trimmed v ≡ crashed) ⊎ ((s : Bytes) × (trimmed v ≡ ok s))
unfolding trimmed
trimmed_cases [] = inl refl
trimmed_cases (c ∷ v) = inr (_, refl)

pub trim_cases : (v : Bytes) → (trim v ≡ crashed) ⊎ ((s : Bytes) × (trim v ≡ ok s))
unfolding trim
trim_cases v = trimmed_cases (trim_end v)

-- What `fgets` leaves of a file, after any number of lines.
pub data Later (file : Bytes) : Bytes → Type 0 where
  unread : Later file file
  read_on :
      {g h : Bytes} (buff : Bytes) → Later file g → fgets max_len g ≡ some (buff, h) → Later file h

pub Later-trans : {f g h : Bytes} → Later f g → Later g h → Later f h
Later-trans a unread = a
Later-trans a (read_on buff b e) = read_on buff (Later-trans a b) e

pub Later-le : {f g : Bytes} → Later f g → length g ≤ length f
Later-le unread = omega arith
Later-le (read_on {g} {h} buff a e) = omega (arith, Later-le a, fgets_shorter g buff h e)

-- The values that the next round can start with.
module _ (P : Outcome (Bytes × List PortStr) → Type 0) (fuel loop no_port : ℕ) (file : Bytes)
    (ports : List PortStr) where
  pub round :
      leb loop no_port ≡ true
      → P crashed
      → ((loop' : ℕ) (file' : Bytes) (ports' : List PortStr)
          → Later file file'
          → ((loop' ≡ next_loop loop) × (length file' ≤ length file))
            ⊎ ((loop' ≡ loop) × (length file' < length file))
          → P (read_ports fuel loop' no_port file' ports'))
      → P (read_ports (suc fuel) loop no_port file ports)
  unfolding read_ports
  round more crash next =
      rw (more, read_ports)
        (elim (Option-cases (fgets max_len file)) [
          | inl e ↦ rw e (next (next_loop loop) file ports unread (inl (refl, omega arith)))
          | inr ((buff, file'), e) ↦
              let lt = fgets_shorter file buff file' e in
              let on = read_on buff unread e in
              rw e (elim (Line-cases (line_of buff)) [
                | inl b ↦ rw b (next loop file' ports on (inr (refl, lt)))
                | inr (inl b) ↦
                    rw b (next (next_loop loop) file' ports on (inl (refl, omega (arith, lt))))
                | inr (inr (name, value, b)) ↦ rw b (elim (trim_cases value) [
                  | inr (v, t) ↦ rw t (
                      next (next_loop loop) file' (ports ++ (read_port v ∷ [])) on
                        (inl (refl, omega (arith, lt))))
                  | inl t ↦ rw t crash
                ])
              ])
        ])

-- With any number of ports below the largest `size_t`, the loop over the lines of the ports ends
-- on every file: rounds more than the ports that are left and the bytes of the file together are
-- enough.
pub read_ports_ends :
    (fuel loop no_port : ℕ) (file : Bytes) (ports : List PortStr)
    → no_port + 1 < 2 ^ 64
    → (no_port + 1 - loop) + length file + 1 ≤ fuel
    → read_ports fuel loop no_port file ports ≢ out_of_fuel
unfolding read_ports
read_ports_ends zero loop no_port file ports small le = absurd (omega (arith, le))
read_ports_ends (suc fuel) loop no_port file ports small le = elim (Bool-cases (leb loop no_port)) [
  | inl more ↦
      let lt : loop ≤ no_port = ground (arith, more) in
      round (λ r. r ≢ out_of_fuel) fuel loop no_port file ports more (λ e. cc)
        (λ loop' file' ports' _ h.
          read_ports_ends fuel loop' no_port file' ports' small (less lt small h le))
  | inr done ↦ rw (done, read_ports) (λ e. cc)
]
  where
    less :
        {loop no_port loop' a b fuel : ℕ}
        → loop ≤ no_port
        → no_port + 1 < 2 ^ 64
        → ((loop' ≡ next_loop loop) × (a ≤ b)) ⊎ ((loop' ≡ loop) × (a < b))
        → (no_port + 1 - loop) + b + 1 ≤ suc fuel
        → (no_port + 1 - loop') + a + 1 ≤ fuel
    less lt small (inl h) le = omega (arith, lt, small, h.0, h.1, le)
    less lt small (inr h) le = omega (arith, lt, h.0, h.1, le)

-- `NO_PORT=-1` is the largest `size_t`, which no counter exceeds.
pub read_ports_goes_on :
    (fuel loop : ℕ) (file : Bytes) (ports : List PortStr) (r : Bytes × List PortStr)
    → loop < 2 ^ 64
    → read_ports fuel loop (2 ^ 64 - 1) file ports ≢ ok r
unfolding read_ports
read_ports_goes_on zero loop file ports r lt = λ e. cc
read_ports_goes_on (suc fuel) loop file ports r lt =
    round (λ o. o ≢ ok r) fuel loop (2 ^ 64 - 1) file ports (ground (arith, lt)) (λ e. cc)
      (λ loop' file' ports' _ h. read_ports_goes_on fuel loop' file' ports' r (bound h lt))
  where
    bound :
        {loop loop' a b : ℕ}
        → ((loop' ≡ next_loop loop) × (a ≤ b)) ⊎ ((loop' ≡ loop) × (a < b))
        → loop < 2 ^ 64
        → loop' < 2 ^ 64
    bound (inl h) lt = omega (arith, h.0)
    bound (inr h) lt = omega (arith, h.0, lt)
