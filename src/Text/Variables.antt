-- ===== src/Text/Variables.antt =====
-- The names of the environment variables, and what `getenv` makes of a `setenv`.
use band_width_limiter.Base.{
  ◌≡◌, ◌==◌, refl, sym, ap, ◌∙◌, true, false, some, [], ◌∷◌, ◌++◌, arith, inl, inr, Bool-cases,
}
use band_width_limiter.Text.{Bytes, Environment, equal, getenv, setenv}

abbrev resilience : Bytes
resilience = b'R' ∷ b'E' ∷ b'S' ∷ b'I' ∷ b'L' ∷ b'I' ∷ b'E' ∷ b'N' ∷ b'C' ∷ b'E' ∷ b'_' ∷ []

abbrev pub var_config_flag : Bytes
var_config_flag =
    resilience ++ (b'C' ∷ b'O' ∷ b'N' ∷ b'F' ∷ b'I' ∷ b'G' ∷ b'F' ∷ b'L' ∷ b'A' ∷ b'G' ∷ [])

abbrev pub var_glibc_path : Bytes
var_glibc_path =
    resilience ++ (b'G' ∷ b'L' ∷ b'I' ∷ b'B' ∷ b'C' ∷ b'_' ∷ b'P' ∷ b'A' ∷ b'T' ∷ b'H' ∷ [])

abbrev pub var_up_limits : Bytes
var_up_limits = resilience ++ (b'U' ∷ b'P' ∷ b'_' ∷ b'L' ∷ b'I' ∷ b'M' ∷ b'I' ∷ b'T' ∷ b'S' ∷ [])

abbrev pub var_down_limits : Bytes
var_down_limits =
    resilience ++ (b'D' ∷ b'O' ∷ b'W' ∷ b'N' ∷ b'_' ∷ b'L' ∷ b'I' ∷ b'M' ∷ b'I' ∷ b'T' ∷ b'S' ∷ [])

abbrev pub var_ips : Bytes
var_ips = resilience ++ (b'I' ∷ b'P' ∷ b'S' ∷ [])

abbrev pub var_ports : Bytes
var_ports = resilience ++ (b'P' ∷ b'O' ∷ b'R' ∷ b'T' ∷ b'S' ∷ [])

abbrev pub var_latency : Bytes
var_latency = resilience ++ (b'L' ∷ b'A' ∷ b'T' ∷ b'E' ∷ b'N' ∷ b'C' ∷ b'Y' ∷ [])

abbrev pub var_sys_ip : Bytes
var_sys_ip = resilience ++ (b'S' ∷ b'Y' ∷ b'S' ∷ b'_' ∷ b'I' ∷ b'P' ∷ [])

abbrev pub var_ipc_port : Bytes
var_ipc_port = resilience ++ (b'I' ∷ b'P' ∷ b'C' ∷ b'_' ∷ b'P' ∷ b'O' ∷ b'R' ∷ b'T' ∷ [])

abbrev pub var_ld_preload : Bytes
var_ld_preload = b'L' ∷ b'D' ∷ b'_' ∷ b'P' ∷ b'R' ∷ b'E' ∷ b'L' ∷ b'O' ∷ b'A' ∷ b'D' ∷ []

equal_refl : (s : Bytes) → equal s s ≡ true
unfolding equal
equal_refl [] = refl
equal_refl (c ∷ s) = let same : (c == c) ≡ true = ground arith in rw (same, equal_refl s) refl

equal_sound : (s t : Bytes) → equal s t ≡ true → s ≡ t
unfolding equal
equal_sound [] [] h = refl
equal_sound [] (d ∷ t) h = absurd cc
equal_sound (c ∷ s) [] h = absurd cc
equal_sound (c ∷ s) (d ∷ t) h = elim (Bool-cases (c == d)) [
  | inl e ↦ let head : c ≡ d = ground (arith, e) in let tail = equal_sound s t (rw e at h) in cc
  | inr e ↦ absurd (cc (rw e at h))
]

pub getenv-setenv :
    (name value : Bytes) (vars : Environment) → getenv name (setenv name value vars) ≡ some value
unfolding getenv setenv
getenv-setenv name value [] = rw (equal_refl name) refl
getenv-setenv name value ((n, v) ∷ vars) = elim (Bool-cases (equal n name)) [
  | inl e ↦ rw (e, setenv) rw (e, getenv) refl
  | inr e ↦ rw (e, setenv) rw (e, getenv) (getenv-setenv name value vars)
]

getenv-setenv_other :
    (other name value : Bytes) (vars : Environment)
    → equal name other ≡ false
    → getenv other (setenv name value vars) ≡ getenv other vars
unfolding getenv setenv
getenv-setenv_other other name value [] h = rw h refl
getenv-setenv_other other name value ((n, v) ∷ vars) h = elim (Bool-cases (equal n name)) [
  | inl e ↦
      let same = equal_sound n name e in
      let h' : equal n other ≡ false = ap (λ x. equal x other) same ∙ h in
      rw (e, setenv) rw (h', getenv) refl
  | inr e ↦
      rw (e, setenv)
        (elim (Bool-cases (equal n other)) [
          | inl f ↦ rw (f, getenv) refl
          | inr f ↦ rw (f, getenv) (getenv-setenv_other other name value vars h)
        ])
]

-- Several variables, the first in the list set last.
abbrev pub set_all : Environment → Environment → Environment
set_all [] vars = vars
set_all ((n, v) ∷ ps) vars = setenv n v (set_all ps vars)

pub getenv-set_all :
    (name value : Bytes) (ps vars : Environment)
    → getenv name ps ≡ some value
    → getenv name (set_all ps vars) ≡ some value
unfolding getenv
getenv-set_all name value [] vars h = absurd cc
getenv-set_all name value ((n, v) ∷ ps) vars h = elim (Bool-cases (equal n name)) [
  | inl e ↦
      let same = equal_sound n name e in
      ap (λ x. getenv x (setenv n v (set_all ps vars))) (sym same)
      ∙ getenv-setenv n v (set_all ps vars)
      ∙ (rw e at h)
  | inr e ↦
      getenv-setenv_other name n v (set_all ps vars) e
      ∙ getenv-set_all name value ps vars (rw e at h)
]
