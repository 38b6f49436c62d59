-- ===== src/Launcher/Options.antt =====
-- The order of the options, and how the library starts in the environment that the launcher leaves.
use band_width_limiter.Base.{
  ℕ, ◌≡◌, ◌⊎◌, inl, inr, refl, sym, ap, ◌∙◌, true, false, Option, List, [], ◌∷◌, ◌++◌, Bool-cases,
}
use band_width_limiter.Base.Outcome.{Outcome, ok, exited, crashed, out_of_fuel, ◌>>=◌}
use band_width_limiter.Text.{Bytes, Environment}
use band_width_limiter.Launcher.{Settings, defaults, set_option, set_options, start, main}

-- The option of the path of libc.
abbrev IsGlibc : ℕ → Type 0
IsGlibc opt = (opt ≡ b'g') ⊎ (opt ≡ b'G')

glibc_set :
    (opt : ℕ) (path : Bytes) (s : Settings)
    → IsGlibc opt
    → set_option opt path s ≡ ok (record s { glibc = path; if_glib = true })
unfolding set_option
glibc_set opt path s (inl e) = rw e refl
glibc_set opt path s (inr e) = rw e refl

stopped : (opts : List (ℕ × Bytes)) (s : Settings) → s.if_glib ≡ true → set_options opts s ≡ ok s
unfolding set_options
stopped [] s e = refl
stopped ((opt, arg) ∷ opts) s e =
    ap
      (λ b. elim b as (λ _. Outcome Settings) [
        | true ↦ ok s
        | false ↦ set_option opt arg s >>= λ t. set_options opts t
      ])
      e

continued :
    (opt : ℕ) (arg : Bytes) (opts : List (ℕ × Bytes)) (s : Settings)
    → s.if_glib ≡ false
    → set_options ((opt, arg) ∷ opts) s ≡ (set_option opt arg s >>= λ t. set_options opts t)
unfolding set_options
continued opt arg opts s e =
    ap
      (λ b. elim b as (λ _. Outcome Settings) [
        | true ↦ ok s
        | false ↦ set_option opt arg s >>= λ t. set_options opts t
      ])
      e

bind_ext {ℓ κ} :
    {A : Type ℓ} {B : Type κ} (o : Outcome A) (f g : A → Outcome B)
    → ((a : A) → f a ≡ g a)
    → (o >>= f) ≡ (o >>= g)
bind_ext (ok a) f g h = h a
bind_ext (exited n) f g h = refl
bind_ext crashed f g h = refl
bind_ext out_of_fuel f g h = refl

-- The path of libc, where it is read, ends the loop.
glibc_read :
    (opt : ℕ) (path : Bytes) (after : List (ℕ × Bytes)) (s : Settings)
    → IsGlibc opt
    → s.if_glib ≡ false
    → set_options ((opt, path) ∷ after) s ≡ ok (record s { glibc = path; if_glib = true })
glibc_read opt path after s g e =
    continued opt path after s e
    ∙ ap (λ o. o >>= λ t. set_options after t) (glibc_set opt path s g)
    ∙ stopped after (record s { glibc = path; if_glib = true }) refl

-- Two rows of options that agree from every state on agree behind one more option.
one_more :
    (o : ℕ × Bytes) (xs ys : List (ℕ × Bytes)) (s : Settings)
    → ((t : Settings) → set_options xs t ≡ set_options ys t)
    → set_options (o ∷ xs) s ≡ set_options (o ∷ ys) s
one_more (opt, arg) xs ys s h = elim (Bool-cases s.if_glib) [
  | inl e ↦ stopped ((opt, arg) ∷ xs) s e ∙ sym (stopped ((opt, arg) ∷ ys) s e)
  | inr e ↦
      continued opt arg xs s e
      ∙ bind_ext (set_option opt arg s) (set_options xs) (set_options ys) h
      ∙ sym (continued opt arg ys s e)
]

options_end :
    (before : List (ℕ × Bytes)) (opt : ℕ) (path : Bytes) (after : List (ℕ × Bytes)) (s : Settings)
    → IsGlibc opt
    → set_options (before ++ ((opt, path) ∷ after)) s ≡ set_options (before ++ ((opt, path) ∷ [])) s
options_end [] opt path after s g = elim (Bool-cases s.if_glib) [
  | inl e ↦ stopped ((opt, path) ∷ after) s e ∙ sym (stopped ((opt, path) ∷ []) s e)
  | inr e ↦ glibc_read opt path after s g e ∙ sym (glibc_read opt path [] s g e)
]
options_end (o ∷ before) opt path after s g =
    one_more o (before ++ ((opt, path) ∷ after)) (before ++ ((opt, path) ∷ [])) s
      (λ t. options_end before opt path after t g)

-- The launcher reads no option behind the path of libc (`-g` or `-G`): what follows makes no
-- difference, whatever comes before. With that option first it exits with status 1, even if a
-- command follows.
pub main_ends :
    (before after : List (ℕ × Bytes)) (opt : ℕ) (path : Bytes) (cwd : Option Bytes)
    (vars : Environment)
    → IsGlibc opt
    → (main (before ++ ((opt, path) ∷ after)) cwd vars
        ≡ main (before ++ ((opt, path) ∷ [])) cwd vars)
      × (main ((opt, path) ∷ after) cwd vars ≡ exited 1)
unfolding main start
main_ends before after opt path cwd vars g = (
  ap (λ o. o >>= λ s. start s cwd vars) (options_end before opt path after defaults g),
  ap (λ o. o >>= λ s. start s cwd vars) (glibc_read opt path after defaults g refl),
)
