-- ===== src/Text/Tokens.antt =====
-- What `strtok` makes of a string with delimiters.
use band_width_limiter.Base.{ℕ, ◌≡◌, ◌≢◌, refl, true, false, some, [], ◌∷◌, ◌++◌, All}
use band_width_limiter.Text.{Bytes, contains, skip, token, strtok_at, strtok}

-- No byte is a delimiter.
abbrev pub Free : Bytes → Bytes → Type 0
Free ds s = All (λ c. contains ds c ≡ false) s

token-Free :
    (ds s : Bytes) (d : ℕ) (rest : Bytes)
    → Free ds s
    → contains ds d ≡ true
    → token ds (s ++ (d ∷ rest)) ≡ (s, rest)
unfolding token
token-Free ds [] d rest f h = rw h refl
token-Free ds (c ∷ s) d rest f h = rw (f.0, token-Free ds s d rest f.1 h) refl

token_last : (ds s : Bytes) → Free ds s → token ds s ≡ (s, [])
unfolding token
token_last ds [] f = refl
token_last ds (c ∷ s) f = rw (f.0, token_last ds s f.1) refl

-- A token that a delimiter ends.
pub strtok-Free :
    (ds s : Bytes) (d : ℕ) (rest : Bytes)
    → s ≢ []
    → Free ds s
    → contains ds d ≡ true
    → strtok ds (s ++ (d ∷ rest)) ≡ (some s, rest)
unfolding strtok skip strtok_at
strtok-Free ds [] d rest ne f h = absurd (ne refl)
strtok-Free ds (c ∷ s) d rest ne f h = rw (f.0, strtok_at, token-Free ds (c ∷ s) d rest f h) refl

-- A token that the end of the string ends.
pub strtok_last : (ds s : Bytes) → s ≢ [] → Free ds s → strtok ds s ≡ (some s, [])
unfolding strtok skip strtok_at
strtok_last ds [] ne f = absurd (ne refl)
strtok_last ds (c ∷ s) ne f = rw (f.0, strtok_at, token_last ds (c ∷ s) f) refl

-- Delimiters in front are skipped.
pub strtok_skip :
    (ds : Bytes) (d : ℕ) (s : Bytes) → contains ds d ≡ true → strtok ds (d ∷ s) ≡ strtok ds s
unfolding strtok skip
strtok_skip ds d s h = rw h refl
