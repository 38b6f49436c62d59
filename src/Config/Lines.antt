-- ===== src/Config/Lines.antt =====
-- The lines of a configuration file, as `fgets`, `strtok` and `trim` see them.
use band_width_limiter.Base.{
  ℕ, zero, suc, ◌+◌, ◌-◌, ◌≤◌, ◌==◌, ◌≡◌, ◌≢◌, refl, ap, ◌∙◌, false, some, [], ◌∷◌, ◌++◌, arith,
  All, All-append, All-imp,
}
use band_width_limiter.Base.Outcome.{ok}
use band_width_limiter.Text.{
  Bytes, contains, length, is_space, until_nul, split_line, fgets, skip_space,
}
use band_width_limiter.Text.Tokens.{Free, strtok-Free, strtok_last}
use band_width_limiter.Config.{max_len, trim_end, trimmed, trim, blank, entry, line_of, name_value}

-- No sign, no newline and no NUL.
abbrev pub IsPlain : ℕ → Type 0
IsPlain c = (c ≢ b'=') × (c ≢ b'\n') × (c ≢ 0)

-- No newline and no NUL in a part of a line.
abbrev pub IsInline : Bytes → Type 0
IsInline s = All (λ c. (c ≢ b'\n') × (c ≢ 0)) s

pub length_append : (s t : Bytes) → length (s ++ t) ≡ length s + length t
length_append [] t = omega arith
length_append (c ∷ s) t = ap suc (length_append s t) ∙ omega arith

split_line_whole :
    (room : ℕ) (s rest : Bytes)
    → IsInline s
    → length s + 1 ≤ room
    → split_line room (s ++ (b'\n' ∷ rest)) ≡ (s ++ (b'\n' ∷ []), rest)
unfolding split_line
split_line_whole zero [] rest h le = absurd (omega arith)
split_line_whole (suc room) [] rest h le = refl
split_line_whole zero (c ∷ s) rest h le = absurd (omega arith)
split_line_whole (suc room) (c ∷ s) rest h le =
    let other : (c == b'\n') ≡ false = ground (arith, h.0.0) in
    rw (other, split_line_whole room s rest h.1 (omega arith)) refl

until_nul_whole : (s : Bytes) → All (λ c. c ≢ 0) s → until_nul s ≡ s
unfolding until_nul
until_nul_whole [] h = refl
until_nul_whole (c ∷ s) h =
    let other : (c == 0) ≡ false = ground (arith, h.0) in rw (other, until_nul_whole s h.1) refl

fgets_split :
    (size : ℕ) (file : Bytes)
    → file ≢ []
    → fgets size file
      ≡ some (until_nul (split_line (size - 1) file).0, (split_line (size - 1) file).1)
unfolding fgets
fgets_split size [] ne = absurd (ne refl)
fgets_split size (c ∷ file) ne = refl

pub line_ne_nil : (s rest : Bytes) → s ++ (b'\n' ∷ rest) ≢ []
line_ne_nil [] rest h = cc
line_ne_nil (c ∷ s) rest h = cc

-- A line that fits is read whole.
pub fgets_line :
    (s rest : Bytes)
    → IsInline s
    → length s ≤ 1022
    → fgets max_len (s ++ (b'\n' ∷ rest)) ≡ some (s ++ (b'\n' ∷ []), rest)
fgets_line s rest h le =
    let clean =
      All-append (λ c. c ≢ 0) s (b'\n' ∷ []) (All-imp (λ c k. k.1) s h) (ground arith, tt) in
    fgets_split max_len _ (line_ne_nil s rest)
    ∙ ap (λ x. some (until_nul x.0, x.1)) (split_line_whole 1023 s rest h (omega (arith, le)))
    ∙ ap (λ x. some (x, rest)) (until_nul_whole _ clean)

-- A line that begins with `#` and an empty line are skipped.
pub line_of_comment : (s : Bytes) → line_of (b'#' ∷ s) ≡ blank
unfolding line_of
line_of_comment s = refl

pub line_of_empty : line_of (b'\n' ∷ []) ≡ blank
unfolding line_of
line_of_empty = refl

-- A name, which is not taken for a comment or for the end of the line.
abbrev pub IsName : Bytes → Type 0
IsName [] = ⊥
IsName (c ∷ s) = (c ≢ b'#') × All IsPlain (c ∷ s)

name_value_entry :
    (name value : Bytes)
    → name ≢ []
    → value ≢ []
    → Free (b'=' ∷ []) name
    → Free (b'=' ∷ []) value
    → name_value (name ++ (b'=' ∷ value)) ≡ entry name value
unfolding name_value
name_value_entry name value hn hv fn fv =
    let e = strtok-Free (b'=' ∷ []) name b'=' value hn fn refl in
    rw (name_value, e) rw (e, strtok_last (b'=' ∷ []) value hv fv) refl

-- A line `name=value` is split at its sign.
pub line_of_entry :
    (name value : Bytes)
    → IsName name
    → value ≢ []
    → Free (b'=' ∷ []) value
    → line_of (name ++ (b'=' ∷ value)) ≡ entry name value
unfolding line_of
line_of_entry [] value hn hv fv = absurd hn
line_of_entry (c ∷ name) value hn hv fv =
    let newline : (c == b'\n') ≡ false = ground (arith, hn.1.0.1) in
    let hash : (c == b'#') ≡ false = ground (arith, hn.0) in
    let free =
      All-imp {Q = λ c. contains (b'=' ∷ []) c ≡ false} (λ c h. ground (arith, h.0)) (c ∷ name)
        hn.1 in
    rw (newline, hash) (name_value_entry (c ∷ name) value (λ h. cc) hv free fv)

trim_end_cons : (x y : ℕ) (s ys : Bytes) → trim_end s ≡ y ∷ ys → trim_end (x ∷ s) ≡ x ∷ y ∷ ys
unfolding trim_end
trim_end_cons x y s ys e = rw e refl

trim_end_line :
    (s : Bytes) (c : ℕ) → is_space c ≡ false → trim_end (s ++ (c ∷ b'\n' ∷ [])) ≡ s ++ (c ∷ [])
unfolding trim_end
trim_end_line [] c h = rw h refl
trim_end_line (x ∷ []) c h = trim_end_cons x c (c ∷ b'\n' ∷ []) [] (trim_end_line [] c h)
trim_end_line (x ∷ y ∷ s) c h =
    trim_end_cons x y ((y ∷ s) ++ (c ∷ b'\n' ∷ [])) (s ++ (c ∷ [])) (trim_end_line (y ∷ s) c h)

-- Without white space in it, a value loses the newline behind it and no more.
trim_end_word : (s : Bytes) → All (λ c. is_space c ≡ false) s → trim_end (s ++ (b'\n' ∷ [])) ≡ s
unfolding trim_end
trim_end_word [] h = refl
trim_end_word (x ∷ []) h = rw h.0 refl
trim_end_word (x ∷ y ∷ s) h =
    trim_end_cons x y (y ∷ (s ++ (b'\n' ∷ []))) s (trim_end_word (y ∷ s) h.1)

pub trim_word :
    (s : Bytes) → s ≢ [] → All (λ c. is_space c ≡ false) s → trim (s ++ (b'\n' ∷ [])) ≡ ok s
unfolding trim trimmed skip_space
trim_word [] ne h = absurd (ne refl)
trim_word (c ∷ s) ne h = rw (trim_end_word (c ∷ s) h) rw h.0 refl

-- A value between two brackets loses the newline behind it and no more.
pub trim_line :
    (o c : ℕ) (s : Bytes)
    → is_space o ≡ false
    → is_space c ≡ false
    → trim (o ∷ (s ++ (c ∷ b'\n' ∷ []))) ≡ ok (o ∷ (s ++ (c ∷ [])))
unfolding trim trimmed skip_space
trim_line o c s ho hc = rw (trim_end_line (o ∷ s) c hc) rw ho refl
