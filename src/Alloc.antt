-- ===== src/Alloc.antt =====
-- The allocation functions of safe_malloc.c. What `malloc`, `calloc` and `realloc` give is an argument: the
-- bytes of a block of the size asked for, or `none`, which ends the process.
use band_width_limiter.Base.{
  ℕ, zero, suc, ◌+◌, ◌≡◌, refl, sym, ap, ◌∙◌, false, Option, none, some, [], ◌∷◌, ◌++◌, ◌==◌,
  if◌then◌else◌, arith,
}
use band_width_limiter.Base.Int.{ℤ}
use band_width_limiter.Base.Outcome.{Outcome, ok, exited, crashed, ◌>>=◌}
use band_width_limiter.Text.{Bytes, length}
use band_width_limiter.Config.{int_size}

-- `alloc_failed`, which exits with status 1, where there is no block.
unfoldable or_failed : Option Bytes → Outcome Bytes
or_failed none = exited 1
or_failed (some block) = ok block

-- `memset( ptr , 0 , length )`, which writes past the end of a shorter block.
unfoldable clear : ℕ → Bytes → Outcome Bytes
clear zero block = ok block
clear (suc n) [] = crashed
clear (suc n) (c ∷ block) = clear n block >>= λ rest. ok (0 ∷ rest)

unfoldable safe_malloc : (ℕ → Option Bytes) → ℕ → Outcome Bytes
unfolding or_failed clear
safe_malloc malloc size =
    let size' = if size == 0 then 1 else size in
    or_failed (malloc size') >>= λ block. clear size' block

unfoldable safe_calloc : (ℕ → ℕ → Option Bytes) → ℤ → ℤ → Outcome Bytes
unfolding or_failed int_size
safe_calloc calloc num size = or_failed (calloc (int_size num) (int_size size))

unfoldable safe_realloc :
    (ℕ → Option Bytes) → (Bytes → ℕ → Option Bytes) → Option Bytes → ℤ → Outcome Bytes
unfolding or_failed int_size
safe_realloc malloc realloc none size = or_failed (malloc (int_size size))
safe_realloc malloc realloc (some src) size = or_failed (realloc src (int_size size))

-- `strcpy( cpy , src )`, with the NUL.
unfoldable copy : Bytes → Bytes → Outcome Bytes
copy [] [] = crashed
copy [] (d ∷ cpy) = ok (0 ∷ cpy)
copy (c ∷ src) [] = crashed
copy (c ∷ src) (d ∷ cpy) = copy src cpy >>= λ rest. ok (c ∷ rest)

unfoldable safe_strdup : (ℕ → Option Bytes) → Bytes → Outcome Bytes
unfolding safe_malloc copy
safe_strdup malloc src = safe_malloc malloc (length src + 1) >>= λ cpy. copy src cpy

abbrev zeros : ℕ → Bytes
zeros zero = []
zeros (suc n) = 0 ∷ zeros n

clear-zeros : (block : Bytes) → clear (length block) block ≡ ok (zeros (length block))
unfolding clear
clear-zeros [] = refl
clear-zeros (c ∷ block) = rw (clear-zeros block) refl

copy-zeros : (src : Bytes) → copy src (zeros (suc (length src))) ≡ ok (src ++ (0 ∷ []))
unfolding copy
copy-zeros [] = refl
copy-zeros (c ∷ src) = rw (copy-zeros src) refl

-- Where `malloc` gives a block of the size asked for, the copy of a string is the string, and its NUL.
safe_strdup_copy :
    (malloc : ℕ → Option Bytes) (src block : Bytes)
    → malloc (length src + 1) ≡ some block
    → length block ≡ length src + 1
    → safe_strdup malloc src ≡ ok (src ++ (0 ∷ []))
unfolding safe_strdup safe_malloc or_failed
safe_strdup_copy malloc src block got size =
    let positive : (length src + 1 == 0) ≡ false = ground arith in
    let n : length block ≡ suc (length src) = omega (arith, size) in
    rw (positive) rw (got) (
      ap (λ k. clear k block >>= copy src) (sym size)
      ∙ ap (λ o. o >>= copy src) (clear-zeros block)
      ∙ ap (λ k. copy src (zeros k)) n
      ∙ copy-zeros src)
