-- ===== src/Text.antt =====
-- The functions of libc on strings that the program calls, on strings without their NUL. A string that
-- a pointer leads to is its bytes from there on; a byte that is overwritten by NUL ends the part before
-- it.
pub mod Tokens
pub mod Variables
use Prim.Native.Nat.Ordering.{lt, eq, gt}
use band_width_limiter.Base.{
  ℕ, zero, suc, ◌+◌, ◌-◌, ◌*◌, ◌%◌, ◌^◌, Bool, true, false, ◌&&◌, ◌||◌, Option, none, some, List,
  [], ◌∷◌, ◌++◌, leb, ltb, ◌==◌, if◌then◌else◌,
}
use band_width_limiter.Base.Int.{ℤ, pos, negsuc}

abbrev pub Bytes : Type 0
Bytes = List ℕ

abbrev pub length : Bytes → ℕ
length [] = 0
length (c ∷ s) = suc (length s)

-- `isspace` in the C locale.
abbrev pub is_space : ℕ → Bool
is_space c = c == b' ' || (leb 9 c && leb c 13)

abbrev pub contains : Bytes → ℕ → Bool
contains [] c = false
contains (d ∷ ds) c = d == c || contains ds c

-- `strcmp(a, b) == 0`
unfoldable pub equal : Bytes → Bytes → Bool
equal [] [] = true
equal (x ∷ xs) (y ∷ ys) = x == y && equal xs ys
equal _ _ = false

-- What is a string of the bytes in a buffer.
unfoldable pub until_nul : Bytes → Bytes
until_nul [] = []
until_nul (c ∷ s) = if c == 0 then [] else c ∷ until_nul s

-- A line of at most `room` bytes, with its newline, and the rest of the file.
unfoldable pub split_line : ℕ → Bytes → Bytes × Bytes
split_line zero file = ([], file)
split_line (suc room) [] = ([], [])
split_line (suc room) (c ∷ file) =
    let more = split_line room file in if c == b'\n' then (c ∷ [], file) else (c ∷ more.0, more.1)

-- `fgets( buff , size , fp )`: the string in the buffer, or NULL at the end of the file, and the rest.
unfoldable pub fgets : ℕ → Bytes → Option (Bytes × Bytes)
unfolding split_line until_nul
fgets size [] = none
fgets size (c ∷ file) =
    let line = split_line (size - 1) (c ∷ file) in some (until_nul line.0, line.1)

unfoldable pub skip : Bytes → Bytes → Bytes
skip ds [] = []
skip ds (c ∷ s) = if contains ds c then skip ds s else c ∷ s

-- A token, and what is behind the delimiter that ends it.
unfoldable pub token : Bytes → Bytes → Bytes × Bytes
token ds [] = ([], [])
token ds (c ∷ s) = let more = token ds s in if contains ds c then ([], s) else (c ∷ more.0, more.1)

unfoldable pub strtok_at : Bytes → Bytes → Option Bytes × Bytes
unfolding token
strtok_at ds [] = (none, [])
strtok_at ds (c ∷ s) = let (t, rest) = token ds (c ∷ s) in (some t, rest)

-- `strtok`: the token, or NULL, and the string that a next call with NULL goes on with.
unfoldable pub strtok : Bytes → Bytes → Option Bytes × Bytes
unfolding skip strtok_at
strtok ds s = strtok_at ds (skip ds s)

abbrev is_digit : ℕ → Bool
is_digit c = leb b'0' c && leb c b'9'

unfoldable pub skip_space : Bytes → Bytes
skip_space [] = []
skip_space (c ∷ s) = if is_space c then skip_space s else c ∷ s

-- The digits in front, as a number.
unfoldable pub digits : ℕ → Bytes → ℕ
digits n [] = n
digits n (c ∷ s) = if is_digit c then digits (n * 10 + (c - b'0')) s else n

-- A number of the given sign as a `long`, which stops at its ends, and then as an `int`.
unfoldable pub wrap_int : ℕ → ℤ
wrap_int n = let m = n % 2 ^ 32 in if ltb m (2 ^ 31) then pos m else negsuc (2 ^ 32 - 1 - m)

unfoldable pub signed : Bool → ℕ → ℤ
unfolding wrap_int
signed false n = wrap_int (if leb n (2 ^ 63 - 1) then n else 2 ^ 63 - 1)
signed true n = wrap_int (2 ^ 64 - (if leb n (2 ^ 63) then n else 2 ^ 63))

unfoldable pub number : Bytes → ℤ
unfolding digits signed
number [] = pos 0
number (c ∷ s) =
    if c == b'-'
    then signed true (digits 0 s)
    else if c == b'+'
    then signed false (digits 0 s)
    else signed false (digits 0 (c ∷ s))

-- `atoi`, which is `(int) strtol(s, NULL, 10)`.
unfoldable pub atoi : Bytes → ℤ
unfolding skip_space number
atoi s = number (skip_space s)

-- `setenv` and `getenv` work on the environment of the process, from names to values.
abbrev pub Environment : Type 0
Environment = List (Bytes × Bytes)

unfoldable pub getenv : Bytes → Environment → Option Bytes
unfolding equal
getenv name [] = none
getenv name ((n, v) ∷ vars) = if equal n name then some v else getenv name vars

-- `setenv( name , value , 1 )`
unfoldable pub setenv : Bytes → Bytes → Environment → Environment
unfolding equal
setenv name value [] = (name, value) ∷ []
setenv name value ((n, v) ∷ vars) =
    let rest = setenv name value vars in if equal n name then (n, value) ∷ vars else (n, v) ∷ rest
