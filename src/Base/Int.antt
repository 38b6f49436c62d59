-- ===== src/Base/Int.antt =====
-- Signed integers (`int`, `long`, `ssize_t`) over the native numbers.
use Prim.Native.Nat.{ℕ, suc, ◌+◌, ◌-◌, ◌*◌, ◌≤◌, compare, Ordering}
use mathlib.Core.Path.{◌≡◌}
use mathlib.Core.Bool.{Bool, true, false}
use native.Mathlib.Omega.{arith}

-- `negsuc n` is -(n + 1).
pub data ℤ : Type 0 where
  pos : ℕ → ℤ
  negsuc : ℕ → ℤ

abbrev pub pos_part : ℤ → ℕ
pos_part (pos n) = n
pos_part (negsuc n) = 0

abbrev neg_part : ℤ → ℕ
neg_part (pos n) = 0
neg_part (negsuc n) = suc n

-- a - b, as an integer.
abbrev sub_ℕ : ℕ → ℕ → ℤ
sub_ℕ a b = elim (compare a b) [ Ordering.lt ↦ negsuc (b - a - 1) | _ ↦ pos (a - b) ]

infixl 65 ◌+ℤ◌ ◌-ℤ◌
infixl 70 ◌*ℤ◌
infix 50 ◌≤ℤ◌
unfoldable pub ◌+ℤ◌ : ℤ → ℤ → ℤ
a +ℤ b = sub_ℕ (pos_part a + pos_part b) (neg_part a + neg_part b)

unfoldable pub ◌-ℤ◌ : ℤ → ℤ → ℤ
a -ℤ b = sub_ℕ (pos_part a + neg_part b) (neg_part a + pos_part b)

unfoldable pub ◌*ℤ◌ : ℤ → ℤ → ℤ
a *ℤ b =
    sub_ℕ (pos_part a * pos_part b + neg_part a * neg_part b)
      (pos_part a * neg_part b + neg_part a * pos_part b)

abbrev pub ◌≤ℤ◌ : ℤ → ℤ → Type 0
a ≤ℤ b = pos_part a + neg_part b ≤ pos_part b + neg_part a

abbrev pub cmp_ℤ : ℤ → ℤ → Ordering
cmp_ℤ a b = compare (pos_part a + neg_part b) (pos_part b + neg_part a)

abbrev pub lt_ℤ : ℤ → ℤ → Bool
lt_ℤ a b = elim (cmp_ℤ a b) [ Ordering.lt ↦ true | _ ↦ false ]

abbrev pub le_ℤ : ℤ → ℤ → Bool
le_ℤ a b = elim (cmp_ℤ a b) [ Ordering.gt ↦ false | _ ↦ true ]

abbrev pub eq_ℤ : ℤ → ℤ → Bool
eq_ℤ a b = elim (cmp_ℤ a b) [ Ordering.eq ↦ true | _ ↦ false ]

pub eq_ℤ-sound : (a b : ℤ) → cmp_ℤ a b ≡ Ordering.eq → a ≡ b
eq_ℤ-sound (pos a) (pos b) h = ground arith
eq_ℤ-sound (pos a) (negsuc b) h = ground arith
eq_ℤ-sound (negsuc a) (pos b) h = ground arith
eq_ℤ-sound (negsuc a) (negsuc b) h = ground arith
