-- ===== src/Tree/Order.antt =====
-- The comparison functions of rb_tree_helper.c. The three results 1, -1 and 0 are the three values
-- of `Ordering`; the tree calls the comparison only through this interface.
use Prim.Native.Nat.Ordering.{lt, eq, gt}
use band_width_limiter.Base.{ℕ, ◌≡◌, compare, Ordering, arith}
use band_width_limiter.Base.Int.{ℤ, cmp_ℤ, eq_ℤ-sound}

-- The order that the three results describe is a strict one, with equal keys told apart by nothing.
pub record IsLawful {ℓ} {K : Type ℓ} (test : K → K → Ordering) : Type ℓ where
  pub gt_trans : (x y z : K) → test x y ≡ gt → test y z ≡ gt → test x z ≡ gt
  pub gt_of_lt : (x y : K) → test x y ≡ lt → test y x ≡ gt
  pub lt_of_gt : (x y : K) → test x y ≡ gt → test y x ≡ lt
  pub eq_of_cmp : (x y : K) → test x y ≡ eq → x ≡ y
  pub cmp_refl : (x : K) → test x x ≡ eq

pub record Ord {ℓ} (K : Type ℓ) : Type ℓ where
  pub cmp : K → K → Ordering
  pub lawful : IsLawful cmp
  pub open lawful use *

-- `uint32_comp`
unfoldable pub uint32_comp : ℕ → ℕ → Ordering
uint32_comp a b = compare a b

-- `int_comp`
unfoldable pub int_comp : ℤ → ℤ → Ordering
int_comp a b = cmp_ℤ a b

pub uint32_comp-IsLawful : IsLawful uint32_comp
unfolding uint32_comp
uint32_comp-IsLawful = ground arith

pub int_comp-IsLawful : IsLawful int_comp
unfolding int_comp
int_comp-IsLawful = record {
  gt_trans = λ a b c h k. ground arith;
  gt_of_lt = λ a b h. ground arith;
  lt_of_gt = λ a b h. ground arith;
  eq_of_cmp = eq_ℤ-sound;
  cmp_refl = λ a. ground arith;
}

instance unfoldable pub port_ord : Ord ℕ
unfolding uint32_comp
port_ord = record { cmp = uint32_comp; lawful = uint32_comp-IsLawful }

instance unfoldable pub fd_ord : Ord ℤ
unfolding int_comp
fd_ord = record { cmp = int_comp; lawful = int_comp-IsLawful }
