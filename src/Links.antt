-- ===== src/Links.antt =====
-- The intrusive list of list.h, and the release of a list in parse_config.c. A `list_head` is its
-- address, and memory is what the fields `next` and `prev` hold at each address; a member of a
-- structure stands for the structure that it lies in.
pub mod Chain
pub mod Clean
use Prim.Native.Nat.Ordering.{lt, eq, gt}
use band_width_limiter.Base.{
  ℕ, zero, suc, Bool, true, false, List, [], ◌∷◌, ◌==◌, if◌then◌else◌, Option, none, some,
}

pub record Memory : Type 0 where
  pub next : ℕ → ℕ
  pub prev : ℕ → ℕ

abbrev pub list_poison1 : ℕ
list_poison1 = 1048832

abbrev pub list_poison2 : ℕ
list_poison2 = 2097664

-- A write to one address.
unfoldable pub write : (ℕ → ℕ) → ℕ → ℕ → ℕ → ℕ
write field address value q = if q == address then value else field q

unfoldable pub set_next : ℕ → ℕ → Memory → Memory
set_next address value m = record m { next = write m.next address value }

unfoldable pub set_prev : ℕ → ℕ → Memory → Memory
set_prev address value m = record m { prev = write m.prev address value }

-- `INIT_LIST_HEAD`
unfoldable pub init_list_head : ℕ → Memory → Memory
unfolding set_next set_prev
init_list_head list_ptr m = set_prev list_ptr list_ptr (set_next list_ptr list_ptr m)

-- `__add_list__`
unfoldable pub add_list : ℕ → ℕ → ℕ → Memory → Memory
unfolding set_next set_prev
add_list new prev next m =
    set_next prev new (set_prev new prev (set_next new next (set_prev next new m)))

unfoldable pub list_add_tail : ℕ → ℕ → Memory → Memory
unfolding add_list
list_add_tail new head m = add_list new (m.prev head) head m

-- `delete_list`, with `__delete_list__`
unfoldable pub delete_list : ℕ → Memory → Memory
unfolding set_next set_prev
delete_list entry m = set_prev entry list_poison2 (
    set_next entry list_poison1
      (set_prev (m.next entry) (m.prev entry) (set_next (m.prev entry) (m.next entry) m)))

-- `list_for_each` from `pos` on: the members it visits, or `none` if it takes more rounds than these.
unfoldable pub visit : ℕ → ℕ → ℕ → Memory → Option (List ℕ)
visit zero head pos m = none
visit (suc fuel) head pos m = elim (pos == head) [
  | true ↦ some []
  | false ↦ elim (visit fuel head (m.next pos) m) [ none ↦ none | some more ↦ some (pos ∷ more) ]
]

unfoldable pub list_for_each : ℕ → ℕ → Memory → Option (List ℕ)
unfolding visit
list_for_each fuel head m = visit fuel head (m.next head) m

-- The loop of `__do_cleanup_list__`, from `pos` and `n` on: the members that are freed, and the memory.
unfoldable pub clean_from : ℕ → ℕ → ℕ → ℕ → Memory → Option (List ℕ × Memory)
clean_from zero head pos n m = none
clean_from (suc fuel) head pos n m = elim (pos == head) [
  | true ↦ some ([], m)
  | false ↦
      let after = delete_list pos m in
      elim (clean_from fuel head n (after.next n) after) [
        | none ↦ none
        | some (freed, last) ↦ some (pos ∷ freed, last)
      ]
]

unfoldable pub do_cleanup_list : ℕ → ℕ → Memory → Option (List ℕ × Memory)
unfolding clean_from
do_cleanup_list fuel head m = clean_from fuel head (m.next head) (m.next (m.next head)) m
