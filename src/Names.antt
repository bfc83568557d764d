-- ===== src/Names.antt =====
-- The order of the files that a pattern names: natural_cmp of rust/velr-cli/src/import/input.rs.
-- Strings are their bytes. The indexes i and j are the rests of the two strings.
pub mod Order
mod Tests
use velr.Base.{
  ℕ, zero, suc, ◌+◌, Bool, true, false, ◌&&◌, List, [], ◌∷◌, Option, none, some, length, ltb, leb,
  ◌==◌, if◌then◌else◌,
}
use velr.Base.Word.{Bytes}

pub data Ordering : Type 0 where
  less equal greater : Ordering

abbrev pub compare_number : ℕ → ℕ → Ordering
compare_number a b = if ltb a b then less else if ltb b a then greater else equal

abbrev pub then_with : Ordering → Ordering → Ordering
then_with equal later = later
then_with less later = less
then_with greater later = greater

-- `cmp` of byte slices.
abbrev pub compare_bytes : Bytes → Bytes → Ordering
compare_bytes [] [] = equal
compare_bytes [] (y ∷ b) = less
compare_bytes (x ∷ a) [] = greater
compare_bytes (x ∷ a) (y ∷ b) = then_with (compare_number x y) (compare_bytes a b)

abbrev pub is_digit : ℕ → Bool
is_digit c = leb 48 c && leb c 57

-- The digits at the start, and what is behind them.
abbrev pub digits : Bytes → Bytes
digits [] = []
digits (x ∷ a) = if is_digit x then x ∷ digits a else []

abbrev pub after_digits : Bytes → Bytes
after_digits [] = []
after_digits (x ∷ a) = if is_digit x then after_digits a else x ∷ a

-- The digits without the zeros at their start, but for the last digit.
abbrev pub without_zeros : Bytes → Bytes
without_zeros [] = []
without_zeros (x ∷ []) = x ∷ []
without_zeros (x ∷ y ∷ a) = let rest = without_zeros (y ∷ a) in if x == 48 then rest else x ∷ y ∷ a

abbrev pub compare_runs : Bytes → Bytes → Ordering
compare_runs a b = then_with (compare_number (length a) (length b)) (compare_bytes a b)

abbrev pub unless_equal : Ordering → Option Ordering → Option Ordering
unless_equal equal rest = rest
unless_equal less rest = some less
unless_equal greater rest = some greater

-- The loop, with the order of the whole strings for its end.
unfoldable pub natural_loop : ℕ → Ordering → Bytes → Bytes → Option Ordering
natural_loop zero whole a b = none
natural_loop (suc fuel) whole [] b = some whole
natural_loop (suc fuel) whole (x ∷ a) [] = some whole
natural_loop (suc fuel) whole (x ∷ a) (y ∷ b) =
    let numbers = natural_loop fuel whole (after_digits a) (after_digits b) in
    let bytes = natural_loop fuel whole a b in
    if is_digit x && is_digit y
    then unless_equal
        (compare_runs (without_zeros (digits (x ∷ a))) (without_zeros (digits (y ∷ b)))) numbers
    else unless_equal (compare_number x y) bytes

-- Every round goes on in the first string, so its length is enough fuel.
unfoldable pub natural_cmp : Bytes → Bytes → Option Ordering
natural_cmp a b = natural_loop (length a + 1) (compare_runs a b) a b
