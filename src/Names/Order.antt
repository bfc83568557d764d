-- ===== src/Names/Order.antt =====
-- The comparison ends, and is the other way round for the two strings swapped.
use velr.Base.{
  ℕ, zero, suc, ◌+◌, ◌≤◌, ◌<◌, Bool, true, false, ◌&&◌, [], ◌∷◌, Option, some, length, ltb, ge→ltb,
  if◌then◌else◌, Bool-cases, inl, inr, ◌≡◌, subst, refl, sym, ap, ap₂, ◌∙◌, arith,
}
use velr.Base.Word.{Bytes}
use velr.Names.{
  Ordering, less, equal, greater, compare_number, then_with, compare_bytes, compare_runs, is_digit,
  digits, after_digits, without_zeros, unless_equal, natural_loop, natural_cmp,
}

abbrev pub reverse : Ordering → Ordering
reverse less = greater
reverse equal = equal
reverse greater = less

reverse-compare_number : (a b : ℕ) → compare_number b a ≡ reverse (compare_number a b)
reverse-compare_number a b = elim (Bool-cases (ltb a b)) [
  | inl below ↦ rw (below, ge→ltb b a (ground arith)) refl
  | inr not_below ↦ elim (Bool-cases (ltb b a)) [
    | inl above ↦ rw (not_below, above) refl
    | inr same ↦ rw (not_below, same) refl
  ]
]

reverse-then_with : (o p : Ordering) → then_with (reverse o) (reverse p) ≡ reverse (then_with o p)
reverse-then_with less p = refl
reverse-then_with equal p = refl
reverse-then_with greater p = refl

reverse-compare_bytes : (a b : Bytes) → compare_bytes b a ≡ reverse (compare_bytes a b)
reverse-compare_bytes [] [] = refl
reverse-compare_bytes [] (y ∷ b) = refl
reverse-compare_bytes (x ∷ a) [] = refl
reverse-compare_bytes (x ∷ a) (y ∷ b) =
    ap₂ then_with (reverse-compare_number x y) (reverse-compare_bytes a b)
    ∙ reverse-then_with (compare_number x y) (compare_bytes a b)

reverse-compare_runs : (a b : Bytes) → compare_runs b a ≡ reverse (compare_runs a b)
reverse-compare_runs a b =
    ap₂ then_with (reverse-compare_number (length a) (length b)) (reverse-compare_bytes a b)
    ∙ reverse-then_with (compare_number (length a) (length b)) (compare_bytes a b)

-- Both comparisons have a result, and one is the reverse of the other.
abbrev Reversed : Option Ordering → Option Ordering → Type 0
Reversed m n = (o : Ordering) × (m ≡ some o) × (n ≡ some (reverse o))

unless_equal-Reversed :
    (o : Ordering) (m n : Option Ordering)
    → Reversed m n
    → Reversed (unless_equal o m) (unless_equal (reverse o) n)
unless_equal-Reversed less m n h = (less, refl, refl)
unless_equal-Reversed equal m n h = h
unless_equal-Reversed greater m n h = (greater, refl, refl)

length-after_digits : (a : Bytes) → length (after_digits a) ≤ length a
length-after_digits [] = omega arith
length-after_digits (x ∷ a) = elim (Bool-cases (is_digit x)) [
  | inl is ↦ rw is (omega (arith, length-after_digits a))
  | inr not_one ↦ rw not_one (omega arith)
]

natural_loop-Reversed :
    (f g : ℕ) (whole : Ordering) (a b : Bytes)
    → length a < f
    → length b < g
    → Reversed (natural_loop f whole a b) (natural_loop g (reverse whole) b a)
unfolding natural_loop
natural_loop-Reversed zero g whole a b h k = absurd (omega arith)
natural_loop-Reversed (suc f) zero whole a b h k = absurd (omega arith)
natural_loop-Reversed (suc f) (suc g) whole [] [] h k = (whole, refl, refl)
natural_loop-Reversed (suc f) (suc g) whole [] (y ∷ b) h k = (whole, refl, refl)
natural_loop-Reversed (suc f) (suc g) whole (x ∷ a) [] h k = (whole, refl, refl)
natural_loop-Reversed (suc f) (suc g) whole (x ∷ a) (y ∷ b) h k =
    let runs = compare_runs (without_zeros (digits (x ∷ a))) (without_zeros (digits (y ∷ b))) in
    let numbers = unless_equal-Reversed runs _ _ (
      natural_loop-Reversed f g whole (after_digits a) (after_digits b)
        (omega (arith, length-after_digits a)) (omega (arith, length-after_digits b))) in
    let bytes =
      unless_equal-Reversed (compare_number x y) _ _
        (natural_loop-Reversed f g whole a b (omega arith) (omega arith)) in
    either (is_digit x) (is_digit y) _ _ _ _
      (subst
        (λ o.
          Reversed (unless_equal runs (natural_loop f whole (after_digits a) (after_digits b)))
            (unless_equal o (natural_loop g (reverse whole) (after_digits b) (after_digits a))))
        (sym
          (reverse-compare_runs (without_zeros (digits (x ∷ a))) (without_zeros (digits (y ∷ b)))))
        numbers)
      (subst
        (λ o.
          Reversed (unless_equal (compare_number x y) (natural_loop f whole a b))
            (unless_equal o (natural_loop g (reverse whole) b a)))
        (sym (reverse-compare_number x y)) bytes)
  where
    either :
        (p q : Bool) (m n u v : Option Ordering)
        → Reversed m u
        → Reversed n v
        → Reversed (if p && q then m else n) (if q && p then u else v)
    either true true m n u v h k = h
    either true false m n u v h k = k
    either false true m n u v h k = k
    either false false m n u v h k = k

-- Two strings are compared in finitely many rounds, and swapping them reverses the result.
pub natural_cmp-reverse :
    (a b : Bytes)
    → (o : Ordering) × (natural_cmp a b ≡ some o) × (natural_cmp b a ≡ some (reverse o))
unfolding natural_cmp
natural_cmp-reverse a b =
    let (o, there, back) =
      natural_loop-Reversed (length a + 1) (length b + 1) (compare_runs a b) a b (omega arith)
        (omega arith) in
    (
      o,
      there,
      ap (λ (w : Ordering). natural_loop (length b + 1) w b a) (reverse-compare_runs a b) ∙ back,
    )
