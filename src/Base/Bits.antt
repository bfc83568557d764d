-- ===== src/Base/Bits.antt =====
-- Shifted numbers: `|` of parts that do not overlap is a sum, and a mask of ones is a remainder.
use Prim.Native.Nat.{
  ℕ, zero, suc, ◌+◌, ◌-◌, ◌*◌, ◌/◌, ◌%◌, ◌^◌, ◌≤◌, ◌<◌, min, max, bit_and, bit_or, digits,
  bit_and-bitwise, bit_or-bitwise,
}
use mathlib.Core.Path.{◌≡◌, refl, ap, sym, ◌∙◌}
use native.Mathlib.Omega.{arith}
use native.Mathlib.Nat.{
  pow-suc, mul_assoc, mod-lt, div-add-mod', mod-eq_of_lt, add-mul-mod_self_right,
}
use velr.Base.Pow.{two_pow_mono}

-- Any count of digits that covers the first number gives the same.
or_fuel : (n m a b : ℕ) → a ≤ n → a ≤ m → digits (λ y. y) max n a b ≡ digits (λ y. y) max m a b
or_fuel zero zero a b h k = refl
or_fuel zero (suc m) zero b h k = refl
or_fuel zero (suc m) (suc a) b h k = absurd (omega arith)
or_fuel (suc n) zero zero b h k = refl
or_fuel (suc n) zero (suc a) b h k = absurd (omega arith)
or_fuel (suc n) (suc m) zero b h k = refl
or_fuel (suc n) (suc m) (suc a) b h k =
    omega (arith, or_fuel n m (suc a / 2) (b / 2) (omega arith) (omega arith))

and_fuel :
    (n m a b : ℕ) → a ≤ n → a ≤ m → digits (λ y. zero) min n a b ≡ digits (λ y. zero) min m a b
and_fuel zero zero a b h k = refl
and_fuel zero (suc m) zero b h k = refl
and_fuel zero (suc m) (suc a) b h k = absurd (omega arith)
and_fuel (suc n) zero zero b h k = refl
and_fuel (suc n) zero (suc a) b h k = absurd (omega arith)
and_fuel (suc n) (suc m) zero b h k = refl
and_fuel (suc n) (suc m) (suc a) b h k =
    omega (arith, and_fuel n m (suc a / 2) (b / 2) (omega arith) (omega arith))

-- One digit at a time, the lowest first.
pub bit_or-halves : (a b : ℕ) → bit_or a b ≡ bit_or (a / 2) (b / 2) * 2 + max (a % 2) (b % 2)
bit_or-halves zero b =
    let whole : bit_or zero b ≡ b = bit_or-bitwise zero b in
    let half : bit_or zero (b / 2) ≡ b / 2 = bit_or-bitwise zero (b / 2) in omega arith
bit_or-halves (suc a) b = omega (
  arith,
  bit_or-bitwise (suc a) b,
  bit_or-bitwise (suc a / 2) (b / 2),
  or_fuel a (suc a / 2) (suc a / 2) (b / 2) (omega arith) (omega arith),
)

pub bit_and-halves : (a b : ℕ) → bit_and a b ≡ bit_and (a / 2) (b / 2) * 2 + min (a % 2) (b % 2)
bit_and-halves zero b =
    let whole : bit_and zero b ≡ 0 = bit_and-bitwise zero b in
    let half : bit_and zero (b / 2) ≡ 0 = bit_and-bitwise zero (b / 2) in omega arith
bit_and-halves (suc a) b = omega (
  arith,
  bit_and-bitwise (suc a) b,
  bit_and-bitwise (suc a / 2) (b / 2),
  and_fuel a (suc a / 2) (suc a / 2) (b / 2) (omega arith) (omega arith),
)

bit_or-zero_below : (n a : ℕ) → a ≤ n → bit_or a 0 ≡ a
bit_or-zero_below n zero h = bit_or-bitwise 0 0
bit_or-zero_below zero (suc a) h = absurd (omega arith)
bit_or-zero_below (suc n) (suc a) h =
    omega (arith, bit_or-halves (suc a) 0, bit_or-zero_below n (suc a / 2) (omega arith))

pub bit_or-zero : (a : ℕ) → bit_or a 0 ≡ a
bit_or-zero a = bit_or-zero_below a a (omega arith)

bit_and-zero_below : (n a : ℕ) → a ≤ n → bit_and a 0 ≡ 0
bit_and-zero_below n zero h = bit_and-bitwise 0 0
bit_and-zero_below zero (suc a) h = absurd (omega arith)
bit_and-zero_below (suc n) (suc a) h =
    omega (arith, bit_and-halves (suc a) 0, bit_and-zero_below n (suc a / 2) (omega arith))

double_shift : (a k : ℕ) → a * 2 ^ suc k ≡ a * 2 ^ k * 2
double_shift a k = ap (λ (x : ℕ). a * x) (pow-suc 2 k) ∙ sym (mul_assoc a (2 ^ k) 2)

-- A number below 2 ^ k fits under one shifted by k bits.
pub bit_or-shifted : (k a b : ℕ) → b < 2 ^ k → bit_or (a * 2 ^ k) b ≡ a * 2 ^ k + b
bit_or-shifted zero a zero h = bit_or-zero (a * 2 ^ 0) ∙ omega arith
bit_or-shifted zero a (suc b) h = absurd (omega arith)
bit_or-shifted (suc k) a b h =
    let s = double_shift a k in
    let half : a * 2 ^ suc k / 2 ≡ a * 2 ^ k = omega arith in
    let even : a * 2 ^ suc k % 2 ≡ 0 = omega arith in
    let ih = bit_or-shifted k a (b / 2) (omega (arith, pow-suc 2 k)) in
    let rest = ap (λ (x : ℕ). bit_or x (b / 2)) half in
    omega (arith, bit_or-halves (a * 2 ^ suc k) b, rest, ih)

mod_double : (v m q : ℕ) → 0 < m → v / 2 ≡ q * m + v / 2 % m → v % (m * 2) ≡ v / 2 % m * 2 + v % 2
mod_double v m q h e =
    let t : ℕ = v / 2 % m * 2 + v % 2 in
    let r : v / 2 % m < m = mod-lt (v / 2) h in
    let whole : v ≡ t + q * (m * 2) = omega (arith, mul_assoc q m 2) in
    let small : t < m * 2 = omega arith in
    ap (λ (x : ℕ). x % (m * 2)) whole ∙ add-mul-mod_self_right t q (m * 2) ∙ mod-eq_of_lt small

-- The mask of `w` ones keeps the `w` low bits.
pub bit_and-ones : (w v : ℕ) → bit_and v (2 ^ w - 1) ≡ v % 2 ^ w
bit_and-ones zero v = bit_and-zero_below v v (omega arith) ∙ omega arith
bit_and-ones (suc w) v =
    let some_bit : 2 ^ 0 ≤ 2 ^ w = two_pow_mono 0 w (omega arith) in
    let half : (2 ^ suc w - 1) / 2 ≡ 2 ^ w - 1 = omega (arith, pow-suc 2 w) in
    let odd : (2 ^ suc w - 1) % 2 ≡ 1 = omega (arith, pow-suc 2 w) in
    let ih = bit_and-ones w (v / 2) in
    let rest = ap (λ (x : ℕ). bit_and (v / 2) x) half in
    let split =
      mod_double v (2 ^ w) (v / 2 / 2 ^ w) (omega arith) (sym (div-add-mod' (v / 2) (2 ^ w))) in
    let whole = ap (λ (x : ℕ). v % x) (pow-suc 2 w) in
    let bound : v % 2 < 2 = omega arith in
    omega (arith, bit_and-halves v (2 ^ suc w - 1), split, whole, rest, ih, odd)

or_swap : (n a b : ℕ) → a ≤ n → b ≤ n → bit_or a b ≡ bit_or b a
or_swap zero zero zero h k = refl
or_swap zero zero (suc b) h k = absurd (omega arith)
or_swap zero (suc a) b h k = absurd (omega arith)
or_swap (suc n) a b h k =
    let ih = or_swap n (a / 2) (b / 2) (omega arith) (omega arith) in
    omega (arith, bit_or-halves a b, bit_or-halves b a, ih)

pub bit_or_comm : (a b : ℕ) → bit_or a b ≡ bit_or b a
bit_or_comm a b = or_swap (a + b) a b (omega arith) (omega arith)
