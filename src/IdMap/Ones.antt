-- ===== src/IdMap/Ones.antt =====
-- The ones of a bitmap word: the masks that `rank` uses are the ones below a bit.
use velr.Base.{
  ℕ, zero, suc, ◌+◌, ◌-◌, ◌*◌, ◌/◌, ◌%◌, ◌^◌, ◌≤◌, ◌<◌, bit_and, min, ◌≡◌, refl, sym, ap, ◌∙◌,
  arith, pow-add, two_pow_mono,
}
use native.Mathlib.Nat.{div-add-mod', mod-lt, mul_assoc, mul-add-div_right, div-eq_of_lt, pow-suc}
use velr.Base.Bits.{bit_and-halves, bit_and-ones}
use velr.IdMap.Page.{count_ones}

pub count_ones_le : (n w : ℕ) → count_ones n w ≤ n
count_ones_le zero w = omega arith
count_ones_le (suc n) w = omega (arith, count_ones_le n w)

pub count_ones_mono : (n d w : ℕ) → count_ones n w ≤ count_ones (d + n) w
count_ones_mono n zero w =
    let e : 0 + n ≡ n = omega arith in omega (arith, ap (λ (x : ℕ). count_ones x w) e)
count_ones_mono n (suc d) w =
    let e : suc d + n ≡ suc (d + n) = omega arith in
    omega (arith, ap (λ (x : ℕ). count_ones x w) e, count_ones_mono n d w)

-- A power of two picks one bit.
double_power : (b : ℕ) → 2 ^ suc b ≡ 2 ^ b * 2
double_power b = pow-suc 2 b

pub half_power : (w b : ℕ) → w / 2 / 2 ^ b ≡ w / 2 ^ suc b
half_power w b =
    let m : ℕ = 2 ^ b in
    let some_bit : 2 ^ 0 ≤ m = two_pow_mono 0 b (omega arith) in
    let q : ℕ = w / 2 / m in
    let whole : q * m + w / 2 % m ≡ w / 2 = div-add-mod' (w / 2) m in
    let r : w / 2 % m < m = mod-lt (w / 2) (omega arith) in
    let two : q * (m * 2) ≡ q * m * 2 = sym (mul_assoc q m 2) in
    let rest : ℕ = w / 2 % m * 2 + w % 2 in
    let split : w ≡ q * (m * 2) + rest = omega arith in
    let small : rest < m * 2 = omega arith in
    sym (
      ap (λ (x : ℕ). w / x) (double_power b)
      ∙ ap (λ (x : ℕ). x / (m * 2)) split
      ∙ mul-add-div_right (omega arith) q rest
      ∙ ap (λ (x : ℕ). q + x) (div-eq_of_lt small)
      ∙ omega arith)

pub bit_and-power : (b w : ℕ) → bit_and w (2 ^ b) ≡ w / 2 ^ b % 2 * 2 ^ b
bit_and-power zero w = bit_and-ones 1 w ∙ omega arith
bit_and-power (suc b) w =
    let some_bit : 2 ^ 0 ≤ 2 ^ b = two_pow_mono 0 b (omega arith) in
    let half : 2 ^ suc b / 2 ≡ 2 ^ b = omega (arith, double_power b) in
    let even : 2 ^ suc b % 2 ≡ 0 = omega (arith, double_power b) in
    let none_left : min (w % 2) (2 ^ suc b % 2) ≡ 0 = omega arith in
    let bit : ℕ = w / 2 ^ suc b % 2 in
    let same : w / 2 / 2 ^ b % 2 ≡ bit = ap (λ (x : ℕ). x % 2) (half_power w b) in
    let ih : bit_and (w / 2) (2 ^ suc b / 2) ≡ bit * 2 ^ b =
      ap (bit_and (w / 2)) half ∙ bit_and-power b (w / 2) ∙ ap (λ (x : ℕ). x * 2 ^ b) same in
    let shift : bit * 2 ^ suc b ≡ bit * 2 ^ b * 2 =
      ap (λ (x : ℕ). bit * x) (double_power b) ∙ sym (mul_assoc bit (2 ^ b) 2) in
    omega (arith, bit_and-halves w (2 ^ suc b), none_left, ih, shift)

-- A bit below `b` is not changed by a remainder of 2 ^ b.
low_bit : (w d i : ℕ) → w % 2 ^ (suc d + i) / 2 ^ i % 2 ≡ w / 2 ^ i % 2
low_bit w d i =
    let b : ℕ = suc d + i in
    let m : ℕ = 2 ^ i in
    let some_bit : 2 ^ 0 ≤ m = two_pow_mono 0 i (omega arith) in
    let q : ℕ = w / 2 ^ b in
    let r : ℕ = w % 2 ^ b in
    let c : ℕ = q * 2 ^ d in
    let whole : q * 2 ^ b + r ≡ w = div-add-mod' w (2 ^ b) in
    let power : 2 ^ b ≡ 2 ^ d * 2 * m =
      pow-add 2 (suc d) i ∙ ap (λ (x : ℕ). x * m) (double_power d) in
    let high : q * 2 ^ b ≡ c * 2 * m =
      ap (λ (x : ℕ). q * x) power
      ∙ sym (mul_assoc q (2 ^ d * 2) m)
      ∙ ap (λ (x : ℕ). x * m) (sym (mul_assoc q (2 ^ d) 2)) in
    let split : w ≡ c * 2 * m + r = omega arith in
    let div : w / m ≡ c * 2 + r / m =
      ap (λ (x : ℕ). x / m) split ∙ mul-add-div_right (omega arith) (c * 2) r in
    omega arith

count_ones-low : (n d w : ℕ) → count_ones n (w % 2 ^ (d + n)) ≡ count_ones n w
count_ones-low zero d w = refl
count_ones-low (suc n) d w =
    let e : d + suc n ≡ suc d + n = omega arith in
    let moved : w % 2 ^ (d + suc n) ≡ w % 2 ^ (suc d + n) = ap (λ (x : ℕ). w % 2 ^ x) e in
    ap (count_ones (suc n)) moved ∙ omega (arith, low_bit w d n, count_ones-low n (suc d) w)

count_ones-beyond : (d b x : ℕ) → x < 2 ^ b → count_ones (d + b) x ≡ count_ones b x
count_ones-beyond zero b x h = let e : 0 + b ≡ b = omega arith in ap (λ (n : ℕ). count_ones n x) e
count_ones-beyond (suc d) b x h =
    let e : suc d + b ≡ suc (d + b) = omega arith in
    let power = two_pow_mono b (d + b) (omega arith) in
    let none_left : x / 2 ^ (d + b) ≡ 0 = div-eq_of_lt (omega arith) in
    ap (λ (n : ℕ). count_ones n x) e ∙ omega (arith, none_left, count_ones-beyond d b x h)

-- The ones of a word under the mask below a bit are its ones below the bit.
pub count_ones-mask : (w b : ℕ) → b ≤ 64 → count_ones 64 (bit_and w (2 ^ b - 1)) ≡ count_ones b w
count_ones-mask w b h =
    let some_bit : 2 ^ 0 ≤ 2 ^ b = two_pow_mono 0 b (omega arith) in
    let e : 64 ≡ 64 - b + b = omega arith in
    let here : b ≡ 0 + b = omega arith in
    ap (count_ones 64) (bit_and-ones b w)
    ∙ ap (λ (n : ℕ). count_ones n (w % 2 ^ b)) e
    ∙ count_ones-beyond (64 - b) b (w % 2 ^ b) (mod-lt w (omega arith))
    ∙ ap (λ (x : ℕ). count_ones b (w % 2 ^ x)) here
    ∙ count_ones-low b 0 w
