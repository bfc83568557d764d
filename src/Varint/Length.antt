-- ===== src/Varint/Length.antt =====
-- How many bytes a varint takes: `varint_len` is the least number of groups of seven bits.
use velr.Base.{
  ℕ, zero, suc, ◌+◌, ◌-◌, ◌*◌, ◌/◌, ◌^◌, ◌≤◌, ◌<◌, max, ◌≡◌, ◌⊎◌, inl, inr, refl, arith, Bool-cases,
  ltb, ltb→lt, two_pow_mono, le→leb, gt→leb,
}
use native.Mathlib.Decide.{dec_lt}
use velr.Varint.{leading_zeros, varint_len}

-- `b` is the number of bits of `x`, where a word of `w` bits has `lz` leading zeros.
pub record BitLength (w lz x b : ℕ) : Type 0 where
  pub parts : lz + b ≡ w
  pub above : x < 2 ^ b
  pub below : (b ≡ 0) ⊎ ((c : ℕ) × (b ≡ suc c) × (2 ^ c ≤ x))

pub bit_length : (w x : ℕ) → x < 2 ^ w → (b : ℕ) × BitLength w (leading_zeros w x) x b
unfolding leading_zeros
bit_length zero x h = (0, record { parts = refl; above = h; below = inl refl })
bit_length (suc w) x h = elim (Bool-cases (ltb x (2 ^ w))) [
  | inl small ↦
      let (b, l) = bit_length w x (ltb→lt _ _ small) in
      rw small (b, record { parts = omega (arith, l.parts); above = l.above; below = l.below })
  | inr big ↦
      rw big (suc w, record { parts = omega arith; above = h; below = inr (w, refl, ground arith) })
]

-- A number below 2 ^ 56 takes `n` bytes of seven bits, and no fewer would hold it.
pub record Groups (value n : ℕ) : Type 0 where
  pub positive : 0 < n
  pub at_most : n ≤ 8
  pub fits : value < 2 ^ (7 * n)
  pub least : (n ≡ 1) ⊎ ((m : ℕ) × (n ≡ suc m) × (2 ^ (7 * m) ≤ value))

no_bits :
    (lz value b : ℕ) → BitLength 64 lz value b → b ≡ 0 → Groups value ((max (64 - lz) 1 + 6) / 7)
no_bits lz value b l e = record {
  positive = omega (arith, l.parts);
  at_most = omega (arith, l.parts);
  fits =
      let one : (max (64 - lz) 1 + 6) / 7 ≡ 1 = omega (arith, l.parts) in
      let tiny : value < 1 = rw e at l.above in rw one (omega (arith, tiny));
  least = inl (omega (arith, l.parts));
}

some_bits :
    (lz value b c : ℕ)
    → value < 2 ^ 56
    → BitLength 64 lz value b
    → b ≡ suc c
    → 2 ^ c ≤ value
    → Groups value ((max (64 - lz) 1 + 6) / 7)
some_bits lz value b c small l e low =
    let parts = l.parts in
    let above = l.above in
    let c_small : c < 56 = elim (dec_lt c 56) [
      | yes p ↦ p
      | no p ↦ absurd (omega (arith, two_pow_mono 56 c (omega arith)))
    ] in
    let n : ℕ = (max (64 - lz) 1 + 6) / 7 in
    record {
      positive = omega arith;
      at_most = omega arith;
      fits = omega (arith, two_pow_mono b (7 * n) (omega arith));
      least = inr (c / 7, omega arith, omega (arith, two_pow_mono (7 * (c / 7)) c (omega arith)));
    }

Groups-of_bits :
    (lz value b : ℕ)
    → value < 2 ^ 56
    → BitLength 64 lz value b
    → Groups value ((max (64 - lz) 1 + 6) / 7)
Groups-of_bits lz value b small l = elim l.below [
  | inl e ↦ no_bits lz value b l e
  | inr (c, e, low) ↦ some_bits lz value b c small l e low
]

-- Below 2 ^ 56, `varint_len` is the least positive number of seven-bit groups that hold the number,
-- and at most 8.
pub varint_len-Groups : (value : ℕ) → value < 2 ^ 56 → Groups value (varint_len value)
unfolding varint_len
varint_len-Groups value h =
    let (b, l) = bit_length 64 value (omega arith) in
    rw (gt→leb _ _ h) (Groups-of_bits _ value b h l)

pub varint_len-nine : (value : ℕ) → 2 ^ 56 ≤ value → varint_len value ≡ 9
unfolding varint_len
varint_len-nine value h = rw (le→leb _ _ h)

Groups-mono : (a b n k : ℕ) → a ≤ b → Groups a n → Groups b k → n ≤ k
Groups-mono a b n k h g k_groups = elim g.least [
  | inl one ↦ omega (arith, k_groups.positive)
  | inr (m, e, low) ↦ elim (dec_lt k n) [
    | yes p ↦ absurd (omega (arith, two_pow_mono (7 * k) (7 * m) (omega arith), k_groups.fits))
    | no p ↦ omega arith
  ]
]

pub varint_len_mono : (a b : ℕ) → a ≤ b → varint_len a ≤ varint_len b
varint_len_mono a b h = elim (dec_lt b (2 ^ 56)) [
  | yes small ↦
      Groups-mono a b _ _ h (varint_len-Groups a (omega arith)) (varint_len-Groups b small)
  | no big ↦ rw (varint_len-nine b (omega arith)) (varint_len-le a)
]
  where
    varint_len-le : (x : ℕ) → varint_len x ≤ 9
    varint_len-le x = elim (dec_lt x (2 ^ 56)) [
      | yes small ↦ let g = varint_len-Groups x small in omega (arith, g.at_most)
      | no big ↦ omega (arith, varint_len-nine x (omega arith))
    ]
