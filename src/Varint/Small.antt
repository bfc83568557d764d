-- ===== src/Varint/Small.antt =====
-- A number below 128 is one byte.
use velr.Base.{
  ℕ, zero, suc, ◌*◌, ◌%◌, ◌^◌, ◌<◌, ◌≤◌, ◌⊎◌, [], ◌∷◌, ◌≡◌, inl, inr, ap, ◌∙◌, arith, two_pow_mono,
  bit_or,
}
use velr.Base.Word.{low_seven, keep_low}
use native.Mathlib.Decide.{dec_lt}
use velr.Varint.{varint_len, varint_bytes}
use velr.Varint.Length.{Groups, varint_len-Groups}

one_group : (value n : ℕ) → value < 128 → Groups value n → n ≡ 1
one_group value n h g = elim g.least [
  | inl e ↦ e
  | inr (zero, e, low) ↦ e
  | inr (suc m, e, low) ↦ absurd (omega (arith, two_pow_mono 7 (7 * suc m) (omega arith)))
]

pub varint_len_small : (value : ℕ) → value < 128 → varint_len value ≡ 1
varint_len_small value h = one_group value _ h (varint_len-Groups value (omega arith))

pub varint_bytes_small : (value : ℕ) → value < 128 → varint_bytes value ≡ value ∷ []
unfolding varint_bytes
varint_bytes_small value h = rw (varint_len_small value h) (
    ap (λ (b : ℕ). b ∷ [])
      (ap (λ (b : ℕ). bit_or b 0) (low_seven (value % 256) (omega arith))
        ∙ keep_low _ (omega arith)
        ∙ omega arith))

-- The number of groups, from the range of the value.
Groups-are :
    (value n k : ℕ)
    → Groups value n
    → value < 2 ^ (7 * suc k)
    → (k ≡ 0) ⊎ (2 ^ (7 * k) ≤ value)
    → n ≡ suc k
Groups-are value n k g above below = elim (dec_lt n (suc k)) [
  | yes few ↦ absurd (elim below [
    | inl e ↦ omega (arith, g.positive)
    | inr low ↦ omega (arith, low, g.fits, two_pow_mono (7 * n) (7 * k) (omega arith))
  ])
  | no enough ↦ elim g.least [
    | inl e ↦ omega arith
    | inr (m, e, low) ↦ elim (dec_lt k m) [
      | yes many ↦ absurd (omega (arith, above, two_pow_mono (7 * suc k) (7 * m) (omega arith)))
      | no exact ↦ omega arith
    ]
  ]
]

pub varint_len_range :
    (value k : ℕ)
    → value < 2 ^ 56
    → value < 2 ^ (7 * suc k)
    → (k ≡ 0) ⊎ (2 ^ (7 * k) ≤ value)
    → varint_len value ≡ suc k
varint_len_range value k h above below =
    Groups-are value _ k (varint_len-Groups value h) above below
