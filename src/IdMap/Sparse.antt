-- ===== src/IdMap/Sparse.antt =====
-- The words that a sparse page keeps, and the rank of a slot on any sealed page.
use velr.Base.{
  ℕ, zero, suc, ◌+◌, ◌-◌, ◌*◌, ◌/◌, ◌%◌, ◌^◌, ◌≤◌, ◌<◌, bit_and, bit_or, true, false, List, [], ◌∷◌,
  none, some, length, get_elem?, ◌==◌, ==_iff, ==→ne, ne→==, if◌then◌else◌, Bool-cases, inl, inr,
  ◌≡◌, ◌≢◌, refl, sym, ap, ◌∙◌, arith, two_pow_mono,
}
use native.Mathlib.Nat.{mul_assoc, pow-suc}
use velr.Base.Bits.{bit_or-shifted, bit_or_comm, bit_or-zero}
use velr.Base.Result.{ok}
use velr.IdMap.Page.{
  OccupiedWord, sparse, count_ones, ranks_from, mask_from, occupied_words, word_of_slot, rank,
}
use velr.IdMap.Ones.{count_ones_le, half_power, bit_and-power, count_ones-mask}
use velr.IdMap.Ranks.{word_at, words_before}

-- One bit for each word that is not zero.
abbrev flag : ℕ → ℕ
flag w = if w == 0 then 0 else 1

abbrev flags : List ℕ → ℕ
flags [] = 0
flags (w ∷ words) = flag w + flags words * 2

abbrev occupied_before : List ℕ → ℕ → ℕ
occupied_before [] i = 0
occupied_before (w ∷ words) zero = 0
occupied_before (w ∷ words) (suc i) = flag w + occupied_before words i

mask_from-flags : (words : List ℕ) (k : ℕ) → mask_from k words ≡ flags words * 2 ^ k
mask_from-flags [] k = omega arith
mask_from-flags (w ∷ words) k =
    let high : flags words * 2 ^ (k + 1) ≡ flags words * 2 * 2 ^ k =
      ap (λ (x : ℕ). flags words * 2 ^ x) {x = k + 1} {y = suc k} (omega arith)
      ∙ ap (λ (x : ℕ). flags words * x) (pow-suc 2 k)
      ∙ swap (flags words) (2 ^ k) in
    let rest = mask_from-flags words (k + 1) in
    let some_bit : 2 ^ 0 ≤ 2 ^ k = two_pow_mono 0 k (omega arith) in
    elim (Bool-cases (w == 0)) [
      | inl empty ↦ rw empty (
          bit_or_comm 0 (mask_from (k + 1) words)
          ∙ bit_or-zero (mask_from (k + 1) words)
          ∙ rest
          ∙ high
          ∙ plus_zero (flags words * 2) (2 ^ k))
      | inr full ↦
          let small : 2 ^ k < 2 ^ (k + 1) =
            omega
              (arith, ap (λ (x : ℕ). 2 ^ x) {x = k + 1} {y = suc k} (omega arith), pow-suc 2 k) in
          rw full (
            bit_or_comm (2 ^ k) (mask_from (k + 1) words)
            ∙ ap (λ (x : ℕ). bit_or x (2 ^ k)) rest
            ∙ bit_or-shifted (k + 1) (flags words) (2 ^ k) small
            ∙ ap (λ (x : ℕ). x + 2 ^ k) high
            ∙ plus_one (flags words * 2) (2 ^ k))
    ]
  where
    swap : (a m : ℕ) → a * (m * 2) ≡ a * 2 * m
    swap a m = sym (mul_assoc a m 2) ∙ omega arith

    plus_zero : (a m : ℕ) → a * m ≡ (0 + a) * m
    plus_zero a m = ap (λ (x : ℕ). x * m) {x = a} {y = 0 + a} (omega arith)

    plus_one : (a m : ℕ) → a * m + m ≡ (1 + a) * m
    plus_one a m = omega arith

flag_le : (w : ℕ) → flag w ≤ 1
flag_le w = ground arith

flags-bit :
    (words : List ℕ) (i : ℕ) → i < length words → flags words / 2 ^ i % 2 ≡ flag (word_at words i)
flags-bit [] i h = absurd (omega arith)
flags-bit (w ∷ words) zero h = omega (arith, flag_le w)
flags-bit (w ∷ words) (suc i) h =
    let half : flags (w ∷ words) / 2 ≡ flags words = omega (arith, flag_le w) in
    sym (ap (λ (x : ℕ). x % 2) (half_power (flags (w ∷ words)) i))
    ∙ ap (λ (x : ℕ). x / 2 ^ i % 2) half
    ∙ flags-bit words i (omega arith)

-- The lowest bit apart.
count_ones-double : (n f m : ℕ) → f ≤ 1 → count_ones (suc n) (f + m * 2) ≡ f + count_ones n m
count_ones-double zero f m h = omega arith
count_ones-double (suc n) f m h =
    let half : (f + m * 2) / 2 ≡ m = omega arith in
    let top : (f + m * 2) / 2 ^ suc n ≡ m / 2 ^ n =
      sym (half_power (f + m * 2) n) ∙ ap (λ (x : ℕ). x / 2 ^ n) half in
    omega (arith, top, count_ones-double n f m h)

count_ones-flags :
    (words : List ℕ) (i : ℕ)
    → i ≤ length words
    → count_ones i (flags words) ≡ occupied_before words i
count_ones-flags [] zero h = refl
count_ones-flags [] (suc i) h = absurd (omega arith)
count_ones-flags (w ∷ words) zero h = refl
count_ones-flags (w ∷ words) (suc i) h =
    count_ones-double i (flag w) (flags words) (flag_le w)
    ∙ ap (λ (x : ℕ). flag w + x) (count_ones-flags words i (omega arith))

abbrev word_entry : ℕ → ℕ → OccupiedWord
word_entry bitmap rank = record { bitmap = bitmap; rank = rank }

get_elem?-occupied_words :
    (words : List ℕ) (i rank : ℕ)
    → i < length words
    → word_at words i ≢ 0
    → rank + 64 * length words < 2 ^ 16
    → get_elem? (occupied_words words (ranks_from rank words)) (occupied_before words i)
      ≡ some (word_entry (word_at words i) (rank + words_before words i))
get_elem?-occupied_words [] i rank h o k = absurd (omega arith)
get_elem?-occupied_words (w ∷ words) zero rank h o k =
    rw (ne→== w 0 o) (ap (λ (r : ℕ). some (word_entry w r)) {x = rank} {y = rank + 0} (omega arith))
get_elem?-occupied_words (w ∷ words) (suc i) rank h o k =
    let le = count_ones_le 64 w in
    let fits : (rank + count_ones 64 w) % 2 ^ 16 ≡ rank + count_ones 64 w = omega arith in
    let found =
      ap
        (λ (r : ℕ). get_elem? (occupied_words words (ranks_from r words)) (occupied_before words i))
        fits
      ∙ get_elem?-occupied_words words i (rank + count_ones 64 w) (omega arith) o (omega arith)
      ∙ ap (λ (r : ℕ). some (word_entry (word_at words i) r))
          {x = rank + count_ones 64 w + words_before words i}
          {y = rank + (count_ones 64 w + words_before words i)} (omega arith) in
    let none_here : 0 + occupied_before words i ≡ occupied_before words i = omega arith in
    let one_here : 1 + occupied_before words i ≡ suc (occupied_before words i) = omega arith in
    elim (Bool-cases (w == 0)) [
      | inl empty ↦ rw empty (
          ap
            (get_elem?
              (occupied_words words (ranks_from ((rank + count_ones 64 w) % 2 ^ 16) words)))
            none_here
          ∙ found)
      | inr full ↦ rw full (
          ap
            (get_elem? (
              word_entry w rank
              ∷ occupied_words words (ranks_from ((rank + count_ones 64 w) % 2 ^ 16) words)))
            one_here
          ∙ found)
    ]

pub word_of_sparse :
    (bitmap : List ℕ) (i : ℕ)
    → i < length bitmap
    → length bitmap ≡ 64
    → word_of_slot (sparse (mask_from 0 bitmap) (occupied_words bitmap (ranks_from 0 bitmap))) i
      ≡ ok (if word_at bitmap i == 0 then none else some (word_at bitmap i, words_before bitmap i))
unfolding word_of_slot
word_of_sparse bitmap i h len =
    let mask : mask_from 0 bitmap ≡ flags bitmap = mask_from-flags bitmap 0 ∙ omega arith in
    let bit : bit_and (mask_from 0 bitmap) (2 ^ i) ≡ flag (word_at bitmap i) * 2 ^ i =
      ap (λ (x : ℕ). bit_and x (2 ^ i)) mask
      ∙ bit_and-power i (flags bitmap)
      ∙ ap (λ (x : ℕ). x * 2 ^ i) (flags-bit bitmap i h) in
    let some_bit : 2 ^ 0 ≤ 2 ^ i = two_pow_mono 0 i (omega arith) in
    elim (Bool-cases (word_at bitmap i == 0)) [
      | inl empty ↦
          let e : flag (word_at bitmap i) ≡ 0 = rw empty refl in
          let product : flag (word_at bitmap i) * 2 ^ i ≡ 0 * 2 ^ i = ap (λ (x : ℕ). x * 2 ^ i) e in
          let none_there : (bit_and (mask_from 0 bitmap) (2 ^ i) == 0) ≡ true =
            (==_iff (bit_and (mask_from 0 bitmap) (2 ^ i)) 0).1 (omega arith) in
          rw (none_there, empty) refl
      | inr full ↦
          let e : flag (word_at bitmap i) ≡ 1 = rw full refl in
          let product : flag (word_at bitmap i) * 2 ^ i ≡ 1 * 2 ^ i = ap (λ (x : ℕ). x * 2 ^ i) e in
          let there : (bit_and (mask_from 0 bitmap) (2 ^ i) == 0) ≡ false =
            ne→== (bit_and (mask_from 0 bitmap) (2 ^ i)) 0 (λ z. omega arith) in
          let place : count_ones 64 (bit_and (mask_from 0 bitmap) (2 ^ i - 1))
              ≡ occupied_before bitmap i =
            count_ones-mask (mask_from 0 bitmap) i (omega arith)
            ∙ ap (count_ones i) mask
            ∙ count_ones-flags bitmap i (omega arith) in
          let zero_rank : 0 + words_before bitmap i ≡ words_before bitmap i = omega arith in
          let found =
            get_elem?-occupied_words bitmap i 0 h (==→ne (word_at bitmap i) 0 full) (omega arith)
            ∙ ap (λ (r : ℕ). some (word_entry (word_at bitmap i) r)) zero_rank in
          rw (there, full) (rw (place, found) refl)
    ]
