-- ===== src/IdMap/Ranks.antt =====
-- On a sealed page the rank of a declared slot is the number of declared slots before it, so no two
-- slots share a value.
use velr.Base.{
  ℕ, zero, suc, ◌+◌, ◌-◌, ◌*◌, ◌/◌, ◌%◌, ◌^◌, ◌≤◌, ◌<◌, bit_and, Bool, true, false, List, [], ◌∷◌,
  none, some, length, get_elem?, ltb, ◌==◌, ==_iff, ==→ne, ne→==, if◌then◌else◌, Bool-cases, inl,
  inr, ◌≡◌, refl, sym, ap, ◌∙◌, arith, subst, two_pow_mono,
}
use velr.Base.Result.{ok}
use velr.IdMap.Page.{Page, dense, count_ones, ranks_from, word_of_slot, rank_in, rank}
use velr.IdMap.Ones.{count_ones_le, count_ones_mono, bit_and-power, count_ones-mask}

-- Whether bit `b` of word `i` is set, and the number of set bits before it.
abbrev pub is_set : List ℕ → ℕ → ℕ → Bool
is_set [] i b = false
is_set (w ∷ words) zero b = w / 2 ^ b % 2 == 1
is_set (w ∷ words) (suc i) b = is_set words i b

abbrev pub ones_before : List ℕ → ℕ → ℕ → ℕ
ones_before [] i b = 0
ones_before (w ∷ words) zero b = count_ones b w
ones_before (w ∷ words) (suc i) b = count_ones 64 w + ones_before words i b

-- The slots that are declared, and those before one.
abbrev pub is_declared : List ℕ → ℕ → Bool
is_declared bitmap slot = is_set bitmap (slot / 64) (slot % 64)

abbrev pub declared_before : List ℕ → ℕ → ℕ
declared_before bitmap slot = ones_before bitmap (slot / 64) (slot % 64)

-- A set bit has fewer bits before it than every bit behind it.
ones_before-within :
    (words : List ℕ) (i b d : ℕ)
    → is_set words i b ≡ true
    → ones_before words i b < ones_before words i (d + suc b)
ones_before-within [] i b d s = absurd (cc)
ones_before-within (w ∷ words) zero b d s =
    let one : w / 2 ^ b % 2 ≡ 1 = (==_iff (w / 2 ^ b % 2) 1).0 s in
    omega (arith, count_ones_mono (suc b) d w)
ones_before-within (w ∷ words) (suc i) b d s = omega (arith, ones_before-within words i b d s)

ones_before-words :
    (words : List ℕ) (i j b c : ℕ)
    → is_set words i b ≡ true
    → b < 64
    → i < j
    → j < length words
    → ones_before words i b < ones_before words j c
ones_before-words [] i j b c s h k l = absurd (omega arith)
ones_before-words (w ∷ words) i zero b c s h k l = absurd (omega arith)
ones_before-words (w ∷ words) zero (suc j) b c s h k l =
    let one : w / 2 ^ b % 2 ≡ 1 = (==_iff (w / 2 ^ b % 2) 1).0 s in
    let e : 64 - suc b + suc b ≡ 64 = omega arith in
    let all = ap (λ (n : ℕ). count_ones n w) e in
    omega (arith, count_ones_mono (suc b) (64 - suc b) w, all)
ones_before-words (w ∷ words) (suc i) (suc j) b c s h k l =
    omega (arith, ones_before-words words i j b c s h (omega arith) (omega arith))

pub declared_before_mono :
    (bitmap : List ℕ) (slot other : ℕ)
    → is_declared bitmap slot ≡ true
    → slot < other
    → other < length bitmap * 64
    → declared_before bitmap slot < declared_before bitmap other
declared_before_mono bitmap slot other s h k = elim (Bool-cases (ltb (slot / 64) (other / 64))) [
  | inl earlier ↦
      ones_before-words bitmap (slot / 64) (other / 64) (slot % 64) (other % 64) s (omega arith)
        (ground arith) (omega arith)
  | inr same_word ↦
      let i : slot / 64 ≡ other / 64 = ground arith in
      let e : other % 64 - suc (slot % 64) + suc (slot % 64) ≡ other % 64 = ground arith in
      subst (λ x. declared_before bitmap slot < ones_before bitmap x (other % 64)) i
        (subst (λ x. declared_before bitmap slot < ones_before bitmap (slot / 64) x) e
          (ones_before-within bitmap (slot / 64) (slot % 64) (other % 64 - suc (slot % 64)) s))
]

-- Word `i` and the set bits before it.
abbrev pub word_at : List ℕ → ℕ → ℕ
word_at [] i = 0
word_at (w ∷ words) zero = w
word_at (w ∷ words) (suc i) = word_at words i

abbrev pub words_before : List ℕ → ℕ → ℕ
words_before words i = ones_before words i 0

ones_before-word_at :
    (words : List ℕ) (i b : ℕ)
    → ones_before words i b ≡ words_before words i + count_ones b (word_at words i)
ones_before-word_at [] i zero = omega arith
ones_before-word_at [] i (suc b) = omega (arith, ones_before-word_at [] i b)
ones_before-word_at (w ∷ words) zero b = omega arith
ones_before-word_at (w ∷ words) (suc i) b = omega (arith, ones_before-word_at words i b)

pub is_set-word_at :
    (words : List ℕ) (i b : ℕ)
    → i < length words
    → is_set words i b ≡ (word_at words i / 2 ^ b % 2 == 1)
is_set-word_at [] i b h = absurd (omega arith)
is_set-word_at (w ∷ words) zero b h = refl
is_set-word_at (w ∷ words) (suc i) b h = is_set-word_at words i b (omega arith)

-- What `rank` makes of a word and the ones before it.
pub rank_in-word :
    (bitmap : List ℕ) (i b : ℕ)
    → i < length bitmap
    → b < 64
    → rank_in (2 ^ b) (some (word_at bitmap i, words_before bitmap i))
      ≡ (if is_set bitmap i b then some (ones_before bitmap i b) else none)
rank_in-word bitmap i b h k =
    let w : ℕ = word_at bitmap i in
    let bit = bit_and-power b w in
    let some_bit : 2 ^ 0 ≤ 2 ^ b = two_pow_mono 0 b (omega arith) in
    elim (Bool-cases (w / 2 ^ b % 2 == 1)) [
      | inl one ↦
          let e : w / 2 ^ b % 2 ≡ 1 = (==_iff (w / 2 ^ b % 2) 1).0 one in
          let product : w / 2 ^ b % 2 * 2 ^ b ≡ 1 * 2 ^ b = ap (λ (x : ℕ). x * 2 ^ b) e in
          let there : (bit_and w (2 ^ b) == 0) ≡ false =
            ne→== (bit_and w (2 ^ b)) 0 (λ z. omega arith) in
          let set : is_set bitmap i b ≡ true = is_set-word_at bitmap i b h ∙ one in
          let ones =
            ones_before-word_at bitmap i b
            ∙ ap (λ (x : ℕ). words_before bitmap i + x) (sym (count_ones-mask w b (omega arith))) in
          ap
            (λ (t : Bool).
              if t
              then none
              else some (words_before bitmap i + count_ones 64 (bit_and w (2 ^ b - 1))))
            there
          ∙ ap (λ (x : ℕ). some x) (sym ones)
          ∙ sym (ap (λ (t : Bool). if t then some (ones_before bitmap i b) else none) set)
      | inr zero_bit ↦
          let ne = ==→ne (w / 2 ^ b % 2) 1 zero_bit in
          let e : w / 2 ^ b % 2 ≡ 0 = omega arith in
          let product : w / 2 ^ b % 2 * 2 ^ b ≡ 0 * 2 ^ b = ap (λ (x : ℕ). x * 2 ^ b) e in
          let none_there : (bit_and w (2 ^ b) == 0) ≡ true =
            (==_iff (bit_and w (2 ^ b)) 0).1 (omega arith) in
          let unset : is_set bitmap i b ≡ false = is_set-word_at bitmap i b h ∙ zero_bit in
          ap
            (λ (t : Bool).
              if t
              then none
              else some (words_before bitmap i + count_ones 64 (bit_and w (2 ^ b - 1))))
            none_there
          ∙ sym (ap (λ (t : Bool). if t then some (ones_before bitmap i b) else none) unset)
    ]

get_elem?-word_at :
    (words : List ℕ) (i : ℕ) → i < length words → get_elem? words i ≡ some (word_at words i)
get_elem?-word_at [] i h = absurd (omega arith)
get_elem?-word_at (w ∷ words) zero h = refl
get_elem?-word_at (w ∷ words) (suc i) h = get_elem?-word_at words i (omega arith)

get_elem?-ranks_from :
    (words : List ℕ) (i rank : ℕ)
    → i < length words
    → rank + 64 * length words < 2 ^ 16
    → get_elem? (ranks_from rank words) i ≡ some (rank + words_before words i)
get_elem?-ranks_from [] i rank h k = absurd (omega arith)
get_elem?-ranks_from (w ∷ words) zero rank h k =
    ap (λ (x : ℕ). some x) {x = rank} {y = rank + 0} (omega arith)
get_elem?-ranks_from (w ∷ words) (suc i) rank h k =
    let le = count_ones_le 64 w in
    let fits : (rank + count_ones 64 w) % 2 ^ 16 ≡ rank + count_ones 64 w = omega arith in
    ap (λ (r : ℕ). get_elem? (ranks_from r words) i) fits
    ∙ get_elem?-ranks_from words i (rank + count_ones 64 w) (omega arith) (omega arith)
    ∙ ap (λ (x : ℕ). some x) {x = rank + count_ones 64 w + words_before words i}
        {y = rank + (count_ones 64 w + words_before words i)} (omega arith)

pub rank-dense :
    (p : Page) (bitmap : List ℕ) (slot : ℕ)
    → p.membership ≡ dense bitmap (ranks_from 0 bitmap)
    → length bitmap ≡ 64
    → slot < 4096
    → rank p slot
      ≡ ok (if is_declared bitmap slot then some (declared_before bitmap slot) else none)
unfolding rank word_of_slot
rank-dense p bitmap slot m len h =
    let i : ℕ = slot / 64 in
    let zero_rank : 0 + words_before bitmap i ≡ words_before bitmap i = omega arith in
    let word = get_elem?-word_at bitmap i (omega arith) in
    let prefix =
      get_elem?-ranks_from bitmap i 0 (omega arith) (omega arith)
      ∙ ap (λ (x : ℕ). some x) zero_rank in
    rw m (rw (word, prefix) (ap ok (rank_in-word bitmap i (slot % 64) (omega arith) (omega arith))))
