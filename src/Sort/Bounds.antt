-- ===== src/Sort/Bounds.antt =====
-- The spool keeps the bounds of its columns: every tuple that was pushed lies in them.
use velr.Base.{
  ℕ, zero, suc, ◌+◌, ◌-◌, ◌^◌, ◌≤◌, ◌<◌, min, max, ◌&&◌, List, [], ◌∷◌, ◌++◌, length, length-append,
  replicate, ltb, leb, ◌==◌, Bool-cases, ==_iff, inl, inr, ◌≡◌, refl, ap, ◌∙◌, arith, All,
  All-append,
}
use velr.Base.Result.{ok, err, ok_inj}
use velr.Base.Word.{IsU64}
use velr.Sort.{S, wrong_field_count, too_many_tuples}
use velr.Sort.Keys.{at, ordered, IntegerSpool, create_spool, push, with_bounds, padded}
use velr.Sort.Packing.{Within}

-- Every tuple lies in the bounds of every column.
pub record IsBounded (s : IntegerSpool) : Type 0 where
  pub few : s.fields ≤ 4
  pub minima : length s.minimum ≡ 4
  pub maxima : length s.maximum ≡ 4
  pub words : (field : ℕ) → at s.maximum field < 2 ^ 64
  pub tuples_in : All (λ t. (field : ℕ) → field < s.fields → Within s t field) s.tuples
  pub counted : s.rows ≡ length s.tuples

at-replicate : (n i v : ℕ) → i < n → at (replicate n v) i ≡ v
at-replicate zero i v h = absurd (omega arith)
at-replicate (suc n) zero v h = refl
at-replicate (suc n) (suc i) v h = at-replicate n i v (omega arith)

at-zeros : (n i : ℕ) → at (replicate n 0) i ≡ 0
at-zeros zero i = refl
at-zeros (suc n) zero = refl
at-zeros (suc n) (suc i) = at-zeros n i

at-append : (xs ys : List ℕ) (i : ℕ) → i < length xs → at (xs ++ ys) i ≡ at xs i
at-append [] ys i h = absurd (omega arith)
at-append (x ∷ xs) ys zero h = refl
at-append (x ∷ xs) ys (suc i) h = at-append xs ys i (omega arith)

length-with_bounds :
    (f : ℕ → ℕ → ℕ) (bounds values : List ℕ) → length (with_bounds f bounds values) ≡ length bounds
length-with_bounds f [] values = refl
length-with_bounds f (b ∷ bounds) [] = refl
length-with_bounds f (b ∷ bounds) (v ∷ values) = ap suc (length-with_bounds f bounds values)

-- A column has the new value folded in, or is one that the tuple does not have.
at-with_bounds :
    (f : ℕ → ℕ → ℕ) (bounds values : List ℕ) (i : ℕ)
    → length values ≤ length bounds
    → i < length values
    → at (with_bounds f bounds values) i ≡ f (at bounds i) (ordered (at values i))
at-with_bounds f [] values i h k = absurd (omega arith)
at-with_bounds f (b ∷ bounds) [] i h k = absurd (omega arith)
at-with_bounds f (b ∷ bounds) (v ∷ values) zero h k = refl
at-with_bounds f (b ∷ bounds) (v ∷ values) (suc i) h k =
    at-with_bounds f bounds values i (omega arith) (omega arith)

max-words :
    (bounds values : List ℕ) (i : ℕ)
    → ((field : ℕ) → at bounds field < 2 ^ 64)
    → at (with_bounds max bounds values) i < 2 ^ 64
max-words [] values i h = omega arith
max-words (b ∷ bounds) [] i h = h i
max-words (b ∷ bounds) (v ∷ values) zero h = let x = h 0 in omega arith
max-words (b ∷ bounds) (v ∷ values) (suc i) h = max-words bounds values i (λ field. h (suc field))

words_padded : (values : List ℕ) (i : ℕ) → All IsU64 values → IsU64 (at values i)
words_padded [] i h = omega arith
words_padded (v ∷ values) zero (h, hs) = h
words_padded (v ∷ values) (suc i) (h, hs) = words_padded values i hs

All-implies {ℓ κ} :
    {A : Type ℓ} (P Q : A → Type κ) (xs : List A) → ((x : A) → P x → Q x) → All P xs → All Q xs
All-implies P Q [] f h = tt
All-implies P Q (x ∷ xs) f (h, hs) = (f x h, All-implies P Q xs f hs)

abbrev pushed : IntegerSpool → List ℕ → IntegerSpool
pushed s values = record s {
  tuples = s.tuples ++ (padded values ∷ []);
  rows = s.rows + 1;
  minimum = with_bounds min s.minimum values;
  maximum = with_bounds max s.maximum values;
}

module _ (s : IntegerSpool) (values : List ℕ) (b : IsBounded s) (words : All IsU64 values)
    (count : length values ≡ s.fields) where
  old_within :
      (t : List ℕ)
      → ((field : ℕ) → field < s.fields → Within s t field)
      → (field : ℕ) → field < s.fields
      → Within (pushed s values) t field
  old_within t h field small =
      let w = h field small in
      let few = b.few in
      let lo = at-with_bounds min s.minimum values field (omega (arith, b.minima)) (omega arith) in
      let hi = at-with_bounds max s.maximum values field (omega (arith, b.maxima)) (omega arith) in
      record {
        word = w.word;
        above = omega (arith, lo, w.above);
        below = omega (arith, hi, w.below);
        bounded = max-words s.maximum values field b.words;
        in_array = w.in_array;
      }

  new_within : (field : ℕ) → field < s.fields → Within (pushed s values) (padded values) field
  new_within field small =
      let few = b.few in
      let lo = at-with_bounds min s.minimum values field (omega (arith, b.minima)) (omega arith) in
      let hi = at-with_bounds max s.maximum values field (omega (arith, b.maxima)) (omega arith) in
      let here = at-append values (replicate (4 - length values) 0) field (omega arith) in
      let same = ap ordered here in
      record {
        word = omega (arith, here, words_padded values field words);
        above = omega (arith, lo, same);
        below = omega (arith, hi, same);
        bounded = max-words s.maximum values field b.words;
        in_array = omega arith;
      }

  pushed-IsBounded : IsBounded (pushed s values)
  pushed-IsBounded = record {
    few = b.few;
    minima = length-with_bounds min s.minimum values ∙ b.minima;
    maxima = length-with_bounds max s.maximum values ∙ b.maxima;
    words = λ field. max-words s.maximum values field b.words;
    tuples_in =
        All-append (λ t. (field : ℕ) → field < s.fields → Within (pushed s values) t field) s.tuples
          (padded values ∷ [])
          (All-implies (λ t. (field : ℕ) → field < s.fields → Within s t field)
            (λ t. (field : ℕ) → field < s.fields → Within (pushed s values) t field) s.tuples
            old_within b.tuples_in)
          (new_within, tt);
    counted = omega (arith, b.counted, length-append s.tuples (padded values ∷ []));
  }

-- A new spool of one to four columns keeps bounds.
pub create_spool-IsBounded :
    (fields : ℕ) (s : IntegerSpool) → create_spool fields ≡ ok s → IsBounded s
unfolding create_spool
create_spool-IsBounded fields s e = elim (Bool-cases (leb 1 fields && leb fields 4)) [
  | inl good ↦
      let made : ◌≡◌ {A = S IntegerSpool}
          (ok (record {
            fields = fields;
            tuples = [];
            rows = 0;
            minimum = replicate 4 (2 ^ 64 - 1);
            maximum = replicate 4 0;
          }))
          (ok s) =
        rw good at e in
      rw (← ok_inj made) (record {
        few = ground arith;
        minima = refl;
        maxima = refl;
        words = λ field. omega (arith, at-zeros 4 field);
        tuples_in = tt;
        counted = refl;
      })
  | inr bad ↦
      let refused : ◌≡◌ {A = S IntegerSpool} (err wrong_field_count) (ok s) = rw bad at e in
      absurd (cc)
]

-- Pushing a tuple of 64-bit words keeps every tuple of the spool, the new one too, in the bounds of its
-- columns, and the count of rows right.
pub push-IsBounded :
    (s : IntegerSpool) (values : List ℕ) (s' : IntegerSpool)
    → IsBounded s
    → All IsU64 values
    → push s values ≡ ok s'
    → IsBounded s'
unfolding push
push-IsBounded s values s' b words e = elim (Bool-cases (length values == s.fields)) [
  | inl fits ↦ elim (Bool-cases (ltb (s.rows + 1) (2 ^ 64))) [
    | inl room ↦
        let made : ◌≡◌ {A = S IntegerSpool} (ok (pushed s values)) (ok s') = rw (fits, room) at e in
        rw (← ok_inj made)
          (pushed-IsBounded s values b words ((==_iff (length values) s.fields).0 fits))
    | inr full ↦
        let refused : ◌≡◌ {A = S IntegerSpool} (err too_many_tuples) (ok s') =
          rw (fits, full) at e in
        absurd (cc)
  ]
  | inr other ↦
      let refused : ◌≡◌ {A = S IntegerSpool} (err wrong_field_count) (ok s') = rw other at e in
      absurd (cc)
]
