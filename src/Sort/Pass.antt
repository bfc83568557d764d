-- ===== src/Sort/Pass.antt =====
-- One pass of the radix sort: keys in the order of the lower bytes come out in the order of these and the byte of the pass.
use velr.Base.{
  bit_and, ℕ, zero, suc, ◌+◌, ◌*◌, ◌/◌, ◌%◌, ◌^◌, ◌≤◌, ◌<◌, true, List, [], ◌∷◌, ◌++◌, length,
  length-append, ◌==◌, ==_iff, ne→==, Bool-cases, inl, inr, ◌≡◌, ◌≢◌, refl, sym, ap, ◌∙◌, arith,
  All, All-append, pow-add, two_pow_mono,
}
use native.Mathlib.Nat.{mod-lt, div-add-mod', mod-eq_of_lt, add-mul-mod_self_right, mul_assoc}
use velr.Base.Bits.{bit_and-ones}
use velr.Sort.Packing.{shifted-lt, right_distrib}
use velr.Sort.Merge.{occurrences}
use velr.Sort.Radix.{digit, any_full, radix_pass}
use velr.Sort.Scatter.{
  bucket, gather, counts_from, Digits, sum, sum-counts_from, histogram-counts_from, scatter-gather,
}

-- In ascending order of a measure.
abbrev pub SortedBy : (ℕ → ℕ) → List ℕ → Type 0
SortedBy f [] = Unit {0}
SortedBy f (x ∷ xs) = All (λ y. f x ≤ f y) xs × SortedBy f xs

module _ (pass : ℕ) where
  digit-lt : (key : ℕ) → digit pass key < 256
  unfolding digit
  digit-lt key = omega (arith, bit_and-ones 8 (key / 2 ^ (pass * 8)))

  Digits-digit : (keys : List ℕ) → Digits pass 256 keys
  Digits-digit [] = tt
  Digits-digit (key ∷ keys) = (digit-lt key, Digits-digit keys)

  All-bucket :
      (P : ℕ → Type 0) (bin : ℕ) (keys : List ℕ) → All P keys → All P (bucket pass bin keys)
  All-bucket P bin [] h = tt
  All-bucket P bin (key ∷ keys) (h, hs) = elim (Bool-cases (digit pass key == bin)) [
    | inl here ↦ rw here (h, All-bucket P bin keys hs)
    | inr other ↦ rw other (All-bucket P bin keys hs)
  ]

  SortedBy-bucket :
      (f : ℕ → ℕ) (bin : ℕ) (keys : List ℕ) → SortedBy f keys → SortedBy f (bucket pass bin keys)
  SortedBy-bucket f bin [] h = tt
  SortedBy-bucket f bin (key ∷ keys) (h, hs) = elim (Bool-cases (digit pass key == bin)) [
    | inl here ↦ rw here (All-bucket (λ y. f key ≤ f y) bin keys h, SortedBy-bucket f bin keys hs)
    | inr other ↦ rw other (SortedBy-bucket f bin keys hs)
  ]

  bucket_digits :
      (bin : ℕ) (keys : List ℕ) → All (λ key. digit pass key ≡ bin) (bucket pass bin keys)
  bucket_digits bin [] = tt
  bucket_digits bin (key ∷ keys) = elim (Bool-cases (digit pass key == bin)) [
    | inl here ↦ rw here ((==_iff (digit pass key) bin).0 here, bucket_digits bin keys)
    | inr other ↦ rw other (bucket_digits bin keys)
  ]

  gather_digits :
      (n bin : ℕ) (keys : List ℕ) → All (λ key. bin ≤ digit pass key) (gather pass n bin keys)
  gather_digits zero bin keys = tt
  gather_digits (suc n) bin keys =
      All-append (λ key. bin ≤ digit pass key) (bucket pass bin keys) (gather pass n (bin + 1) keys)
        (lower bin bin (bucket pass bin keys)
          (equals bin (bucket pass bin keys) (bucket_digits bin keys)) (omega arith))
        (lower bin (bin + 1) (gather pass n (bin + 1) keys) (gather_digits n (bin + 1) keys)
          (omega arith))
    where
      lower :
          (a b : ℕ) (xs : List ℕ)
          → All (λ key. b ≤ digit pass key) xs
          → a ≤ b
          → All (λ key. a ≤ digit pass key) xs
      lower a b [] h k = tt
      lower a b (x ∷ xs) (h, hs) k = (omega arith, lower a b xs hs k)

      equals :
          (b : ℕ) (xs : List ℕ)
          → All (λ key. digit pass key ≡ b) xs
          → All (λ key. b ≤ digit pass key) xs
      equals b [] h = tt
      equals b (x ∷ xs) (h, hs) = (omega arith, equals b xs hs)

  -- The measures before and after the pass.
  abbrev low : ℕ → ℕ
  low key = key % 2 ^ (pass * 8)

  abbrev next : ℕ → ℕ
  next key = key % 2 ^ (suc pass * 8)

  next-digit : (key : ℕ) → next key ≡ digit pass key * 2 ^ (pass * 8) + low key
  unfolding digit
  next-digit key =
      let m : ℕ = 2 ^ (pass * 8) in
      let q : ℕ = key / m in
      let some_bit : 2 ^ 0 ≤ m = two_pow_mono 0 (pass * 8) (omega arith) in
      let cut : q * m + key % m ≡ key = div-add-mod' key m in
      let byte : q / 256 * 256 + q % 256 ≡ q = div-add-mod' q 256 in
      let d : bit_and q 255 ≡ q % 256 = bit_and-ones 8 q in
      let r : key % m < m = mod-lt key (omega arith) in
      let b : q % 256 < 256 = omega arith in
      let small = shifted-lt m (q % 256) 256 (key % m) 0 r b in
      let parts : q * m ≡ q / 256 * 256 * m + q % 256 * m =
        ap (λ (x : ℕ). x * m) (sym byte) ∙ right_distrib (q / 256 * 256) (q % 256) m in
      let high : q / 256 * 256 * m ≡ q / 256 * (256 * m) = mul_assoc (q / 256) 256 m in
      let whole : key ≡ q % 256 * m + key % m + q / 256 * (256 * m) =
        omega (arith, cut, parts, high) in
      let exponent : suc pass * 8 ≡ 8 + pass * 8 = omega arith in
      let power : 2 ^ (suc pass * 8) ≡ 256 * m =
        ap (λ (x : ℕ). 2 ^ x) exponent ∙ pow-add 2 8 (pass * 8) in
      ap (λ (x : ℕ). key % x) power
      ∙ ap (λ (x : ℕ). x % (256 * m)) whole
      ∙ add-mul-mod_self_right (q % 256 * m + key % m) (q / 256) (256 * m)
      ∙ mod-eq_of_lt {n = q % 256 * m + key % m} (omega (arith, small))
      ∙ ap (λ (x : ℕ). x * m + key % m) (sym d)

  next-le : (x y : ℕ) → digit pass x < digit pass y → next x ≤ next y
  next-le x y h =
      let m : ℕ = 2 ^ (pass * 8) in
      let some_bit : 2 ^ 0 ≤ m = two_pow_mono 0 (pass * 8) (omega arith) in
      let r : low x < m = mod-lt x (omega arith) in
      omega (
        arith,
        next-digit x,
        next-digit y,
        shifted-lt m (digit pass x) (digit pass y) (low x) (low y) r h,
      )

  -- With one digit the next order is the old one.
  All-next :
      (bin x : ℕ) (xs : List ℕ)
      → digit pass x ≡ bin
      → All (λ key. digit pass key ≡ bin) xs
      → All (λ y. low x ≤ low y) xs
      → All (λ y. next x ≤ next y) xs
  All-next bin x [] e h k = tt
  All-next bin x (y ∷ xs) e (h, hs) (k, ks) =
      let same : digit pass x * 2 ^ (pass * 8) ≡ digit pass y * 2 ^ (pass * 8) =
        ap (λ (d : ℕ). d * 2 ^ (pass * 8)) (e ∙ sym h) in
      (omega (arith, next-digit x, next-digit y, same), All-next bin x xs e hs ks)

  SortedBy-next :
      (bin : ℕ) (xs : List ℕ)
      → All (λ key. digit pass key ≡ bin) xs
      → SortedBy low xs
      → SortedBy next xs
  SortedBy-next bin [] h s = tt
  SortedBy-next bin (x ∷ xs) (h, hs) (s, ss) =
      (All-next bin x xs h hs s, SortedBy-next bin xs hs ss)

  next-above :
      (bin x : ℕ) (ys : List ℕ)
      → digit pass x ≡ bin
      → All (λ key. bin + 1 ≤ digit pass key) ys
      → All (λ y. next x ≤ next y) ys
  next-above bin x [] e h = tt
  next-above bin x (y ∷ ys) e (h, hs) = (next-le x y (omega arith), next-above bin x ys e hs)

  SortedBy-append :
      (bin : ℕ) (xs ys : List ℕ)
      → All (λ key. digit pass key ≡ bin) xs
      → All (λ key. bin + 1 ≤ digit pass key) ys
      → SortedBy next xs
      → SortedBy next ys
      → SortedBy next (xs ++ ys)
  SortedBy-append bin [] ys h k s t = t
  SortedBy-append bin (x ∷ xs) ys (h, hs) k (s, ss) t = (
    All-append (λ y. next x ≤ next y) xs ys s (next-above bin x ys h k),
    SortedBy-append bin xs ys hs k ss t,
  )

  SortedBy-gather :
      (n bin : ℕ) (keys : List ℕ) → SortedBy low keys → SortedBy next (gather pass n bin keys)
  SortedBy-gather zero bin keys s = tt
  SortedBy-gather (suc n) bin keys s =
      SortedBy-append bin (bucket pass bin keys) (gather pass n (bin + 1) keys)
        (bucket_digits bin keys) (gather_digits n (bin + 1) keys)
        (SortedBy-next bin (bucket pass bin keys) (bucket_digits bin keys)
          (SortedBy-bucket low bin keys s))
        (SortedBy-gather n (bin + 1) keys s)

  -- No key is lost.
  occurrences-append :
      (k : ℕ) (xs ys : List ℕ) → occurrences k (xs ++ ys) ≡ occurrences k xs + occurrences k ys
  occurrences-append k [] ys = omega arith
  occurrences-append k (x ∷ xs) ys = omega (arith, occurrences-append k xs ys)

  occurrences_here :
      (k bin : ℕ) (keys : List ℕ)
      → digit pass k ≡ bin
      → occurrences k (bucket pass bin keys) ≡ occurrences k keys
  occurrences_here k bin [] e = refl
  occurrences_here k bin (key ∷ keys) e = elim (Bool-cases (key == k)) [
    | inl same ↦
        let d : digit pass key ≡ bin = ap (digit pass) ((==_iff key k).0 same) ∙ e in
        rw ((==_iff (digit pass key) bin).1 d) (omega (arith, occurrences_here k bin keys e))
    | inr other ↦ elim (Bool-cases (digit pass key == bin)) [
      | inl here ↦ rw here (omega (arith, occurrences_here k bin keys e))
      | inr away ↦ rw (away, other) (omega (arith, occurrences_here k bin keys e))
    ]
  ]

  occurrences_away :
      (k bin : ℕ) (keys : List ℕ) → digit pass k ≢ bin → occurrences k (bucket pass bin keys) ≡ 0
  occurrences_away k bin [] e = refl
  occurrences_away k bin (key ∷ keys) e = elim (Bool-cases (digit pass key == bin)) [
    | inl here ↦
        let d : digit pass key ≡ bin = (==_iff (digit pass key) bin).0 here in
        let other : key ≢ k = λ same. e (sym (ap (digit pass) same) ∙ d) in
        rw (here, ne→== key k other) (omega (arith, occurrences_away k bin keys e))
    | inr away ↦ rw away (occurrences_away k bin keys e)
  ]

  occurrences-below :
      (k n bin : ℕ) (keys : List ℕ)
      → digit pass k < bin
      → occurrences k (gather pass n bin keys) ≡ 0
  occurrences-below k zero bin keys h = refl
  occurrences-below k (suc n) bin keys h = omega (
    arith,
    occurrences-append k (bucket pass bin keys) (gather pass n (bin + 1) keys),
    occurrences_away k bin keys (λ e. omega arith),
    occurrences-below k n (bin + 1) keys (omega arith),
  )

  occurrences-gather :
      (k n bin i : ℕ) (keys : List ℕ)
      → digit pass k ≡ bin + i
      → i < n
      → occurrences k (gather pass n bin keys) ≡ occurrences k keys
  occurrences-gather k zero bin i keys e h = absurd (omega arith)
  occurrences-gather k (suc n) bin zero keys e h = omega (
    arith,
    occurrences-append k (bucket pass bin keys) (gather pass n (bin + 1) keys),
    occurrences_here k bin keys (omega arith),
    occurrences-below k n (bin + 1) keys (omega arith),
  )
  occurrences-gather k (suc n) bin (suc i) keys e h = omega (
    arith,
    occurrences-append k (bucket pass bin keys) (gather pass n (bin + 1) keys),
    occurrences_away k bin keys (λ x. omega arith),
    occurrences-gather k n (bin + 1) i keys (omega arith) (omega arith),
  )

  length-gather :
      (n bin : ℕ) (keys : List ℕ)
      → length (gather pass n bin keys) ≡ sum pass (counts_from pass n bin keys)
  length-gather zero bin keys = refl
  length-gather (suc n) bin keys = omega (
    arith,
    length-append (bucket pass bin keys) (gather pass n (bin + 1) keys),
    length-gather n (bin + 1) keys,
  )

  length-bucket : (bin : ℕ) (keys : List ℕ) → length (bucket pass bin keys) ≤ length keys
  length-bucket bin [] = omega arith
  length-bucket bin (key ∷ keys) = elim (Bool-cases (digit pass key == bin)) [
    | inl here ↦ rw here (omega (arith, length-bucket bin keys))
    | inr away ↦ rw away (omega (arith, length-bucket bin keys))
  ]

  -- A full bin holds all keys.
  full_bucket :
      (bin : ℕ) (keys : List ℕ)
      → length (bucket pass bin keys) ≡ length keys
      → All (λ key. digit pass key ≡ bin) keys
  full_bucket bin [] e = tt
  full_bucket bin (key ∷ keys) e = elim (Bool-cases (digit pass key == bin)) [
    | inl here ↦
        let e' : suc (length (bucket pass bin keys)) ≡ suc (length keys) = rw here at e in
        ((==_iff (digit pass key) bin).0 here, full_bucket bin keys (omega arith))
    | inr away ↦
        let e' : length (bucket pass bin keys) ≡ suc (length keys) = rw away at e in
        absurd (omega (arith, length-bucket bin keys))
  ]

  any_full-bin :
      (n bin : ℕ) (keys : List ℕ)
      → any_full (length keys) (counts_from pass n bin keys) ≡ true
      → (b : ℕ) × All (λ key. digit pass key ≡ b) keys
  any_full-bin zero bin keys e = absurd (cc)
  any_full-bin (suc n) bin keys e =
      elim (Bool-cases (length (bucket pass bin keys) == length keys)) [
        | inl full ↦ (
          bin,
          full_bucket bin keys ((==_iff (length (bucket pass bin keys)) (length keys)).0 full),
        )
        | inr other ↦
            let later : any_full (length keys) (counts_from pass n (bin + 1) keys) ≡ true =
              rw other at e in
            any_full-bin n (bin + 1) keys later
      ]

  pub record Passed (keys : List ℕ) (after : List ℕ × List ℕ) : Type 0 where
    pub sorted : SortedBy low keys → SortedBy next after.0
    pub counts : (k : ℕ) → occurrences k after.0 ≡ occurrences k keys
    pub same_length : length after.0 ≡ length keys
    pub scratch : length after.1 ≡ length after.0

  pub radix_pass-Passed :
      (keys scratch : List ℕ)
      → length scratch ≡ length keys
      → Passed keys (radix_pass pass keys scratch)
  unfolding radix_pass
  radix_pass-Passed keys scratch room =
      rw (histogram-counts_from pass 256 keys)
        (elim (Bool-cases (any_full (length keys) (counts_from pass 256 0 keys))) [
          | inl full ↦
              let (b, one) = any_full-bin 256 0 keys full in
              rw full (record {
                sorted = λ s. SortedBy-next b keys one s;
                counts = λ k. refl;
                same_length = refl;
                scratch = room;
              })
          | inr spread ↦
              let len =
                length-gather 256 0 keys ∙ sum-counts_from pass 256 keys (Digits-digit keys) in
              rw (spread, scatter-gather pass 256 keys scratch (Digits-digit keys) room)
                (record {
                  sorted = λ s. SortedBy-gather 256 0 keys s;
                  counts = λ k.
                      occurrences-gather k 256 0 (digit pass k) keys (omega arith) (digit-lt k);
                  same_length = len;
                  scratch = sym len;
                })
        ])
