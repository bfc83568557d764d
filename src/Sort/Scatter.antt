-- ===== src/Sort/Scatter.antt =====
-- One pass of the radix sort gathers the keys by their digit, and keeps the order of equal digits.
use velr.Base.{
  ℕ, zero, suc, ◌+◌, ◌≤◌, ◌<◌, true, List, [], ◌∷◌, ◌++◌, append_assoc, append-nil, length,
  length-append, take, drop, replicate, ◌==◌, ==_iff, ne→==, if◌then◌else◌, ◌≡◌, ◌≢◌, refl, sym, ap,
  ap₂, ◌∙◌, arith, All, subst, length-take, length-drop, take-append-drop,
}
use velr.Sort.Keys.{at, put}
use velr.Sort.Radix.{digit, bump, histogram, starts, scatter}

module _ (pass : ℕ) where
  -- The keys with one digit, in order, and all keys by digits from `bin` on.
  abbrev pub bucket : ℕ → List ℕ → List ℕ
  bucket bin [] = []
  bucket bin (key ∷ keys) = if digit pass key == bin then key ∷ bucket bin keys else bucket bin keys

  abbrev pub gather : ℕ → ℕ → List ℕ → List ℕ
  gather zero bin keys = []
  gather (suc n) bin keys = bucket bin keys ++ gather n (bin + 1) keys

  abbrev pub counts_from : ℕ → ℕ → List ℕ → List ℕ
  counts_from zero bin keys = []
  counts_from (suc n) bin keys = length (bucket bin keys) ∷ counts_from n (bin + 1) keys

  -- What the scatter has placed in a bin, and the places that are left in it.
  record Bin : Type 0 where
    placed : List ℕ
    free : List ℕ

  abbrev lay : List Bin → List ℕ
  lay [] = []
  lay (b ∷ bins) = b.placed ++ (b.free ++ lay bins)

  abbrev offsets_of : ℕ → List Bin → List ℕ
  offsets_of base [] = []
  offsets_of base (b ∷ bins) =
      (base + length b.placed) ∷ offsets_of (base + length b.placed + length b.free) bins

  -- A key goes to the first free place of its bin.
  abbrev fill : List Bin → ℕ → ℕ → List Bin
  fill [] i key = []
  fill (b ∷ bins) zero key = record { placed = b.placed ++ (key ∷ []); free = drop 1 b.free } ∷ bins
  fill (b ∷ bins) (suc i) key = b ∷ fill bins i key

  -- The bins from `bin` on have room for just these keys.
  abbrev Room : ℕ → List Bin → List ℕ → Type 0
  Room bin [] keys = Unit {0}
  Room bin (b ∷ bins) keys = (length b.free ≡ length (bucket bin keys)) × Room (bin + 1) bins keys

  put-behind : (xs ys : List ℕ) (i v : ℕ) → put (xs ++ ys) (length xs + i) v ≡ xs ++ put ys i v
  put-behind [] ys i v = ap (λ (k : ℕ). put ys k v) {x = 0 + i} {y = i} (omega arith)
  put-behind (x ∷ xs) ys i v =
      let e : suc (length xs) + i ≡ suc (length xs + i) = omega arith in
      ap (λ (k : ℕ). put (x ∷ (xs ++ ys)) k v) e ∙ ap (◌∷◌ x) (put-behind xs ys i v)

  -- Where the first free place of a bin is, and how many it has.
  abbrev place : List Bin → ℕ → ℕ
  place [] i = 0
  place (b ∷ bins) zero = length b.placed
  place (b ∷ bins) (suc i) = length b.placed + (length b.free + place bins i)

  abbrev room_in : List Bin → ℕ → ℕ
  room_in [] i = 0
  room_in (b ∷ bins) zero = length b.free
  room_in (b ∷ bins) (suc i) = room_in bins i

  at-offsets_of :
      (bins : List Bin) (base i : ℕ)
      → 0 < room_in bins i
      → at (offsets_of base bins) i ≡ base + place bins i
  at-offsets_of [] base i h = absurd (omega arith)
  at-offsets_of (b ∷ bins) base zero h = refl
  at-offsets_of (b ∷ bins) base (suc i) h =
      omega (arith, at-offsets_of bins (base + length b.placed + length b.free) i h)

  put-first :
      (free rest : List ℕ) (key : ℕ)
      → 0 < length free
      → put (free ++ rest) 0 key ≡ key ∷ (drop 1 free ++ rest)
  put-first [] rest key h = absurd (omega arith)
  put-first (x ∷ free) rest key h = refl

  put-lay :
      (bins : List Bin) (i key : ℕ)
      → 0 < room_in bins i
      → put (lay bins) (place bins i) key ≡ lay (fill bins i key)
  put-lay [] i key h = absurd (omega arith)
  put-lay (b ∷ bins) zero key h =
      ap (λ (k : ℕ). put (b.placed ++ (b.free ++ lay bins)) k key) {x = length b.placed}
        {y = length b.placed + 0} (omega arith)
      ∙ put-behind b.placed (b.free ++ lay bins) 0 key
      ∙ ap (λ (xs : List ℕ). b.placed ++ xs) (put-first b.free (lay bins) key h)
      ∙ sym (append_assoc b.placed (key ∷ []) (drop 1 b.free ++ lay bins))
  put-lay (b ∷ bins) (suc i) key h =
      put-behind b.placed (b.free ++ lay bins) (length b.free + place bins i) key
      ∙ ap (λ (xs : List ℕ). b.placed ++ xs)
          (put-behind b.free (lay bins) (place bins i) key
            ∙ ap (λ (xs : List ℕ). b.free ++ xs) (put-lay bins i key h))

  bump-offsets_of :
      (bins : List Bin) (base i key : ℕ)
      → 0 < room_in bins i
      → bump (offsets_of base bins) i ≡ offsets_of base (fill bins i key)
  bump-offsets_of [] base i key h = absurd (omega arith)
  bump-offsets_of (b ∷ bins) base zero key h =
      let one : base + length b.placed + 1 ≡ base + length (b.placed ++ (key ∷ [])) =
        omega (arith, length-append b.placed (key ∷ [])) in
      let less : base + length b.placed + length b.free
          ≡ base + length (b.placed ++ (key ∷ [])) + length (drop 1 b.free) =
        omega (arith, length-append b.placed (key ∷ []), length-drop 1 b.free) in
      ap₂ (λ (x y : ℕ). x ∷ offsets_of y bins) one less
  bump-offsets_of (b ∷ bins) base (suc i) key h =
      ap (◌∷◌ (base + length b.placed))
        (bump-offsets_of bins (base + length b.placed + length b.free) i key h)

  bucket_here :
      (bin key : ℕ) (keys : List ℕ)
      → digit pass key ≡ bin
      → length (bucket bin (key ∷ keys)) ≡ suc (length (bucket bin keys))
  bucket_here bin key keys e = rw ((==_iff (digit pass key) bin).1 e) refl

  bucket_other :
      (bin key : ℕ) (keys : List ℕ)
      → digit pass key ≢ bin
      → bucket bin (key ∷ keys) ≡ bucket bin keys
  bucket_other bin key keys e = rw (ne→== (digit pass key) bin e) refl

  Room-room_in :
      (bins : List Bin) (bin i key : ℕ) (keys : List ℕ)
      → Room bin bins (key ∷ keys)
      → digit pass key ≡ bin + i
      → i < length bins
      → 0 < room_in bins i
  Room-room_in [] bin i key keys room e h = absurd (omega arith)
  Room-room_in (b ∷ bins) bin zero key keys (fits, room) e h =
      omega (arith, bucket_here bin key keys (omega arith))
  Room-room_in (b ∷ bins) bin (suc i) key keys (fits, room) e h =
      Room-room_in bins (bin + 1) i key keys room (omega arith) (omega arith)

  Room-later :
      (bins : List Bin) (bin key : ℕ) (keys : List ℕ)
      → Room bin bins (key ∷ keys)
      → digit pass key < bin
      → Room bin bins keys
  Room-later [] bin key keys room h = tt
  Room-later (b ∷ bins) bin key keys (fits, room) h = (
    fits ∙ ap length (bucket_other bin key keys (λ e. omega arith)),
    Room-later bins (bin + 1) key keys room (omega arith),
  )

  Room-fill :
      (bins : List Bin) (bin i key : ℕ) (keys : List ℕ)
      → Room bin bins (key ∷ keys)
      → digit pass key ≡ bin + i
      → i < length bins
      → Room bin (fill bins i key) keys
  Room-fill [] bin i key keys room e h = tt
  Room-fill (b ∷ bins) bin zero key keys (fits, room) e h = (
    omega (arith, length-drop 1 b.free, bucket_here bin key keys (omega arith)),
    Room-later bins (bin + 1) key keys room (omega arith),
  )
  Room-fill (b ∷ bins) bin (suc i) key keys (fits, room) e h = (
    fits ∙ ap length (bucket_other bin key keys (λ x. omega arith)),
    Room-fill bins (bin + 1) i key keys room (omega arith) (omega arith),
  )

  length-fill : (bins : List Bin) (i key : ℕ) → length (fill bins i key) ≡ length bins
  length-fill [] i key = refl
  length-fill (b ∷ bins) zero key = refl
  length-fill (b ∷ bins) (suc i) key = ap suc (length-fill bins i key)

  abbrev fill_all : List Bin → List ℕ → List Bin
  fill_all bins [] = bins
  fill_all bins (key ∷ keys) = fill_all (fill bins (digit pass key) key) keys

  abbrev pub Digits : ℕ → List ℕ → Type 0
  Digits n keys = All (λ key. digit pass key < n) keys

  -- The scatter fills the bins.
  scatter-fill_all :
      (keys : List ℕ) (bins : List Bin)
      → Room 0 bins keys
      → Digits (length bins) keys
      → scatter pass (offsets_of 0 bins) (lay bins) keys ≡ lay (fill_all bins keys)
  unfolding scatter
  scatter-fill_all [] bins room small = refl
  scatter-fill_all (key ∷ keys) bins room (small, smalls) =
      let i : ℕ = digit pass key in
      let free = Room-room_in bins 0 i key keys room (omega arith) small in
      let here : at (offsets_of 0 bins) i ≡ place bins i =
        at-offsets_of bins 0 i free ∙ omega arith in
      rw (bump-offsets_of bins 0 i key free) (
        rw (here, put-lay bins i key free)
          (scatter-fill_all keys (fill bins i key)
            (Room-fill bins 0 i key keys room (omega arith) small)
            (subst (λ n. Digits n keys) (sym (length-fill bins i key)) smalls)))

  -- The bins when all keys have been placed.
  abbrev filled : ℕ → List Bin → List ℕ → List Bin
  filled bin [] keys = []
  filled bin (b ∷ bins) keys =
      record { placed = b.placed ++ bucket bin keys; free = drop (length (bucket bin keys)) b.free }
      ∷ filled (bin + 1) bins keys

  filled-later :
      (bins : List Bin) (bin key : ℕ) (keys : List ℕ)
      → digit pass key < bin
      → filled bin bins (key ∷ keys) ≡ filled bin bins keys
  filled-later [] bin key keys h = refl
  filled-later (b ∷ bins) bin key keys h =
      rw
        (
          bucket_other bin key keys (λ e. omega arith),
          filled-later bins (bin + 1) key keys (omega arith),
        )
        refl

  drop-more : (n : ℕ) (xs : List ℕ) → drop n (drop 1 xs) ≡ drop (suc n) xs
  drop-more zero [] = refl
  drop-more (suc n) [] = refl
  drop-more n (x ∷ xs) = refl

  filled-fill :
      (bins : List Bin) (bin i key : ℕ) (keys : List ℕ)
      → digit pass key ≡ bin + i
      → filled bin (fill bins i key) keys ≡ filled bin bins (key ∷ keys)
  filled-fill [] bin i key keys e = refl
  filled-fill (b ∷ bins) bin zero key keys e =
      let here : (digit pass key == bin) ≡ true = (==_iff (digit pass key) bin).1 (omega arith) in
      rw
        (
          filled-later bins (bin + 1) key keys (omega arith),
          here,
          append_assoc b.placed (key ∷ []) (bucket bin keys),
          drop-more (length (bucket bin keys)) b.free,
        )
        refl
  filled-fill (b ∷ bins) bin (suc i) key keys e =
      rw
        (
          bucket_other bin key keys (λ x. omega arith),
          filled-fill bins (bin + 1) i key keys (omega arith),
        )
        refl

  filled-nil : (bins : List Bin) (bin : ℕ) → filled bin bins [] ≡ bins
  filled-nil [] bin = refl
  filled-nil (b ∷ bins) bin = rw (append-nil b.placed, filled-nil bins (bin + 1)) refl

  fill_all-filled : (keys : List ℕ) (bins : List Bin) → fill_all bins keys ≡ filled 0 bins keys
  fill_all-filled [] bins = sym (filled-nil bins 0)
  fill_all-filled (key ∷ keys) bins =
      fill_all-filled keys (fill bins (digit pass key) key)
      ∙ filled-fill bins 0 (digit pass key) key keys (omega arith)

  -- The bins that the first places cut the scratch array into.
  abbrev cut : List ℕ → List ℕ → List Bin
  cut [] scratch = []
  cut (c ∷ counts) scratch =
      record { placed = []; free = take c scratch } ∷ cut counts (drop c scratch)

  abbrev pub sum : List ℕ → ℕ
  sum [] = 0
  sum (c ∷ counts) = c + sum counts

  lay-cut :
      (counts scratch : List ℕ) → sum counts ≡ length scratch → lay (cut counts scratch) ≡ scratch
  lay-cut [] [] h = refl
  lay-cut [] (x ∷ scratch) h = absurd (omega arith)
  lay-cut (c ∷ counts) scratch h =
      ap (λ (xs : List ℕ). take c scratch ++ xs)
        (lay-cut counts (drop c scratch) (omega (arith, length-drop c scratch)))
      ∙ take-append-drop c scratch

  offsets_of-cut :
      (counts scratch : List ℕ) (base : ℕ)
      → sum counts ≤ length scratch
      → offsets_of base (cut counts scratch) ≡ starts base counts
  offsets_of-cut [] scratch base h = refl
  offsets_of-cut (c ∷ counts) scratch base h =
      let none_placed : base + 0 ≡ base = omega arith in
      let next : base + 0 + length (take c scratch) ≡ base + c =
        omega (arith, length-take c scratch) in
      ap₂ (λ (x y : ℕ). x ∷ offsets_of y (cut counts (drop c scratch))) none_placed next
      ∙ ap (◌∷◌ base)
          (offsets_of-cut counts (drop c scratch) (base + c) (omega (arith, length-drop c scratch)))

  Room-cut :
      (n bin : ℕ) (keys scratch : List ℕ)
      → sum (counts_from n bin keys) ≤ length scratch
      → Room bin (cut (counts_from n bin keys) scratch) keys
  Room-cut zero bin keys scratch h = tt
  Room-cut (suc n) bin keys scratch h = (
    omega (arith, length-take (length (bucket bin keys)) scratch),
    Room-cut n (bin + 1) keys (drop (length (bucket bin keys)) scratch)
        (omega (arith, length-drop (length (bucket bin keys)) scratch)),
  )

  drop-all : (n : ℕ) (xs : List ℕ) → length xs ≤ n → drop n xs ≡ []
  drop-all zero [] h = refl
  drop-all zero (x ∷ xs) h = absurd (omega arith)
  drop-all (suc n) [] h = refl
  drop-all (suc n) (x ∷ xs) h = drop-all n xs (omega arith)

  lay-filled :
      (n bin : ℕ) (keys scratch : List ℕ)
      → lay (filled bin (cut (counts_from n bin keys) scratch) keys) ≡ gather n bin keys
  lay-filled zero bin keys scratch = refl
  lay-filled (suc n) bin keys scratch =
      let c : ℕ = length (bucket bin keys) in
      let none_free : drop c (take c scratch) ≡ [] =
        drop-all c (take c scratch) (omega (arith, length-take c scratch)) in
      rw none_free
        (ap (λ (xs : List ℕ). bucket bin keys ++ xs) (lay-filled n (bin + 1) keys (drop c scratch)))

  length-cut :
      (n bin : ℕ) (keys scratch : List ℕ) → length (cut (counts_from n bin keys) scratch) ≡ n
  length-cut zero bin keys scratch = refl
  length-cut (suc n) bin keys scratch =
      ap suc (length-cut n (bin + 1) keys (drop (length (bucket bin keys)) scratch))

  sum-later :
      (n bin key : ℕ) (keys : List ℕ)
      → digit pass key < bin
      → sum (counts_from n bin (key ∷ keys)) ≡ sum (counts_from n bin keys)
  sum-later zero bin key keys h = refl
  sum-later (suc n) bin key keys h = omega (
    arith,
    ap length (bucket_other bin key keys (λ e. omega arith)),
    sum-later n (bin + 1) key keys (omega arith),
  )

  sum-one :
      (n bin i key : ℕ) (keys : List ℕ)
      → digit pass key ≡ bin + i
      → i < n
      → sum (counts_from n bin (key ∷ keys)) ≡ suc (sum (counts_from n bin keys))
  sum-one zero bin i key keys e h = absurd (omega arith)
  sum-one (suc n) bin zero key keys e h =
      omega (
        arith,
        bucket_here bin key keys (omega arith),
        sum-later n (bin + 1) key keys (omega arith),
      )
  sum-one (suc n) bin (suc i) key keys e h = omega (
    arith,
    ap length (bucket_other bin key keys (λ x. omega arith)),
    sum-one n (bin + 1) i key keys (omega arith) (omega arith),
  )

  sum-nil : (n bin : ℕ) → sum (counts_from n bin []) ≡ 0
  sum-nil zero bin = refl
  sum-nil (suc n) bin = omega (arith, sum-nil n (bin + 1))

  pub sum-counts_from :
      (n : ℕ) (keys : List ℕ) → Digits n keys → sum (counts_from n 0 keys) ≡ length keys
  sum-counts_from n [] h = sum-nil n 0
  sum-counts_from n (key ∷ keys) (h, hs) =
      sum-one n 0 (digit pass key) key keys (omega arith) h ∙ ap suc (sum-counts_from n keys hs)

  -- The counts.
  abbrev added : ℕ → List ℕ → List ℕ → List ℕ
  added bin [] keys = []
  added bin (o ∷ offsets) keys = (o + length (bucket bin keys)) ∷ added (bin + 1) offsets keys

  added-later :
      (offsets : List ℕ) (bin key : ℕ) (keys : List ℕ)
      → digit pass key < bin
      → added bin offsets (key ∷ keys) ≡ added bin offsets keys
  added-later [] bin key keys h = refl
  added-later (o ∷ offsets) bin key keys h =
      rw
        (
          bucket_other bin key keys (λ e. omega arith),
          added-later offsets (bin + 1) key keys (omega arith),
        )
        refl

  added-bump :
      (offsets : List ℕ) (bin i key : ℕ) (keys : List ℕ)
      → digit pass key ≡ bin + i
      → added bin (bump offsets i) keys ≡ added bin offsets (key ∷ keys)
  added-bump [] bin i key keys e = refl
  added-bump (o ∷ offsets) bin zero key keys e =
      let one : o + 1 + length (bucket bin keys) ≡ o + length (bucket bin (key ∷ keys)) =
        omega (arith, bucket_here bin key keys (omega arith)) in
      ap₂ (λ (x : ℕ) (xs : List ℕ). x ∷ xs) one
        (sym (added-later offsets (bin + 1) key keys (omega arith)))
  added-bump (o ∷ offsets) bin (suc i) key keys e =
      ap₂ (λ (x : ℕ) (xs : List ℕ). x ∷ xs)
        (ap (λ (xs : List ℕ). o + length xs) (sym (bucket_other bin key keys (λ x. omega arith))))
        (added-bump offsets (bin + 1) i key keys (omega arith))

  added-nil : (offsets : List ℕ) (bin : ℕ) → added bin offsets [] ≡ offsets
  added-nil [] bin = refl
  added-nil (o ∷ offsets) bin =
      let e : o + 0 ≡ o = omega arith in
      ap₂ (λ (x : ℕ) (xs : List ℕ). x ∷ xs) e (added-nil offsets (bin + 1))

  histogram-added : (keys offsets : List ℕ) → histogram pass offsets keys ≡ added 0 offsets keys
  unfolding histogram
  histogram-added [] offsets = sym (added-nil offsets 0)
  histogram-added (key ∷ keys) offsets =
      histogram-added keys (bump offsets (digit pass key))
      ∙ added-bump offsets 0 (digit pass key) key keys (omega arith)

  added-zeros :
      (n bin : ℕ) (keys : List ℕ) → added bin (replicate n 0) keys ≡ counts_from n bin keys
  added-zeros zero bin keys = refl
  added-zeros (suc n) bin keys =
      let e : 0 + length (bucket bin keys) ≡ length (bucket bin keys) = omega arith in
      ap₂ (λ (x : ℕ) (xs : List ℕ). x ∷ xs) e (added-zeros n (bin + 1) keys)

  -- The counts of a pass, and what its scatter makes of the keys.
  pub histogram-counts_from :
      (n : ℕ) (keys : List ℕ) → histogram pass (replicate n 0) keys ≡ counts_from n 0 keys
  histogram-counts_from n keys = histogram-added keys (replicate n 0) ∙ added-zeros n 0 keys

  pub scatter-gather :
      (n : ℕ) (keys scratch : List ℕ)
      → Digits n keys
      → length scratch ≡ length keys
      → scatter pass (starts 0 (counts_from n 0 keys)) scratch keys ≡ gather n 0 keys
  scatter-gather n keys scratch small same =
      let total = sum-counts_from n keys small in
      let bins : List Bin = cut (counts_from n 0 keys) scratch in
      let count = length-cut n 0 keys scratch in
      ap₂ (λ (o s : List ℕ). scatter pass o s keys)
        (sym (offsets_of-cut (counts_from n 0 keys) scratch 0 (omega arith)))
        (sym (lay-cut (counts_from n 0 keys) scratch (omega arith)))
      ∙ scatter-fill_all keys bins (Room-cut n 0 keys scratch (omega arith))
          (subst (λ m. Digits m keys) (sym count) small)
      ∙ ap lay (fill_all-filled keys bins)
      ∙ lay-filled n 0 keys scratch
