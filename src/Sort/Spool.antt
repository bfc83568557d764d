-- ===== src/Sort/Spool.antt =====
-- The external sort of a spool of integer tuples, by the packed keys of its codec.
use velr.Base.{ℕ, ◌*◌, ◌^◌, ◌≤◌, ◌<◌, List, [], ◌∷◌, map, some, All, ◌≡◌, arith, two_pow_mono}
use velr.Sort.Merge.{IsSorted, occurrences}
use velr.Sort.Keys.{IntegerSpool, bits_of, pack, passes}
use velr.Sort.Packing.{Within, value-lt}
use velr.Sort.Unpack.{codec_of, pack-value}
use velr.Sort.Bounds.{IsBounded}
use velr.Sort.External.{external_sort}
use velr.Sort.Sorting.{external_sort-IsSorted}

module _ (s : IntegerSpool) (some_rows : 0 < s.rows) (word : ℕ) (fields : List ℕ)
    (room : bits_of s fields ≤ word) where
  All-Within :
      (t : List ℕ) (xs : List ℕ)
      → ((field : ℕ) → field < s.fields → Within s t field)
      → All (λ x. x < s.fields) xs
      → All (Within s t) xs
  All-Within t [] h k = tt
  All-Within t (x ∷ xs) h (k, ks) = (h x k, All-Within t xs h ks)

  enough_passes : bits_of s fields ≤ passes (codec_of s fields) * 8
  unfolding passes
  enough_passes = omega arith

  pack-lt :
      (t : List ℕ)
      → All (Within s t) fields
      → pack word (codec_of s fields) t < 2 ^ (passes (codec_of s fields) * 8)
  pack-lt t h =
      let e = pack-value s some_rows t word fields h room in
      let below = value-lt s some_rows fields t h in
      let power = two_pow_mono (bits_of s fields) (passes (codec_of s fields) * 8) enough_passes in
      omega arith

  keys-lt :
      (ts : List (List ℕ))
      → All (λ x. x < s.fields) fields
      → All (λ t. (field : ℕ) → field < s.fields → Within s t field) ts
      → All (λ t. pack word (codec_of s fields) t < 2 ^ (passes (codec_of s fields) * 8)) ts
  keys-lt [] k h = tt
  keys-lt (t ∷ ts) k (h, hs) = (pack-lt t (All-Within t fields h k), keys-lt ts k hs)

-- For a spool with some rows, whose tuples lie in its bounds, fields of the spool, a word that the bits
-- of the key fit in, and any capacity of the key arrays and number of workers: the external sort ends, and
-- the packed keys come out in ascending order, each as often as there are tuples with it.
pub external_sort-spool :
    (s : IntegerSpool) (word : ℕ) (fields : List ℕ) (capacity workers : ℕ)
    → IsBounded s
    → 0 < s.rows
    → All (λ x. x < s.fields) fields
    → bits_of s fields ≤ word
    → 1 ≤ capacity
    → 1 ≤ workers
    → (keys : List ℕ) × (external_sort
          (pack word (codec_of s fields))
          (passes (codec_of s fields))
          s.tuples
          capacity
          workers
        ≡ some keys)
      × IsSorted keys
      × ((k : ℕ)
          → occurrences k keys ≡ occurrences k (map (pack word (codec_of s fields)) s.tuples))
external_sort-spool s word fields capacity workers b some_rows known room some_capacity
      some_worker =
    external_sort-IsSorted (pack word (codec_of s fields)) (passes (codec_of s fields)) s.tuples
      capacity some_capacity (keys-lt s some_rows word fields room s.tuples known b.tuples_in)
      workers some_worker
