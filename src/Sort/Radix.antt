-- ===== src/Sort/Radix.antt =====
-- radix_sort for keys of 64 and 128 bits, without the histograms of text keys: for every byte of the
-- keys, from the lowest, counts, first places, and a scatter into the scratch array.
use velr.Base.{
  ℕ, zero, suc, ◌+◌, ◌*◌, ◌/◌, ◌^◌, bit_and, Bool, false, ◌||◌, List, [], ◌∷◌, length, replicate,
  ◌==◌, if◌then◌else◌,
}
use velr.Sort.Keys.{at, put}

-- `(self >> (pass * 8)) & 255`
unfoldable pub digit : ℕ → ℕ → ℕ
digit pass key = bit_and (key / 2 ^ (pass * 8)) 255

abbrev pub bump : List ℕ → ℕ → List ℕ
bump offsets bin = put offsets bin (at offsets bin + 1)

unfoldable pub histogram : ℕ → List ℕ → List ℕ → List ℕ
histogram pass offsets [] = offsets
histogram pass offsets (key ∷ keys) = histogram pass (bump offsets (digit pass key)) keys

abbrev pub any_full : ℕ → List ℕ → Bool
any_full n [] = false
any_full n (count ∷ counts) = count == n || any_full n counts

abbrev pub starts : ℕ → List ℕ → List ℕ
starts offset [] = []
starts offset (count ∷ counts) = offset ∷ starts (offset + count) counts

unfoldable pub scatter : ℕ → List ℕ → List ℕ → List ℕ → List ℕ
scatter pass offsets scratch [] = scratch
scatter pass offsets scratch (key ∷ keys) =
    let bin = digit pass key in
    scatter pass (bump offsets bin) (put scratch (at offsets bin) key) keys

-- One pass: the keys and the scratch array, which are swapped unless all keys have one digit.
unfoldable pub radix_pass : ℕ → List ℕ → List ℕ → List ℕ × List ℕ
radix_pass pass keys scratch =
    let counts = histogram pass (replicate 256 0) keys in
    if any_full (length keys) counts
    then (keys, scratch)
    else (scatter pass (starts 0 counts) scratch keys, keys)

-- `n` passes from `pass` on.
unfoldable pub radix_loop : ℕ → ℕ → List ℕ → List ℕ → List ℕ
radix_loop zero pass keys scratch = keys
radix_loop (suc n) pass keys scratch =
    let (keys', scratch') = radix_pass pass keys scratch in radix_loop n (pass + 1) keys' scratch'

unfoldable pub radix_sort : List ℕ → ℕ → List ℕ
radix_sort keys passes = radix_loop passes 0 keys (replicate (length keys) 0)
