-- ===== src/Varint/RoundTrip.antt =====
-- Reading back what `varint` writes, with any bytes behind it.
use velr.Base.{
  ℕ, zero, suc, ◌+◌, ◌-◌, ◌*◌, ◌/◌, ◌%◌, ◌^◌, ◌≤◌, ◌<◌, [], ◌∷◌, ◌++◌, length, some, ◌≡◌, refl, ap,
  ap₂, ◌∙◌, arith, bit_and, bit_or, pow-add, ltb, if◌then◌else◌, ne→==, lt→ltb, ge→ltb,
}
use velr.Base.Word.{Bytes, IsU64, low_seven, set_top, keep_low}
use velr.Varint.{varint_len, varint_groups, varint_bytes, read_varint_loop, read_varint}
use velr.Varint.Length.{Groups, varint_len-Groups, varint_len-nine}
use native.Mathlib.Decide.{dec_lt}

last_group : (v : ℕ) → bit_or (bit_and (v % 256) 0x7f) 0 ≡ v % 128
last_group v = rw (low_seven (v % 256) (omega arith)) (keep_low _ (omega arith) ∙ omega arith)

inner_group : (v : ℕ) → bit_or (bit_and (v % 256) 0x7f) 0x80 ≡ v % 128 + 128
inner_group v = rw (low_seven (v % 256) (omega arith)) (set_top _ (omega arith) ∙ omega arith)

varint_groups-append :
    (len i value : ℕ) (acc rest : Bytes)
    → varint_groups len i value acc ++ rest ≡ varint_groups len i value (acc ++ rest)
unfolding varint_groups
varint_groups-append len zero value acc rest = refl
varint_groups-append len (suc i) value acc rest = varint_groups-append len i _ _ rest

length-varint_groups :
    (len i value : ℕ) (acc : Bytes) → length (varint_groups len i value acc) ≡ i + length acc
unfolding varint_groups
length-varint_groups len zero value acc = omega arith
length-varint_groups len (suc i) value acc = omega (
  arith,
  length-varint_groups len i (value / 2 ^ 7)
      (bit_or (bit_and (value % 256) 0x7f) (if ltb (i + 1) len then 0x80 else 0) ∷ acc),
)

-- One byte with the top bit set, in a round that is not the last.
read_inner :
    (n value g : ℕ) (rest : Bytes)
    → g < 128
    → value * 128 + g < 2 ^ 64
    → read_varint_loop (suc (suc n)) value ((g + 128) ∷ rest)
      ≡ read_varint_loop (suc n) (value * 128 + g) rest
unfolding read_varint_loop
read_inner n value g rest hg h = ground (arith, low_seven (g + 128))

seven_more : (i : ℕ) → 2 ^ (7 * suc i) ≡ 128 * 2 ^ (7 * i)
seven_more i = ap (λ (k : ℕ). 2 ^ k) (more i) ∙ pow-add 2 (7 * i) 7 ∙ omega arith
  where
    more : (k : ℕ) → 7 * suc k ≡ 7 * k + 7
    more k = omega arith

-- The bytes above the last one, each with its top bit set.
read_groups :
    (len i r value w : ℕ) (acc : Bytes)
    → i < len
    → w < 2 ^ (7 * i)
    → value * 2 ^ (7 * i) + w < 2 ^ 64
    → read_varint_loop (i + suc r) value (varint_groups len i w acc)
      ≡ read_varint_loop (suc r) (value * 2 ^ (7 * i) + w) acc
unfolding varint_groups
read_groups len zero r value w acc hi hw h =
    ap₂ (λ (n v : ℕ). read_varint_loop n v acc) (omega arith) (omega arith)
read_groups len (suc i) r value w acc hi hw h =
    let e = seven_more i in
    let top : bit_or (bit_and (w % 256) 0x7f) (if ltb (i + 1) len then 0x80 else 0)
        ≡ w % 128 + 128 =
      rw (lt→ltb (i + 1) len (omega arith)) (inner_group w) in
    let p : value * 2 ^ (7 * suc i) ≡ value * 2 ^ (7 * i) * 128 =
      omega (arith, ap (λ (t : ℕ). value * t) e) in
    rw top (
      ap
        (λ (n : ℕ).
          read_varint_loop n value (varint_groups len i (w / 2 ^ 7) ((w % 128 + 128) ∷ acc)))
        (omega arith)
      ∙ read_groups len i (suc r) value (w / 2 ^ 7) _ (omega arith) (omega arith) (omega arith)
      ∙ read_inner r _ (w % 128) acc (omega arith) (omega arith)
      ∙ ap (λ (v : ℕ). read_varint_loop (suc r) v acc) (omega arith))

-- The last byte of a number of fewer than nine bytes, in any round.
read_last :
    (n value g : ℕ) (rest : Bytes)
    → g < 128
    → value * 128 + g < 2 ^ 64
    → read_varint_loop (suc (suc n)) value (g ∷ rest) ≡ some (value * 128 + g, rest)
unfolding read_varint_loop
read_last n value g rest hg h = ground (arith, low_seven g)

read_ninth :
    (value g : ℕ) (rest : Bytes)
    → value * 256 + g < 2 ^ 64
    → read_varint_loop 1 value (g ∷ rest) ≡ some (value * 256 + g, rest)
unfolding read_varint_loop
read_ninth value g rest h = ground arith

-- The last byte stands for the lowest group, with the top bit clear.
top_group :
    (k v : ℕ) (more : Bytes)
    → varint_groups (suc k) (suc k) v more ≡ varint_groups (suc k) k (v / 2 ^ 7) ((v % 128) ∷ more)
unfolding varint_groups
top_group k v more =
    rw (ge→ltb (k + 1) (suc k) (omega arith))
      (ap (λ (b : ℕ). varint_groups (suc k) k (v / 2 ^ 7) (b ∷ more)) (last_group v))

rounds : (k : ℕ) → suc k ≤ 8 → 9 ≡ k + suc (suc (7 - k))
rounds k hk = omega arith

read_from :
    (m value : ℕ) (rest : Bytes)
    → IsU64 value
    → suc m ≤ 8
    → value < 2 ^ (7 * suc m)
    → read_varint (varint_groups (suc m) m (value / 2 ^ 7) ((value % 128) ∷ rest))
      ≡ some (value, rest)
unfolding read_varint
read_from m value rest h few fits =
    let e = seven_more m in
    ap
      (λ (k : ℕ).
        read_varint_loop k 0 (varint_groups (suc m) m (value / 2 ^ 7) ((value % 128) ∷ rest)))
      (rounds m few)
    ∙ read_groups (suc m) m (suc (7 - m)) 0 (value / 2 ^ 7) _ (omega arith) (omega arith)
        (omega arith)
    ∙ read_last (7 - m) _ (value % 128) rest (omega arith) (omega arith)
    ∙ ap (λ (v : ℕ). some (v, rest)) (omega arith)

-- The bytes of a number below 2 ^ 56, by the number of its groups.
read_short :
    (n value : ℕ) (rest : Bytes)
    → IsU64 value
    → Groups value n
    → read_varint (varint_groups n n value [] ++ rest) ≡ some (value, rest)
read_short zero value rest h g = absurd (omega (arith, g.positive))
read_short (suc m) value rest h g =
    rw (varint_groups-append (suc m) (suc m) value [] rest, top_group m value rest)
      (read_from m value rest h g.at_most g.fits)

read_nine :
    (value : ℕ) (rest : Bytes)
    → IsU64 value
    → read_varint (varint_groups 9 8 (value / 2 ^ 8) (value % 256 ∷ []) ++ rest)
      ≡ some (value, rest)
unfolding read_varint
read_nine value rest h = rw (varint_groups-append 9 8 (value / 2 ^ 8) (value % 256 ∷ []) rest) (
    read_groups 9 8 0 0 (value / 2 ^ 8) _ (omega arith) (omega arith) (omega arith)
    ∙ read_ninth _ (value % 256) rest (omega arith)
    ∙ ap (λ (v : ℕ). some (v, rest)) (omega arith))

-- Every 64-bit number is read back from the bytes written for it, and what follows them is left.
pub read_varint-varint :
    (value : ℕ) (rest : Bytes)
    → IsU64 value
    → read_varint (varint_bytes value ++ rest) ≡ some (value, rest)
unfolding varint_bytes
read_varint-varint value rest h = elim (dec_lt value (2 ^ 56)) [
  | yes small ↦
      let g = varint_len-Groups value small in
      let few = g.at_most in
      rw (ne→== (varint_len value) 9 (omega arith)) (read_short _ value rest h g)
  | no big ↦ rw (varint_len-nine value (omega arith)) (read_nine value rest h)
]

-- A number takes as many bytes as `varint_len` says, 1 to 9.
pub length-varint :
    (value : ℕ)
    → (length (varint_bytes value) ≡ varint_len value)
      × (0 < varint_len value)
      × (varint_len value ≤ 9)
unfolding varint_bytes
length-varint value = elim (dec_lt value (2 ^ 56)) [
  | yes small ↦
      let g = varint_len-Groups value small in
      let few = g.at_most in
      let some_byte = g.positive in
      rw (ne→== (varint_len value) 9 (omega arith)) (
        omega (arith, length-varint_groups (varint_len value) (varint_len value) value []),
        omega arith,
        omega arith,
      )
  | no big ↦ rw (varint_len-nine value (omega arith)) (
    omega (arith, length-varint_groups 9 8 (value / 2 ^ 8) (value % 256 ∷ [])),
    omega arith,
    omega arith,
  )
]
