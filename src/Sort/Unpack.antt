-- ===== src/Sort/Unpack.antt =====
-- The theorems on whole keys: their order and what they give back.
use velr.Base.{
  ℕ, zero, suc, ◌+◌, ◌-◌, ◌*◌, ◌^◌, ◌≤◌, ◌<◌, true, List, [], ◌∷◌, length, replicate, ltb, ◌==◌,
  Bool-cases, ==_iff, ==→ne, ◌⊎◌, inl, inr, ◌≡◌, ◌≢◌, refl, sym, ap, ap₂, ◌∙◌, arith, All, subst,
}
use velr.Sort.Keys.{
  at, put, IntegerSpool, contains, Codec, width_of, bits_of, parts_from, pack, pack_parts,
  part_value, unpack_parts, unpack,
}
use velr.Sort.Packing.{
  Within, value, part_value-part, part, delta, value-next, pack_parts-value, value-order, tuple_ltb,
}

pub length-put : (xs : List ℕ) (i v : ℕ) → length (put xs i v) ≡ length xs
length-put [] i v = refl
length-put (x ∷ xs) zero v = refl
length-put (x ∷ xs) (suc i) v = ap suc (length-put xs i v)

pub at-put : (xs : List ℕ) (i v : ℕ) → i < length xs → at (put xs i v) i ≡ v
at-put [] i v h = absurd (omega arith)
at-put (x ∷ xs) zero v h = refl
at-put (x ∷ xs) (suc i) v h = at-put xs i v (omega arith)

pub at-put_other : (xs : List ℕ) (i j v : ℕ) → i ≢ j → at (put xs i v) j ≡ at xs j
at-put_other [] i j v h = refl
at-put_other (x ∷ xs) zero zero v h = absurd (h refl)
at-put_other (x ∷ xs) zero (suc j) v h = refl
at-put_other (x ∷ xs) (suc i) zero v h = refl
at-put_other (x ∷ xs) (suc i) (suc j) v h = at-put_other xs i j v (λ e. h (ap suc e))

-- The codec that `Codec::new` makes for some fields of a spool.
abbrev pub codec_of : IntegerSpool → List ℕ → Codec
codec_of s fields = record {
  parts = parts_from s (bits_of s fields) fields;
  bits = bits_of s fields;
}

module _ (s : IntegerSpool) (some_rows : 0 < s.rows) (t : List ℕ) where
  -- A field that is there, or is still to come, is there at the end.
  unpack_parts-field :
      (key : ℕ) (fields array : List ℕ) (high : ℕ) (g : ℕ)
      → key ≡ high * 2 ^ bits_of s fields + value s some_rows fields t
      → All (Within s t) fields
      → length array ≡ 4
      → (at array g ≡ at t g) ⊎ (contains fields g ≡ true)
      → at (unpack_parts key (parts_from s (bits_of s fields) fields) array) g ≡ at t g
  unfolding unpack_parts
  unpack_parts-field key [] array high g is_key h four (inl there) = there
  unpack_parts-field key [] array high g is_key h four (inr later) = absurd (cc)
  unpack_parts-field key (field ∷ fields) array high g is_key (h, hs) four o =
      let w : ℕ = width_of s field in
      let r : ℕ = bits_of s fields in
      let left : w + r - w ≡ r = omega arith in
      let found = part_value-part s some_rows field fields t high h hs in
      let array' : List ℕ = put array field (at t field) in
      let same : part_value key (part s some_rows field r) ≡ at t field =
        ap (λ (k : ℕ). part_value k (part s some_rows field r)) is_key ∙ found in
      let now : (at array' g ≡ at t g) ⊎ (contains fields g ≡ true) =
        elim (Bool-cases (field == g)) [
          | inl here ↦
              let e : field ≡ g = (==_iff field g).0 here in
              inl (
                subst (λ x. at array' x ≡ at t x) e
                  (at-put array field (at t field) (omega (arith, h.in_array))))
          | inr other ↦ elim o [
            | inl there ↦
                inl (at-put_other array field g (at t field) (==→ne field g other) ∙ there)
            | inr listed ↦ let more : contains fields g ≡ true = rw other at listed in inr more
          ]
        ] in
      rw left (
        rw same (
          unpack_parts-field key fields array' (high * 2 ^ w + delta s some_rows t field) g
            (is_key ∙ value-next s some_rows field fields t high) hs
            (length-put array field (at t field) ∙ four) now))

  pub pack-value :
      (word : ℕ) (fields : List ℕ)
      → All (Within s t) fields
      → bits_of s fields ≤ word
      → pack word (codec_of s fields) t ≡ value s some_rows fields t
  unfolding pack
  pack-value word fields h room =
      let e : 0 * 2 ^ bits_of s fields ≡ 0 = omega arith in
      let p = pack_parts-value s some_rows word fields t 0 h room in
      ap (pack_parts word (parts_from s (bits_of s fields) fields) t) (sym e) ∙ p ∙ omega arith

-- A tuple whose sorted fields lie in the bounds of their columns is packed into a key of 64 or 128 bits
-- from which every one of these fields is read back.
pub unpack-pack :
    (s : IntegerSpool) (some_rows : 0 < s.rows) (word : ℕ) (fields t : List ℕ) (field : ℕ)
    → All (Within s t) fields
    → bits_of s fields ≤ word
    → contains fields field ≡ true
    → at (unpack (codec_of s fields) (pack word (codec_of s fields) t)) field ≡ at t field
unfolding unpack
unpack-pack s some_rows word fields t field h room listed =
    ap
      (λ (k : ℕ).
        at (unpack_parts k (parts_from s (bits_of s fields) fields) (replicate 4 0)) field)
      (pack-value s some_rows t word fields h room)
    ∙ unpack_parts-field s some_rows t (value s some_rows fields t) fields (replicate 4 0) 0 field
        (omega arith) h refl (inr listed)

-- Keys of tuples in the bounds of their columns are ordered as the tuples are, field by field and as
-- signed integers.
pub pack-tuple_ltb :
    (s : IntegerSpool) (some_rows : 0 < s.rows) (word : ℕ) (fields t u : List ℕ)
    → All (Within s t) fields
    → All (Within s u) fields
    → bits_of s fields ≤ word
    → ltb (pack word (codec_of s fields) t) (pack word (codec_of s fields) u) ≡ tuple_ltb fields t u
pack-tuple_ltb s some_rows word fields t u h k room =
    ap₂ ltb (pack-value s some_rows t word fields h room)
      (pack-value s some_rows u word fields k room)
    ∙ value-order s some_rows fields t u h k
