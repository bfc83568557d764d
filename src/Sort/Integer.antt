-- ===== src/Sort/Integer.antt =====
-- The short encoder of integer records writes what the general encoder writes.
use velr.Base.{
  ℕ, ◌+◌, ◌%◌, ◌≤◌, List, [], ◌∷◌, ◌++◌, map, some, length, le→leb, ◌≡◌, refl, ap₂, ◌∙◌, arith, All,
}
use velr.Base.Result.{ok}
use velr.Base.Word.{Bytes, IsU64}
use velr.Varint.{varint_len}
use velr.Record.{sum, varints, payloads, serial_type, encode_record}
use velr.Record.Data.{integer}
use velr.Record.Fixed.{encode_small, integer_form}
use velr.Sort.{integer_tags, integer_bodies, encode_integer_record}

abbrev tags : List ℕ → List ℕ
tags values = map serial_type (map integer values)

one_byte_each :
    (values : List ℕ) → All IsU64 values → sum (map varint_len (tags values)) ≡ length values
one_byte_each [] h = refl
one_byte_each (v ∷ values) (small, h) =
    let t = integer_form v small in omega (arith, t.len_is, one_byte_each values h)

varints-tags : (values : List ℕ) → All IsU64 values → varints (tags values) ≡ integer_tags values
varints-tags [] h = refl
varints-tags (v ∷ values) (small, h) =
    let t = integer_form v small in ap₂ (λ (x y : Bytes). x ++ y) t.tag_is (varints-tags values h)

payloads-tags :
    (values : List ℕ)
    → All IsU64 values
    → payloads (map integer values) (tags values) ≡ integer_bodies values
payloads-tags [] h = refl
payloads-tags (v ∷ values) (small, h) =
    let t = integer_form v small in ap₂ (λ (x y : Bytes). x ++ y) t.body_is (payloads-tags values h)

-- For up to eight integers, the encoder of index tuples succeeds with the bytes that the general record
-- encoder writes.
pub encode_integer_record-encode_record :
    (values : List ℕ)
    → All IsU64 values
    → length values ≤ 8
    → (out : Bytes) × (encode_integer_record values ≡ ok out)
      × (encode_record (map integer values) ≡ some out)
unfolding encode_integer_record encode_record
encode_integer_record-encode_record values h few =
    let same : (length values + 1) % 256 ≡ length values + 1 = omega arith in
    (
      ((length values + 1) % 256) ∷ integer_tags values ++ integer_bodies values,
      rw (le→leb (length values) 8 few) refl,
      encode_small (map integer values) (tags values) (length values) (one_byte_each values h)
            (omega arith)
          ∙ rw (varints-tags values h, payloads-tags values h, same) refl,
    )
