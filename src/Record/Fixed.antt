-- ===== src/Record/Fixed.antt =====
-- The special forms of graph rows write what the general encoder writes.
use velr.Base.{
  ℕ, suc, ◌+◌, ◌%◌, ◌<◌, List, [], ◌∷◌, ◌++◌, append_assoc, append-nil, map, some, ◌≡◌, refl, ap,
  ◌∙◌, arith, ==_iff,
}
use velr.Base.Word.{IsU64}
use velr.Varint.{varint_len, varint_bytes}
use velr.Varint.RoundTrip.{length-varint}
use velr.Varint.Small.{varint_len_small, varint_bytes_small}
use velr.Record.Data.{StorageValue, null, integer}
use velr.Record.{
  sum, varints, payloads, integer_type, serial_type, payload, tail_bytes, encode_record,
  encode_record_with_types, header_size_loop, encode_node_record, encode_edge_record,
  encode_property_record,
}
use velr.Record.Integer.{integer_type-IntegerField}

header_small :
    (fuel serial_bytes : ℕ)
    → serial_bytes < 127
    → header_size_loop (suc fuel) serial_bytes (serial_bytes + 1) ≡ some (serial_bytes + 1)
unfolding header_size_loop
header_small fuel s h =
    rw (varint_len_small (s + 1) (omega arith)) (rw ((==_iff (s + 1) (s + 1)).1 refl) refl)

-- With a header below 128 bytes the header's size is one byte.
pub encode_small :
    (vs : List StorageValue) (tags : List ℕ) (s : ℕ)
    → sum (map varint_len tags) ≡ s
    → s < 127
    → encode_record_with_types vs tags ≡ some (((s + 1) ∷ []) ++ varints tags ++ payloads vs tags)
unfolding encode_record_with_types
encode_small vs tags s e h =
    rw (e, header_small 9 s h, varint_bytes_small (s + 1) (omega arith)) refl

-- The header and the body of an integer field.
pub record IntegerForm (v : ℕ) : Type 0 where
  pub len_is : varint_len (serial_type (integer v)) ≡ 1
  pub tag_is : varint_bytes (serial_type (integer v)) ≡ (integer_type v).0 ∷ []
  pub byte_is : (integer_type v).0 % 256 ≡ (integer_type v).0
  pub body_is : payload (integer v) (serial_type (integer v)) ≡ tail_bytes (integer_type v).1 v

pub integer_form : (v : ℕ) → IsU64 v → IntegerForm v
unfolding serial_type payload
integer_form v h =
    let f = integer_type-IntegerField v h in
    let small = f.tag_small in
    record {
      len_is = varint_len_small (integer_type v).0 (omega arith);
      tag_is = varint_bytes_small (integer_type v).0 (omega arith);
      byte_is = omega arith;
      body_is = ap (λ (w : ℕ). tail_bytes w v) f.width_is;
    }

null_len : varint_len (serial_type null) ≡ 1
unfolding serial_type
null_len = varint_len_small 0 (omega arith)

null_tag : varint_bytes (serial_type null) ≡ 0 ∷ []
unfolding serial_type
null_tag = varint_bytes_small 0 (omega arith)

null_body : (tag : ℕ) → payload null tag ≡ []
unfolding payload
null_body tag = refl

-- A row of a node is the record of its key, stored as NULL, and its label group.
pub encode_node_record-encode_record :
    (label_group : ℕ)
    → IsU64 label_group
    → encode_record (null ∷ integer label_group ∷ []) ≡ some (encode_node_record label_group)
unfolding encode_record encode_node_record
encode_node_record-encode_record label_group h =
    let t = integer_form label_group h in
    encode_small _ _ 2 (rw (null_len, t.len_is) refl) (omega arith)
    ∙ rw (null_tag, null_body, t.tag_is, t.byte_is, t.body_is, append-nil) refl

-- A row of an edge is the record of its key, stored as NULL, its ends and its type.
pub encode_edge_record-encode_record :
    (from to kind : ℕ)
    → IsU64 from
    → IsU64 to
    → IsU64 kind
    → encode_record (null ∷ integer from ∷ integer to ∷ integer kind ∷ [])
      ≡ some (encode_edge_record from to kind)
unfolding encode_record encode_edge_record
encode_edge_record-encode_record from to kind hf ht hk =
    let f = integer_form from hf in
    let t = integer_form to ht in
    let k = integer_form kind hk in
    encode_small _ _ 4 (rw (null_len, f.len_is, t.len_is, k.len_is) refl) (omega arith)
    ∙ rw (null_tag, null_body)
        (simp (
          f.tag_is, t.tag_is, k.tag_is, f.byte_is, t.byte_is, k.byte_is, f.body_is, t.body_is,
          k.body_is, append_assoc, append-nil,
        ))

-- A row of a property is the record of its owner, its key and a value of any kind.
pub encode_property_record-encode_record :
    (owner key : ℕ) (value : StorageValue)
    → IsU64 owner
    → IsU64 key
    → encode_record (integer owner ∷ integer key ∷ value ∷ [])
      ≡ some (encode_property_record owner key value)
unfolding encode_record encode_property_record
encode_property_record-encode_record owner key value ho hk =
    let o = integer_form owner ho in
    let k = integer_form key hk in
    let n = varint_len (serial_type value) in
    let few = length-varint (serial_type value) in
    let size : sum (map varint_len (map serial_type (integer owner ∷ integer key ∷ value ∷ [])))
        ≡ 2 + n =
      rw (o.len_is, k.len_is) (omega arith) in
    let head : 2 + n + 1 ≡ (3 + n) % 256 = omega arith in
    encode_small _ _ (2 + n) size (omega arith)
    ∙ rw head (
        simp (
          o.tag_is, k.tag_is, o.byte_is, k.byte_is, o.body_is, k.body_is, append_assoc, append-nil,
        ))
