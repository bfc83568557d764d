-- ===== src/Record/Tests.antt =====
-- A record of every kind of value, and the theorems at concrete values.
use velr.Base.{ℕ, ◌^◌, ◌-◌, [], ◌∷◌, List, some, ◌≡◌, refl, arith, All}
use velr.Base.Word.{Bytes}
use velr.Base.Result.{ok}
use velr.Varint.{leading_zeros, varint_len, varint_groups, varint_bytes}
use velr.Record.{
  integer_type, serial_type, tail_bytes, integer_width, payload, header_size_loop,
  encode_record_with_types, encode_record, encode_node_record, encode_edge_record,
  encode_property_record,
}
use velr.Record.Data.{StorageValue, null, integer, text, blob}
use velr.Record.Utf8.{is_utf8}
use velr.Record.Decode.{decode_record}
use velr.Record.Fields.{IsValue}
use velr.Record.Integer.{IntegerField, integer_type-IntegerField}
use velr.Record.Header.{HeaderSize, HeaderSize-ends}
use velr.Record.RoundTrip.{decode-encode}
use velr.Record.Fixed.{
  encode_node_record-encode_record, encode_edge_record-encode_record,
  encode_property_record-encode_record,
}

abbrev values : List StorageValue
values = null ∷ integer 300 ∷ integer (2 ^ 64 - 1) ∷ text (104 ∷ 105 ∷ []) ∷ blob (0 ∷ []) ∷ []

abbrev record_bytes : Bytes
record_bytes = 6 ∷ 0 ∷ 2 ∷ 1 ∷ 17 ∷ 14 ∷ 1 ∷ 44 ∷ 255 ∷ 104 ∷ 105 ∷ 0 ∷ []

encoded : encode_record values ≡ some record_bytes
unfolding encode_record encode_record_with_types serial_type integer_type header_size_loop
    varint_len leading_zeros varint_bytes varint_groups payload tail_bytes integer_width
encoded = refl

values-IsValue : All IsValue values
unfolding is_utf8
values-IsValue = (tt, (omega arith, (omega arith, (refl, (tt, tt)))))

integer_type-IntegerField_example : IntegerField 300 (integer_type 300).0 (integer_type 300).1
integer_type-IntegerField_example = integer_type-IntegerField 300 (omega arith)

HeaderSize-ends_example : (h : ℕ) × (header_size_loop 10 127 128 ≡ some h) × HeaderSize 127 h
HeaderSize-ends_example = HeaderSize-ends 127

decode-encode_example : decode_record record_bytes ≡ ok values
decode-encode_example = decode-encode values record_bytes values-IsValue encoded (omega arith)

encode_node_record-encode_record_example :
    encode_record (null ∷ integer 7 ∷ []) ≡ some (encode_node_record 7)
encode_node_record-encode_record_example = encode_node_record-encode_record 7 (omega arith)

encode_edge_record-encode_record_example :
    encode_record (null ∷ integer 7 ∷ integer 300 ∷ integer 1 ∷ [])
    ≡ some (encode_edge_record 7 300 1)
encode_edge_record-encode_record_example =
    encode_edge_record-encode_record 7 300 1 (omega arith) (omega arith) (omega arith)

encode_property_record-encode_record_example :
    encode_record (integer 7 ∷ integer 3 ∷ text (104 ∷ []) ∷ [])
    ≡ some (encode_property_record 7 3 (text (104 ∷ [])))
encode_property_record-encode_record_example =
    encode_property_record-encode_record 7 3 (text (104 ∷ [])) (omega arith) (omega arith)
