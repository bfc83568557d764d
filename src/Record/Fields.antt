-- ===== src/Record/Fields.antt =====
-- One field of a record: its serial type and payload give the value back.
use velr.Base.{ℕ, ◌+◌, ◌*◌, ◌≤◌, true, ◌≡◌, refl, ap, arith, length}
use velr.Base.Word.{Bytes, IsU64}
use velr.Base.Result.{ok}
use velr.Record.Data.{StorageValue, null, integer, real, text, blob}
use velr.Record.Utf8.{is_utf8}
use velr.Record.{serial_type, payload, be_bytes}
use velr.Record.Decode.{serial_length, value_of, word_of}
use velr.Record.Integer.{integer_type-IntegerField}

-- A value of the source: machine integers have 64 bits, and a text is valid UTF-8.
abbrev pub IsValue : StorageValue → Type 0
IsValue null = Unit {0}
IsValue (integer v) = IsU64 v
IsValue (real v) = IsU64 v
IsValue (text v) = is_utf8 v ≡ true
IsValue (blob v) = Unit {0}

pub record Field (v : StorageValue) (tag : ℕ) (p : Bytes) : Type 0 where
  pub tag_bound : tag ≤ 13 + 2 * length p
  pub length_is : serial_length tag ≡ ok (length p)
  pub reads : value_of tag p ≡ ok v

read_real : (v : ℕ) → IsU64 v → word_of (be_bytes 8 v) ≡ v
unfolding word_of
read_real v h = ground arith

pub payload-Field :
    (v : StorageValue) → IsValue v → Field v (serial_type v) (payload v (serial_type v))
unfolding serial_type payload
payload-Field null h = record {
  tag_bound = omega arith;
  length_is = unfold serial_length in refl;
  reads = unfold value_of in refl;
}
payload-Field (integer v) h =
    let f = integer_type-IntegerField v h in
    let small = f.tag_small in
    let width = f.width_is in
    let bytes = f.bytes_are in
    rw width (record { tag_bound = omega arith; length_is = rw bytes f.length_is; reads = f.reads })
payload-Field (real v) h = record {
  tag_bound = omega arith;
  length_is = unfold serial_length in refl;
  reads = unfold value_of in ap (λ (n : ℕ). ok (real n)) (read_real v h);
}
payload-Field (text v) h = record {
  tag_bound = omega arith;
  length_is = unfold serial_length in ground arith;
  reads = unfold value_of in ground arith;
}
payload-Field (blob v) h = record {
  tag_bound = omega arith;
  length_is = unfold serial_length in ground arith;
  reads = unfold value_of in ground arith;
}
