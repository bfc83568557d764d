-- ===== src/Record/Decode.antt =====
-- The record reader: record_values and RecordValues::next.
use velr.Base.{
  ℕ, zero, suc, ◌+◌, ◌-◌, ◌*◌, ◌/◌, ◌%◌, ◌^◌, ◌||◌, ◌&&◌, List, [], ◌∷◌, Option, none, some, length,
  take, drop, ltb, leb, ◌==◌, if◌then◌else◌,
}
use velr.Base.Word.{Bytes}
use velr.Base.Result.{Result, ok, err, ◌>>=◌, ◌>>◌, ok_or, reject_if}
use velr.Varint.{read_varint}
use velr.Record.Data.{StorageValue, null, integer, real, text, blob}
use velr.Record.Utf8.{is_utf8}
use mathlib.Core.List.{foldl}

-- The io::Error messages. `unfinished` is no value of the source: the fuel of `collect` ran out.
pub data RecordError : Type 0 where
  truncated_varint invalid_header reserved_serial_type body_overflow : RecordError
  truncated_value not_utf8 unfinished : RecordError

pub record RecordValues : Type 0 where
  pub bytes : Bytes
  pub header : ℕ
  pub header_end : ℕ
  pub body : ℕ

-- `read_varint(bytes, &mut offset)`: the number and the new offset.
unfoldable pub read_varint_at : Bytes → ℕ → Result RecordError (ℕ × ℕ)
read_varint_at bytes offset = do
  (value, rest) ← ok_or (read_varint (drop offset bytes)) truncated_varint
  ok (value, length bytes - length rest)

unfoldable pub record_values : Bytes → Result RecordError RecordValues
record_values bytes = do
  (header_end, offset) ← read_varint_at bytes 0
  reject_if (ltb header_end offset || ltb (length bytes) header_end) invalid_header
  ok (record { bytes = bytes; header = offset; header_end = header_end; body = header_end })

-- The payload length of a serial type.
unfoldable pub serial_length : ℕ → Result RecordError ℕ
serial_length tag =
    if tag == 0 || tag == 8 || tag == 9
    then ok 0
    else if leb 1 tag && leb tag 4
    then ok tag
    else if tag == 5
    then ok 6
    else if tag == 6 || tag == 7
    then ok 8
    else if tag == 10 || tag == 11
    then err reserved_serial_type
    else ok ((tag - 12) / 2)

-- `integer << 8 | byte` from a start of 0 or -1.
unfoldable pub integer_of : Bytes → ℕ
integer_of [] = 0
integer_of (b ∷ bytes) =
    foldl (λ value byte. value * 256 % 2 ^ 64 + byte) (if leb 0x80 b then 2 ^ 64 - 1 else 0)
      (b ∷ bytes)

-- `u64::from_be_bytes`
unfoldable pub word_of : Bytes → ℕ
word_of bytes = foldl (λ value byte. value * 256 + byte) 0 bytes

unfoldable pub value_of : ℕ → Bytes → Result RecordError StorageValue
unfolding integer_of word_of
value_of tag value =
    if tag == 0
    then ok null
    else if leb 1 tag && leb tag 6
    then ok (integer (integer_of value))
    else if tag == 7
    then ok (real (word_of value))
    else if tag == 8
    then ok (integer 0)
    else if tag == 9
    then ok (integer 1)
    else if tag % 2 == 0
    then ok (blob value)
    else if is_utf8 value
    then ok (text value)
    else err not_utf8

-- One field of a record that has one left. The source's callers stop at the first error.
unfoldable pub next_value : RecordValues → Result RecordError (StorageValue × RecordValues)
next_value r = do
  (tag, header) ← read_varint_at (take r.header_end r.bytes) r.header
  len ← serial_length tag
  let end = r.body + len
  reject_if (leb (2 ^ 64) end) body_overflow
  reject_if (ltb (length r.bytes) end) truncated_value
  value ← value_of tag (take len (drop r.body r.bytes))
  ok (value, record r { header = header; body = end })

-- `next`: `none` is the end of the record.
unfoldable pub next : RecordValues → Option (Result RecordError (StorageValue × RecordValues))
next r = if r.header == r.header_end then none else some (next_value r)

-- The iterator run to its end, as `collect::<Result<Vec<_>, _>>()` does.
unfoldable pub collect : ℕ → RecordValues → Result RecordError (List StorageValue)
collect zero r = err unfinished
collect (suc fuel) r = elim (next r) [
  | none ↦ ok []
  | some step ↦ step >>= λ p. collect fuel p.1 >>= λ values. ok (p.0 ∷ values)
]

-- Each field takes a byte of the header at least.
unfoldable pub decode_record : Bytes → Result RecordError (List StorageValue)
decode_record bytes = do r ← record_values bytes; collect (suc (length bytes)) r
