-- ===== src/Record.antt =====
-- SQLite records: encode_record and its three special forms, record_values and its iterator, of
-- rust/velr-cli/src/offline_import/native/page_writer.rs. An i64 is its two's complement bit
-- pattern and an f64 its bits, numbers below 2 ^ 64. `usize` has 64 bits.
pub mod Data
pub mod Utf8
pub mod Decode
pub mod Integer
pub mod Header
pub mod Fields
pub mod RoundTrip
pub mod Fixed
mod Tests
use velr.Base.{
  ℕ, zero, suc, ◌+◌, ◌-◌, ◌*◌, ◌/◌, ◌%◌, ◌^◌, Bool, true, false, ◌&&◌, ◌||◌, List, [], ◌∷◌, ◌++◌,
  map, Option, none, some, ◌>>=◌, length, drop, ltb, leb, ◌==◌, if◌then◌else◌,
}
use velr.Base.Word.{Bytes}
use velr.Record.Data.{StorageValue, null, integer, real, text, blob}
use velr.Varint.{varint_len, varint_bytes}

-- The i64 with these bits lies in -half ..= half - 1.
abbrev pub signed_within : ℕ → ℕ → Bool
signed_within half value = ltb value half || leb (2 ^ 64 - half) value

unfoldable pub integer_type : ℕ → ℕ × ℕ
integer_type value =
    if value == 0
    then (8, 0)
    else if value == 1
    then (9, 0)
    else if signed_within 128 value
    then (1, 1)
    else if signed_within 32768 value
    then (2, 2)
    else if signed_within 8388608 value
    then (3, 3)
    else if signed_within 2147483648 value
    then (4, 4)
    else if signed_within 140737488355328 value
    then (5, 6)
    else (6, 8)

unfoldable pub serial_type : StorageValue → ℕ
serial_type null = 0
serial_type (integer value) = (integer_type value).0
serial_type (real _) = 7
serial_type (text value) = 13 + 2 * length value
serial_type (blob value) = 12 + 2 * length value

-- The low `n` bytes of a word, the highest of them first.
abbrev pub be_bytes : ℕ → ℕ → Bytes
be_bytes zero value = []
be_bytes (suc n) value = (value / 256 ^ n % 256) ∷ be_bytes n value

-- `value.to_be_bytes()[8 - width..]`
unfoldable pub tail_bytes : ℕ → ℕ → Bytes
tail_bytes width value = drop (8 - width) (be_bytes 8 value)

-- The width that a serial type gives an integer.
unfoldable pub integer_width : ℕ → ℕ
integer_width tag =
    if leb 1 tag && leb tag 4 then tag else if tag == 5 then 6 else if tag == 6 then 8 else 0

unfoldable pub payload : StorageValue → ℕ → Bytes
unfolding integer_width
payload null tag = []
payload (integer value) tag = tail_bytes (integer_width tag) value
payload (real value) tag = be_bytes 8 value
payload (text value) tag = value
payload (blob value) tag = value

abbrev pub sum : List ℕ → ℕ
sum [] = 0
sum (x ∷ xs) = x + sum xs

-- The loop over `header_size`; `none` means that the fuel ran out.
unfoldable pub header_size_loop : ℕ → ℕ → ℕ → Option ℕ
header_size_loop zero serial_bytes header_size = none
header_size_loop (suc fuel) serial_bytes header_size =
    let next = serial_bytes + varint_len header_size in
    let rest = header_size_loop fuel serial_bytes next in
    if next == header_size then some header_size else rest

abbrev pub varints : List ℕ → Bytes
varints [] = []
varints (tag ∷ tags) = varint_bytes tag ++ varints tags

abbrev pub payloads : List StorageValue → List ℕ → Bytes
payloads [] tags = []
payloads (v ∷ vs) [] = []
payloads (v ∷ vs) (tag ∷ tags) = payload v tag ++ payloads vs tags

-- Each round that goes on adds a byte to the size's own varint, so ten rounds are tried.
unfoldable pub encode_record_with_types : List StorageValue → List ℕ → Option Bytes
encode_record_with_types values types = do
  let serial_bytes = sum (map varint_len types)
  header_size ← header_size_loop 10 serial_bytes (serial_bytes + 1)
  some (varint_bytes header_size ++ varints types ++ payloads values types)

-- The array of eight tags and the iterator hold the same types.
unfoldable pub encode_record : List StorageValue → Option Bytes
encode_record values = encode_record_with_types values (map serial_type values)

unfoldable pub encode_node_record : ℕ → Bytes
encode_node_record label_group =
    let (tag, width) = integer_type label_group in
    (3 ∷ 0 ∷ (tag % 256) ∷ []) ++ tail_bytes width label_group

unfoldable pub encode_edge_record : ℕ → ℕ → ℕ → Bytes
encode_edge_record from to kind =
    let (from_tag, from_width) = integer_type from in
    let (to_tag, to_width) = integer_type to in
    let (kind_tag, kind_width) = integer_type kind in
    (5 ∷ 0 ∷ (from_tag % 256) ∷ (to_tag % 256) ∷ (kind_tag % 256) ∷ [])
    ++ tail_bytes from_width from
    ++ tail_bytes to_width to
    ++ tail_bytes kind_width kind

unfoldable pub encode_property_record : ℕ → ℕ → StorageValue → Bytes
encode_property_record owner key value =
    let (owner_tag, owner_width) = integer_type owner in
    let (key_tag, key_width) = integer_type key in
    let value_tag = serial_type value in
    let header_size = 3 + varint_len value_tag in
    ((header_size % 256) ∷ (owner_tag % 256) ∷ (key_tag % 256) ∷ [])
    ++ varint_bytes value_tag
    ++ tail_bytes owner_width owner
    ++ tail_bytes key_width key
    ++ payload value value_tag
