-- ===== src/Csv.antt =====
-- rust/velr-cli/src/import/csv.rs: fields of a record, from its bytes. Searches of the crate memchr
-- are written as what they find. A span is a range of the record, decoded text its bytes.
pub mod Record
pub mod Unquoted
mod Tests
use velr.Base.{
  ℕ, zero, suc, ◌+◌, ◌-◌, Bool, true, false, not, ◌&&◌, ◌||◌, List, [], ◌∷◌, ◌++◌, Option, none,
  some, length, get_elem?, take, drop, ltb, leb, ◌==◌, if◌then◌else◌,
}
use velr.Base.Result.{Result, ok, err, ◌>>=◌, ◌>>◌, reject_if}
use velr.Base.Word.{Bytes}
use velr.Record.Utf8.{is_utf8}

pub data CsvError : Type 0 where
  field_too_long unexpected_data not_utf8 delimiter_boundary exceeds_memory panicked
        csv_out_of_fuel :
      CsvError

abbrev pub C : Type 0 → Type 0
C = Result CsvError

pub data FieldText : Type 0 where
  span : ℕ → ℕ → FieldText
  decoded : Bytes → FieldText

pub record Field : Type 0 where
  pub text : FieldText
  pub quoted : Bool

unfoldable pub field_length : ℕ → ℕ → C (Unit {0})
field_length len limit = if ltb limit len then err field_too_long else ok tt

abbrev pub starts_with : Bytes → Bytes → Bool
starts_with bytes [] = true
starts_with [] (p ∷ prefix) = false
starts_with (b ∷ bytes) (p ∷ prefix) = b == p && starts_with bytes prefix

abbrev pub unquoted : ℕ → ℕ → Field
unquoted start end = record { text = span start end; quoted = false }

-- The loop over single-byte delimiters: `bytes` is what the record has from `position` on.
unfoldable pub split_byte : ℕ → ℕ → ℕ → ℕ → Bytes → C (List Field)
split_byte delimiter limit start position [] = do
  field_length (position - start) limit
  ok (unquoted start position ∷ [])
split_byte delimiter limit start position (b ∷ bytes) =
    let found =
      (field_length (position - start) limit >>= λ _.
      split_byte delimiter limit (position + 1) (position + 1) bytes >>= λ cells.
      ok (unquoted start position ∷ cells)) in
    let next = split_byte delimiter limit start (position + 1) bytes in
    if b == delimiter then found else next

-- The loop over longer delimiters. After one is found its other bytes are passed over by `skip`.
unfoldable pub split_bytes : Bytes → ℕ → ℕ → ℕ → ℕ → Bytes → C (List Field)
split_bytes delimiter limit start position skip [] = do
  field_length (position - start) limit
  ok (unquoted start position ∷ [])
split_bytes delimiter limit start position (suc skip) (b ∷ bytes) =
    split_bytes delimiter limit start (position + 1) skip bytes
split_bytes delimiter limit start position zero (b ∷ bytes) =
    let found =
      (field_length (position - start) limit >>= λ _.
      split_bytes delimiter limit (position + length delimiter) (position + 1)
        (length delimiter - 1) bytes
      >>= λ cells. ok (unquoted start position ∷ cells)) in
    let next = split_bytes delimiter limit start (position + 1) zero bytes in
    if starts_with (b ∷ bytes) delimiter then found else next

-- The delimiter is not empty.
unfoldable pub parse_unquoted_record : Bytes → Bytes → ℕ → C (List Field)
parse_unquoted_record raw [] limit = err panicked
parse_unquoted_record raw (d ∷ []) limit = split_byte d limit 0 0 raw
parse_unquoted_record raw (d ∷ e ∷ delimiter) limit =
    split_bytes (d ∷ e ∷ delimiter) limit 0 0 0 raw
