-- ===== src/Table.antt =====
-- The output formats of rust/velr-cli/src/runtime/table.rs. A string is its list of characters, a
-- character its code point. The texts that the engine's cells have are inputs here.
pub mod Csv
pub mod Escapes
mod Tests
use velr.Base.{
  ℕ, ◌+◌, ◌/◌, ◌%◌, Bool, true, false, not, ◌&&◌, ◌||◌, List, Option, none, some, [], ◌∷◌, ◌++◌,
  ltb, ◌==◌, if◌then◌else◌,
}

abbrev pub Text : Type 0
Text = List ℕ

abbrev pub needs_quotes : Text → Bool
needs_quotes [] = false
needs_quotes (ch ∷ s) = ch == 44 || ch == 34 || ch == 10 || ch == 13 || needs_quotes s

-- The loop over the characters: a quote is doubled.
unfoldable pub double_quotes : Text → Text
double_quotes [] = []
double_quotes (ch ∷ s) = if ch == 34 then 34 ∷ 34 ∷ double_quotes s else ch ∷ double_quotes s

unfoldable pub csv_escape : Text → Text
csv_escape s = if needs_quotes s then (34 ∷ double_quotes s) ++ (34 ∷ []) else s

-- The loop of `write_csv_row` after the first field.
unfoldable pub write_csv_rest : List Text → Text
write_csv_rest [] = 10 ∷ []
write_csv_rest (field ∷ fields) = 44 ∷ (csv_escape field ++ write_csv_rest fields)

-- What `write_csv_row` pushes onto its output.
unfoldable pub write_csv_row : List Text → Text
write_csv_row [] = 10 ∷ []
write_csv_row (field ∷ fields) = csv_escape field ++ write_csv_rest fields

-- An upper-case hexadecimal digit of `{:04X}`, a lower-case one of `hex`.
abbrev pub upper_digit : ℕ → ℕ
upper_digit n = if ltb n 10 then 48 + n else 55 + n

abbrev pub lower_digit : ℕ → ℕ
lower_digit n = if ltb n 10 then 48 + n else 87 + n

unfoldable pub json_char : ℕ → Text
json_char ch =
    if ch == 34
    then 92 ∷ 34 ∷ []
    else if ch == 92
    then 92 ∷ 92 ∷ []
    else if ch == 10
    then 92 ∷ 110 ∷ []
    else if ch == 13
    then 92 ∷ 114 ∷ []
    else if ch == 9
    then 92 ∷ 116 ∷ []
    else if ch == 8
    then 92 ∷ 98 ∷ []
    else if ch == 12
    then 92 ∷ 102 ∷ []
    else if ltb ch 32
    then 92 ∷ 117 ∷ 48 ∷ 48 ∷ upper_digit (ch / 16) ∷ upper_digit (ch % 16) ∷ []
    else ch ∷ []

abbrev pub json_chars : Text → Text
json_chars [] = []
json_chars (ch ∷ s) = json_char ch ++ json_chars s

unfoldable pub json_quote : Text → Text
json_quote s = (34 ∷ json_chars s) ++ (34 ∷ [])

unfoldable pub hex : List ℕ → Text
hex [] = []
hex (byte ∷ bytes) = lower_digit (byte / 16) ∷ lower_digit (byte % 16) ∷ hex bytes

unfoldable pub tsv_char : ℕ → Text
tsv_char ch =
    if ch == 92
    then 92 ∷ 92 ∷ []
    else if ch == 9
    then 92 ∷ 116 ∷ []
    else if ch == 10
    then 92 ∷ 110 ∷ []
    else if ch == 13
    then 92 ∷ 114 ∷ []
    else ch ∷ []

unfoldable pub escape_tsv : Text → Text
escape_tsv [] = []
escape_tsv (ch ∷ s) = tsv_char ch ++ escape_tsv s

-- A cell of a result. An i64 and an f64 are their bit patterns.
pub data CellRef : Type 0 where
  null_ref : CellRef
  bool_ref : Bool → CellRef
  integer_ref : ℕ → CellRef
  float_ref : ℕ → CellRef
  text_ref : List ℕ → CellRef
  json_ref : List ℕ → CellRef

-- `format!("0x{}", hex(b))` for bytes that are no text.
unfoldable pub or_hex : List ℕ → Option Text → Text
or_hex bytes none = 48 ∷ 120 ∷ hex bytes
or_hex bytes (some s) = s

abbrev or_else : Text → Option Text → Text
or_else other none = other
or_else other (some s) = s

-- What the standard library prints and decodes: an integer, a float if it is finite, the characters of
-- bytes if they are UTF-8, and in any case.
module _ (integer_text : ℕ → Text) (finite_text : ℕ → Option Text)
    (from_utf8 : List ℕ → Option Text) (from_utf8_lossy : List ℕ → Text) where
  unfoldable pub display_from_cellref : CellRef → Text
  display_from_cellref null_ref = 78 ∷ 85 ∷ 76 ∷ 76 ∷ []
  display_from_cellref (bool_ref true) = 116 ∷ 114 ∷ 117 ∷ 101 ∷ []
  display_from_cellref (bool_ref false) = 102 ∷ 97 ∷ 108 ∷ 115 ∷ 101 ∷ []
  display_from_cellref (integer_ref i) = integer_text i
  display_from_cellref (float_ref f) = or_else (78 ∷ 85 ∷ 76 ∷ 76 ∷ []) (finite_text f)
  display_from_cellref (text_ref b) = or_hex b (from_utf8 b)
  display_from_cellref (json_ref js) = from_utf8_lossy js

  unfoldable pub json_from_cellref : CellRef → Text
  json_from_cellref null_ref = 110 ∷ 117 ∷ 108 ∷ 108 ∷ []
  json_from_cellref (bool_ref true) = 116 ∷ 114 ∷ 117 ∷ 101 ∷ []
  json_from_cellref (bool_ref false) = 102 ∷ 97 ∷ 108 ∷ 115 ∷ 101 ∷ []
  json_from_cellref (integer_ref i) = integer_text i
  json_from_cellref (float_ref f) = or_else (110 ∷ 117 ∷ 108 ∷ 108 ∷ []) (finite_text f)
  json_from_cellref (text_ref b) = json_quote (or_hex b (from_utf8 b))
  json_from_cellref (json_ref js) = from_utf8_lossy js
