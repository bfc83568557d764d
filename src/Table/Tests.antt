-- ===== src/Table/Tests.antt =====
-- A row with every special character, and the theorems at concrete texts.
use velr.Base.{false, [], ◌∷◌, ◌++◌, some, ◌≡◌, refl, arith}
use velr.Table.{
  write_csv_row, double_quotes, csv_escape, write_csv_rest, json_quote, hex, escape_tsv,
}
use velr.Table.Csv.{read_row, read_row-write_csv_row}
use velr.Table.Escapes.{
  unescape_tsv, separators, unescape_tsv-escape_tsv, read_json_string, read_json_string-json_quote,
  read_hex, read_hex-hex,
}

-- a"b becomes "a""b"
one_row :
    write_csv_row ((97 ∷ 34 ∷ 98 ∷ []) ∷ (99 ∷ []) ∷ [])
    ≡ 34 ∷ 97 ∷ 34 ∷ 34 ∷ 98 ∷ 34 ∷ 44 ∷ 99 ∷ 10 ∷ []
unfolding write_csv_row csv_escape double_quotes write_csv_rest
one_row = refl

read_row-write_csv_row_example :
    read_row 2 (write_csv_row ((97 ∷ 34 ∷ 98 ∷ []) ∷ (44 ∷ 10 ∷ []) ∷ []) ++ (99 ∷ []))
    ≡ some ((97 ∷ 34 ∷ 98 ∷ []) ∷ (44 ∷ 10 ∷ []) ∷ [], 99 ∷ [])
read_row-write_csv_row_example =
    read_row-write_csv_row (97 ∷ 34 ∷ 98 ∷ []) ((44 ∷ 10 ∷ []) ∷ []) (99 ∷ [])

unescape_tsv-escape_tsv_example :
    (unescape_tsv false (escape_tsv (9 ∷ 92 ∷ 116 ∷ [])) ≡ 9 ∷ 92 ∷ 116 ∷ [])
    × (separators (escape_tsv (9 ∷ 92 ∷ 116 ∷ [])) ≡ 0)
unescape_tsv-escape_tsv_example = unescape_tsv-escape_tsv (9 ∷ 92 ∷ 116 ∷ [])

read_json_string-json_quote_example :
    read_json_string (json_quote (34 ∷ 31 ∷ 97 ∷ []) ++ (44 ∷ []))
    ≡ some (34 ∷ 31 ∷ 97 ∷ [], 44 ∷ [])
read_json_string-json_quote_example = read_json_string-json_quote (34 ∷ 31 ∷ 97 ∷ []) (44 ∷ [])

read_hex-hex_example : read_hex (hex (0 ∷ 171 ∷ [])) ≡ 0 ∷ 171 ∷ []
read_hex-hex_example = read_hex-hex (0 ∷ 171 ∷ []) (omega arith, (omega arith, tt))
