-- ===== src/Csv/Tests.antt =====
-- Records with and without quotes.
use velr.Csv.Unquoted.{text_of, split, parse_unquoted_record-split}
use velr.Base.{map, true, false, [], ◌∷◌, some, ◌≡◌, refl}
use velr.Base.Result.{ok}
use velr.Csv.{span, field_length, split_byte, parse_unquoted_record}
use velr.Csv.Record.{
  Format, record_end, close, at_quote, ordinary, quoted_step, quoted_field, plain_field, fields,
  parse_record,
}

-- ab,c
two_spans :
    parse_unquoted_record (97 ∷ 98 ∷ 44 ∷ 99 ∷ []) (44 ∷ []) 10
    ≡ ok (
        record { text = span 0 2; quoted = false }
        ∷ record { text = span 3 4; quoted = false }
        ∷ [])
unfolding parse_unquoted_record split_byte field_length
two_spans = refl

abbrev format : Format
format = record { delimiter = 44 ∷ []; quote = 34 ∷ []; legacy = false; trim = true; limit = 100 }

-- "a",b and a line feed
one_quoted :
    parse_record format (34 ∷ 97 ∷ 34 ∷ 44 ∷ 98 ∷ 10 ∷ [])
    ≡ ok (
        some (
          record { text = span 1 2; quoted = true }
          ∷ record { text = span 4 5; quoted = false }
          ∷ []))
unfolding parse_record fields quoted_field quoted_step at_quote close ordinary plain_field
    record_end field_length
one_quoted = refl

parse_unquoted_record-split_example :
    map
      (text_of (97 ∷ 98 ∷ 44 ∷ 99 ∷ []))
      (record { text = span 0 2; quoted = false } ∷ record { text = span 3 4; quoted = false } ∷ [])
    ≡ split 44 (97 ∷ 98 ∷ 44 ∷ 99 ∷ [])
parse_unquoted_record-split_example =
    parse_unquoted_record-split (97 ∷ 98 ∷ 44 ∷ 99 ∷ []) 44 10 _ two_spans
