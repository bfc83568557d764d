-- ===== src/Sort/Tests.antt =====
-- A spool of two tuples, its keys, and a merge of two runs.
use velr.Base.{ℕ, ◌-◌, ◌^◌, List, [], ◌∷◌, some, map, length, replicate, ltb, ◌≡◌, refl, arith, All}
use velr.Base.Result.{ok}
use velr.Base.Word.{Bytes}
use velr.Record.{encode_record}
use velr.Record.Data.{integer}
use velr.Varint.{leading_zeros}
use velr.Sort.{encode_integer_record, extract_least, merge_loop, merge_visit}
use velr.Sort.Frame.{write_records, read_records, read_records-write_records}
use velr.Sort.Merge.{IsSorted, occurrences, occurrences_in, merge_visit-IsSorted}
use velr.Sort.Integer.{encode_integer_record-encode_record}
use velr.Sort.Keys.{
  at, ordered, passes, IntegerSpool, create_spool, push, pack, unpack, width_of, bits_of,
}
use velr.Sort.Packing.{Within, tuple_ltb}
use velr.Sort.Unpack.{codec_of, unpack-pack, pack-tuple_ltb}
use velr.Sort.External.{external_sort}
use velr.Sort.Spool.{external_sort-spool}
use velr.Sort.Radix.{radix_sort, radix_loop, radix_pass, histogram, scatter, digit}
use velr.Sort.RadixOrder.{radix_sort-IsSorted}
use velr.Sort.Bounds.{IsBounded, create_spool-IsBounded, push-IsBounded}

merged : merge_visit ((1 ∷ 4 ∷ []) ∷ [] ∷ (2 ∷ 4 ∷ []) ∷ []) ≡ some (1 ∷ 2 ∷ 4 ∷ 4 ∷ [])
unfolding merge_visit merge_loop extract_least
merged = refl

merge_visit-IsSorted_example :
    (out : List ℕ) × (merge_visit ((1 ∷ 4 ∷ []) ∷ (2 ∷ []) ∷ []) ≡ some out)
    × IsSorted out
    × ((k : ℕ) → occurrences k out ≡ occurrences_in k ((1 ∷ 4 ∷ []) ∷ (2 ∷ []) ∷ []))
merge_visit-IsSorted_example =
    merge_visit-IsSorted ((1 ∷ 4 ∷ []) ∷ (2 ∷ []) ∷ [])
      (((omega arith, tt), (tt, tt)), ((tt, tt), tt))

read_records-write_records_example :
    (stream : Bytes) × (write_records ((7 ∷ []) ∷ (8 ∷ 9 ∷ []) ∷ []) ≡ ok (stream, length stream))
    × (read_records 3 stream ≡ ok ((7 ∷ []) ∷ (8 ∷ 9 ∷ []) ∷ []))
read_records-write_records_example =
    read_records-write_records ((7 ∷ []) ∷ (8 ∷ 9 ∷ []) ∷ [])
      ((omega arith, omega arith), ((omega arith, omega arith), tt))

encode_integer_record-encode_record_example :
    (out : Bytes) × (encode_integer_record (300 ∷ 0 ∷ 7 ∷ []) ≡ ok out)
    × (encode_record (map integer (300 ∷ 0 ∷ 7 ∷ [])) ≡ some out)
encode_integer_record-encode_record_example =
    encode_integer_record-encode_record (300 ∷ 0 ∷ 7 ∷ [])
      (omega arith, (omega arith, (omega arith, tt))) (omega arith)

abbrev first_tuple : List ℕ
first_tuple = 5 ∷ (2 ^ 64 - 1) ∷ 0 ∷ 0 ∷ []

abbrev second_tuple : List ℕ
second_tuple = 5 ∷ 3 ∷ 0 ∷ 0 ∷ []

abbrev one_row : IntegerSpool
one_row = record {
  fields = 2;
  tuples = first_tuple ∷ [];
  rows = 1;
  minimum = ordered 5 ∷ ordered (2 ^ 64 - 1) ∷ (2 ^ 64 - 1) ∷ (2 ^ 64 - 1) ∷ [];
  maximum = ordered 5 ∷ ordered (2 ^ 64 - 1) ∷ 0 ∷ 0 ∷ [];
}

abbrev two_rows : IntegerSpool
two_rows = record {
  fields = 2;
  tuples = first_tuple ∷ second_tuple ∷ [];
  rows = 2;
  minimum = ordered 5 ∷ ordered (2 ^ 64 - 1) ∷ (2 ^ 64 - 1) ∷ (2 ^ 64 - 1) ∷ [];
  maximum = ordered 5 ∷ ordered 3 ∷ 0 ∷ 0 ∷ [];
}

first_pushed :
    push
      (record {
        fields = 2;
        tuples = [];
        rows = 0;
        minimum = replicate 4 (2 ^ 64 - 1);
        maximum = replicate 4 0;
      })
      (5 ∷ (2 ^ 64 - 1) ∷ [])
    ≡ ok one_row
unfolding push
first_pushed = refl

second_pushed : push one_row (5 ∷ 3 ∷ []) ≡ ok two_rows
unfolding push
second_pushed = refl

created :
    create_spool 2
    ≡ ok (record {
      fields = 2;
      tuples = [];
      rows = 0;
      minimum = replicate 4 (2 ^ 64 - 1);
      maximum = replicate 4 0;
    })
unfolding create_spool
created = refl

one_row-IsBounded : IsBounded one_row
one_row-IsBounded =
    push-IsBounded _ _ _ (create_spool-IsBounded 2 _ created) (omega arith, (omega arith, tt))
      first_pushed

push-IsBounded_example : IsBounded two_rows
push-IsBounded_example =
    push-IsBounded one_row (5 ∷ 3 ∷ []) two_rows one_row-IsBounded (omega arith, (omega arith, tt))
      second_pushed

widths : bits_of two_rows (0 ∷ 1 ∷ []) ≡ 3
unfolding width_of leading_zeros
widths = refl

first_within : All (Within two_rows first_tuple) (0 ∷ 1 ∷ [])
first_within = (
  record {
    word = omega arith;
    above = omega arith;
    below = omega arith;
    bounded = omega arith;
    in_array = omega arith;
  },
  (
    record {
      word = omega arith;
      above = omega arith;
      below = omega arith;
      bounded = omega arith;
      in_array = omega arith;
    },
    tt,
  ),
)

second_within : All (Within two_rows second_tuple) (0 ∷ 1 ∷ [])
second_within = (
  record {
    word = omega arith;
    above = omega arith;
    below = omega arith;
    bounded = omega arith;
    in_array = omega arith;
  },
  (
    record {
      word = omega arith;
      above = omega arith;
      below = omega arith;
      bounded = omega arith;
      in_array = omega arith;
    },
    tt,
  ),
)

unpack-pack_example :
    at
      (unpack
        (codec_of two_rows (0 ∷ 1 ∷ []))
        (pack 64 (codec_of two_rows (0 ∷ 1 ∷ [])) first_tuple))
      1
    ≡ 2 ^ 64 - 1
unpack-pack_example =
    unpack-pack two_rows (omega arith) 64 (0 ∷ 1 ∷ []) first_tuple 1 first_within
      (omega (arith, widths)) refl

pack-tuple_ltb_example :
    ltb
      (pack 64 (codec_of two_rows (0 ∷ 1 ∷ [])) first_tuple)
      (pack 64 (codec_of two_rows (0 ∷ 1 ∷ [])) second_tuple)
    ≡ tuple_ltb (0 ∷ 1 ∷ []) first_tuple second_tuple
pack-tuple_ltb_example =
    pack-tuple_ltb two_rows (omega arith) 64 (0 ∷ 1 ∷ []) first_tuple second_tuple first_within
      second_within (omega (arith, widths))

sorted_keys : radix_sort (300 ∷ 2 ∷ 515 ∷ 2 ∷ []) 2 ≡ 2 ∷ 2 ∷ 300 ∷ 515 ∷ []
unfolding radix_sort radix_loop radix_pass histogram scatter digit
sorted_keys = refl

radix_sort-IsSorted_example :
    IsSorted (radix_sort (300 ∷ 2 ∷ 515 ∷ 2 ∷ []) 2)
    × ((k : ℕ)
        → occurrences k (radix_sort (300 ∷ 2 ∷ 515 ∷ 2 ∷ []) 2)
          ≡ occurrences k (300 ∷ 2 ∷ 515 ∷ 2 ∷ []))
radix_sort-IsSorted_example =
    radix_sort-IsSorted (300 ∷ 2 ∷ 515 ∷ 2 ∷ []) 2
      (omega arith, (omega arith, (omega arith, (omega arith, tt))))

two_rows-IsBounded : IsBounded two_rows
two_rows-IsBounded =
    push-IsBounded one_row (5 ∷ 3 ∷ []) two_rows one_row-IsBounded (omega arith, (omega arith, tt))
      second_pushed

external_sort-spool_example :
    (keys : List ℕ) × (external_sort
        (pack 64 (codec_of two_rows (0 ∷ 1 ∷ [])))
        (passes (codec_of two_rows (0 ∷ 1 ∷ [])))
        two_rows.tuples
        1
        2
      ≡ some keys)
    × IsSorted keys
    × ((k : ℕ)
        → occurrences k keys
          ≡ occurrences k (map (pack 64 (codec_of two_rows (0 ∷ 1 ∷ []))) two_rows.tuples))
external_sort-spool_example =
    external_sort-spool two_rows 64 (0 ∷ 1 ∷ []) 1 2 two_rows-IsBounded (omega arith)
      (omega arith, (omega arith, tt)) (omega (arith, widths)) (omega arith) (omega arith)
