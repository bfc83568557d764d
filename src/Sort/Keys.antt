-- ===== src/Sort/Keys.antt =====
-- The spool of integer tuples and its keys: IntegerSpool::push, Codec, and pack and unpack of the key
-- types u64, u128, Packed96 and WideKey. The arrays of the codec, by position, are a list of parts.
use velr.Base.{
  ℕ, zero, suc, ◌+◌, ◌-◌, ◌*◌, ◌/◌, ◌%◌, ◌^◌, min, max, bit_and, bit_or, Bool, true, false, not,
  ◌&&◌, ◌||◌, List, [], ◌∷◌, ◌++◌, map, length, replicate, ltb, leb, ◌==◌, if◌then◌else◌,
}
use velr.Base.Result.{ok, err}
use velr.Base.Word.{Bytes}
use velr.Varint.{leading_zeros}
use velr.Sort.{S, wrong_field_count, too_many_tuples, invalid_specification, encode_integer_record}

-- Element `i` of an array of four.
abbrev pub at : List ℕ → ℕ → ℕ
at [] i = 0
at (x ∷ xs) zero = x
at (x ∷ xs) (suc i) = at xs i

abbrev pub put : List ℕ → ℕ → ℕ → List ℕ
put [] i value = []
put (x ∷ xs) zero value = value ∷ xs
put (x ∷ xs) (suc i) value = x ∷ put xs i value

-- `value as u64 ^ (1 << 63)`
abbrev pub ordered : ℕ → ℕ
ordered value = (value + 2 ^ 63) % 2 ^ 64

pub record IntegerSpool : Type 0 where
  pub fields : ℕ
  pub tuples : List (List ℕ)
  pub rows : ℕ
  pub minimum : List ℕ
  pub maximum : List ℕ

unfoldable pub create_spool : ℕ → S IntegerSpool
create_spool fields =
    if leb 1 fields && leb fields 4
    then ok (record {
      fields = fields;
      tuples = [];
      rows = 0;
      minimum = replicate 4 (2 ^ 64 - 1);
      maximum = replicate 4 0;
    })
    else err wrong_field_count

-- The fields of a tuple update the bounds of their columns.
abbrev pub with_bounds : (ℕ → ℕ → ℕ) → List ℕ → List ℕ → List ℕ
with_bounds f (b ∷ bounds) (value ∷ values) = f b (ordered value) ∷ with_bounds f bounds values
with_bounds f bounds _ = bounds

-- The rest of the 32 bytes of a tuple are zeros.
abbrev pub padded : List ℕ → List ℕ
padded values = values ++ replicate (4 - length values) 0

unfoldable pub push : IntegerSpool → List ℕ → S IntegerSpool
push s values =
    if not (length values == s.fields)
    then err wrong_field_count
    else if ltb (s.rows + 1) (2 ^ 64)
    then ok (record s {
      tuples = s.tuples ++ (padded values ∷ []);
      rows = s.rows + 1;
      minimum = with_bounds min s.minimum values;
      maximum = with_bounds max s.maximum values;
    })
    else err too_many_tuples

pub record IntegerIndexSpec : Type 0 where
  pub sorted_fields : List ℕ
  pub record_fields : List ℕ
  pub key_columns : ℕ

abbrev pub contains : List ℕ → ℕ → Bool
contains [] x = false
contains (y ∷ ys) x = y == x || contains ys x

-- The fields in the order of their first use.
abbrev pub record_order : List ℕ → List ℕ → List ℕ
record_order seen [] = seen
record_order seen (field ∷ fields) =
    record_order (if contains seen field then seen else seen ++ (field ∷ [])) fields

abbrev pub all : (ℕ → Bool) → List ℕ → Bool
all p [] = true
all p (x ∷ xs) = p x && all p xs

abbrev pub same_list : List ℕ → List ℕ → Bool
same_list [] [] = true
same_list (x ∷ xs) (y ∷ ys) = x == y && same_list xs ys
same_list _ _ = false

unfoldable pub is_valid_specification : ℕ → IntegerIndexSpec → Bool
is_valid_specification fields spec =
    leb 1 (length spec.sorted_fields)
    && leb (length spec.sorted_fields) 4
    && leb 1 (length spec.record_fields)
    && leb (length spec.record_fields) 8
    && leb 1 spec.key_columns
    && leb spec.key_columns (length spec.record_fields)
    && all (λ field. ltb field fields) spec.sorted_fields
    && all (contains spec.sorted_fields) spec.record_fields
    && same_list (record_order [] spec.record_fields) spec.sorted_fields

-- A column of the codec: its field, and where it stands in a key.
pub record Part : Type 0 where
  pub field : ℕ
  pub minimum : ℕ
  pub shift : ℕ
  pub mask : ℕ

pub record Codec : Type 0 where
  pub parts : List Part
  pub bits : ℕ

unfoldable pub width_of : IntegerSpool → ℕ → ℕ
width_of s field =
    let range = if s.rows == 0 then 0 else at s.maximum field - at s.minimum field in
    64 - leading_zeros 64 range

abbrev pub bits_of : IntegerSpool → List ℕ → ℕ
bits_of s [] = 0
bits_of s (field ∷ fields) = width_of s field + bits_of s fields

abbrev pub mask_of : ℕ → ℕ
mask_of width = if width == 0 then 0 else if width == 64 then 2 ^ 64 - 1 else 2 ^ width - 1

-- The loop over the fields, with the bits that remain.
abbrev pub parts_from : IntegerSpool → ℕ → List ℕ → List Part
parts_from s remaining [] = []
parts_from s remaining (field ∷ fields) =
    let width = width_of s field in
    let left = remaining - width in
    record {
      field = field;
      minimum = at s.minimum field;
      shift = if width == 0 then 0 else left;
      mask = mask_of width;
    }
    ∷ parts_from s left fields

unfoldable pub new_codec : IntegerSpool → IntegerIndexSpec → S Codec
new_codec s spec =
    let bits = bits_of s spec.sorted_fields in
    if is_valid_specification s.fields spec
    then ok (record { parts = parts_from s bits spec.sorted_fields; bits = bits })
    else err invalid_specification

-- `pack` of keys of `word` bits, 64 or 128: the fold over the fields.
unfoldable pub pack_parts : ℕ → List Part → List ℕ → ℕ → ℕ
pack_parts word [] tuple key = key
pack_parts word (p ∷ parts) tuple key =
    pack_parts word parts tuple
      (bit_or key ((ordered (at tuple p.field) - p.minimum) * 2 ^ p.shift % 2 ^ word))

unfoldable pub pack : ℕ → Codec → List ℕ → ℕ
pack word codec tuple = pack_parts word codec.parts tuple 0

-- The value of a field in a key; `as u64` is the remainder.
unfoldable pub part_value : ℕ → Part → ℕ
part_value key p = ordered ((bit_and (key / 2 ^ p.shift % 2 ^ 64) p.mask + p.minimum) % 2 ^ 64)

unfoldable pub unpack_parts : ℕ → List Part → List ℕ → List ℕ
unpack_parts key [] tuple = tuple
unpack_parts key (p ∷ parts) tuple = unpack_parts key parts (put tuple p.field (part_value key p))

unfoldable pub unpack : Codec → ℕ → List ℕ
unpack codec key = unpack_parts key codec.parts (replicate 4 0)

unfoldable pub passes : Codec → ℕ
passes codec = (codec.bits + 7) / 8

-- Keys of 96 bits: three words of 32, the highest first.
unfoldable pub pack_96 : Codec → List ℕ → ℕ × ℕ × ℕ
pack_96 codec tuple =
    let key = pack 128 codec tuple in (key / 2 ^ 64 % 2 ^ 32, key / 2 ^ 32 % 2 ^ 32, key % 2 ^ 32)

unfoldable pub unpack_96 : Codec → ℕ × ℕ × ℕ → List ℕ
unpack_96 codec (high, middle, low) =
    unpack codec (bit_or (bit_or (high * 2 ^ 64) (middle * 2 ^ 32)) low)

-- Wider keys are the ordered fields themselves.
abbrev pub pack_wide : List ℕ → List ℕ → List ℕ
pack_wide fields tuple = map (λ field. ordered (at tuple field)) fields

abbrev pub unpack_wide : List ℕ → List ℕ → List ℕ → List ℕ
unpack_wide (field ∷ fields) (word ∷ key) tuple =
    unpack_wide fields key (put tuple field (ordered word))
unpack_wide _ _ tuple = tuple

-- `encode_tuple_record`
unfoldable pub encode_tuple_record : List ℕ → List ℕ → S Bytes
encode_tuple_record tuple fields = encode_integer_record (map (at tuple) fields)
