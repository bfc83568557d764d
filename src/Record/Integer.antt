-- ===== src/Record/Integer.antt =====
-- Integers in a record: the narrow forms hold the whole value.
use velr.Base.{ℕ, ◌<◌, ◌≡◌, refl, arith, leb, true, length, if_both, ==_iff, leb, ◌&&◌}
use velr.Base.Word.{IsU64}
use velr.Record.{signed_within, integer_type, tail_bytes, integer_width}
use velr.Record.Data.{integer}
use velr.Record.Decode.{integer_of, serial_length, value_of}
use velr.Base.Result.{ok}

-- What the reader makes of an integer's serial type and bytes.
pub record IntegerField (v tag width : ℕ) : Type 0 where
  pub tag_small : tag < 10
  pub tag_pos : 0 < tag
  pub width_is : integer_width tag ≡ width
  pub length_is : serial_length tag ≡ ok width
  pub bytes_are : length (tail_bytes width v) ≡ width
  pub reads : value_of tag (tail_bytes width v) ≡ ok (integer v)

module _ (v : ℕ) (h : IsU64 v) where
  field_zero : v ≡ 0 → IntegerField v 8 0
  unfolding integer_width serial_length value_of tail_bytes
  field_zero e = record {
    tag_small = omega arith;
    tag_pos = omega arith;
    width_is = refl;
    length_is = refl;
    bytes_are = refl;
    reads = cc;
  }

  field_one : v ≡ 1 → IntegerField v 9 0
  unfolding integer_width serial_length value_of tail_bytes
  field_one e = record {
    tag_small = omega arith;
    tag_pos = omega arith;
    width_is = refl;
    length_is = refl;
    bytes_are = refl;
    reads = cc;
  }

  wide :
      (tag width : ℕ)
      → (leb 1 tag && leb tag 6) ≡ true
      → integer_width tag ≡ width
      → serial_length tag ≡ ok width
      → length (tail_bytes width v) ≡ width
      → integer_of (tail_bytes width v) ≡ v
      → IntegerField v tag width
  unfolding value_of
  wide tag width r e k b i = record {
    tag_small = ground arith;
    tag_pos = ground arith;
    width_is = e;
    length_is = k;
    bytes_are = b;
    reads = ground (arith, i);
  }

  read_1 : signed_within 128 v ≡ true → integer_of (tail_bytes 1 v) ≡ v
  unfolding integer_of tail_bytes
  read_1 r = ground arith

  read_2 : signed_within 32768 v ≡ true → integer_of (tail_bytes 2 v) ≡ v
  unfolding integer_of tail_bytes
  read_2 r = ground arith

  read_3 : signed_within 8388608 v ≡ true → integer_of (tail_bytes 3 v) ≡ v
  unfolding integer_of tail_bytes
  read_3 r = ground arith

  read_4 : signed_within 2147483648 v ≡ true → integer_of (tail_bytes 4 v) ≡ v
  unfolding integer_of tail_bytes
  read_4 r = ground arith

  read_6 : signed_within 140737488355328 v ≡ true → integer_of (tail_bytes 6 v) ≡ v
  unfolding integer_of tail_bytes
  read_6 r = ground arith

  read_8 : integer_of (tail_bytes 8 v) ≡ v
  unfolding integer_of tail_bytes
  read_8 = ground arith

  abbrev Good : ℕ × ℕ → Type 0
  Good p = IntegerField v p.0 p.1

  -- Every integer is read back from the form that `integer_type` chooses for it.
  pub integer_type-IntegerField : Good (integer_type v)
  unfolding integer_type integer_width serial_length tail_bytes
  integer_type-IntegerField =
      if_both Good _ (λ e. field_zero ((==_iff v 0).0 e))
        λ _.
          if_both Good _ (λ e. field_one ((==_iff v 1).0 e))
            λ _.
              if_both Good _ (λ r. wide 1 1 refl refl refl refl (read_1 r))
                λ _.
                  if_both Good _ (λ r. wide 2 2 refl refl refl refl (read_2 r))
                    λ _.
                      if_both Good _ (λ r. wide 3 3 refl refl refl refl (read_3 r))
                        λ _.
                          if_both Good _ (λ r. wide 4 4 refl refl refl refl (read_4 r))
                            λ _.
                              if_both Good _ (λ r. wide 5 6 refl refl refl refl (read_6 r))
                                λ _. wide 6 8 refl refl refl refl read_8
