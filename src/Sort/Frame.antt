-- ===== src/Sort/Frame.antt =====
-- Framed records are read back, and their lengths add up to the offset.
use velr.Base.{
  ℕ, zero, suc, ◌+◌, ◌<◌, List, [], ◌∷◌, ◌++◌, Option, none, some, length, length-append,
  take-append_left, drop-append_left, ne→==, ge→ltb, ◌≡◌, refl, ap, ◌∙◌, arith, All,
}
use velr.Base.Result.{ok, err, ◌>>=◌}
use velr.Base.Word.{Bytes}
use velr.Sort.{S, incomplete, write_encoded_record, read_encoded_record}

-- The stream of several records, and the offset behind it.
abbrev pub write_records : List Bytes → S (Bytes × ℕ)
write_records [] = ok ([], 0)
write_records (r ∷ rs) =
    write_encoded_record r >>= λ p. write_records rs >>= λ q. ok (p.0 ++ q.0, p.1 + q.1)

abbrev read_on : (Bytes → S (List Bytes)) → Option (Bytes × Bytes) → S (List Bytes)
read_on more none = ok []
read_on more (some (r, input)) = more input >>= λ rs. ok (r ∷ rs)

-- The records up to the end of the stream; there are fewer than `fuel`.
unfoldable pub read_records : ℕ → Bytes → S (List Bytes)
read_records zero input = err incomplete
read_records (suc fuel) input = read_encoded_record input >>= read_on (read_records fuel)

abbrev pub Fits : Bytes → Type 0
Fits r = (0 < length r) × (length r < 256)

write_one : (r : Bytes) → Fits r → write_encoded_record r ≡ ok (length r ∷ r, 1 + length r)
unfolding write_encoded_record
write_one r (low, high) =
    rw (ge→ltb 255 (length r) (omega arith), ne→== (length r) 0 (omega arith)) refl

read_one :
    (r rest : Bytes) → Fits r → read_encoded_record ((length r ∷ r) ++ rest) ≡ ok (some (r, rest))
unfolding read_encoded_record
read_one r rest (low, high) =
    rw
      (
        ne→== (length r) 0 (omega arith),
        ge→ltb (length (r ++ rest)) (length r) (omega (arith, length-append r rest)),
        take-append_left (length r) r rest refl,
        drop-append_left (length r) r rest refl,
      )
      refl

-- Records of 1 to 255 bytes can all be written, the offset is the length of the stream, and reading the
-- stream gives the records back.
pub read_records-write_records :
    (rs : List Bytes)
    → All Fits rs
    → (stream : Bytes) × (write_records rs ≡ ok (stream, length stream))
      × (read_records (suc (length rs)) stream ≡ ok rs)
unfolding read_records
read_records-write_records [] h = ([], refl, unfold read_encoded_record in refl)
read_records-write_records (r ∷ rs) (fits, h) =
    let (stream, written, back) = read_records-write_records rs h in
    (
      (length r ∷ r) ++ stream,
      rw (write_one r fits, written)
          (ap (λ (n : ℕ). ok ((length r ∷ r) ++ stream, n))
            (omega (arith, length-append (length r ∷ r) stream))),
      ap (λ (m : S (Option (Bytes × Bytes))). m >>= read_on (read_records (suc (length rs))))
            (read_one r stream fits)
          ∙ rw back refl,
    )
