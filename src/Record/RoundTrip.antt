-- ===== src/Record/RoundTrip.antt =====
-- Decoding an encoded record gives its values back.
use velr.Base.{
  ℕ, zero, suc, ◌+◌, ◌^◌, ◌≤◌, ◌<◌, List, [], ◌∷◌, ◌++◌, append_assoc, append-nil, map, some, none,
  false, ◌≡◌, ◌≢◌, refl, sym, ap, ap₂, ◌∙◌, arith, length, length-append, take, drop,
  take-append_left, drop-append_left, All, leb, ne→==, ==_iff, length-map, gt→leb, ge→ltb,
}
use velr.Base.Word.{Bytes, IsU64}
use velr.Base.Result.{ok}
use velr.Varint.{varint_len, varint_bytes}
use velr.Varint.RoundTrip.{read_varint-varint, length-varint}
use velr.Record.Data.{StorageValue}
use velr.Record.{
  serial_type, payload, varints, payloads, sum, encode_record, encode_record_with_types,
}
use velr.Record.Decode.{
  RecordValues, read_varint_at, record_values, next_value, next, collect, decode_record,
}
use velr.Record.Fields.{IsValue, Field, payload-Field}
use velr.Record.Header.{HeaderSize, HeaderSize-ends}

-- Behind `front` in the header stand the tags `ts`, and behind `back` in the body the payloads `ps`.
record At (r : RecordValues) (front ts back ps : Bytes) : Type 0 where
  bytes_are : r.bytes ≡ (front ++ ts) ++ (back ++ ps)
  header_is : r.header ≡ length front
  header_end_is : r.header_end ≡ length (front ++ ts)
  body_is : r.body ≡ length (front ++ ts) + length back

read_varint_at_lem :
    (front rest : Bytes) (tag : ℕ)
    → IsU64 tag
    → read_varint_at (front ++ (varint_bytes tag ++ rest)) (length front)
      ≡ ok (tag, length (front ++ varint_bytes tag))
unfolding read_varint_at
read_varint_at_lem front rest tag h =
    rw
      (
        drop-append_left (length front) front (varint_bytes tag ++ rest) refl,
        read_varint-varint tag rest h,
      )
      (ap (λ (n : ℕ). ok (tag, n))
        (omega (
          arith,
          length-append front (varint_bytes tag ++ rest),
          length-append (varint_bytes tag) rest,
          length-append front (varint_bytes tag),
        )))

abbrev moved : RecordValues → Bytes → ℕ → Bytes → RecordValues
moved r front tag p = record r {
  header = length (front ++ varint_bytes tag);
  body = r.body + length p;
}

module _ (r : RecordValues) (tag : ℕ) (front ts back p ps : Bytes)
    (a : At r front (varint_bytes tag ++ ts) back (p ++ ps)) where
  body_fits : r.body + length p ≤ length r.bytes
  body_fits = omega (
    arith,
    a.body_is,
    ap length a.bytes_are,
    length-append (front ++ (varint_bytes tag ++ ts)) (back ++ (p ++ ps)),
    length-append back (p ++ ps),
    length-append p ps,
  )

module _ (r : RecordValues) (v : StorageValue) (tag : ℕ) (front ts back p ps : Bytes)
    (f : Field v tag p) (h : IsU64 tag) (bound : length r.bytes < 2 ^ 64)
    (a : At r front (varint_bytes tag ++ ts) back (p ++ ps)) where
  header_reads :
      read_varint_at (take r.header_end r.bytes) r.header
      ≡ ok (tag, length (front ++ varint_bytes tag))
  header_reads =
      ap₂ read_varint_at
        (ap (take r.header_end) a.bytes_are ∙ take-append_left _ _ _ a.header_end_is) a.header_is
      ∙ read_varint_at_lem front ts tag h

  body_reads : take (length p) (drop r.body r.bytes) ≡ p
  body_reads =
      ap (λ (b : Bytes). take (length p) (drop r.body b))
        (a.bytes_are ∙ sym (append_assoc (front ++ (varint_bytes tag ++ ts)) back (p ++ ps)))
      ∙ ap (take (length p)) (
          drop-append_left r.body ((front ++ (varint_bytes tag ++ ts)) ++ back) (p ++ ps)
            (a.body_is ∙ sym (length-append (front ++ (varint_bytes tag ++ ts)) back)))
      ∙ take-append_left (length p) p ps refl

  next_value-Field : next_value r ≡ ok (v, moved r front tag p)
  unfolding next_value
  next_value-Field =
      let fits = body_fits r tag front ts back p ps a in
      let no_overflow : leb (2 ^ 64) (r.body + length p) ≡ false = gt→leb _ _ (omega arith) in
      rw (header_reads, f.length_is)
        (rw (no_overflow, ge→ltb (length r.bytes) (r.body + length p) fits, body_reads, f.reads)
          refl)

  moved-At : At (moved r front tag p) (front ++ varint_bytes tag) ts (back ++ p) ps
  moved-At = record {
    bytes_are = a.bytes_are ∙ simp append_assoc;
    header_is = refl;
    header_end_is = a.header_end_is ∙ ap length (sym (append_assoc front (varint_bytes tag) ts));
    body_is = omega (
      arith,
      a.body_is,
      ap length (append_assoc front (varint_bytes tag) ts),
      length-append back p,
    );
  }

  header_left : r.header ≢ r.header_end
  header_left = λ e. omega (
    arith,
    a.header_is,
    a.header_end_is,
    length-append front (varint_bytes tag ++ ts),
    length-append (varint_bytes tag) ts,
    length-varint tag,
  )

next_end : (r : RecordValues) → r.header ≡ r.header_end → next r ≡ none
unfolding next
next_end r e = rw ((==_iff r.header r.header_end).1 e)

next_more : (r : RecordValues) → r.header ≢ r.header_end → next r ≡ some (next_value r)
unfolding next
next_more r n = rw (ne→== r.header r.header_end n)

collect_end : (fuel : ℕ) (r : RecordValues) → next r ≡ none → collect (suc fuel) r ≡ ok []
unfolding collect
collect_end fuel r e = rw (e, collect)

collect_step :
    (fuel : ℕ) (r r' : RecordValues) (v : StorageValue) (vs : List StorageValue)
    → next r ≡ some (ok (v, r'))
    → collect fuel r' ≡ ok vs
    → collect (suc fuel) r ≡ ok (v ∷ vs)
unfolding collect
collect_step fuel r r' v vs e rest = rw (e, collect) (rw rest refl)

-- The rest of a record, from any place between two of its fields.
collect-At :
    (vs : List StorageValue) (fuel : ℕ) (r : RecordValues) (front back : Bytes)
    → length vs < fuel
    → All IsValue vs
    → length r.bytes < 2 ^ 62
    → At r front (varints (map serial_type vs)) back (payloads vs (map serial_type vs))
    → collect fuel r ≡ ok vs
collect-At vs zero r front back enough ok_vs bound a = absurd (omega arith)
collect-At [] (suc fuel) r front back enough ok_vs bound a =
    collect_end fuel r
      (next_end r (a.header_is ∙ sym (a.header_end_is ∙ ap length (append-nil front))))
collect-At (v ∷ vs) (suc fuel) r front back enough (ok_v, ok_vs) bound a =
    let f = payload-Field v ok_v in
    let tag = serial_type v in
    let p = payload v tag in
    let ts = varints (map serial_type vs) in
    let ps = payloads vs (map serial_type vs) in
    let fits = body_fits r tag front ts back p ps a in
    let word : IsU64 tag = omega (arith, f.tag_bound) in
    let wide : length r.bytes < 2 ^ 64 = omega arith in
    collect_step fuel r (moved r front tag p) v vs
      (next_more r (header_left r v tag front ts back p ps f word wide a)
        ∙ ap some (next_value-Field r v tag front ts back p ps f word wide a))
      (collect-At vs fuel _ _ _ (omega arith) ok_vs bound
        (moved-At r v tag front ts back p ps f word wide a))

length-varints : (tags : List ℕ) → length (varints tags) ≡ sum (map varint_len tags)
length-varints [] = refl
length-varints (tag ∷ tags) =
    omega (
      arith,
      length-append (varint_bytes tag) (varints tags),
      length-varint tag,
      length-varints tags,
    )

fields_fit : (tags : List ℕ) → length tags ≤ sum (map varint_len tags)
fields_fit [] = omega arith
fields_fit (tag ∷ tags) = omega (arith, length-varint tag, fields_fit tags)

-- The reader starts behind the header's own size.
record_values_lem :
    (h : ℕ) (ts ps : Bytes)
    → h ≡ length (varint_bytes h ++ ts)
    → IsU64 h
    → record_values ((varint_bytes h ++ ts) ++ ps)
      ≡ ok (record {
        bytes = (varint_bytes h ++ ts) ++ ps;
        header = length (varint_bytes h);
        header_end = h;
        body = h;
      })
unfolding record_values
record_values_lem h ts ps e word =
    let start : read_varint_at ((varint_bytes h ++ ts) ++ ps) 0 ≡ ok (h, length (varint_bytes h)) =
      ap (λ (b : Bytes). read_varint_at b 0) (append_assoc (varint_bytes h) ts ps)
      ∙ read_varint_at_lem [] (ts ++ ps) h word in
    rw start (
      rw
        (
          ge→ltb h (length (varint_bytes h)) (omega (arith, length-append (varint_bytes h) ts)),
          ge→ltb (length ((varint_bytes h ++ ts) ++ ps)) h
              (omega (arith, length-append (varint_bytes h ++ ts) ps)),
        )
        refl)

-- The pieces of an encoded record: its header, with the header's own size, and its payloads.
record Encoded (vs : List StorageValue) (h : ℕ) : Type 0 where
  size : HeaderSize (sum (map varint_len (map serial_type vs))) h
  shape :
      encode_record vs
      ≡ some ((varint_bytes h ++ varints (map serial_type vs)) ++ payloads vs (map serial_type vs))

encode_record_lem : (vs : List StorageValue) → (h : ℕ) × Encoded vs h
unfolding encode_record encode_record_with_types
encode_record_lem vs =
    let tags = map serial_type vs in
    let (h, e, size) = HeaderSize-ends (sum (map varint_len tags)) in
    (h, record { size = size; shape = rw e refl })

module _ (vs : List StorageValue) (h : ℕ) (d : Encoded vs h) where
  header_length : length (varint_bytes h ++ varints (map serial_type vs)) ≡ h
  header_length =
      let counts = d.size.counts_itself in
      omega (
        arith,
        length-append (varint_bytes h) (varints (map serial_type vs)),
        length-varint h,
        length-varints (map serial_type vs),
      )

decode-pieces :
    (vs : List StorageValue) (h : ℕ) (d : Encoded vs h) (out : Bytes)
    → All IsValue vs
    → out ≡ (varint_bytes h ++ varints (map serial_type vs)) ++ payloads vs (map serial_type vs)
    → length out < 2 ^ 62
    → decode_record out ≡ ok vs
unfolding decode_record
decode-pieces vs h d out ok_vs e bound =
    let tags = map serial_type vs in
    let ps = payloads vs tags in
    let front = varint_bytes h in
    let hl = header_length vs h d in
    let n = length-append (front ++ varints tags) ps in
    let bound' : length ((front ++ varints tags) ++ ps) < 2 ^ 62 = rw e at bound in
    let word : IsU64 h = omega arith in
    let few = fields_fit tags in
    let counts = d.size.counts_itself in
    rw (e, record_values_lem h (varints tags) ps (sym hl) word)
      (collect-At vs _ _ front [] (omega (arith, length-map vs serial_type)) ok_vs bound' (record {
        bytes_are = refl;
        header_is = refl;
        header_end_is = sym hl;
        body_is = omega arith;
      }))

-- Decoding the record of valid values gives these values, integers of every width included.
pub decode-encode :
    (vs : List StorageValue) (out : Bytes)
    → All IsValue vs
    → encode_record vs ≡ some out
    → length out < 2 ^ 62
    → decode_record out ≡ ok vs
decode-encode vs out ok_vs e bound =
    let (h, d) = encode_record_lem vs in decode-pieces vs h d out ok_vs (cc (d.shape)) bound
