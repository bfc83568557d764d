-- ===== src/Csv/Record.antt =====
-- parse_record: the fields of a record with quotes. `raw[a..b]` is `between raw a b`.
use velr.Base.{
  ℕ, zero, suc, ◌+◌, ◌-◌, Bool, true, false, not, ◌&&◌, ◌||◌, List, [], ◌∷◌, ◌++◌, Option, none,
  some, length, get_elem?, take, drop, ltb, leb, ◌==◌, if◌then◌else◌,
}
use velr.Base.Result.{ok, err, ◌>>=◌}
use velr.Base.Word.{Bytes}
use velr.Record.Utf8.{is_utf8}
use velr.Csv.{
  C, unexpected_data, not_utf8, delimiter_boundary, csv_out_of_fuel, FieldText, span, decoded,
  Field, field_length, starts_with,
}

abbrev pub between : Bytes → ℕ → ℕ → Bytes
between raw start end = take (end - start) (drop start raw)

abbrev is_at : Option ℕ → ℕ → Bool
is_at none byte = false
is_at (some b) byte = b == byte

-- The record without its terminator.
unfoldable pub record_end : Bytes → ℕ
record_end raw =
    let end = length raw in
    if is_at (get_elem? raw (end - 1)) 10
    then if ltb 1 end && is_at (get_elem? raw (end - 2)) 13 then end - 2 else end - 1
    else if is_at (get_elem? raw (end - 1)) 13
    then end - 1
    else end

pub record Format : Type 0 where
  pub delimiter : Bytes
  pub quote : Bytes
  pub legacy : Bool
  pub trim : Bool
  pub limit : ℕ

-- Inside quotes: where the field's text starts, where the reader is, what of the text is not copied
-- yet, and the copied text.
pub record Quoted : Type 0 where
  pub text_start : ℕ
  pub position : ℕ
  pub copied_to : ℕ
  pub output : Bytes
  pub escaped : Bool

pub data Step : Type 0 where
  go : Quoted → Step
  closed : FieldText → ℕ → Step
  needs_more : Step

-- Blanks before a field, but not those of a delimiter.
abbrev pub skip_blanks : Bytes → Bytes → ℕ
skip_blanks delimiter [] = 0
skip_blanks delimiter (b ∷ bytes) =
    let rest = skip_blanks delimiter bytes in
    if (b == 32 || b == 9) && not (starts_with (b ∷ bytes) delimiter) then suc rest else 0

-- How far the pattern, or else the end, is away.
abbrev pub distance : Bytes → Bytes → ℕ
distance pattern [] = 0
distance pattern (b ∷ bytes) =
    let rest = distance pattern bytes in if starts_with (b ∷ bytes) pattern then 0 else suc rest

module _ (f : Format) (raw : Bytes) (end : ℕ) where
  abbrev from : ℕ → Bytes
  from position = between raw position end

  -- The text behind the closing quote at `position`.
  unfoldable pub close : Quoted → ℕ → C Step
  close q position =
      if ltb position end && not (starts_with (from position) f.delimiter)
      then err unexpected_data
      else if not q.escaped
      then ok (closed (span q.text_start (position - length f.quote)) position)
      else if is_utf8 q.output
      then ok (closed (decoded q.output) position)
      else err not_utf8

  -- At a quote: a second one stands for one quote, else the field ends.
  unfoldable pub at_quote : Quoted → C Step
  at_quote q =
      let output = if q.escaped then q.output ++ between raw q.copied_to q.position else q.output in
      let position = q.position + length f.quote in
      let all =
        if q.escaped
        then output
        else output ++ between raw q.text_start (position - length f.quote) in
      let doubled = go (record q {
        position = position + length f.quote;
        copied_to = position + length f.quote;
        output = all ++ f.quote;
        escaped = true;
      }) in
      field_length (if q.escaped then length output else q.position - q.text_start) f.limit >>= λ _.
      if starts_with (from position) f.quote
      then ok doubled
      else close (record q { output = output }) position

  -- A backslash before a quote or a backslash, in the legacy form.
  unfoldable pub after_backslash : Quoted → Bytes → ℕ → Step
  after_backslash q text width = go (record q {
    position = q.position + width;
    copied_to = q.position + width;
    output = q.output ++ between raw q.copied_to q.position ++ text;
    escaped = true;
  })

  -- Ordinary text: one byte on, or straight to the next quote.
  unfoldable pub ordinary : Quoted → C Step
  ordinary q =
      let offset = distance f.quote (from q.position) in
      if length f.quote == 1 && not f.legacy
      then if ltb (q.position + offset) end
        then ok (go (record q { position = q.position + offset }))
        else (field_length (length q.output + end - q.copied_to) f.limit >>= λ _. ok needs_more)
      else ok (go (record q { position = q.position + 1 }))

  unfoldable pub quoted_step : Quoted → C Step
  quoted_step q =
      let backslash = f.legacy && is_at (get_elem? raw q.position) 92 in
      if leb end q.position
      then (field_length (length q.output + end - q.copied_to) f.limit >>= λ _. ok needs_more)
      else if starts_with (from q.position) f.quote
      then at_quote q
      else if backslash && starts_with (from (q.position + 1)) f.quote
      then ok (after_backslash q f.quote (1 + length f.quote))
      else if backslash && is_at (get_elem? raw (q.position + 1)) 92
      then (field_length (length q.output + (q.position - q.copied_to) + 1) f.limit >>= λ _.
          ok (after_backslash q (92 ∷ []) 2))
      else ordinary q

  -- A quote is not empty, so every step moves on, and there are at most as many as bytes.
  unfoldable pub quoted_field : ℕ → Quoted → C (Option (FieldText × ℕ))
  quoted_field zero q = err csv_out_of_fuel
  quoted_field (suc fuel) q = quoted_step q >>= λ step. elim step [
    | go q' ↦ quoted_field fuel q'
    | closed text position ↦ ok (some (text, position))
    | needs_more ↦ ok none
  ]

  unfoldable pub plain_field : ℕ → C (Option (FieldText × ℕ))
  plain_field start =
      let position = start + distance f.delimiter (from start) in
      field_length (position - start) f.limit >>= λ _. ok (some (span start position, position))

  -- The fields from `position` on, after those read; `none` asks for more input.
  unfoldable pub fields : ℕ → ℕ → List Field → C (Option (List Field))
  fields zero position cells = err csv_out_of_fuel
  fields (suc fuel) position cells =
      let start = if f.trim then position + skip_blanks f.delimiter (from position) else position in
      let is_quoted = starts_with (from start) f.quote in
      let text = start + length f.quote in
      let opened : Quoted = record {
        text_start = text;
        position = text;
        copied_to = text;
        output = [];
        escaped = false;
      } in
      (if is_quoted then quoted_field (length raw + 1) opened else plain_field position) >>= λ o.
      elim o [
        | none ↦ ok none
        | some (field, behind) ↦
            let cells' = cells ++ (record { text = field; quoted = is_quoted } ∷ []) in
            let next = behind + length f.delimiter in
            let rest = fields fuel next cells' in
            if behind == end
            then ok (some cells')
            else if ltb end next
            then err delimiter_boundary
            else rest
      ]

-- `some` is Parsed::Complete with the fields, `none` Parsed::More.
unfoldable pub parse_record : Format → Bytes → C (Option (List Field))
parse_record f raw = fields f raw (record_end raw) (length raw + 2) 0 []
