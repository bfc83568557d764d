-- ===== src/Table/Escapes.antt =====
-- What the escapes of TSV fields, JSON strings and bytes write is read back.
use velr.Base.{
  ℕ, ◌+◌, ◌-◌, ◌*◌, ◌/◌, ◌%◌, ◌<◌, Bool, true, false, ◌||◌, List, [], ◌∷◌, ◌++◌, append_assoc,
  Option, none, some, ◌≡◌, refl, ap, ◌∙◌, arith, ltb, leb, ◌&&◌, ◌==◌, if◌then◌else◌, All,
}
use velr.Base.Word.{IsByte}
use velr.Table.{Text, lower_digit, json_char, json_chars, json_quote, hex, tsv_char, escape_tsv}

abbrev tsv_meaning : ℕ → ℕ
tsv_meaning ch = if ch == 116 then 9 else if ch == 110 then 10 else if ch == 114 then 13 else ch

-- The first argument tells whether a backslash came before.
unfoldable pub unescape_tsv : Bool → Text → Text
unescape_tsv b [] = []
unescape_tsv false (ch ∷ s) = if ch == 92 then unescape_tsv true s else ch ∷ unescape_tsv false s
unescape_tsv true (ch ∷ s) = tsv_meaning ch ∷ unescape_tsv false s

unescape_tsv-tsv_char :
    (ch : ℕ) (s : Text) → unescape_tsv false (tsv_char ch ++ s) ≡ ch ∷ unescape_tsv false s
unfolding unescape_tsv tsv_char
unescape_tsv-tsv_char ch s = ground arith

-- Tabs and line ends, which separate fields and rows.
abbrev pub separators : Text → ℕ
separators [] = 0
separators (ch ∷ s) = (if ch == 9 || ch == 10 || ch == 13 then 1 else 0) + separators s

separators-tsv_char : (ch : ℕ) (s : Text) → separators (tsv_char ch ++ s) ≡ separators s
unfolding tsv_char
separators-tsv_char ch s = ground arith

-- An escaped TSV field has no tab, carriage return or line feed, and is read back as the field.
pub unescape_tsv-escape_tsv :
    (s : Text) → (unescape_tsv false (escape_tsv s) ≡ s) × (separators (escape_tsv s) ≡ 0)
unfolding escape_tsv
unescape_tsv-escape_tsv [] = (unfold unescape_tsv in refl, refl)
unescape_tsv-escape_tsv (ch ∷ s) =
    let (back, none_left) = unescape_tsv-escape_tsv s in
    (
      unescape_tsv-tsv_char ch (escape_tsv s) ∙ ap (◌∷◌ ch) back,
      separators-tsv_char ch (escape_tsv s) ∙ none_left,
    )

-- Where a reader of JSON strings stands: the digits of a \u escape that are left, with their value so far.
pub data Within : Type 0 where
  plain escaped : Within
  digits : ℕ → ℕ → Within

-- The character that a short escape stands for; there are no others but \u.
abbrev json_meaning : ℕ → Option ℕ
json_meaning ch =
    if ch == 34
    then some 34
    else if ch == 92
    then some 92
    else if ch == 47
    then some 47
    else if ch == 98
    then some 8
    else if ch == 102
    then some 12
    else if ch == 110
    then some 10
    else if ch == 114
    then some 13
    else if ch == 116
    then some 9
    else none

-- A hexadecimal digit of either case.
abbrev digit_value : ℕ → Option ℕ
digit_value ch =
    if leb 48 ch && leb ch 57
    then some (ch - 48)
    else if leb 65 ch && leb ch 70
    then some (ch - 55)
    else if leb 97 ch && leb ch 102
    then some (ch - 87)
    else none

abbrev then_char : ℕ → Option (Text × Text) → Option (Text × Text)
then_char ch none = none
then_char ch (some (s, rest)) = some (ch ∷ s, rest)

abbrev then_meaning : Option ℕ → Option (Text × Text) → Option (Text × Text)
then_meaning none more = none
then_meaning (some ch) more = then_char ch more

-- One digit of a \u escape that has `n` left: `last` is for the whole value, `next` for one digit less.
abbrev then_digit :
    ℕ → ℕ → Option ℕ → (ℕ → Option (Text × Text)) → Option (Text × Text) → Option (Text × Text)
then_digit n value none next rest = none
then_digit n value (some digit) next rest =
    if n == 1 then then_char (value * 16 + digit) rest else next (value * 16 + digit)

-- The string up to its closing quote, and what follows (RFC 8259; a \u escape is one code unit). A raw
-- control character, an unknown escape and a wrong digit are refused.
unfoldable pub read_json : Within → Text → Option (Text × Text)
read_json w [] = none
read_json plain (ch ∷ s) =
    if ch == 34
    then some ([], s)
    else if ch == 92
    then read_json escaped s
    else if ltb ch 32
    then none
    else then_char ch (read_json plain s)
read_json escaped (ch ∷ s) =
    if ch == 117
    then read_json (digits 4 0) s
    else then_meaning (json_meaning ch) (read_json plain s)
read_json (digits n value) (ch ∷ s) =
    then_digit n value (digit_value ch) (λ whole. read_json (digits (n - 1) whole) s)
      (read_json plain s)

read_json-json_char :
    (ch : ℕ) (s : Text) → read_json plain (json_char ch ++ s) ≡ then_char ch (read_json plain s)
unfolding read_json json_char
read_json-json_char ch s = ground arith

read_json-json_chars :
    (s rest : Text) → read_json plain (json_chars s ++ (34 ∷ rest)) ≡ some (s, rest)
read_json-json_chars [] rest = unfold read_json in refl
read_json-json_chars (ch ∷ s) rest =
    ap (read_json plain) (append_assoc (json_char ch) (json_chars s) (34 ∷ rest))
    ∙ read_json-json_char ch (json_chars s ++ (34 ∷ rest))
    ∙ ap (then_char ch) (read_json-json_chars s rest)

-- A string that opens with a quote.
unfoldable pub read_json_string : Text → Option (Text × Text)
read_json_string [] = none
read_json_string (ch ∷ s) = if ch == 34 then read_json plain s else none

-- A reader of JSON strings, which refuses raw control characters and every escape that JSON does not
-- have, gets every string back from its quoted form, and leaves what follows.
pub read_json_string-json_quote :
    (s rest : Text) → read_json_string (json_quote s ++ rest) ≡ some (s, rest)
unfolding read_json_string json_quote
read_json_string-json_quote s rest =
    ap (read_json plain) (append_assoc (json_chars s) (34 ∷ []) rest) ∙ read_json-json_chars s rest

abbrev lower_value : ℕ → ℕ
lower_value ch = if ltb ch 58 then ch - 48 else ch - 87

unfoldable pub read_hex : Text → List ℕ
read_hex (high ∷ low ∷ s) = (lower_value high * 16 + lower_value low) ∷ read_hex s
read_hex _ = []

read_digits :
    (b : ℕ)
    → b < 256
    → lower_value (lower_digit (b / 16)) * 16 + lower_value (lower_digit (b % 16)) ≡ b
read_digits b h = ground arith

-- The hexadecimal digits of bytes give the bytes back.
pub read_hex-hex : (bytes : List ℕ) → All IsByte bytes → read_hex (hex bytes) ≡ bytes
unfolding read_hex hex
read_hex-hex [] h = refl
read_hex-hex (b ∷ bytes) (small, h) = rw (read_digits b small, read_hex-hex bytes h) refl
