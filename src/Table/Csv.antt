-- ===== src/Table/Csv.antt =====
-- Rows of CSV output are read back by a reader of the format of RFC 4180, with a line feed at the end
-- of a row: outside quotes a field has no quote, comma, carriage return or line feed.
use velr.Base.{
  ℕ, zero, suc, Bool, true, false, ◌||◌, List, [], ◌∷◌, ◌++◌, append_assoc, Option, none, some,
  ◌>>=◌, length, ◌≡◌, ◌≢◌, refl, ap, ◌∙◌, arith, ◌==◌, if◌then◌else◌, Bool-cases, ◌⊎◌, inl, inr,
}
use velr.Table.{Text, needs_quotes, double_quotes, csv_escape, write_csv_rest, write_csv_row}

-- A field and what follows it.
abbrev Read : Type 0
Read = Option (Text × Text)

abbrev before : ℕ → Read → Read
before ch none = none
before ch (some (s, rest)) = some (ch ∷ s, rest)

-- Inside quotes, or just behind one that may be the first of two.
unfoldable pub read_quoted : Bool → Text → Read
read_quoted false [] = none
read_quoted true [] = some ([], [])
read_quoted false (ch ∷ rest) =
    if ch == 34 then read_quoted true rest else before ch (read_quoted false rest)
read_quoted true (ch ∷ rest) =
    if ch == 34 then before 34 (read_quoted false rest) else some ([], ch ∷ rest)

unfoldable pub read_plain : Text → Read
read_plain [] = none
read_plain (ch ∷ rest) =
    if ch == 44 || ch == 10
    then some ([], ch ∷ rest)
    else if ch == 13 || ch == 34
    then none
    else before ch (read_plain rest)

unfoldable pub read_field : Text → Read
read_field [] = none
read_field (ch ∷ rest) = if ch == 34 then read_quoted false rest else read_plain (ch ∷ rest)

read_quoted-double_quotes :
    (s : Text) (ch : ℕ) (rest : Text)
    → ch ≢ 34
    → read_quoted false (double_quotes s ++ (34 ∷ ch ∷ rest)) ≡ some (s, ch ∷ rest)
unfolding read_quoted double_quotes
read_quoted-double_quotes [] ch rest h = ground arith
read_quoted-double_quotes (c ∷ s) ch rest h = ground (arith, read_quoted-double_quotes s ch rest h)

read_plain-end :
    (s : Text) (ch : ℕ) (rest : Text)
    → needs_quotes s ≡ false
    → (ch ≡ 44) ⊎ (ch ≡ 10)
    → read_plain (s ++ (ch ∷ rest)) ≡ some (s, ch ∷ rest)
unfolding read_plain
read_plain-end [] ch rest plain end = ground arith
read_plain-end (c ∷ s) ch rest plain end =
    ground (arith, read_plain-end s ch rest (ground arith) end)

read_field-plain :
    (s : Text) (ch : ℕ) (rest : Text)
    → needs_quotes s ≡ false
    → (ch ≡ 44) ⊎ (ch ≡ 10)
    → read_field (s ++ (ch ∷ rest)) ≡ read_plain (s ++ (ch ∷ rest))
unfolding read_field
read_field-plain [] ch rest plain end = ground arith
read_field-plain (c ∷ s) ch rest plain end = ground arith

read_field-quoted :
    (s : Text) (ch : ℕ) (rest : Text)
    → ch ≢ 34
    → read_field (((34 ∷ double_quotes s) ++ (34 ∷ [])) ++ (ch ∷ rest)) ≡ some (s, ch ∷ rest)
unfolding read_field
read_field-quoted s ch rest h =
    ap (read_quoted false) (append_assoc (double_quotes s) (34 ∷ []) (ch ∷ rest))
    ∙ read_quoted-double_quotes s ch rest h

read_field-csv_escape :
    (s : Text) (ch : ℕ) (rest : Text)
    → (ch ≡ 44) ⊎ (ch ≡ 10)
    → read_field (csv_escape s ++ (ch ∷ rest)) ≡ some (s, ch ∷ rest)
unfolding csv_escape
read_field-csv_escape s ch rest end = elim (Bool-cases (needs_quotes s)) [
  | inl quotes ↦ rw quotes (
      read_field-quoted s ch rest
        (λ e. elim end [ inl a ↦ absurd (omega arith) | inr a ↦ absurd (omega arith) ]))
  | inr plain ↦ rw plain (read_field-plain s ch rest plain end ∙ read_plain-end s ch rest plain end)
]

-- A separator goes on with the rest of the row, and a line feed ends it.
abbrev go_on : (Text → Option (List Text × Text)) → Text × Text → Option (List Text × Text)
go_on more (s, []) = none
go_on more (s, ch ∷ rest) =
    if ch == 44
    then (more rest >>= λ p. some (s ∷ p.0, p.1))
    else if ch == 10
    then some (s ∷ [], rest)
    else none

-- The fields of a row of at most `fuel` fields, and what follows it.
unfoldable pub read_row : ℕ → Text → Option (List Text × Text)
read_row zero text = none
read_row (suc fuel) text = read_field text >>= go_on (read_row fuel)

read_row-rest :
    (fields : List Text) (field rest : Text)
    → read_row (suc (length fields)) (csv_escape field ++ (write_csv_rest fields ++ rest))
      ≡ some (field ∷ fields, rest)
unfolding read_row write_csv_rest
read_row-rest [] field rest = rw (read_field-csv_escape field 10 rest (inr refl)) refl
read_row-rest (next ∷ fields) field rest =
    rw
      (
        append_assoc (csv_escape next) (write_csv_rest fields) rest,
        read_field-csv_escape field 44 (csv_escape next ++ (write_csv_rest fields ++ rest))
            (inl refl),
      )
      (rw (read_row-rest fields next rest) refl)

-- A reader of the format, which refuses a bare quote or carriage return in a field without quotes and
-- anything but a comma or a line feed behind a field, gets the fields of a row back from what
-- `write_csv_row` wrote for them, and leaves what follows, whatever characters the fields hold. The row
-- has a field at least.
pub read_row-write_csv_row :
    (field : Text) (fields : List Text) (rest : Text)
    → read_row (suc (length fields)) (write_csv_row (field ∷ fields) ++ rest)
      ≡ some (field ∷ fields, rest)
unfolding write_csv_row
read_row-write_csv_row field fields rest =
    ap (read_row (suc (length fields)))
      (append_assoc (csv_escape field) (write_csv_rest fields) rest)
    ∙ read_row-rest fields field rest
