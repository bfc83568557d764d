-- ===== src/Batch.antt =====
-- rust/velr-cli/src/import/batch.rs: the cells of a batch, with one byte buffer for all texts and
-- blobs. `usize` has 64 bits; the bytes of a text are UTF-8 where they enter. An i64 and an f64 are
-- their bit patterns.
pub mod Values
mod Tests
use velr.Base.{
  ℕ, ◌+◌, ◌-◌, ◌*◌, ◌^◌, Bool, true, false, ◌&&◌, List, [], ◌∷◌, ◌++◌, Option, none, some, ◌>>=◌,
  length, get_elem?, take, drop, ltb, leb, if◌then◌else◌,
}
use velr.Base.Word.{Bytes}

pub data ImportValue : Type 0 where
  null : ImportValue
  integer : ℕ → ImportValue
  real : ℕ → ImportValue
  text : Bytes → ImportValue
  blob : Bytes → ImportValue

abbrev pub Range : Type 0
Range = ℕ × ℕ

-- Short ranges stand in the cell, wide ones in a list of their own.
pub data BatchCell : Type 0 where
  null_cell : BatchCell
  integer_cell : ℕ → BatchCell
  real_cell : ℕ → BatchCell
  text_cell : Range → BatchCell
  blob_cell : Range → BatchCell
  wide_text : ℕ → BatchCell
  wide_blob : ℕ → BatchCell

pub record BatchValues : Type 0 where
  pub cells : List BatchCell
  pub bytes : Bytes
  pub wide_ranges : List Range

-- `with_capacity`
abbrev pub empty : BatchValues
empty = record { cells = []; bytes = []; wide_ranges = [] }

-- The sizes of a cell and of a range are those of the compiler.
unfoldable pub byte_len : ℕ → ℕ → BatchValues → ℕ
byte_len cell_size range_size b =
    length b.cells * cell_size + length b.bytes + length b.wide_ranges * range_size

unfoldable pub append_bytes : BatchValues → Bytes → Range × BatchValues
append_bytes b bytes =
    ((length b.bytes, length b.bytes + length bytes), record b { bytes = b.bytes ++ bytes })

unfoldable pub wide_range_cell : BatchValues → Range → Bool → BatchCell × BatchValues
wide_range_cell b range is_text =
    let index = length b.wide_ranges in
    (
      if is_text then wide_text index else wide_blob index,
      record b { wide_ranges = b.wide_ranges ++ (range ∷ []) },
    )

unfoldable pub range_cell_bounded : ℕ → BatchValues → Range → Bool → BatchCell × BatchValues
range_cell_bounded maximum b (start, end) is_text =
    if ltb maximum end
    then wide_range_cell b (start, end) is_text
    else if ltb start (2 ^ 32) && ltb end (2 ^ 32)
    then (if is_text then text_cell (start, end) else blob_cell (start, end), b)
    else wide_range_cell b (start, end) is_text

unfoldable pub range_cell : BatchValues → Range → Bool → BatchCell × BatchValues
range_cell = range_cell_bounded (2 ^ 32 - 1)

abbrev pub push_cell : BatchCell × BatchValues → BatchValues
push_cell (cell, b) = record b { cells = b.cells ++ (cell ∷ []) }

-- The bytes go to the buffer and their range into a cell.
unfoldable pub push_range : BatchValues → Bytes → Bool → BatchValues
push_range b bytes is_text =
    let (range, b') = append_bytes b bytes in push_cell (range_cell b' range is_text)

unfoldable pub push_owned : BatchValues → ImportValue → BatchValues
push_owned b null = push_cell (null_cell, b)
push_owned b (integer value) = push_cell (integer_cell value, b)
push_owned b (real value) = push_cell (real_cell value, b)
push_owned b (text value) = push_range b value true
push_owned b (blob value) = push_range b value false

unfoldable pub push_text : BatchValues → Bytes → BatchValues
push_text b value = push_range b value true

-- `&bytes[start..end]`; `none` is the panic of a range outside.
unfoldable pub slice : Bytes → Range → Option Bytes
slice bytes (start, end) =
    if leb start end && leb end (length bytes)
    then some (take (end - start) (drop start bytes))
    else none

-- One item of `iter`.
unfoldable pub cell_value : BatchValues → BatchCell → Option ImportValue
cell_value b null_cell = some null
cell_value b (integer_cell value) = some (integer value)
cell_value b (real_cell value) = some (real value)
cell_value b (text_cell range) = slice b.bytes range >>= λ s. some (text s)
cell_value b (blob_cell range) = slice b.bytes range >>= λ s. some (blob s)
cell_value b (wide_text index) =
    get_elem? b.wide_ranges index >>= λ r. slice b.bytes r >>= λ s. some (text s)
cell_value b (wide_blob index) =
    get_elem? b.wide_ranges index >>= λ r. slice b.bytes r >>= λ s. some (blob s)

abbrev pub values_of : BatchValues → List BatchCell → Option (List ImportValue)
values_of b [] = some []
values_of b (cell ∷ cells) = cell_value b cell >>= λ v. values_of b cells >>= λ vs. some (v ∷ vs)

unfoldable pub iter : BatchValues → Option (List ImportValue)
iter b = values_of b b.cells

abbrev pub push_all : BatchValues → List ImportValue → BatchValues
push_all b [] = b
push_all b (v ∷ vs) = push_all (push_owned b v) vs
