-- ===== src/Sort.antt =====
-- The external sort of integer indexes: rust/velr-cli/src/offline_import/native/index_builder.rs.
-- Tuples of i64 patterns are packed into keys, runs of keys are sorted and merged, and records are
-- framed. A spool, a run and a sorted stream are the lists of what was written to their files.
pub mod Frame
pub mod Merge
pub mod Integer
pub mod Keys
pub mod Packing
pub mod Unpack
pub mod Bounds
pub mod Radix
pub mod Scatter
pub mod Pass
pub mod RadixOrder
pub mod External
pub mod Turns
pub mod Sorting
pub mod Spool
mod Tests
use velr.Base.{
  ℕ, zero, suc, ◌+◌, ◌-◌, ◌*◌, ◌/◌, ◌%◌, ◌^◌, min, max, Bool, true, false, not, ◌&&◌, ◌||◌, List,
  [], ◌∷◌, ◌++◌, map, Option, none, some, length, take, drop, replicate, ltb, leb, ◌==◌,
  if◌then◌else◌,
}
use velr.Base.Result.{Result, ok, err, ◌>>=◌, ◌>>◌, reject_if, ok_or}
use velr.Base.Word.{Bytes}
use velr.Record.{integer_type, tail_bytes}

pub data SortError : Type 0 where
  too_large empty_record incomplete wrong_field_count too_many_tuples invalid_specification
        sort_panicked :
      SortError

abbrev pub S : Type 0 → Type 0
S = Result SortError

-- `sort_workers`, from the processors of the machine.
unfoldable pub sort_workers : ℕ → ℕ → ℕ → ℕ
sort_workers processors tasks memory_bytes =
    max (min (min (min tasks processors) 4) (max (memory_bytes / (8 * 1048576)) 1)) 1

-- `encode_integer_record`: tags and widths of the columns, then the header and the bytes.
abbrev pub integer_tags : List ℕ → Bytes
integer_tags [] = []
integer_tags (value ∷ values) = (integer_type value).0 ∷ integer_tags values

abbrev pub integer_bodies : List ℕ → Bytes
integer_bodies [] = []
integer_bodies (value ∷ values) = tail_bytes (integer_type value).1 value ++ integer_bodies values

unfoldable pub encode_integer_record : List ℕ → S Bytes
encode_integer_record values =
    if leb (length values) 8
    then ok (((length values + 1) % 256) ∷ integer_tags values ++ integer_bodies values)
    else err sort_panicked

-- A record behind its length in one byte, and what was written in all.
unfoldable pub write_encoded_record : Bytes → S (Bytes × ℕ)
write_encoded_record record_bytes =
    if ltb 255 (length record_bytes)
    then err too_large
    else if length record_bytes == 0
    then err empty_record
    else ok (length record_bytes ∷ record_bytes, 1 + length record_bytes)

-- `none` is the end of the stream.
unfoldable pub read_encoded_record : Bytes → S (Option (Bytes × Bytes))
read_encoded_record [] = ok none
read_encoded_record (len ∷ input) =
    if len == 0
    then err empty_record
    else if ltb (length input) len
    then err incomplete
    else ok (some (take len input, drop len input))

-- An entry of the merge heap: the head of a run, and what the reader of the run has left.
pub record Entry : Type 0 where
  pub key : ℕ
  pub run : ℕ
  pub rest : List ℕ

-- The order of `(key, run)`.
abbrev pub before : Entry → Entry → Bool
before a b = ltb a.key b.key || (a.key == b.key && ltb a.run b.run)

-- The lesser of an entry and the least of the others.
abbrev pub least_of : Entry → Option (Entry × List Entry) → Option (Entry × List Entry)
least_of e none = some (e, [])
least_of e (some (m, rest)) = if before m e then some (m, e ∷ rest) else some (e, m ∷ rest)

-- The least entry, at which the heap of reversed pairs peeks, and the others.
unfoldable pub extract_least : List Entry → Option (Entry × List Entry)
extract_least [] = none
extract_least (e ∷ es) = least_of e (extract_least es)

-- The head of a run goes into the heap if there is one.
abbrev pub push_head : ℕ → List ℕ → List Entry → List Entry
push_head run [] heap = heap
push_head run (key ∷ rest) heap = record { key = key; run = run; rest = rest } ∷ heap

abbrev pub merge_next :
    (List Entry → Option (List ℕ)) → Option (Entry × List Entry) → Option (List ℕ)
merge_next loop none = some []
merge_next loop (some (e, others)) =
    velr.Base.◌>>=◌ (loop (push_head e.run e.rest others)) (λ keys. some (e.key ∷ keys))

unfoldable pub merge_loop : ℕ → List Entry → Option (List ℕ)
merge_loop zero heap = none
merge_loop (suc fuel) heap = merge_next (merge_loop fuel) (extract_least heap)

abbrev pub heads : ℕ → List (List ℕ) → List Entry
heads run [] = []
heads run (keys ∷ runs) = push_head run keys (heads (run + 1) runs)

abbrev pub total : List (List ℕ) → ℕ
total [] = 0
total (keys ∷ runs) = length keys + total runs

-- The keys that `merge_visit` visits, in order. Each round visits one, so their number is enough fuel.
unfoldable pub merge_visit : List (List ℕ) → Option (List ℕ)
merge_visit runs = merge_loop (total runs + 1) (heads 0 runs)
