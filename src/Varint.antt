-- ===== src/Varint.antt =====
-- SQLite varints: varint_len, varint and read_varint of
-- rust/velr-cli/src/offline_import/native/page_writer.rs. A byte slice is a list of numbers.
pub mod Length
pub mod RoundTrip
pub mod Small
mod Tests
use velr.Base.{
  ℕ, zero, suc, ◌+◌, ◌-◌, ◌*◌, ◌/◌, ◌%◌, ◌^◌, max, bit_and, bit_or, List, [], ◌∷◌, ◌++◌, Option,
  none, some, ltb, leb, ◌==◌, if◌then◌else◌,
}
use velr.Base.Word.{Bytes}

-- `u64::leading_zeros`, at a width.
unfoldable pub leading_zeros : ℕ → ℕ → ℕ
leading_zeros zero x = 0
leading_zeros (suc w) x = let rest = leading_zeros w x in if ltb x (2 ^ w) then suc rest else 0

unfoldable pub varint_len : ℕ → ℕ
unfolding leading_zeros
varint_len value = if leb (2 ^ 56) value then 9 else (max (64 - leading_zeros 64 value) 1 + 6) / 7

-- The bytes at positions `i - 1` down to 0 of a number of `len` bytes, written before `acc`. The
-- source sets the top bit always in a number of nine bytes; there `i + 1 < len` holds for them all.
unfoldable pub varint_groups : ℕ → ℕ → ℕ → Bytes → Bytes
varint_groups len zero value acc = acc
varint_groups len (suc i) value acc =
    varint_groups len i (value / 2 ^ 7)
      (bit_or (bit_and (value % 256) 0x7f) (if ltb (i + 1) len then 0x80 else 0) ∷ acc)

-- The bytes that `varint` appends.
unfoldable pub varint_bytes : ℕ → Bytes
unfolding varint_groups
varint_bytes value =
    let len = varint_len value in
    if len == 9
    then varint_groups 9 8 (value / 2 ^ 8) (value % 256 ∷ [])
    else varint_groups len len value []

unfoldable pub varint : Bytes → ℕ → Bytes
varint out value = out ++ varint_bytes value

-- One number from the front of the bytes, with the bytes behind it; `none` is the error. The loop
-- has `n` rounds left, the last of which takes the whole byte.
unfoldable pub read_varint_loop : ℕ → ℕ → Bytes → Option (ℕ × Bytes)
read_varint_loop zero value bytes = none
read_varint_loop (suc n) value [] = none
read_varint_loop (suc n) value (byte ∷ bytes) =
    let more = read_varint_loop n (value * 2 ^ 7 % 2 ^ 64 + bit_and byte 0x7f) bytes in
    if n == 0
    then some (value * 2 ^ 8 % 2 ^ 64 + byte, bytes)
    else if ltb byte 0x80
    then some (value * 2 ^ 7 % 2 ^ 64 + bit_and byte 0x7f, bytes)
    else more

unfoldable pub read_varint : Bytes → Option (ℕ × Bytes)
unfolding read_varint_loop
read_varint = read_varint_loop 9 0
