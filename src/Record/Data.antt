-- ===== src/Record/Data.antt =====
-- The values of a record (StorageValueRef of the crate velr_types, by its use in page_writer.rs).
use velr.Base.Word.{Bytes}
use velr.Base.{ℕ}

pub data StorageValue : Type 0 where
  null : StorageValue
  integer : ℕ → StorageValue
  real : ℕ → StorageValue
  text : Bytes → StorageValue
  blob : Bytes → StorageValue
