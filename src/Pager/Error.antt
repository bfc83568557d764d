-- ===== src/Pager/Error.antt =====
-- The io::Error messages of the page writer, and its panics.
use velr.Base.{ℕ, ◌^◌}

-- `panicked` is a failed assert, unwrap or arithmetic check. `out_of_fuel` is no value of the source.
pub data WriterError : Type 0 where
  invalid_dynamic_root root_already_claimed empty_allocation page_space_exhausted : WriterError
  spool_closed dynamic_already_enabled block_size_overflow dynamic_disabled worker_cannot_fork :
      WriterError
  reserve_from_range_writer invalid_page_range coordinator_must_finish allocator_failed :
      WriterError
  range_not_filled range_exceeded foreign_root invalid_root chain_count_exhausted : WriterError
  rowids_not_increasing panicked out_of_fuel : WriterError

-- Page numbers are u32.
abbrev pub u32_limit : ℕ
u32_limit = 2 ^ 32
