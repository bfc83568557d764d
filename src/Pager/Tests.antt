-- ===== src/Pager/Tests.antt =====
-- Grants, tails and appended pages of a small file.
use velr.Base.{
  ◌+◌, true, false, not, ◌&&◌, [], ◌∷◌, ◌++◌, none, some, ◌≡◌, refl, arith, leb, ltb, ◌==◌,
  if◌then◌else◌,
}
use velr.Base.Result.{ok}
use velr.Pager.Alloc.{
  BlockAllocator, block_end, checked_add, grant_loop, grant, tail_ranges, total, return_tail,
  claim_root,
}
use velr.Pager.Alloc.Grants.{GrantEffect, grant_effect, grants, owners, grants-owners, usable}
use velr.Pager.Alloc.Tails.{tail_ranges-owners, IsCounted, return_tail-IsCounted}
use velr.Pager.Writer.{
  PageWriter, write_all, next_available, ensure_contiguous, skip_pending, append_here, append,
  contiguous_in, refill, enable_dynamic, fork_dynamic,
}
use velr.Pager.Writer.Places.{
  IsPlaced, IsReady, enable_dynamic-IsReady, fork_dynamic-IsReady, Appended, append_lem,
}

abbrev allocator : BlockAllocator
allocator = record {
  next = 10;
  bootstrap_end = 10;
  block_pages = 4;
  pending = 12;
  active = 1;
  failed = false;
  roots = [];
  free_output = some [];
  free_count = 0;
}

granted : grant allocator 2 (20 ∷ []) ≡ ok ((20, 24), record allocator { next = 24 })
unfolding grant grant_loop block_end checked_add
granted = refl

grant_effect_example : GrantEffect allocator 2 (20 ∷ []) (20, 24) (record allocator { next = 24 })
grant_effect_example =
    grant_effect allocator 2 (20 ∷ []) (20, 24) (record allocator { next = 24 }) granted

two_granted :
    grants allocator (2 ∷ 6 ∷ []) ≡ ok ((10, 15) ∷ (15, 21) ∷ [], record allocator { next = 21 })
unfolding grant grant_loop block_end checked_add
two_granted = refl

grants-owners_example :
    owners 16 ((10, 15) ∷ (15, 21) ∷ []) ≡ (if leb 10 16 && ltb 16 21 then 1 else 0)
grants-owners_example =
    grants-owners allocator (2 ∷ 6 ∷ []) ((10, 15) ∷ (15, 21) ∷ []) (record allocator { next = 21 })
      16 two_granted

tail_ranges-owners_example :
    owners 12 (tail_ranges 12 11 14) ≡ (if leb 11 12 && ltb 12 14 && not (12 == 12) then 1 else 0)
tail_ranges-owners_example = tail_ranges-owners 12 12 11 14

return_tail-IsCounted_example :
    (b : BlockAllocator) × (return_tail allocator 11 14 ≡ ok b)
    × IsCounted b ([] ++ tail_ranges 12 11 14)
    × (total ([] ++ tail_ranges 12 11 14) ≡ total [] + usable 12 (11, 14))
return_tail-IsCounted_example = return_tail-IsCounted allocator 11 14 [] (refl, refl)

abbrev writer : PageWriter
writer = record {
  page_size = 2;
  next_page = 5;
  range_end = none;
  assigned_root = none;
  allocator = none;
  dynamic_worker = false;
  position = 8;
  writes = [];
}

writer-IsPlaced : IsPlaced writer
writer-IsPlaced = record { at_next = refl; has_page = omega arith; blocks = λ a e. absurd (cc) }

-- A worker of this writer, which takes its first block after another thread has stored 9.
abbrev shared : BlockAllocator
shared = record {
  next = 5;
  bootstrap_end = 5;
  block_pages = 2;
  pending = 0x20000001;
  active = 1;
  failed = false;
  roots = 3 ∷ [];
  free_output = some [];
  free_count = 0;
}

abbrev worker : PageWriter
worker = record {
  page_size = 2;
  next_page = 0;
  range_end = some 0;
  assigned_root = some 3;
  allocator = some shared;
  dynamic_worker = true;
  position = 0;
  writes = [];
}

dynamic :
    enable_dynamic writer 4
    ≡ ok (record writer {
      allocator = some (record shared { active = 0; roots = [] });
      range_end = some 5;
    })
unfolding enable_dynamic
dynamic = refl

forked :
    fork_dynamic
      (record writer {
        allocator = some (record shared { active = 0; roots = [] });
        range_end = some 5;
      })
      3
    ≡ ok (worker, record writer { allocator = some shared; range_end = some 5 })
unfolding fork_dynamic claim_root
forked = refl

worker-IsReady : IsReady worker
worker-IsReady =
    (fork_dynamic-IsReady _ 3 worker _ (enable_dynamic-IsReady writer 4 _ writer-IsPlaced dynamic)
      forked).0

abbrev after : PageWriter
after = record worker {
  next_page = 10;
  range_end = some 11;
  allocator = some (record shared { next = 11 });
  position = 18;
  writes = (16, 1 ∷ 2 ∷ []) ∷ [];
}

appended : append worker (1 ∷ 2 ∷ []) (9 ∷ []) ≡ ok (9, after)
unfolding append append_here ensure_contiguous contiguous_in refill return_tail grant grant_loop
    block_end skip_pending next_available write_all checked_add
appended = refl

append_lem_example : Appended worker (1 ∷ 2 ∷ []) 9 after
append_lem_example =
    append_lem worker (1 ∷ 2 ∷ []) (9 ∷ []) 9 after worker-IsReady (omega arith, tt) appended
