-- ===== src/Plan/Tests.antt =====
-- A level of children on pages of 40 bytes, by the writer and by the plan.
use velr.Base.{ℕ, false, ◌+◌, ◌<◌, [], ◌∷◌, List, Option, none, length, ◌≡◌, refl, arith}
use velr.Base.Result.{ok, err}
use velr.Pager.Page.{index, new, fits, push_parts, push, image}
use velr.Pager.Alloc.{checked_add}
use velr.Pager.Alloc.Grants.{usable}
use velr.Pager.Writer.{
  PageWriter, W, pending_page, write_all, next_available, ensure_contiguous, skip_pending,
  append_here, append, write_root,
}
use velr.Pager.Tree.{
  Child, push_children, place_parent, parent, emit, level_loop, level_end, level, levels,
}
use velr.Plan.{plan_level, finish_loop}
use velr.Plan.Level.{lengths, waiting}
use velr.Plan.Levels.{lengths?}
use velr.Varint.{varint_bytes, varint_len, varint_groups, leading_zeros}
use velr.Pager.Page.{pop, pop_from, clear}
use velr.Pager.Tree.{tree, tree_loop, tree_step, leaf_cell, cell_prefix, flush_leaf, tree_end}
use velr.Plan.{plan_index_lengths}
use velr.Plan.Whole.{payload_lengths, plan_index_lengths-tree}
use velr.Base.{replicate}
use velr.Base.Word.{Bytes}
use velr.Plan.Agree.{plan_level-level, finish_loop-levels}

abbrev writer : PageWriter
writer = record {
  page_size = 40;
  next_page = 7;
  range_end = none;
  assigned_root = none;
  allocator = none;
  dynamic_worker = false;
  position = 240;
  writes = [];
}

abbrev alone : PageWriter → List ℕ
alone w = []

abbrev children : List Child
children =
    record { page = 3; boundary = 1 ∷ 2 ∷ 3 ∷ [] }
    ∷ record { page = 4; boundary = 4 ∷ 5 ∷ 6 ∷ [] }
    ∷ record { page = 5; boundary = 7 ∷ 8 ∷ 9 ∷ [] }
    ∷ record { page = 6; boundary = [] }
    ∷ []

abbrev writer_of : W PageWriter → PageWriter
writer_of (ok w) = w
writer_of (err e) = writer

abbrev pair_of : W (PageWriter × Option (List Child)) → PageWriter × Option (List Child)
pair_of (ok p) = p
pair_of (err e) = (writer, none)

abbrev after_level : PageWriter × Option (List Child)
after_level = pair_of (level alone writer 2 index children)

one_level : level alone writer 2 index children ≡ ok (after_level.0, after_level.1)
unfolding level level_loop level_end emit parent place_parent push_children new fits push_parts push
    image append append_here ensure_contiguous skip_pending next_available write_all write_root
    checked_add
one_level = refl

abbrev after_levels : PageWriter
after_levels = writer_of (levels alone 4 writer 2 index children)

all_levels : levels alone 4 writer 2 index children ≡ ok after_levels
unfolding levels level level_loop level_end emit parent place_parent push_children new fits
    push_parts push image append append_here ensure_contiguous skip_pending next_available write_all
    write_root checked_add
all_levels = refl

plan_level-level_example :
    (plan_level 40 (lengths children) ≡ ok (lengths? 40 8 (omega arith) alone index after_level.1))
    × (usable (pending_page 40) (7, after_level.0.next_page) ≡ waiting after_level.1)
    × (waiting after_level.1 < length children)
plan_level-level_example =
    plan_level-level 40 8 (omega arith) alone index writer 2 children after_level.0 after_level.1
      refl refl (omega arith, (omega arith, (omega arith, (omega arith, tt)))) (omega arith)
      (omega arith) one_level

finish_loop-levels_example :
    finish_loop 4 40 5 (lengths children)
    ≡ ok (5 + usable (pending_page 40) (7, after_levels.next_page))
finish_loop-levels_example =
    finish_loop-levels 40 8 (omega arith) alone index 4 writer 2 5 children after_levels refl refl
      (omega arith, (omega arith, (omega arith, (omega arith, tt)))) (omega arith) (omega arith)
      all_levels

abbrev small_writer : PageWriter
small_writer = record {
  page_size = 512;
  next_page = 3;
  range_end = none;
  assigned_root = none;
  allocator = none;
  dynamic_worker = false;
  position = 1024;
  writes = [];
}

abbrev rows : List (ℕ × Bytes)
rows =
    (1, replicate 100 1)
    ∷ (2, replicate 100 2)
    ∷ (3, replicate 100 3)
    ∷ (4, replicate 100 4)
    ∷ (5, replicate 100 5)
    ∷ []

abbrev after_tree : PageWriter
after_tree = writer_of (tree alone small_writer 2 index rows)

whole_tree : tree alone small_writer 2 index rows ≡ ok after_tree
unfolding tree tree_loop tree_step leaf_cell cell_prefix flush_leaf tree_end levels level level_loop
    level_end emit parent place_parent push_children new fits push_parts push pop pop_from clear
    image append append_here ensure_contiguous skip_pending next_available write_all write_root
    checked_add varint_bytes varint_len varint_groups leading_zeros
whole_tree = refl

plan_index_lengths-tree_example :
    plan_index_lengths 512 (payload_lengths rows)
    ≡ ok (usable (pending_page 512) (3, after_tree.next_page))
plan_index_lengths-tree_example =
    plan_index_lengths-tree alone small_writer 2 rows after_tree refl refl
      (omega arith, (omega arith, (omega arith, (omega arith, (omega arith, tt))))) (omega arith)
      whole_tree
