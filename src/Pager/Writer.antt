-- ===== src/Pager/Writer.antt =====
-- PageWriter: where pages go in the file. Reads and writes of the file succeed; `writes` is the log
-- of what is written, with its position, the latest first. The temporary file of the children of a
-- level is a list (see Pager/Tree), so `temporary_id` and the paths are left out.
pub mod Places
use velr.Base.{
  ℕ, zero, suc, ◌+◌, ◌-◌, ◌*◌, ◌/◌, ◌^◌, Bool, true, false, not, ◌&&◌, ◌||◌, List, [], ◌∷◌, Option,
  none, some, length, replicate, ltb, leb, ◌==◌, if◌then◌else◌, max,
}
use velr.Base.Word.{Bytes}
use velr.Base.Result.{Result, ok, err, ◌>>=◌, ◌>>◌, reject_if, ok_or}
use velr.Pager.Error.{
  WriterError, u32_limit, page_space_exhausted, range_exceeded, foreign_root, invalid_root,
  panicked, reserve_from_range_writer, invalid_page_range, range_not_filled, worker_cannot_fork,
  dynamic_disabled, coordinator_must_finish, allocator_failed, dynamic_already_enabled,
  block_size_overflow,
}
use velr.Pager.Alloc.{BlockAllocator, Range, grant, return_tail, claim_root, checked_add, block_end}

pub record PageWriter : Type 0 where
  pub page_size : ℕ
  pub next_page : ℕ
  pub range_end : Option ℕ
  pub assigned_root : Option ℕ
  pub allocator : Option BlockAllocator
  pub dynamic_worker : Bool
  pub position : ℕ
  pub writes : List (ℕ × Bytes)

abbrev pub W : Type 0 → Type 0
W = Result WriterError

-- The page that holds byte 2 ^ 30, which SQLite leaves unused.
abbrev pub pending_page : ℕ → ℕ
pending_page page_size = 0x40000000 / page_size + 1

-- The offset of a page.
abbrev pub place : ℕ → ℕ → ℕ
place page_size page = (page - 1) * page_size

unfoldable pub write_all : PageWriter → Bytes → PageWriter
write_all w bytes = record w {
  position = w.position + length bytes;
  writes = (w.position, bytes) ∷ w.writes;
}

unfoldable pub next_available : PageWriter → ℕ → ℕ
next_available w page = if page == pending_page w.page_size then page + 1 else page

-- A fresh block for a dynamic writer. `others` is what other threads store in the shared counter
-- while this one waits for its grant.
unfoldable pub refill : PageWriter → BlockAllocator → ℕ → ℕ → List ℕ → W PageWriter
refill w a end pages others = do
  b ← return_tail a w.next_page end
  ((start, end'), c) ← grant b pages others
  ok (record w {
    allocator = some c;
    next_page = start;
    range_end = some end';
    position = place w.page_size start;
  })

unfoldable pub contiguous_in : PageWriter → BlockAllocator → Option ℕ → ℕ → List ℕ → W PageWriter
contiguous_in w a none pages others = err panicked
contiguous_in w a (some end) pages others =
    let held = if leb w.next_page a.pending && ltb a.pending end then 1 else 0 in
    if ltb end w.next_page
    then err panicked
    else if leb pages (end - w.next_page - held)
    then ok w
    else refill w a end pages others

abbrev pub with_allocator :
    Option BlockAllocator → W PageWriter → (BlockAllocator → W PageWriter) → W PageWriter
with_allocator none w f = w
with_allocator (some a) w f = f a

unfoldable pub ensure_contiguous : PageWriter → ℕ → List ℕ → W PageWriter
ensure_contiguous w pages others =
    with_allocator w.allocator (ok w) (λ a. contiguous_in w a w.range_end pages others)

-- `range_end.is_some_and(|end| next_page >= end)`
abbrev pub at_end : Option ℕ → ℕ → Bool
at_end none page = false
at_end (some end) page = leb end page

-- The pending-byte page is written as zeros and passed over.
unfoldable pub skip_pending : PageWriter → PageWriter
skip_pending w =
    if next_available w w.next_page == w.next_page
    then w
    else record (write_all w (replicate w.page_size 0)) { next_page = w.next_page + 1 }

-- The second half of `append`: the page is written at the writer's place.
unfoldable pub append_here : PageWriter → Bytes → W (ℕ × PageWriter)
append_here w page = do
  reject_if (at_end w.range_end w.next_page) range_exceeded
  next ← checked_add w.next_page 1
  ok (w.next_page, write_all (record w { next_page = next }) page)

unfoldable pub append : PageWriter → Bytes → List ℕ → W (ℕ × PageWriter)
append w page others = do
  reject_if (not (length page == w.page_size)) panicked
  w' ← ensure_contiguous w 1 others
  reject_if (at_end w'.range_end w'.next_page) range_exceeded
  append_here (skip_pending w') page

abbrev pub is_other : Option ℕ → ℕ → Bool
is_other none root = false
is_other (some assigned) root = not (assigned == root)

abbrev pub root_limit : Option BlockAllocator → ℕ → ℕ
root_limit none next_page = next_page
root_limit (some a) next_page = a.bootstrap_end

-- The root page is written in place, and the position is restored.
unfoldable pub write_root : PageWriter → ℕ → Bytes → W PageWriter
write_root w root bytes = do
  reject_if (is_other w.assigned_root root) foreign_root
  reject_if (leb root 1 || leb (root_limit w.allocator w.next_page) root) invalid_root
  ok (record w { writes = (place w.page_size root, bytes) ∷ w.writes })

abbrev pub is_some {ℓ} : {A : Type ℓ} → Option A → Bool
is_some none = false
is_some (some a) = true

-- An exact range for another writer; the file is extended over it.
unfoldable pub reserve : PageWriter → ℕ → W (Range × PageWriter)
reserve w pages = do
  reject_if (is_some w.range_end) reserve_from_range_writer
  end ← block_end (pending_page w.page_size) pages w.next_page
  ok ((w.next_page, end), record w { next_page = end; position = place w.page_size end })

unfoldable pub fork : PageWriter → ℕ → Range → W PageWriter
fork w root (start, end) =
    if is_some w.range_end || ltb w.next_page end || ltb end start || leb root 1 || leb start root
    then err invalid_page_range
    else ok (record {
      page_size = w.page_size;
      next_page = start;
      range_end = some end;
      assigned_root = some root;
      allocator = none;
      dynamic_worker = false;
      position = place w.page_size start;
      writes = [];
    })

-- From here on the writer takes its pages from blocks, as the workers that it forks. The file of free
-- ranges is a new list. Its first block is empty.
unfoldable pub enable_dynamic : PageWriter → ℕ → W PageWriter
enable_dynamic w block_bytes =
    let block_pages = max (block_bytes / w.page_size) 1 in
    if is_some w.range_end || is_some w.allocator
    then err dynamic_already_enabled
    else if leb u32_limit block_pages
    then err block_size_overflow
    else ok (record w {
      allocator = some (record {
        next = w.next_page;
        bootstrap_end = w.next_page;
        block_pages = block_pages;
        pending = pending_page w.page_size;
        active = 0;
        failed = false;
        roots = [];
        free_output = some [];
        free_count = 0;
      });
      range_end = some w.next_page;
    })

-- A worker for one root, at the start of the file, with an empty block; and the writer with the shared
-- allocator as it is then.
unfoldable pub fork_dynamic : PageWriter → ℕ → W (PageWriter × PageWriter)
fork_dynamic w root = do
  allocator ← ok_or w.allocator dynamic_disabled
  reject_if w.dynamic_worker worker_cannot_fork
  claimed ← claim_root allocator root
  ok (
    record {
      page_size = w.page_size;
      next_page = 0;
      range_end = some 0;
      assigned_root = some root;
      allocator = some (record claimed { active = claimed.active + 1 });
      dynamic_worker = true;
      position = 0;
      writes = [];
    },
    record w { allocator = some (record claimed { active = claimed.active + 1 }) },
  )
