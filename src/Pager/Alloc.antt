-- ===== src/Pager/Alloc.antt =====
-- BlockAllocator: the pages that dynamic writers share. `roots` is the set of claimed roots as a
-- list, and `free` the spool of ranges given back, while it is open.
pub mod Grants
pub mod Tails
use velr.Base.{
  ℕ, zero, suc, ◌+◌, ◌-◌, ◌%◌, max, Bool, true, false, not, ◌&&◌, ◌||◌, List, [], ◌∷◌, ◌++◌, Option,
  none, some, ltb, leb, ◌==◌, if◌then◌else◌,
}
use velr.Base.Result.{Result, ok, err, ◌>>=◌, ◌>>◌, reject_if}
use velr.Pager.Error.{
  WriterError, u32_limit, invalid_dynamic_root, root_already_claimed, empty_allocation,
  page_space_exhausted, spool_closed,
}

-- A half-open range of pages.
abbrev pub Range : Type 0
Range = ℕ × ℕ

pub record BlockAllocator : Type 0 where
  pub next : ℕ
  pub bootstrap_end : ℕ
  pub block_pages : ℕ
  pub pending : ℕ
  pub active : ℕ
  pub failed : Bool
  pub roots : List ℕ
  pub free_output : Option (List Range)
  pub free_count : ℕ

abbrev pub contains : List ℕ → ℕ → Bool
contains [] a = false
contains (x ∷ xs) a = x == a || contains xs a

unfoldable pub claim_root : BlockAllocator → ℕ → Result WriterError BlockAllocator
claim_root a root =
    if leb root 1 || leb a.bootstrap_end root
    then err invalid_dynamic_root
    else if contains a.roots root
    then err root_already_claimed
    else ok (record a { roots = root ∷ a.roots })

unfoldable pub checked_add : ℕ → ℕ → Result WriterError ℕ
checked_add x y = if ltb (x + y) u32_limit then ok (x + y) else err page_space_exhausted

-- The end of a block of `pages` usable pages from `start`, the pending-byte page left out.
unfoldable pub block_end : ℕ → ℕ → ℕ → Result WriterError ℕ
unfolding checked_add
block_end pending pages start = do
  end ← checked_add start pages
  if leb start pending && ltb pending end then checked_add end 1 else ok end

-- The compare-and-exchange loop. Each value of the list is what another thread has stored in `next`
-- before this thread's exchange, which then fails; after the last of them the exchange succeeds.
unfoldable pub grant_loop :
    BlockAllocator → ℕ → ℕ → List ℕ → Result WriterError (Range × BlockAllocator)
grant_loop a pages start [] = do
  end ← block_end a.pending pages start
  ok ((start, end), record a { next = end })
grant_loop a pages start (actual ∷ others) = do
  _ ← block_end a.pending pages start
  grant_loop (record a { next = actual }) pages actual others

unfoldable pub grant : BlockAllocator → ℕ → List ℕ → Result WriterError (Range × BlockAllocator)
grant a needed others =
    let pages = max a.block_pages needed in
    let granted = grant_loop a pages a.next others in
    if pages == 0 then err empty_allocation else granted

-- The parts of `start..end` on both sides of the pending-byte page; empty parts are not written.
abbrev pub nonempty : Range → List Range
nonempty (start, end) = if ltb start end then (start, end) ∷ [] else []

unfoldable pub tail_ranges : ℕ → ℕ → ℕ → List Range
tail_ranges pending start end =
    if leb start pending && ltb pending end
    then nonempty (start, pending) ++ nonempty (pending + 1, end)
    else nonempty (start, end)

abbrev pub total : List Range → ℕ
total [] = 0
total ((start, end) ∷ ranges) = (end - start) + total ranges

unfoldable pub spool :
    BlockAllocator → ℕ → ℕ → Option (List Range) → Result WriterError BlockAllocator
spool a start end none = err spool_closed
spool a start end (some free) =
    let ranges = tail_ranges a.pending start end in
    ok (record a {
      free_output = some (free ++ ranges);
      free_count = (a.free_count + total ranges) % u32_limit;
    })

unfoldable pub return_tail : BlockAllocator → ℕ → ℕ → Result WriterError BlockAllocator
unfolding spool
return_tail a start end = if leb end start then ok a else spool a start end a.free_output
