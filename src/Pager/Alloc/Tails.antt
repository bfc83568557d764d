-- ===== src/Pager/Alloc/Tails.antt =====
-- What a writer gives back of its block: every page but the pending-byte page, and all counted.
use velr.Base.{
  ℕ, ◌+◌, ◌%◌, ◌≤◌, not, ◌&&◌, List, [], ◌∷◌, ◌++◌, some, ◌≡◌, refl, arith, ltb, leb, leb→le,
  append-nil, Bool-cases, inl, inr, ◌==◌, if◌then◌else◌,
}
use velr.Base.Result.{ok}
use velr.Pager.Error.{u32_limit}
use velr.Pager.Alloc.{BlockAllocator, Range, tail_ranges, total, return_tail}
use velr.Pager.Alloc.Grants.{owners, usable}

-- Of the pages of a tail each but the pending-byte page is in exactly one free range.
pub tail_ranges-owners :
    (page pending start end : ℕ)
    → owners page (tail_ranges pending start end)
      ≡ (if leb start page && ltb page end && not (page == pending) then 1 else 0)
unfolding tail_ranges
tail_ranges-owners page pending start end = ground arith

total-tail_ranges :
    (pending start end : ℕ) → total (tail_ranges pending start end) ≡ usable pending (start, end)
unfolding tail_ranges
total-tail_ranges pending start end = ground arith

total-append : (xs ys : List Range) → total (xs ++ ys) ≡ total xs + total ys
total-append [] ys = omega arith
total-append ((start, end) ∷ xs) ys = omega (arith, total-append xs ys)

-- The counter agrees with the spool.
abbrev pub IsCounted : BlockAllocator → List Range → Type 0
IsCounted a free = (a.free_output ≡ some free) × (a.free_count ≡ total free % u32_limit)

no_tail : (pending start end : ℕ) → end ≤ start → tail_ranges pending start end ≡ []
unfolding tail_ranges
no_tail pending start end h = ground arith

-- Giving back a tail adds it to the spool and to the counter, which agree afterwards, and the spool
-- grows by the usable pages of the tail.
pub return_tail-IsCounted :
    (a : BlockAllocator) (start end : ℕ) (free : List Range)
    → IsCounted a free
    → (b : BlockAllocator) × (return_tail a start end ≡ ok b)
      × IsCounted b (free ++ tail_ranges a.pending start end)
      × (total (free ++ tail_ranges a.pending start end)
          ≡ total free + usable a.pending (start, end))
unfolding return_tail
return_tail-IsCounted a start end free (is_open, counted) = elim (Bool-cases (leb end start)) [
  | inl empty ↦
      rw (empty, no_tail a.pending start end (leb→le end start empty), append-nil)
        (a, refl, (is_open, counted), ground arith)
  | inr tail ↦
      let grown = total-append free (tail_ranges a.pending start end) in
      let n = total-tail_ranges a.pending start end in
      rw (tail, is_open) (_, refl, (refl, omega arith), omega arith)
]
