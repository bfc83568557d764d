-- ===== src/Pager/Tree/Local.antt =====
-- How a writer without an allocator moves: every page it appends is one page on, the pending-byte
-- page passed over.
use velr.Base.{
  ℕ, ◌+◌, ◌≤◌, not, ◌||◌, List, ◌∷◌, Option, none, some, length, leb, ◌==◌, if◌then◌else◌, ◌≡◌,
  refl, sym, ◌∙◌, ap, ap₂, arith,
}
use velr.Base.Word.{Bytes}
use velr.Base.Result.{ok, >>=-eq_ok, reject_if}
use velr.Pager.Error.{panicked, range_exceeded, foreign_root, invalid_root}
use velr.Pager.Alloc.{BlockAllocator, checked_add}
use velr.Pager.Alloc.Grants.{usable}
use velr.Pager.Writer.{
  PageWriter, pending_page, place, write_all, next_available, skip_pending, append_here, append,
  at_end, ensure_contiguous, with_allocator, contiguous_in, write_root, is_other, root_limit,
}

-- From `w` to `w'` the writer has appended `n` pages.
pub record Grows (w w' : PageWriter) (n : ℕ) : Type 0 where
  pub alone : w'.allocator ≡ none
  pub same_size : w'.page_size ≡ w.page_size
  pub ordered : w.next_page ≤ w'.next_page
  pub count : usable (pending_page w.page_size) (w.next_page, w'.next_page) ≡ n

usable-add : (p a b c : ℕ) → a ≤ b → b ≤ c → usable p (a, c) ≡ usable p (a, b) + usable p (b, c)
usable-add p a b c h k = ground arith

pub Grows-trans : {w v u : PageWriter} {m n : ℕ} → Grows w v m → Grows v u n → Grows w u (m + n)
Grows-trans {w} {v} {u} g h = record {
  alone = h.alone;
  same_size = h.same_size ∙ g.same_size;
  ordered = omega (arith, g.ordered, h.ordered);
  count =
      usable-add (pending_page w.page_size) w.next_page v.next_page u.next_page g.ordered h.ordered
      ∙ ap₂ (λ (x y : ℕ). x + y) g.count
          (ap (λ (s : ℕ). usable (pending_page s) (v.next_page, u.next_page)) (sym g.same_size)
            ∙ h.count);
}

pub Grows-refl : (w : PageWriter) → w.allocator ≡ none → Grows w w 0
Grows-refl w e = record { alone = e; same_size = refl; ordered = omega arith; count = ground arith }

checked_add_lem : (x y : ℕ) {z : ℕ} → checked_add x y ≡ ok z → z ≡ x + y
unfolding checked_add
checked_add_lem x y e = ground arith

skip_pending-next :
    (w : PageWriter)
    → ((skip_pending w).next_page
        ≡ (if w.next_page == pending_page w.page_size then w.next_page + 1 else w.next_page))
      × ((skip_pending w).allocator ≡ w.allocator)
      × ((skip_pending w).page_size ≡ w.page_size)
unfolding skip_pending next_available write_all
skip_pending-next w = ground arith

no_refill :
    (w : PageWriter) (o : Option BlockAllocator) (others : List ℕ) {v : PageWriter}
    → o ≡ none
    → with_allocator o (ok w) (λ a. contiguous_in w a w.range_end 1 others) ≡ ok v
    → v ≡ w
no_refill w none others alone e = cc
no_refill w (some a) others alone e = cc

append_here-next :
    (w : PageWriter) (page : Bytes) (id : ℕ) (w' : PageWriter)
    → append_here w page ≡ ok (id, w')
    → (w'.next_page ≡ w.next_page + 1) × (w'.allocator ≡ w.allocator) × (w'.page_size ≡ w.page_size)
unfolding append_here write_all
append_here-next w page id w' e =
    let (_, _, e') = >>=-eq_ok (reject_if (at_end w.range_end w.next_page) range_exceeded) _ e in
    let (n, added, e'') = >>=-eq_ok (checked_add w.next_page 1) _ e' in
    let next = checked_add_lem w.next_page 1 added in
    let made : w' ≡ write_all (record w { next_page = n }) page = cc in
    (
      ap (λ (x : PageWriter). x.next_page) made ∙ next,
      ap (λ (x : PageWriter). x.allocator) made,
      ap (λ (x : PageWriter). x.page_size) made,
    )

pub append-Grows :
    (w : PageWriter) (page : Bytes) (others : List ℕ) (id : ℕ) (w' : PageWriter)
    → w.allocator ≡ none
    → append w page others ≡ ok (id, w')
    → Grows w w' 1
unfolding append ensure_contiguous
append-Grows w page others id w' alone e =
    let (_, _, e1) = >>=-eq_ok (reject_if (not (length page == w.page_size)) panicked) _ e in
    let (v, room, e2) = >>=-eq_ok (ensure_contiguous w 1 others) _ e1 in
    let (_, _, e3) = >>=-eq_ok (reject_if (at_end v.range_end v.next_page) range_exceeded) _ e2 in
    let same = no_refill w w.allocator others alone room in
    let (sn, sa, ss) = skip_pending-next v in
    let (n, a, s) = append_here-next (skip_pending v) page id w' e3 in
    let va = ap (λ (x : PageWriter). x.allocator) same in
    let vs = ap (λ (x : PageWriter). x.page_size) same in
    let vn = ap (λ (x : PageWriter). x.next_page) same in
    one_on w w' (a ∙ sa ∙ va ∙ alone) (s ∙ ss ∙ vs) (
      n
      ∙ ap (λ (k : ℕ). k + 1) sn
      ∙ ap
          (λ (x : PageWriter).
            (if x.next_page == pending_page x.page_size then x.next_page + 1 else x.next_page) + 1)
          same)
  where
    one_on :
        (x y : PageWriter)
        → y.allocator ≡ none
        → y.page_size ≡ x.page_size
        → y.next_page
          ≡ (if x.next_page == pending_page x.page_size then x.next_page + 1 else x.next_page) + 1
        → Grows x y 1
    one_on x y a s n = record {
      alone = a;
      same_size = s;
      ordered = ground arith;
      count = ground arith;
    }

pub write_root-Grows :
    (w : PageWriter) (root : ℕ) (bytes : Bytes) (w' : PageWriter)
    → w.allocator ≡ none
    → write_root w root bytes ≡ ok w'
    → Grows w w' 0
unfolding write_root
write_root-Grows w root bytes w' alone e =
    let (_, _, e1) = >>=-eq_ok (reject_if (is_other w.assigned_root root) foreign_root) _ e in
    let (_, _, e2) =
      >>=-eq_ok
        (reject_if (leb root 1 || leb (root_limit w.allocator w.next_page) root) invalid_root) _
        e1 in
    let made : w' ≡ record w { writes = (place w.page_size root, bytes) ∷ w.writes } = cc in
    rw made
      (record { alone = alone; same_size = refl; ordered = omega arith; count = ground arith })
