-- ===== src/Plan/Agree.antt =====
-- The plan of an index counts the pages that the writer then appends.
use velr.Base.{ℕ, ◌+◌, ◌*◌, ◌^◌, ◌≤◌, ◌<◌, List, Option, none, length, ◌≡◌, ◌∙◌, ap, sym, All}
use velr.Base.Result.{ok}
use velr.Pager.Page.{Kind}
use velr.Pager.Alloc.Grants.{usable}
use velr.Pager.Writer.{PageWriter, pending_page}
use velr.Pager.Tree.{Child, level, levels}
use velr.Plan.{plan_level, finish_loop}
use velr.Plan.Level.{lengths, waiting, IsShort}
use velr.Plan.Levels.{level_lem, levels_lem, lengths?}

-- When a writer of its own file turns children into the next level of a tree, the plan turns the
-- lengths of their boundaries into the lengths of the next level's boundaries, the writer appends one
-- page, besides the pending-byte page, for each child of the next level, and no page for the root. The
-- next level is shorter. Every boundary is at most `bound` bytes, two cells of which fit on a page, and
-- the children are counted in 32 bits.
pub plan_level-level :
    (size bound : ℕ) (roomy : 12 + 2 * (6 + bound) ≤ size) (others : PageWriter → List ℕ)
    (kind : Kind) (w : PageWriter) (root : ℕ) (children : List Child) (w' : PageWriter)
    (next : Option (List Child))
    → w.allocator ≡ none
    → w.page_size ≡ size
    → All (IsShort size bound roomy) children
    → 0 < length children
    → length children + 2 < 2 ^ 32
    → level others w root kind children ≡ ok (w', next)
    → (plan_level size (lengths children) ≡ ok (lengths? size bound roomy others kind next))
      × (usable (pending_page size) (w.next_page, w'.next_page) ≡ waiting next)
      × (waiting next < length children)
plan_level-level size bound roomy others kind w root children w' next alone sized short some_child
      room e =
    let d =
      level_lem size bound roomy others kind w root children w' next alone sized short some_child
        room e in
    (
      d.plans,
      ap (λ (s : ℕ). usable (pending_page s) (w.next_page, w'.next_page)) (sym sized)
          ∙ d.grows.count,
      d.shorter,
    )

-- When a writer of its own file builds all levels above some children, the plan, which has counted
-- `pages` pages so far, ends too and counts exactly the pages that the writer appends, besides the
-- pending-byte page. Every boundary is at most `bound` bytes, two cells of which fit on a page, and the
-- pages are counted in 32 bits.
pub finish_loop-levels :
    (size bound : ℕ) (roomy : 12 + 2 * (6 + bound) ≤ size) (others : PageWriter → List ℕ)
    (kind : Kind) (fuel : ℕ) (w : PageWriter) (root pages : ℕ) (children : List Child)
    (w' : PageWriter)
    → w.allocator ≡ none
    → w.page_size ≡ size
    → All (IsShort size bound roomy) children
    → 0 < length children
    → pages + 2 * length children + 2 < 2 ^ 32
    → levels others fuel w root kind children ≡ ok w'
    → finish_loop fuel size pages (lengths children)
      ≡ ok (pages + usable (pending_page size) (w.next_page, w'.next_page))
finish_loop-levels size bound roomy others kind fuel w root pages children w' alone sized short
      some_child room e =
    let (more, counted, grows) =
      levels_lem size bound roomy others kind fuel w root pages children w' alone sized short
        some_child room e in
    counted
    ∙ ap (λ (n : ℕ). ok (pages + n))
        (sym (
          ap (λ (s : ℕ). usable (pending_page s) (w.next_page, w'.next_page)) (sym sized)
          ∙ grows.count))
