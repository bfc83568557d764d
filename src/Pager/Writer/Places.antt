-- ===== src/Pager/Writer/Places.antt =====
-- Every page is written at the place that its number gives, and the pending-byte page is never given out.
use velr.Base.{
  ℕ, zero, suc, ◌+◌, ◌-◌, ◌*◌, ◌/◌, ◌<◌, max, Bool, true, false, not, ◌||◌, ap₂, ◌⊎◌, ◌&&◌, List,
  [], ◌∷◌, Option, none, some, length, length-replicate, ltb, leb, ◌==◌, if◌then◌else◌, ◌≡◌, ◌≢◌,
  refl, sym, ◌∙◌, subst, ap, All, arith, Bool-cases, ==_iff, ==→ne, inl, inr,
}
use velr.Base.Word.{Bytes}
use velr.Base.Result.{ok, err, >>=-eq_ok, ok_inj, ok_or, ok_or-eq_ok, reject_if}
use velr.Pager.Error.{
  panicked, range_exceeded, dynamic_already_enabled, block_size_overflow, dynamic_disabled,
  worker_cannot_fork, u32_limit,
}
use velr.Pager.Alloc.{BlockAllocator, Range, checked_add, spool, return_tail, grant, claim_root}
use velr.Pager.Alloc.Grants.{last_seen, grant_effect}
use velr.Pager.Writer.{
  PageWriter, W, pending_page, place, write_all, refill, contiguous_in, with_allocator,
  next_available, skip_pending, append_here, append, at_end, ensure_contiguous, is_some,
  enable_dynamic, fork_dynamic,
}

-- The file position is that of the next page, also in the blocks still to come.
pub record IsPlaced (w : PageWriter) : Type 0 where
  pub at_next : w.position ≡ place w.page_size w.next_page
  pub has_page : 0 < w.next_page
  pub blocks : (a : BlockAllocator) → w.allocator ≡ some a → 0 < a.next

-- The same, or a worker whose first block is still to come: its number of the next page is 0, which is
-- the end of its empty block.
pub record IsReady (w : PageWriter) : Type 0 where
  pub at_next : w.position ≡ place w.page_size w.next_page
  pub start : (0 < w.next_page) ⊎ ((w.next_page ≡ 0) × (w.range_end ≡ some 0))
  pub blocks : (a : BlockAllocator) → w.allocator ≡ some a → 0 < a.next

pub IsPlaced-IsReady : (w : PageWriter) → IsPlaced w → IsReady w
IsPlaced-IsReady w p = record { at_next = p.at_next; start = inl p.has_page; blocks = p.blocks }

-- A writer that is not at the end of its block has a page.
IsReady-IsPlaced :
    (w : PageWriter) → IsReady w → at_end w.range_end w.next_page ≡ false → IsPlaced w
IsReady-IsPlaced w p inside = record {
  at_next = p.at_next;
  has_page = elim p.start [
    | inl there ↦ there
    | inr (none_yet, empty) ↦
        let ended : at_end w.range_end w.next_page ≡ true = ap₂ at_end empty none_yet in absurd (cc)
  ];
  blocks = p.blocks;
}

some_inj : {x y : BlockAllocator} → some x ≡ some y → x ≡ y
some_inj p = cc

-- What enable_dynamic and fork_dynamic make.
abbrev enabled : PageWriter → ℕ → PageWriter
enabled w block_pages = record w {
  allocator = some (record {
    next = w.next_page;
    bootstrap_end = w.next_page;
    block_pages = block_pages;
    pending = pending_page w.page_size;
    active = 0;
    failed = false;
    roots = [];
    free_output = some [];
    free_count = 0;
  });
  range_end = some w.next_page;
}

abbrev forked : PageWriter → ℕ → BlockAllocator → PageWriter
forked w root claimed = record {
  page_size = w.page_size;
  next_page = 0;
  range_end = some 0;
  assigned_root = some root;
  allocator = some (record claimed { active = claimed.active + 1 });
  dynamic_worker = true;
  position = 0;
  writes = [];
}

start_of_file : (size : ℕ) → 0 ≡ place size 0
start_of_file size = omega arith

claim_root-next :
    (a : BlockAllocator) (root : ℕ) (b : BlockAllocator)
    → claim_root a root ≡ ok b
    → b.next ≡ a.next
unfolding claim_root
claim_root-next a root b e = ground arith

-- A writer starts at its place, and so do the workers that it forks.
pub enable_dynamic-IsReady :
    (w : PageWriter) (block_bytes : ℕ) (w' : PageWriter)
    → IsPlaced w
    → enable_dynamic w block_bytes ≡ ok w'
    → IsReady w'
unfolding enable_dynamic
enable_dynamic-IsReady w block_bytes w' p e =
    let block_pages : ℕ = max (block_bytes / w.page_size) 1 in
    elim (Bool-cases (is_some w.range_end || is_some w.allocator)) [
      | inl bad ↦
          let refused : ◌≡◌ {A = W PageWriter} (err dynamic_already_enabled) (ok w') =
            rw bad at e in
          cc
      | inr fine ↦ elim (Bool-cases (leb u32_limit block_pages)) [
        | inl large ↦
            let refused : ◌≡◌ {A = W PageWriter} (err block_size_overflow) (ok w') =
              rw (fine, large) at e in
            cc
        | inr fits ↦
            let made : ◌≡◌ {A = W PageWriter} (ok (enabled w block_pages)) (ok w') =
              rw (fine, fits) at e in
            rw (← ok_inj made) (record {
              at_next = p.at_next;
              start = inl p.has_page;
              blocks = λ a q.
                  let same : w.next_page ≡ a.next =
                    ap (λ (b : BlockAllocator). b.next) (some_inj q) in
                  let h = p.has_page in omega arith;
            })
      ]
    ]

pub fork_dynamic-IsReady :
    (w : PageWriter) (root : ℕ) (worker w' : PageWriter)
    → IsReady w
    → fork_dynamic w root ≡ ok (worker, w')
    → IsReady worker × IsReady w'
unfolding fork_dynamic
fork_dynamic-IsReady w root worker w' p e =
    let (a, there, e1) = >>=-eq_ok (ok_or w.allocator dynamic_disabled) _ e in
    let (_, _, e2) = >>=-eq_ok (reject_if w.dynamic_worker worker_cannot_fork) _ e1 in
    let (c, claimed, e3) = >>=-eq_ok (claim_root a root) _ e2 in
    let some_page = p.blocks a (ok_or-eq_ok w.allocator dynamic_disabled there) in
    let same = claim_root-next a root c claimed in
    let is_worker : forked w root c ≡ worker = cc in
    let is_writer : record w { allocator = some (record c { active = c.active + 1 }) } ≡ w' = cc in
    let blocks : (b : BlockAllocator)
        → some (record c { active = c.active + 1 }) ≡ some b
        → 0 < b.next =
      λ b q.
        let next : c.next ≡ b.next = ap (λ (x : BlockAllocator). x.next) (some_inj q) in
        omega arith in
    (
      rw (← is_worker) (record {
        at_next = start_of_file w.page_size;
        start = inr (refl, refl);
        blocks = blocks;
      }),
      rw (← is_writer) (record { at_next = p.at_next; start = p.start; blocks = blocks }),
    )

next_place : (size page : ℕ) → 0 < page → place size page + size ≡ place size (page + 1)
next_place size (suc page) h =
    omega (arith, ap (λ (k : ℕ). k * size) (before page), ap (λ (k : ℕ). k * size) (behind page))
  where
    before : (k : ℕ) → suc k - 1 ≡ k
    before k = omega arith

    behind : (k : ℕ) → suc k + 1 - 1 ≡ k + 1
    behind k = omega arith
next_place size zero h = absurd (omega arith)

skip_pending-IsPlaced :
    (w : PageWriter)
    → IsPlaced w
    → IsPlaced (skip_pending w)
      × ((skip_pending w).next_page ≢ pending_page w.page_size)
      × ((skip_pending w).page_size ≡ w.page_size)
unfolding skip_pending next_available write_all
skip_pending-IsPlaced w (p) = elim (Bool-cases (w.next_page == pending_page w.page_size)) [
  | inl here ↦
      let at = p.at_next in
      let some_page = p.has_page in
      rw (here, not_next w.next_page)
        (
          record {
            at_next = omega (
              arith,
              length-replicate {A = ℕ} w.page_size 0,
              next_place w.page_size w.next_page p.has_page,
            );
            has_page = omega arith;
            blocks = p.blocks;
          },
          (ground arith),
          refl,
        )
  | inr other ↦
      rw (other, (==_iff w.next_page w.next_page).1 refl)
        (p, ==→ne w.next_page (pending_page w.page_size) other, refl)
]
  where
    not_next : (n : ℕ) → (n + 1 == n) ≡ false
    not_next n = ground arith

last_seen_pos :
    (start : ℕ) (others : List ℕ) → 0 < start → All (λ n. 0 < n) others → 0 < last_seen start others
last_seen_pos start [] h k = h
last_seen_pos start (n ∷ others) h (k, ks) = last_seen_pos n others k ks

spool-next :
    (a : BlockAllocator) (start end : ℕ) (o : Option (List Range)) {b : BlockAllocator}
    → spool a start end o ≡ ok b
    → b.next ≡ a.next
unfolding spool
spool-next a start end none e = cc
spool-next a start end (some free) e = cc

return_tail-next :
    (a : BlockAllocator) (start end : ℕ) {b : BlockAllocator}
    → return_tail a start end ≡ ok b
    → b.next ≡ a.next
unfolding return_tail
return_tail-next a start end e = ground (arith, spool-next a start end a.free_output)

module _ (w : PageWriter) (a : BlockAllocator) (end pages : ℕ) (others : List ℕ)
    (pos : All (λ n. 0 < n) others) where
  refill-IsReady :
      {w' : PageWriter}
      → 0 < a.next
      → refill w a end pages others ≡ ok w'
      → IsReady w' × (w'.page_size ≡ w.page_size)
  unfolding refill
  refill-IsReady {w'} h e =
      let (b, back, e') = >>=-eq_ok (return_tail a w.next_page end) _ e in
      let ((r, c), given, e'') = >>=-eq_ok (grant b pages others) _ e' in
      let g = grant_effect b pages others r c given in
      let starts : 0 < r.0 =
        subst (λ n. 0 < n) (sym g.starts)
          (last_seen_pos b.next others
            (subst (λ n. 0 < n) (sym (return_tail-next a w.next_page end back)) h) pos) in
      let next : c.next ≡ r.1 = ap (λ (x : BlockAllocator). x.next) g.moves in
      let made : w' ≡ record w {
        allocator = some c;
        next_page = r.0;
        range_end = some r.1;
        position = place w.page_size r.0;
      } =
        cc in
      rw made (
        record {
          at_next = refl;
          start = inl starts;
          blocks = λ d p.
              subst (λ (x : BlockAllocator). 0 < x.next) (some_eq p)
                (omega (arith, next, g.block.ordered));
        },
        refl,
      )
    where
      some_eq : {x y : BlockAllocator} → some x ≡ some y → x ≡ y
      some_eq p = cc

same_writer :
    {w w' : PageWriter}
    → IsReady w
    → ◌≡◌ {A = W PageWriter} (ok w) (ok w')
    → IsReady w' × (w'.page_size ≡ w.page_size)
same_writer {w} {w'} p e = let same : w' ≡ w = cc in rw same (p, refl)

contiguous_in-IsReady :
    (w : PageWriter) (a : BlockAllocator) (o : Option ℕ) (pages : ℕ) (others : List ℕ)
    {w' : PageWriter}
    → All (λ n. 0 < n) others
    → IsReady w
    → 0 < a.next
    → contiguous_in w a o pages others ≡ ok w'
    → IsReady w' × (w'.page_size ≡ w.page_size)
unfolding contiguous_in
contiguous_in-IsReady w a none pages others pos p h e = cc
contiguous_in-IsReady w a (some end) pages others {w'} pos p h e =
    let held : ℕ = if leb w.next_page a.pending && ltb a.pending end then 1 else 0 in
    elim (Bool-cases (ltb end w.next_page)) [
      | inl bad ↦ let refused : ◌≡◌ {A = W PageWriter} (err panicked) (ok w') = rw bad at e in cc
      | inr fine ↦ elim (Bool-cases (leb pages (end - w.next_page - held))) [
        | inl room ↦
            let kept : ◌≡◌ {A = W PageWriter} (ok w) (ok w') = rw (fine, room) at e in
            same_writer p kept
        | inr full ↦
            let fresh : refill w a end pages others ≡ ok w' = rw (fine, full) at e in
            refill-IsReady w a end pages others pos h fresh
      ]
    ]

ensure_contiguous-IsReady :
    (w : PageWriter) (o : Option BlockAllocator) (pages : ℕ) (others : List ℕ) {w' : PageWriter}
    → o ≡ w.allocator
    → All (λ n. 0 < n) others
    → IsReady w
    → with_allocator o (ok w) (λ a. contiguous_in w a w.range_end pages others) ≡ ok w'
    → IsReady w' × (w'.page_size ≡ w.page_size)
ensure_contiguous-IsReady w none pages others same pos p e = same_writer p e
ensure_contiguous-IsReady w (some a) pages others same pos p e =
    contiguous_in-IsReady w a w.range_end pages others pos p (p.blocks a (sym same)) e

-- What `append` has done when it returns `id`: the page is written at the place of its number, which
-- is not the pending-byte page's, and the writer stands at the page behind it.
pub record Appended (w : PageWriter) (page : Bytes) (id : ℕ) (w' : PageWriter) : Type 0 where
  pub usable : id ≢ pending_page w.page_size
  pub moves : w'.next_page ≡ id + 1
  pub written : (rest : List (ℕ × Bytes)) × (w'.writes ≡ (place w.page_size id, page) ∷ rest)
  pub placed : IsPlaced w'
  pub same_size : w'.page_size ≡ w.page_size

checked_add_lem : (x y : ℕ) {z : ℕ} → checked_add x y ≡ ok z → z ≡ x + y
unfolding checked_add
checked_add_lem x y e = ground arith

append_here_lem :
    (w : PageWriter) (page : Bytes) (id : ℕ) (w' : PageWriter)
    → IsPlaced w
    → w.next_page ≢ pending_page w.page_size
    → length page ≡ w.page_size
    → append_here w page ≡ ok (id, w')
    → Appended w page id w'
unfolding append_here
append_here_lem w page id w' p off size e =
    let (_, _, e') = >>=-eq_ok (reject_if (at_end w.range_end w.next_page) range_exceeded) _ e in
    let (n, added, e'') = >>=-eq_ok (checked_add w.next_page 1) _ e' in
    let next = checked_add_lem w.next_page 1 added in
    let id_is : id ≡ w.next_page = cc in
    let made : w' ≡ write_all (record w { next_page = n }) page = cc in
    rw (made, id_is)
      (record {
        usable = off;
        moves = unfold write_all in next;
        written = (w.writes, unfold write_all in ap (λ (x : ℕ). (x, page) ∷ w.writes) p.at_next);
        placed = record {
          at_next =
              unfold write_all in
              omega (
                arith,
                next_place w.page_size w.next_page p.has_page,
                p.at_next,
                ap (place w.page_size) next,
              );
          has_page = unfold write_all in omega (arith, next);
          blocks = unfold write_all in p.blocks;
        };
        same_size = unfold write_all in refl;
      })

-- The same at a writer of the same page size.
Appended-size :
    (w v : PageWriter) (page : Bytes) (id : ℕ) (w' : PageWriter)
    → v.page_size ≡ w.page_size
    → Appended v page id w'
    → Appended w page id w'
Appended-size w v page id w' e a = record {
  usable = λ p. a.usable (p ∙ ap pending_page (sym e));
  moves = a.moves;
  written = (a.written.0, a.written.1 ∙ ap (λ (s : ℕ). (place s id, page) ∷ a.written.0) e);
  placed = a.placed;
  same_size = a.same_size ∙ e;
}

sized_page :
    (page : Bytes) (size : ℕ) {u : Unit {0}}
    → reject_if (not (length page == size)) panicked ≡ ok u
    → length page ≡ size
sized_page page size e = ground arith

kept : (b : Bool) {u : Unit {0}} → reject_if b range_exceeded ≡ ok u → b ≡ false
kept b e = ground arith

-- Where `append` succeeds it has written its page at the place of the page's number, which is not the
-- pending-byte page's; the next page is the one behind it, the position is its place, and the page size
-- is the same. Before, the writer is at the place of its next page, or it is a worker whose first block
-- is still to come; its shared counter and what other threads store in it are not zero.
pub append_lem :
    (w : PageWriter) (page : Bytes) (others : List ℕ) (id : ℕ) (w' : PageWriter)
    → IsReady w
    → All (λ n. 0 < n) others
    → append w page others ≡ ok (id, w')
    → Appended w page id w'
unfolding append ensure_contiguous
append_lem w page others id w' p pos e =
    let (_, sized, e1) = >>=-eq_ok (reject_if (not (length page == w.page_size)) panicked) _ e in
    let (v, room, e2) = >>=-eq_ok (ensure_contiguous w 1 others) _ e1 in
    let (_, before_end, e3) =
      >>=-eq_ok (reject_if (at_end v.range_end v.next_page) range_exceeded) _ e2 in
    let (rv, sv) = ensure_contiguous-IsReady w w.allocator 1 others refl pos p room in
    let pv = IsReady-IsPlaced v rv (kept (at_end v.range_end v.next_page) before_end) in
    let (ps, off, ss) = skip_pending-IsPlaced v pv in
    let size = sized_page page w.page_size sized in
    let a =
      append_here_lem (skip_pending v) page id w' ps (λ q. off (q ∙ ap pending_page ss))
        (size ∙ sym (ss ∙ sv)) e3 in
    Appended-size w (skip_pending v) page id w' (ss ∙ sv) a
