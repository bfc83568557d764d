-- ===== src/Pager/Alloc/Grants.antt =====
-- Grants of any number of threads, in any order, own disjoint blocks.
use velr.Base.{
  ℕ, ◌+◌, ◌-◌, ◌≤◌, ◌<◌, max, ◌&&◌, List, [], ◌∷◌, ◌≡◌, ◌∙◌, ap, subst, inl, inr, arith, ltb, leb,
  ◌==◌, if◌then◌else◌, Bool-cases,
}
use velr.Base.Result.{Result, ok, err, ◌>>=◌, >>=-eq_ok}
use velr.Pager.Error.{WriterError, u32_limit, empty_allocation}
use velr.Pager.Alloc.{BlockAllocator, Range, block_end, grant_loop, grant}

-- The pages of a block that may be used: all but the pending-byte page.
abbrev pub usable : ℕ → Range → ℕ
usable pending (start, end) = end - start - (if leb start pending && ltb pending end then 1 else 0)

-- What a successful grant from `start` gives.
pub record Granted (pending pages start end : ℕ) : Type 0 where
  pub ordered : start < end
  pub enough : usable pending (start, end) ≡ pages
  pub in_space : end < u32_limit

pub block_end-Granted :
    (pending pages start : ℕ) {end : ℕ}
    → 0 < pages
    → block_end pending pages start ≡ ok end
    → Granted pending pages start end
unfolding block_end
block_end-Granted pending pages start h e = ground arith

-- The last value that another thread stored, or the one first read.
abbrev pub last_seen : ℕ → List ℕ → ℕ
last_seen start [] = start
last_seen start (actual ∷ others) = last_seen actual others

grant_loop_lem :
    (a : BlockAllocator) (pages start : ℕ) (others : List ℕ) {r : Range} {b : BlockAllocator}
    → grant_loop a pages start others ≡ ok (r, b)
    → (r.0 ≡ last_seen start others)
      × (block_end a.pending pages r.0 ≡ ok r.1)
      × (b ≡ record a { next = r.1 })
unfolding grant_loop
grant_loop_lem a pages start [] e = ground arith
grant_loop_lem a pages start (actual ∷ others) {r} {b} e =
    ground (arith, grant_loop_lem (record a { next = actual }) pages actual others {r = r} {b = b})

-- The effect of a grant that starts at the value that other threads left.
pub record GrantEffect (a : BlockAllocator) (needed : ℕ) (others : List ℕ) (r : Range)
    (b : BlockAllocator) : Type 0 where
  pub starts : r.0 ≡ last_seen a.next others
  pub block : Granted a.pending (max a.block_pages needed) r.0 r.1
  pub moves : b ≡ record a { next = r.1 }

-- A successful grant starts at the value that other threads left in the counter, is a block of exactly
-- the larger of the block size and the need in usable pages, ends below 2 ^ 32, and changes only the counter, to the end of
-- the block.
pub grant_effect :
    (a : BlockAllocator) (needed : ℕ) (others : List ℕ) (r : Range) (b : BlockAllocator)
    → grant a needed others ≡ ok (r, b)
    → GrantEffect a needed others r b
unfolding grant
grant_effect a needed others r b e = elim (Bool-cases (max a.block_pages needed == 0)) [
  | inl none_asked ↦
      let refused : ◌≡◌ {A = Result WriterError (Range × BlockAllocator)} (err empty_allocation)
          (ok (r, b)) =
        rw none_asked at e in
      absurd (cc)
  | inr asked ↦
      let done : grant_loop a (max a.block_pages needed) a.next others ≡ ok (r, b) =
        rw asked at e in
      let (s, k, m) = grant_loop_lem a (max a.block_pages needed) a.next others done in
      record {
        starts = s;
        block = block_end-Granted a.pending (max a.block_pages needed) r.0 (ground arith) k;
        moves = m;
      }
]

-- Grants in the order in which their exchanges succeed.
abbrev pub grants : BlockAllocator → List ℕ → Result WriterError (List Range × BlockAllocator)
grants a [] = ok ([], a)
grants a (needed ∷ rest) = do (r, b) ← grant a needed []; (rs, c) ← grants b rest; ok (r ∷ rs, c)

-- Blocks that follow one another from `start` to `end`, each with usable pages for its request.
pub data Tiles (pending block_pages : ℕ) : ℕ → List ℕ → List Range → ℕ → Type 0 where
  done : {start : ℕ} → Tiles pending block_pages start [] [] start
  block :
      {start middle end needed : ℕ} {rest : List ℕ} {rs : List Range}
      → Granted pending (max block_pages needed) start middle
      → Tiles pending block_pages middle rest rs end
      → Tiles pending block_pages start (needed ∷ rest) ((start, middle) ∷ rs) end

Tiles-step :
    (a b : BlockAllocator) (needed : ℕ) (r : Range) (needs : List ℕ) (rs : List Range) (end : ℕ)
    → GrantEffect a needed [] r b
    → Tiles b.pending b.block_pages b.next needs rs end
    → Tiles a.pending a.block_pages a.next (needed ∷ needs) (r ∷ rs) end
Tiles-step a b needed r needs rs end g t =
    let rest : Tiles a.pending a.block_pages r.1 needs rs end =
      subst (λ (x : BlockAllocator). Tiles x.pending x.block_pages x.next needs rs end) g.moves t in
    subst (λ (n : ℕ). Tiles a.pending a.block_pages n (needed ∷ needs) (r ∷ rs) end) g.starts
      (block g.block rest)

ok_pair :
    {E A B : Type 0} {a a' : A} {b b' : B}
    → ◌≡◌ {A = Result E (A × B)} (ok (a, b)) (ok (a', b'))
    → (a ≡ a') × (b ≡ b')
ok_pair e = (cc, cc)

grants-Tiles :
    (needs : List ℕ) (a : BlockAllocator) (rs : List Range) (c : BlockAllocator)
    → grants a needs ≡ ok (rs, c)
    → Tiles a.pending a.block_pages a.next needs rs c.next
grants-Tiles [] a rs c e = let (e1, e2) = ok_pair e in rw (← e1, ← e2) done
grants-Tiles (needed ∷ needs) a rs c e =
    let ((r, b), first, e') = >>=-eq_ok (grant a needed []) _ e in
    let ((more, d), second, e'') = >>=-eq_ok (grants b needs) _ e' in
    let (e1, e2) = ok_pair e'' in
    subst (λ (x : List Range). Tiles a.pending a.block_pages a.next (needed ∷ needs) x c.next) e1
      (Tiles-step a b needed r needs more c.next (grant_effect a needed [] r b first)
        (grants-Tiles needs b more c (second ∙ ap (λ (x : BlockAllocator). ok (more, x)) e2)))

-- In how many of the ranges a page lies.
abbrev pub owners : ℕ → List Range → ℕ
owners page [] = 0
owners page ((start, end) ∷ rs) = (if leb start page && ltb page end then 1 else 0) + owners page rs

Tiles-owners :
    (page pending block_pages : ℕ) {start end : ℕ} {needs : List ℕ} {rs : List Range}
    → Tiles pending block_pages start needs rs end
    → (start ≤ end) × (owners page rs ≡ (if leb start page && ltb page end then 1 else 0))
Tiles-owners page pending block_pages done = ground arith
Tiles-owners page pending block_pages (block g t) =
    ground (arith, Tiles-owners page pending block_pages t, g.ordered)

-- Every page between the first and the last value of `next` is granted to exactly one writer, and
-- no other page to any.
pub grants-owners :
    (a : BlockAllocator) (needs : List ℕ) (rs : List Range) (c : BlockAllocator) (page : ℕ)
    → grants a needs ≡ ok (rs, c)
    → owners page rs ≡ (if leb a.next page && ltb page c.next then 1 else 0)
grants-owners a needs rs c page e =
    (Tiles-owners page a.pending a.block_pages (grants-Tiles needs a rs c e)).1
