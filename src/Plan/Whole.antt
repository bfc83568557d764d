-- ===== src/Plan/Whole.antt =====
-- A whole index: its leaves and all its levels, planned and written.
use velr.Base.{
  ℕ, suc, ◌+◌, ◌*◌, ◌^◌, ◌≤◌, ◌<◌, true, false, not, List, [], ◌∷◌, ◌++◌, Option, none, some,
  length, length-append, length-replicate, ◌≡◌, refl, sym, ◌∙◌, ap, arith, All, All-append, subst,
  ltb, if◌then◌else◌, Bool-cases, inl, inr, ge→ltb, lt→ltb,
}
use velr.Base.Word.{Bytes}
use velr.Base.Result.{ok, ◌>>=◌, >>=-eq_ok, ok_or, ok_or-eq_ok}
use velr.Pager.Error.{panicked}
use velr.Pager.Alloc.Grants.{usable}
use velr.Pager.Page.{index, Page, new, fits, push_parts, image}
use velr.Pager.Writer.{PageWriter, W, pending_page, append}
use velr.Pager.Tree.{Child, flush_leaf, leaf_cell, tree_step, tree_loop, tree_end, tree, levels}
use velr.Pager.Tree.Local.{Grows, Grows-trans, Grows-refl, append-Grows, write_root-Grows}
use velr.Plan.{
  IndexPagePlan, supported, prefix_size, new_plan, push_length, push_lengths, push_boundary,
  finish_loop, finish_leaves, finish, plan_index_lengths,
}
use velr.Plan.Level.{lengths, lengths-append, length-lengths, IsShort}
use velr.Plan.Levels.{levels_lem}
use velr.Plan.Leaves.{Leaf, fits_lem, push_parts-Leaf}
use velr.Plan.Push.{longest, Follows, leaf_cell_lem, flush_leaf_lem, full-Follows}

abbrev pub payload_lengths : List (ℕ × Bytes) → List ℕ
payload_lengths [] = []
payload_lengths ((rowid, payload) ∷ records) = length payload ∷ payload_lengths records

module _ (size : ℕ) (small : size < 2 ^ 16) (roomy : 12 + 2 * (6 + (longest size + 3)) ≤ size)
    (others : PageWriter → List ℕ) where
  -- After one record: what the plan makes of its length.
  record Stepped (w0 w : PageWriter) (children : List Child) (p : IndexPagePlan) (len : ℕ)
      (v : PageWriter) (page : Page) (children' : List Child) : Type 0 where
    next : IndexPagePlan
    plans : push_length p len ≡ ok next
    follows : Follows size small roomy others w0 v page children' next
    few : length children' ≤ length children + 1

  no_room :
      (w0 w : PageWriter) (page : Page) (children : List Child) (p : IndexPagePlan) (len : ℕ)
      (v : PageWriter) (page' page'' : Page) (children' : List Child) (prefix body : Bytes)
      (previous : Option ℕ)
      → Follows size small roomy others w0 w page children p
      → len ≤ longest size
      → length children + 1 < 2 ^ 32
      → length prefix + length body ≡ len + prefix_size len
      → ltb size (p.used + 2 + (len + prefix_size len)) ≡ true
      → flush_leaf others w index page children previous ≡ ok (v, page', children')
      → push_parts page' prefix body ≡ some page''
      → Stepped w0 w children p len v page'' children'
  unfolding push_length
  no_room w0 w page children p len v page' page'' children' prefix body previous f fit room is_len
        full flushed pushed =
      let x =
        flush_leaf_lem size small roomy others w0 w page children p previous v page' children' f
          flushed in
      let (q, plans, follows) =
        full-Follows size small roomy others w0 v page' page'' children children' p prefix body
          (len + prefix_size len) is_len (ground arith) room x f.leaves_are f.size_is f.maximum_is
          f.short_cell f.short pushed in
      let local : ltb p.maximum len ≡ false = ge→ltb p.maximum len (omega (arith, f.maximum_is)) in
      let over : ltb p.page_size (p.used + 2 + (len + prefix_size len)) ≡ true =
        ap (λ (n : ℕ). ltb n (p.used + 2 + (len + prefix_size len))) f.size_is ∙ full in
      record {
        next = q;
        plans = rw (local, over) plans;
        follows = follows;
        few = omega (arith, ap length x.children_are, length-append children (x.child ∷ []));
      }

  has_room :
      (w0 w : PageWriter) (page : Page) (children : List Child) (p : IndexPagePlan) (len : ℕ)
      (page' : Page) (prefix body : Bytes)
      → Follows size small roomy others w0 w page children p
      → len ≤ longest size
      → length prefix + length body ≡ len + prefix_size len
      → ltb size (p.used + 2 + (len + prefix_size len)) ≡ false
      → push_parts page prefix body ≡ some page'
      → Stepped w0 w children p len w page' children
  unfolding push_length
  has_room w0 w page children p len page' prefix body f fit is_len room pushed =
      let local : ltb p.maximum len ≡ false = ge→ltb p.maximum len (omega (arith, f.maximum_is)) in
      let under : ltb p.page_size (p.used + 2 + (len + prefix_size len)) ≡ false =
        ap (λ (n : ℕ). ltb n (p.used + 2 + (len + prefix_size len))) f.size_is ∙ room in
      record {
        next = record p {
          used = p.used + 2 + (len + prefix_size len);
          last_cell = len + prefix_size len;
        };
        plans = rw (local, under) refl;
        follows = record {
          leaf =
              subst (λ n. Leaf size page' (p.used + 2 + n) n) is_len
                (push_parts-Leaf size page p.used p.last_cell prefix body page' f.leaf small
                  pushed);
          size_is = f.size_is;
          maximum_is = f.maximum_is;
          leaves_are = f.leaves_are;
          grows = f.grows;
          short = f.short;
          short_cell = ground arith;
        };
        few = omega arith;
      }

  -- How a record goes onto the page that is then the leaf.
  abbrev after : Bytes → Bytes → PageWriter × Page × List Child → W (PageWriter × Page × List Child)
  after prefix body (v, p, cs) = ok_or (push_parts p prefix body) panicked >>= λ p'. ok (v, p', cs)

  -- The second half of a step: the leaf is written if it has no room, and the record goes onto it.
  place_lem :
      (w0 w : PageWriter) (page : Page) (children : List Child) (p : IndexPagePlan)
      (previous : Option ℕ) (len : ℕ) (prefix body : Bytes) (v : PageWriter) (page' : Page)
      (children' : List Child)
      → Follows size small roomy others w0 w page children p
      → len ≤ longest size
      → length children + 1 < 2 ^ 32
      → length prefix + length body ≡ len + prefix_size len
      → ((if fits page (length prefix + length body)
            then ok (w, page, children)
            else flush_leaf others w index page children previous)
          >>= after prefix body)
        ≡ ok (v, page', children')
      → Stepped w0 w children p len v page' children'
  place_lem w0 w page children p previous len prefix body v page' children' f fit room is_len e =
      let test : fits page (length prefix + length body)
          ≡ not (ltb size (p.used + 2 + (len + prefix_size len))) =
        fits_lem size page p.used p.last_cell (length prefix + length body) f.leaf
        ∙ ap (λ (n : ℕ). not (ltb size (p.used + 2 + n))) is_len in
      elim (Bool-cases (ltb size (p.used + 2 + (len + prefix_size len)))) [
        | inl full ↦
            let fits_not : fits page (length prefix + length body) ≡ false = test ∙ ap not full in
            let flushes : (flush_leaf others w index page children previous >>= after prefix body)
                ≡ ok (v, page', children') =
              rw fits_not at e in
            let ((u, page1, cs), flushed, e3) =
              >>=-eq_ok (flush_leaf others w index page children previous) (after prefix body)
                flushes in
            let (page2, pushed, e4) =
              >>=-eq_ok (ok_or (push_parts page1 prefix body) panicked) _ e3 in
            let s =
              no_room w0 w page children p len u page1 page2 cs prefix body previous f fit room
                is_len full flushed (ok_or-eq_ok (push_parts page1 prefix body) panicked pushed) in
            let a : u ≡ v = cc in
            let b : page2 ≡ page' = cc in let c : cs ≡ children' = cc in rw (← a, ← b, ← c) s
        | inr under ↦
            let fits_is : fits page (length prefix + length body) ≡ true = test ∙ ap not under in
            let stays : after prefix body (w, page, children) ≡ ok (v, page', children') =
              rw fits_is at e in
            let (page2, pushed, e4) =
              >>=-eq_ok (ok_or (push_parts page prefix body) panicked) _ stays in
            let s =
              has_room w0 w page children p len page2 prefix body f fit is_len under
                (ok_or-eq_ok (push_parts page prefix body) panicked pushed) in
            let a : w ≡ v = cc in
            let b : page2 ≡ page' = cc in let c : children ≡ children' = cc in rw (← a, ← b, ← c) s
      ]

  abbrev placing :
      Page → List Child → Option ℕ → Bytes × Bytes × PageWriter → W (PageWriter × Page × List Child)
  placing page children previous (prefix, body, x) =
      (if fits page (length prefix + length body)
        then ok (x, page, children)
        else flush_leaf others x index page children previous)
      >>= after prefix body

  tree_step_lem :
      (w0 w : PageWriter) (page : Page) (children : List Child) (p : IndexPagePlan)
      (previous : Option ℕ) (rowid : ℕ) (payload : Bytes) (v : PageWriter) (page' : Page)
      (children' : List Child)
      → w0.page_size ≡ size
      → Follows size small roomy others w0 w page children p
      → length payload ≤ longest size
      → length children + 1 < 2 ^ 32
      → tree_step others w index page children previous rowid payload ≡ ok (v, page', children')
      → Stepped w0 w children p (length payload) v page' children'
  unfolding tree_step
  tree_step_lem w0 w page children p previous rowid payload v page' children' sized f fit room e =
      let e1 : (leaf_cell others w index rowid payload >>= placing page children previous)
          ≡ ok (v, page', children') =
        e in
      let ((prefix, body, w1), made, e2) =
        >>=-eq_ok (leaf_cell others w index rowid payload) (placing page children previous) e1 in
      let (is_len, same) =
        leaf_cell_lem size small roomy others w rowid payload prefix body w1
          (f.grows.same_size ∙ sized) fit made in
      place_lem w0 w page children p previous (length payload) prefix body v page' children' f fit
        room is_len
        (subst
          (λ (x : PageWriter).
            placing page children previous (prefix, body, x) ≡ ok (v, page', children'))
          same e2)

  -- All records.
  tree_loop_lem :
      (records : List (ℕ × Bytes)) (w0 w : PageWriter) (page : Page) (children : List Child)
      (p : IndexPagePlan) (previous : Option ℕ) (v : PageWriter) (page' : Page)
      (children' : List Child)
      → w0.page_size ≡ size
      → Follows size small roomy others w0 w page children p
      → All (λ n. n ≤ longest size) (payload_lengths records)
      → length children + length records < 2 ^ 32
      → tree_loop others w index page children previous records ≡ ok (v, page', children')
      → (q : IndexPagePlan) × (push_lengths p (payload_lengths records) ≡ ok q)
        × Follows size small roomy others w0 v page' children' q
        × (length children' ≤ length children + length records)
  unfolding tree_loop push_lengths
  tree_loop_lem [] w0 w page children p previous v page' children' sized f fit room e =
      let a : w ≡ v = cc in
      let b : page ≡ page' = cc in
      let c : children ≡ children' = cc in (p, refl, rw (← a, ← b, ← c) f, rw (← c) (omega arith))
  tree_loop_lem ((rowid, payload) ∷ records) w0 w page children p previous v page' children' sized f
        (fit, fits_all) room e =
      let ((u, page1, cs), stepped, e1) =
        >>=-eq_ok (tree_step others w index page children previous rowid payload) _ e in
      let s =
        tree_step_lem w0 w page children p previous rowid payload u page1 cs sized f fit
          (omega arith) stepped in
      let (q, plans, follows, few) =
        tree_loop_lem records w0 u page1 cs s.next (some rowid) v page' children' sized s.follows
          fits_all (omega (arith, s.few)) e1 in
      (q, rw s.plans plans, follows, omega (arith, s.few))

  -- The end: the root alone, or the levels above the leaves.
  tree_end_lem :
      (w0 w : PageWriter) (root : ℕ) (page : Page) (children : List Child) (p : IndexPagePlan)
      (w' : PageWriter)
      → w0.page_size ≡ size
      → Follows size small roomy others w0 w page children p
      → 3 * length children + 8 < 2 ^ 32
      → tree_end others w root index page children ≡ ok w'
      → (n : ℕ) × (finish p ≡ ok n) × Grows w0 w' n
  unfolding tree_end finish finish_leaves push_boundary
  tree_end_lem w0 w root page [] p w' sized f room e = (
    0,
    rw f.leaves_are refl,
    Grows-trans f.grows (write_root-Grows w root (image page 0) w' f.grows.alone e),
  )
  tree_end_lem w0 w root page (c ∷ cs) p w' sized f room e =
      let ((id, u), appended, e1) = >>=-eq_ok (append w (image page 0) (others w)) _ e in
      let g =
        Grows-trans f.grows
          (append-Grows w (image page 0) (others w) id u f.grows.alone appended) in
      let last : Child = record { page = id; boundary = [] } in
      let all : List Child = (c ∷ cs) ++ (last ∷ []) in
      let count : length all ≡ suc (suc (length cs)) =
        omega (arith, length-append (c ∷ cs) (last ∷ [])) in
      let short : All (IsShort size (longest size + 3) roomy) all =
        All-append (IsShort size (longest size + 3) roomy) (c ∷ cs) (last ∷ []) f.short
          (omega arith, tt) in
      let fuel : levels others (length all) u root index all ≡ ok w' = rw count e1 in
      let (more, counted, grows) =
        levels_lem size (longest size + 3) roomy others index (length all) u root (length all) all
          w' g.alone (g.same_size ∙ sized) short (omega arith) (omega arith) fuel in
      let lens : lengths (c ∷ cs) ++ (0 ∷ []) ≡ lengths all =
        sym (lengths-append (c ∷ cs) (last ∷ [])) in
      let len : length (lengths (c ∷ cs) ++ (0 ∷ [])) ≡ length all =
        ap length lens ∙ length-lengths all in
      let go : finish_loop (length all) size (length all) (lengths (c ∷ cs) ++ (0 ∷ []))
          ≡ ok (length all + more) =
        ap (finish_loop (length all) size (length all)) lens ∙ counted in
      (
        length all + more,
        rw
            (
              f.leaves_are,
              lt→ltb (length (lengths (c ∷ cs)) + 1) (2 ^ 32)
                  (omega (arith, length-lengths (c ∷ cs))),
              f.size_is,
            )
            (rw len go),
        subst (λ n. Grows w0 w' (n + more)) (omega (arith, count)) (Grows-trans g grows),
      )

supported_range : (size : ℕ) → supported size ≡ true → (512 ≤ size) × (size ≤ 32768)
supported_range size h = ground arith

-- A leaf without cells, and a plan without records.
empty-Follows :
    (w : PageWriter) (small : w.page_size < 2 ^ 16)
    (roomy : 12 + 2 * (6 + (longest w.page_size + 3)) ≤ w.page_size) (others : PageWriter → List ℕ)
    → w.allocator ≡ none
    → Follows w.page_size small roomy others w w (new w.page_size index false) [] (record {
      page_size = w.page_size;
      maximum = longest w.page_size;
      leaves = none;
      used = 8;
      last_cell = 0;
    })
unfolding new
empty-Follows w small roomy others alone = record {
  leaf = record {
    is_leaf = refl;
    sized = length-replicate {A = ℕ} w.page_size 0;
    bottom_fits = omega arith;
    used_is = omega arith;
    last_at = refl;
    cell_fits = inl refl;
    last_is = inl refl;
  };
  size_is = refl;
  maximum_is = refl;
  leaves_are = refl;
  grows = Grows-refl w alone;
  short = tt;
  short_cell = omega arith;
}

-- A tree without an allocator is its leaves and then its end.
tree_alone :
    (others : PageWriter → List ℕ) (w : PageWriter) (root : ℕ) (records : List (ℕ × Bytes))
    → w.allocator ≡ none
    → tree others w root index records ≡ (
        tree_loop others w index (new w.page_size index false) [] none records >>= λ t.
        tree_end others t.0 root index t.1 t.2)
unfolding tree
tree_alone others w root records alone = rw alone refl

-- When a writer of its own file, with a page size that the plan supports, builds an index from records
-- that all fit on a page, the plan from the lengths of these records gives exactly the number of pages,
-- besides the pending-byte page, that the writer appends. There are fewer than 2 ^ 30 records.
pub plan_index_lengths-tree :
    (others : PageWriter → List ℕ) (w : PageWriter) (root : ℕ) (records : List (ℕ × Bytes))
    (w' : PageWriter)
    → w.allocator ≡ none
    → supported w.page_size ≡ true
    → All (λ n. n ≤ longest w.page_size) (payload_lengths records)
    → length records < 2 ^ 30
    → tree others w root index records ≡ ok w'
    → plan_index_lengths w.page_size (payload_lengths records)
      ≡ ok (usable (pending_page w.page_size) (w.next_page, w'.next_page))
unfolding plan_index_lengths new_plan
plan_index_lengths-tree others w root records w' alone ok_size fit room e =
    let (low, high) = supported_range w.page_size ok_size in
    let small : w.page_size < 2 ^ 16 = omega arith in
    let roomy : 12 + 2 * (6 + (longest w.page_size + 3)) ≤ w.page_size = omega arith in
    let e1 : (tree_loop others w index (new w.page_size index false) [] none records >>= λ t.
    tree_end others t.0 root index t.1 t.2)
        ≡ ok w' =
      sym (tree_alone others w root records alone) ∙ e in
    let ((v, page, children), looped, ended) =
      >>=-eq_ok (tree_loop others w index (new w.page_size index false) [] none records) _ e1 in
    let (q, pushes, follows, few) =
      tree_loop_lem w.page_size small roomy others records w w (new w.page_size index false) []
        (record {
          page_size = w.page_size;
          maximum = longest w.page_size;
          leaves = none;
          used = 8;
          last_cell = 0;
        })
        none v page children refl (empty-Follows w small roomy others alone) fit (omega arith)
        looped in
    let (n, finished, grows) =
      tree_end_lem w.page_size small roomy others w v root page children q w' refl follows
        (omega arith) ended in
    rw ok_size (rw pushes (finished ∙ ap ok (sym grows.count)))
