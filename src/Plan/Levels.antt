-- ===== src/Plan/Levels.antt =====
-- A whole level, and all levels: the plan predicts what the writer does, and each level is shorter.
use velr.Base.{
  ℕ, zero, suc, ◌+◌, ◌-◌, ◌*◌, ◌^◌, ◌≤◌, ◌<◌, false, List, [], ◌∷◌, ◌++◌, append_assoc, Option,
  none, some, length, length-append, ◌≡◌, ◌≢◌, refl, sym, ◌∙◌, ap, arith, All, subst, ltb, ne→==,
  lt→ltb, ge→ltb,
}
use velr.Base.Result.{ok, ◌>>=◌, >>=-eq_ok, ok_inj, ok_or, ok_or-eq_ok}
use velr.Pager.Error.{panicked}
use velr.Pager.Page.{Kind, init}
use velr.Pager.Writer.{PageWriter, W}
use velr.Pager.Tree.{Child, parent, level_loop, level_end, level, levels, borrow, borrow_from}
use velr.Pager.Tree.Local.{Grows, Grows-trans}
use velr.Pager.Tree.Shape.{parent_lem, last?-cons, All-last?, All-init}
use velr.Plan.{P, Group, no_children, lend, plan_loop, plan_end, plan_level, add_count, finish_loop}
use velr.Plan.Level.{
  lengths, last_length, Views, IsShort, Few, Deferred, waiting, Emitted, parent_emits,
  length-lengths,
}
use velr.Plan.LevelLoop.{level_loop_lem, no-Views}

-- What both make of the last two groups of a level.
record Borrowed (size bound : ℕ) (roomy : 12 + 2 * (6 + bound) ≤ size) (previous group : List Child)
    (planned : P (Group × Group)) : Type 0 where
  previous_plan : Group
  group_plan : Group
  plans : planned ≡ ok (previous_plan, group_plan)
  previous_last : previous_plan.last ≡ last_length previous
  group_last : group_plan.last ≡ last_length group
  short_previous : All (IsShort size bound roomy) previous
  short_group : All (IsShort size bound roomy) group

module _ (size bound : ℕ) (roomy : 12 + 2 * (6 + bound) ≤ size) where
  -- A last group of another size stays as it is.
  kept :
      (previous group previous' group' : List Child) (p g : Group)
      → Views previous p
      → Views group g
      → length group ≢ 1
      → All (IsShort size bound roomy) previous
      → All (IsShort size bound roomy) group
      → ◌≡◌ {A = Option (List Child × List Child)}
          (some (previous, group))
          (some (previous', group'))
      → Borrowed size bound roomy previous' group' (lend p g)
  unfolding lend
  kept previous group previous' group' p g vp vg other sp sg e =
      let first : previous ≡ previous' = cc in
      let second : group ≡ group' = cc in
      rw (ne→== g.children 1 (omega (arith, vg.count))) (record {
        previous_plan = p;
        group_plan = g;
        plans = refl;
        previous_last = vp.last_is ∙ ap last_length first;
        group_last = vg.last_is ∙ ap last_length second;
        short_previous = subst (All (IsShort size bound roomy)) first sp;
        short_group = subst (All (IsShort size bound roomy)) second sg;
      })

  borrow_lem :
      (previous group previous' group' : List Child) (p g : Group)
      → Views previous p
      → Views group g
      → 3 ≤ length previous
      → All (IsShort size bound roomy) previous
      → All (IsShort size bound roomy) group
      → borrow previous group ≡ some (previous', group')
      → Borrowed size bound roomy previous' group' (lend p g)
  unfolding lend
  borrow_lem [] group previous' group' p g vp vg long sp sg e = absurd (omega arith)
  borrow_lem (c ∷ cs) [] previous' group' p g vp vg long sp sg e =
      kept (c ∷ cs) [] previous' group' p g vp vg (omega arith) sp sg (cc)
  borrow_lem (c ∷ cs) (only ∷ []) previous' group' p g vp vg long sp sg e =
      let (l, found) = last?-cons c cs in
      let made : ◌≡◌ {A = Option (List Child × List Child)} (some (init (c ∷ cs), l ∷ only ∷ []))
          (some (previous', group')) =
        ap (borrow_from (c ∷ cs) only) (sym found) ∙ e in
      let one : g.children ≡ 1 = vg.count in
      let many : ltb p.children 3 ≡ false = ge→ltb p.children 3 (omega (arith, vp.count)) in
      let first : init (c ∷ cs) ≡ previous' = cc in
      let second : l ∷ only ∷ [] ≡ group' = cc in
      rw one (
        rw many (record {
          previous_plan = record p { children = p.children - 1; last = p.penultimate };
          group_plan = record g { children = g.children + 1 };
          plans = cc one;
          previous_last = vp.before_last ∙ ap last_length first;
          group_last = vg.last_is ∙ ap last_length second;
          short_previous =
              subst (All (IsShort size bound roomy)) first
                (All-init (IsShort size bound roomy) (c ∷ cs) sp);
          short_group =
              subst (All (IsShort size bound roomy)) second
                (All-last? (IsShort size bound roomy) (c ∷ cs) sp found, sg);
        }))
  borrow_lem (c ∷ cs) (d ∷ x ∷ ds) previous' group' p g vp vg long sp sg e =
      kept (c ∷ cs) (d ∷ x ∷ ds) previous' group' p g vp vg (omega arith) sp sg (cc)

  module _ (others : PageWriter → List ℕ) (kind : Kind) where
    abbrev pub lengths? : Option (List Child) → Option (List ℕ)
    lengths? none = none
    lengths? (some cs) = some (lengths cs)

    abbrev pub Short? : Option (List Child) → Type 0
    Short? none = Unit {0}
    Short? (some cs) = All (IsShort size bound roomy) cs × (2 ≤ length cs)

    -- A level that the writer has built: the plan gives the same boundaries, a page was appended for
    -- each child of the next level, and that level is shorter.
    pub record LevelDone (w : PageWriter) (children : List Child) (w' : PageWriter)
        (o : Option (List Child)) : Type 0 where
      pub plans : plan_level size (lengths children) ≡ ok (lengths? o)
      pub grows : Grows w w' (waiting o)
      pub short : Short? o
      pub shorter : waiting o < length children
      pub third : 3 * waiting o ≤ length children + 3

    end_none :
        (v : PageWriter) (root : ℕ) (group next : List Child) (w' : PageWriter)
        (o : Option (List Child))
        → v.allocator ≡ none
        → level_end others v root kind none group next ≡ ok (w', o)
        → (o ≡ none) × Grows v w' 0
    unfolding level_end
    end_none v root group next w' o alone e =
        let ((c, u), made, e') = >>=-eq_ok (parent others v (some root) kind group) _ e in
        let (last, l, b, grows) = parent_lem others v (some root) kind group c u alone made in
        let same : u ≡ w' = cc in (cc, subst (λ x. Grows v x 0) same grows)

    record TwoMore (v : PageWriter) (next : List Child) (w' : PageWriter) (o : Option (List Child))
        (planned : P (Option (List ℕ))) : Type 0 where
      both : List Child
      is_some : o ≡ some both
      plans : planned ≡ ok (some (lengths both))
      grows : Grows v w' 2
      short : All (IsShort size bound roomy) both
      more : length both ≡ length next + 2

    end_some :
        (v : PageWriter) (root : ℕ) (cs group next : List Child) (p g : Group) (w' : PageWriter)
        (o : Option (List Child))
        → v.allocator ≡ none
        → Deferred size bound roomy (some cs) (some p)
        → Views group g
        → All (IsShort size bound roomy) group
        → All (IsShort size bound roomy) next
        → length next + 2 < 2 ^ 32
        → level_end others v root kind (some cs) group next ≡ ok (w', o)
        → TwoMore v next w' o (plan_end (some p) g (lengths next))
    unfolding level_end plan_end
    end_some v root cs group next p g w' o alone (vp, sp, long) vg sg sn room e =
        let ((cs', group'), lent, e1) = >>=-eq_ok (ok_or (borrow cs group) panicked) _ e in
        let b =
          borrow_lem cs group cs' group' p g vp vg long sp sg
            (ok_or-eq_ok (borrow cs group) panicked lent) in
        let ((first, u), made, e2) = >>=-eq_ok (parent others v none kind cs') _ e1 in
        let ((second, u'), made', e3) = >>=-eq_ok (parent others u none kind group') _ e2 in
        let (plan1, d1) =
          parent_emits size bound roomy others kind v cs' b.previous_plan.last next first u alone
            b.previous_last b.short_previous sn (omega arith) made in
        let (plan2, d2) =
          parent_emits size bound roomy others kind u group' b.group_plan.last
            (next ++ (first ∷ [])) second u' d1.grows.alone b.group_last b.short_group d1.short
            (omega (arith, length-append next (first ∷ []))) made' in
        let same : u' ≡ w' = cc in
        let two : d1.pages + d2.pages ≡ 2 = omega (
          arith,
          d1.more,
          d2.more,
          length-append next (first ∷ []),
          length-append (next ++ (first ∷ [])) (second ∷ []),
        ) in
        rw (b.plans, plan1, plan2)
          (record {
            both = (next ++ (first ∷ [])) ++ (second ∷ []);
            is_some = rw (append_assoc next (first ∷ []) (second ∷ [])) (cc);
            plans = refl;
            grows =
                subst (λ x. Grows v x 2) same
                  (subst (λ n. Grows v u' n) two (Grows-trans d1.grows d2.grows));
            short = d2.short;
            more = omega (
              arith,
              length-append next (first ∷ []),
              length-append (next ++ (first ∷ [])) (second ∷ []),
            );
          })

    -- The end of a level, by whether a group is deferred.
    level_done :
        (w v : PageWriter) (root : ℕ) (children : List Child) (previous : Option (List Child))
        (p : Option Group) (group next : List Child) (g : Group) (w' : PageWriter)
        (o : Option (List Child))
        → plan_loop size none no_children 12 [] (lengths children) ≡ ok (p, g, lengths next)
        → Deferred size bound roomy previous p
        → Views group g
        → All (IsShort size bound roomy) group
        → Emitted size bound roomy others kind w [] v next
        → (waiting previous ≡ 0 → length next ≡ 0)
        → 3 * length next + waiting previous + length group ≤ length children
        → 0 < length children
        → length children + 2 < 2 ^ 32
        → level_end others v root kind previous group next ≡ ok (w', o)
        → LevelDone w children w' o
    unfolding plan_level
    level_done w v root children none none group next g w' o planned d vg sg done idle weighs
          some_child room e =
        let (is_none, grows) = end_none v root group next w' o done.grows.alone e in
        let nothing : done.pages + 0 ≡ 0 = omega (arith, done.more, idle refl) in
        rw is_none (record {
          plans = rw planned (unfold plan_end in refl);
          grows = subst (λ n. Grows w w' n) nothing (Grows-trans done.grows grows);
          short = tt;
          shorter = some_child;
          third = omega arith;
        })
    level_done w v root children none (some pg) group next g w' o planned d vg sg done idle weighs
          some_child room e =
        absurd d
    level_done w v root children (some cs) none group next g w' o planned d vg sg done idle weighs
          some_child room e =
        absurd d
    level_done w v root children (some cs) (some pg) group next g w' o planned (vp, sp, long) vg sg
          done idle weighs some_child room e =
        let t =
          end_some v root cs group next pg g w' o done.grows.alone (vp, sp, long) vg sg done.short
            (omega arith) e in
        let pages : done.pages + 2 ≡ length t.both = omega (arith, done.more, t.more) in
        rw t.is_some (record {
          plans = rw planned t.plans;
          grows = subst (λ n. Grows w w' n) pages (Grows-trans done.grows t.grows);
          short = (t.short, omega (arith, t.more));
          shorter = omega (arith, t.more);
          third = omega (arith, t.more);
        })

    no-Few : Few size bound roomy [] 12
    no-Few = record { one = λ _. omega arith; two = λ _. omega arith }

    pub level_lem :
        (w : PageWriter) (root : ℕ) (children : List Child) (w' : PageWriter)
        (o : Option (List Child))
        → w.allocator ≡ none
        → w.page_size ≡ size
        → All (IsShort size bound roomy) children
        → 0 < length children
        → length children + 2 < 2 ^ 32
        → level others w root kind children ≡ ok (w', o)
        → LevelDone w children w' o
    unfolding level
    level_lem w root children w' o alone ps short some_child room e =
        let ((v, previous, group, next), looped, ended) =
          >>=-eq_ok (level_loop others w kind none [] 12 [] children) _ e in
        let l =
          level_loop_lem size bound roomy others kind children w none none [] no_children 12 [] v
            previous group next alone ps tt (no-Views size bound roomy others kind) no-Few tt tt
            short (omega arith) looped in
        level_done w v root children previous l.previous_plan group next l.group_plan w' o l.plans
          l.deferred l.views l.short_group l.emitted l.idle (omega (arith, l.weighs)) some_child
          room ended

    -- With this fuel the plan counts the pages that the writer appends.
    abbrev pub Counts : ℕ → Type 0
    Counts fuel =
        (w : PageWriter) (root pages : ℕ) (children : List Child) (w' : PageWriter)
        → w.allocator ≡ none
        → w.page_size ≡ size
        → All (IsShort size bound roomy) children
        → 0 < length children
        → pages + 2 * length children + 2 < 2 ^ 32
        → levels others fuel w root kind children ≡ ok w'
        → (more : ℕ) × (finish_loop fuel size pages (lengths children) ≡ ok (pages + more))
          × Grows w w' more

    Counts-suc : (fuel : ℕ) → Counts fuel → Counts (suc fuel)
    unfolding levels finish_loop add_count
    Counts-suc fuel ih w root pages children w' alone ps short some_child room e =
        let ((u, o), built, rest) = >>=-eq_ok (level others w root kind children) _ e in
        let d = level_lem w root children u o alone ps short some_child (omega arith) built in
        rw d.plans (go u o d.grows d.short d.shorter d.third rest)
      where
        go :
            (u : PageWriter) (o : Option (List Child))
            → Grows w u (waiting o)
            → Short? o
            → waiting o < length children
            → 3 * waiting o ≤ length children + 3
            → ◌≡◌ {A = W PageWriter}
                (elim o [ none ↦ ok u | some next ↦ levels others fuel u root kind next ])
                (ok w')
            → (more : ℕ) × (◌≡◌ {A = P ℕ}
                (elim (lengths? o) [
                  | none ↦ ok pages
                  | some next ↦ add_count pages (length next) >>= λ n. finish_loop fuel size n next
                ])
                (ok (pages + more)))
              × Grows w w' more
        go u none grows short_o shorter third rest =
            (0, ap ok (omega arith), subst (λ x. Grows w x 0) (ok_inj rest) grows)
        go u (some next) grows (short_next, many) shorter third rest =
            let (more, counted, later) =
              ih u root (pages + length next) next w' grows.alone (grows.same_size ∙ ps) short_next
                (omega arith) (omega arith) rest in
            (
              length next + more,
              rw (length-lengths next, lt→ltb (pages + length next) (2 ^ 32) (omega arith))
                  (counted ∙ ap ok (omega arith)),
              Grows-trans grows later,
            )

    Counts-zero : Counts zero
    unfolding levels
    Counts-zero w root pages children w' alone ps short some_child room e = cc

    pub levels_lem : (fuel : ℕ) → Counts fuel
    levels_lem zero = Counts-zero
    levels_lem (suc fuel) = Counts-suc fuel (levels_lem fuel)
