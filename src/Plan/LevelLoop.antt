-- ===== src/Plan/LevelLoop.antt =====
-- The loop over the children of a level, in the writer and in the plan.
use velr.Base.{
  ℕ, ◌+◌, ◌*◌, ◌^◌, ◌≤◌, ◌<◌, true, false, List, [], ◌∷◌, ◌++◌, Option, none, some, length,
  length-append, ◌≡◌, refl, ◌∙◌, ap, arith, All, subst, subst₂, ltb, Bool-cases, ◌⊎◌, inl, inr,
  ltb→lt, All-append,
}
use velr.Base.Result.{ok, >>=-eq_ok, ok_inj}
use velr.Pager.Page.{Kind}
use velr.Pager.Writer.{PageWriter}
use velr.Pager.Tree.{Child, emit, additional, level_loop}
use velr.Pager.Tree.Local.{Grows-trans, Grows-refl}
use velr.Plan.{P, Group, no_children, push_group, additional_plan, plan_loop}
use velr.Plan.Level.{
  lengths, Views, Views-push, additional_lem, IsShort, Few, Few-push, full_group, Deferred, waiting,
  Emitted, emit_lem,
}

module _ (size bound : ℕ) (roomy : 12 + 2 * (6 + bound) ≤ size) (others : PageWriter → List ℕ)
    (kind : Kind) where
  -- The end of the writer's loop, and of the plan's.
  pub record Looped (w : PageWriter) (next : List Child) (w' : PageWriter)
      (previous' : Option (List Child)) (group' next' : List Child) (before weight : ℕ)
      (planned : P (Option Group × Group × List ℕ)) : Type 0 where
    pub previous_plan : Option Group
    pub group_plan : Group
    pub plans : planned ≡ ok (previous_plan, group_plan, lengths next')
    pub deferred : Deferred size bound roomy previous' previous_plan
    pub views : Views group' group_plan
    pub short_group : All (IsShort size bound roomy) group'
    pub emitted : Emitted size bound roomy others kind w next w' next'
    -- Once a group is deferred there is always one, and until then nothing is emitted.
    pub stays : 3 ≤ before → 3 ≤ waiting previous'
    pub idle : waiting previous' ≡ 0 → length next' ≡ length next
    -- Every page of the next level stands for three children at least.
    pub weighs : 3 * length next' + waiting previous' + length group' ≤ weight

  -- Work of one round, and the rest of the loop.
  Emitted-trans :
      {w : PageWriter} {next : List Child} {v : PageWriter} {between : List Child} {u : PageWriter}
      {next' : List Child}
      → Emitted size bound roomy others kind w next v between
      → Emitted size bound roomy others kind v between u next'
      → Emitted size bound roomy others kind w next u next'
  Emitted-trans d e = record {
    pages = d.pages + e.pages;
    grows = Grows-trans d.grows e.grows;
    more = omega (arith, d.more, e.more);
    short = e.short;
  }

  extend :
      {w : PageWriter} {next : List Child} {v : PageWriter} {between : List Child} {u : PageWriter}
      {previous' : Option (List Child)} {group' next' : List Child}
      {planned : P (Option Group × Group × List ℕ)} (before before' weight weight' : ℕ)
      → Emitted size bound roomy others kind w next v between
      → weight ≤ weight'
      → (3 ≤ before) ⊎ ((before ≡ before') × (between ≡ next))
      → Looped v between u previous' group' next' before weight planned
      → Looped w next u previous' group' next' before' weight' planned
  extend before before' weight weight' d more how l = record {
    weighs = omega (arith, l.weighs);
    stays = λ q. elim how [ inl wide ↦ l.stays wide | inr (same, _) ↦ l.stays (omega arith) ];
    idle = λ z. elim how [
      | inl wide ↦ absurd (omega (arith, l.stays wide))
      | inr (_, same) ↦ l.idle z ∙ ap length same
    ];
    previous_plan = l.previous_plan;
    group_plan = l.group_plan;
    plans = l.plans;
    deferred = l.deferred;
    views = l.views;
    short_group = l.short_group;
    emitted = Emitted-trans d l.emitted;
  }

  pub no-Views : Views [] no_children
  no-Views = record { count = refl; last_is = refl; before_last = refl }

  pub one_child : {c : Child} → Few size bound roomy (c ∷ []) 12
  one_child = record { one = λ _. omega arith; two = λ _. omega arith }

  pub level_loop_lem :
      (children : List Child) (w : PageWriter) (previous : Option (List Child)) (p : Option Group)
      (group : List Child) (g : Group) (used : ℕ) (next : List Child) (w' : PageWriter)
      (previous' : Option (List Child)) (group' next' : List Child)
      → w.allocator ≡ none
      → w.page_size ≡ size
      → Deferred size bound roomy previous p
      → Views group g
      → Few size bound roomy group used
      → All (IsShort size bound roomy) group
      → All (IsShort size bound roomy) next
      → All (IsShort size bound roomy) children
      → length next + length children + 1 < 2 ^ 32
      → level_loop others w kind previous group used next children
        ≡ ok (w', previous', group', next')
      → Looped w next w' previous' group' next'
          (waiting previous)
          (3 * length next + waiting previous + length group + length children)
          (plan_loop size p g used (lengths next) (lengths children))
  unfolding level_loop plan_loop
  level_loop_lem [] w previous p group g used next w' previous' group' next' alone ps d v f sg sn sc
        room e =
      let start : Looped w next w previous group next (waiting previous)
          (3 * length next + waiting previous + length group + 0) (ok (p, g, lengths next)) =
        record {
          previous_plan = p;
          group_plan = g;
          plans = refl;
          deferred = d;
          views = v;
          short_group = sg;
          emitted = record {
            pages = 0;
            grows = Grows-refl w alone;
            more = omega arith;
            short = sn;
          };
          weighs = omega arith;
          stays = λ q. q;
          idle = λ q. refl;
        } in
      subst
        (λ (x : PageWriter × Option (List Child) × List Child × List Child).
          Looped w next x.0 x.1 x.2 x.3 (waiting previous)
            (3 * length next + waiting previous + length group + 0) (ok (p, g, lengths next)))
        (ok_inj e) start
  level_loop_lem (c ∷ children) w previous p group g used next w' previous' group' next' alone ps d
        v f sg sn (short_c, sc) room e =
      elim (Bool-cases (ltb w.page_size (used + additional group))) [
        | inl over ↦
            let test : ltb size (used + additional_plan g) ≡ true =
              subst₂ (λ (x y : ℕ). ltb x (used + y) ≡ true) ps (additional_lem group g v) over in
            let wide =
              full_group size bound roomy group used sg f
                (omega (arith, ps, ltb→lt w.page_size (used + additional group) over)) in
            let ((u, between), emits, rest) =
              >>=-eq_ok (emit others w kind previous next) _ (rw over at e) in
            let (planned, done, fewer, heavy) =
              emit_lem size bound roomy others kind w previous p next u between alone d sn
                (omega arith) emits in
            let later =
              level_loop_lem children u (some group) (some g) (c ∷ [])
                (push_group no_children (length c.boundary)) 12 between w' previous' group' next'
                done.grows.alone (done.grows.same_size ∙ ps) (v, sg, wide)
                (Views-push [] no_children c no-Views) one_child (short_c, tt) done.short sc
                (omega arith) rest in
            rw (test, planned) (extend _ _ _ _ done (omega arith) (inl wide) later)
        | inr fits ↦
            let test : ltb size (used + additional_plan g) ≡ false =
              subst₂ (λ (x y : ℕ). ltb x (used + y) ≡ false) ps (additional_lem group g v) fits in
            let rest : level_loop others w kind previous (group ++ (c ∷ []))
                  (used + additional group) next children
                ≡ ok (w', previous', group', next') =
              rw fits at e in
            let later =
              level_loop_lem children w previous p (group ++ (c ∷ []))
                (push_group g (length c.boundary)) (used + additional group) next w' previous'
                group' next' alone ps d (Views-push group g c v)
                (Few-push size bound roomy group used c sg f)
                (All-append (IsShort size bound roomy) group (c ∷ []) sg (short_c, tt)) sn sc
                (omega arith) rest in
            rw test (
              extend _ _ _ _
                (record { pages = 0; grows = Grows-refl w alone; more = omega arith; short = sn })
                (omega (arith, length-append group (c ∷ []))) (inr (refl, refl))
                (subst
                  (λ (x : ℕ).
                    Looped w next w' previous' group' next' (waiting previous)
                      (3 * length next
                        + waiting previous
                        + length (group ++ (c ∷ []))
                        + length children)
                      (plan_loop size p (push_group g (length c.boundary)) (used + x) (lengths next)
                        (lengths children)))
                  (additional_lem group g v) later))
      ]
