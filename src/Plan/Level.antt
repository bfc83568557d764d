-- ===== src/Plan/Level.antt =====
-- One level of the writer's tree and of the plan: the same groups, the same boundaries.
use velr.Base.{
  ℕ, suc, ◌+◌, ◌*◌, ◌^◌, ◌≤◌, ◌<◌, List, [], ◌∷◌, ◌++◌, Option, none, some, length, length-append,
  ◌≡◌, refl, sym, ◌∙◌, ap, arith, All, subst, subst₂, ne→==, lt→ltb, All-append,
}
use velr.Base.Result.{ok, >>=-eq_ok}
use velr.Pager.Page.{Kind, last?, init}
use velr.Pager.Writer.{PageWriter}
use velr.Pager.Tree.{Child, parent, emit, additional, behind}
use velr.Pager.Tree.Local.{Grows, Grows-refl}
use velr.Pager.Tree.Shape.{last?-concat, init-concat, last?-cons, All-last?, parent_lem}
use velr.Plan.{Group, push_boundary, push_group, emit_plan, additional_plan}

-- What the plan keeps of children: the lengths of their boundaries.
abbrev pub lengths : List Child → List ℕ
lengths [] = []
lengths (c ∷ cs) = length c.boundary ∷ lengths cs

abbrev pub boundary_length : Option Child → ℕ
boundary_length none = 0
boundary_length (some c) = length c.boundary

abbrev pub last_length : List Child → ℕ
last_length cs = boundary_length (last? cs)

abbrev pub waiting : Option (List Child) → ℕ
waiting none = 0
waiting (some cs) = length cs

-- The plan's view of a group.
pub record Views (cs : List Child) (g : Group) : Type 0 where
  pub count : g.children ≡ length cs
  pub last_is : g.last ≡ last_length cs
  pub before_last : g.penultimate ≡ last_length (init cs)

pub Views-push :
    (cs : List Child) (g : Group) (c : Child)
    → Views cs g
    → Views (cs ++ (c ∷ [])) (push_group g (length c.boundary))
unfolding push_group
Views-push cs g c v = record {
  count = omega (arith, v.count, length-append cs (c ∷ []));
  last_is = ap boundary_length (sym (last?-concat cs c));
  before_last = v.last_is ∙ ap last_length (sym (init-concat cs c));
}

pub additional_lem : (cs : List Child) (g : Group) → Views cs g → additional cs ≡ additional_plan g
additional_lem [] g v = rw v.count refl
additional_lem (c ∷ cs) g v =
    let (l, e) = last?-cons c cs in
    ap behind e
    ∙ rw (v.count, ne→== (suc (length cs)) 0 (omega arith))
        (ap (λ (n : ℕ). 6 + n) (sym (v.last_is ∙ ap boundary_length e)))

pub lengths-append : (xs ys : List Child) → lengths (xs ++ ys) ≡ lengths xs ++ lengths ys
lengths-append [] ys = refl
lengths-append (x ∷ xs) ys = ap (◌∷◌ (length x.boundary)) (lengths-append xs ys)

pub length-lengths : (cs : List Child) → length (lengths cs) ≡ length cs
length-lengths [] = refl
length-lengths (c ∷ cs) = ap suc (length-lengths cs)

-- The boundaries are short: at least three children fit into a page.
module _ (size bound : ℕ) (roomy : 12 + 2 * (6 + bound) ≤ size) where
  abbrev pub IsShort : Child → Type 0
  IsShort c = length c.boundary ≤ bound

  -- What a group of few children has used.
  pub record Few (cs : List Child) (used : ℕ) : Type 0 where
    pub one : length cs ≤ 1 → used ≤ 12
    pub two : length cs ≤ 2 → used ≤ 12 + (6 + bound)

  pub additional-le : (cs : List Child) → All IsShort cs → additional cs ≤ 6 + bound
  additional-le [] h = omega arith
  additional-le (c ∷ cs) h =
      let (l, e) = last?-cons c cs in omega (arith, ap behind e, All-last? IsShort (c ∷ cs) h e)

  pub Few-push :
      (cs : List Child) (used : ℕ) (c : Child)
      → All IsShort cs
      → Few cs used
      → Few (cs ++ (c ∷ [])) (used + additional cs)
  Few-push [] used c h f = record {
    one = λ _. omega (arith, f.one (omega arith));
    two = λ _. omega (arith, f.one (omega arith));
  }
  Few-push (d ∷ cs) used c h f = record {
    one = λ p. absurd (omega (arith, length-append (d ∷ cs) (c ∷ [])));
    two = λ p.
        omega
          (arith, f.one (omega (arith, length-append (d ∷ cs) (c ∷ []))), additional-le (d ∷ cs) h);
  }

  -- A group that the next child does not fit into has three children at least.
  pub full_group :
      (cs : List Child) (used : ℕ)
      → All IsShort cs
      → Few cs used
      → size < used + additional cs
      → 3 ≤ length cs
  full_group [] used h f over = absurd (omega (arith, f.one (omega arith)))
  full_group (c ∷ []) used h f over =
      absurd (omega (arith, f.one (omega arith), additional-le (c ∷ []) h))
  full_group (c ∷ d ∷ []) used h f over =
      absurd (omega (arith, f.two (omega arith), additional-le (c ∷ d ∷ []) h))
  full_group (c ∷ d ∷ e ∷ cs) used h f over = omega arith

  -- The deferred group, which is a full one, and the plan's view of it.
  abbrev pub Deferred : Option (List Child) → Option Group → Type 0
  Deferred none none = Unit {0}
  Deferred none (some g) = ⊥
  Deferred (some cs) none = ⊥
  Deferred (some cs) (some g) = Views cs g × All IsShort cs × (3 ≤ length cs)

  push_boundary_lem :
      (next : List Child) (c : Child)
      → length next + 1 < 2 ^ 32
      → push_boundary (lengths next) (length c.boundary) ≡ ok (lengths (next ++ (c ∷ [])))
  unfolding push_boundary
  push_boundary_lem next c h =
      rw (lt→ltb (length (lengths next) + 1) (2 ^ 32) (omega (arith, length-lengths next)))
        (ap ok (sym (lengths-append next (c ∷ []))))

  module _ (others : PageWriter → List ℕ) (kind : Kind) where
    -- What a piece of the writer's work has done to the list of the next level.
    pub record Emitted (w : PageWriter) (next : List Child) (w' : PageWriter) (next' : List Child)
        : Type 0 where
      pub pages : ℕ
      pub grows : Grows w w' pages
      pub more : length next' ≡ length next + pages
      pub short : All IsShort next'

    -- A page of a group that is not the root's.
    pub parent_emits :
        (w : PageWriter) (cs : List Child) (last : ℕ) (next : List Child) (c : Child)
        (w' : PageWriter)
        → w.allocator ≡ none
        → last ≡ last_length cs
        → All IsShort cs
        → All IsShort next
        → length next + 1 < 2 ^ 32
        → parent others w none kind cs ≡ ok (c, w')
        → (push_boundary (lengths next) last ≡ ok (lengths (next ++ (c ∷ []))))
          × Emitted w next w' (next ++ (c ∷ []))
    parent_emits w cs last next c w' alone v short short_next room e =
        let (child, l, b, grows) = parent_lem others w none kind cs c w' alone e in
        let same : length c.boundary ≡ last = ap length b ∙ sym (v ∙ ap boundary_length l) in
        (
          ap (push_boundary (lengths next)) (sym same) ∙ push_boundary_lem next c room,
          record {
            pages = 1;
            grows = grows;
            more = omega (arith, length-append next (c ∷ []));
            short =
                All-append IsShort next (c ∷ []) short_next
                  (omega (arith, ap length b, All-last? IsShort cs short l), tt);
          },
        )

    pub emit_lem :
        (w : PageWriter) (previous : Option (List Child)) (p : Option Group) (next : List Child)
        (w' : PageWriter) (next' : List Child)
        → w.allocator ≡ none
        → Deferred previous p
        → All IsShort next
        → length next + 1 < 2 ^ 32
        → emit others w kind previous next ≡ ok (w', next')
        → (emit_plan p (lengths next) ≡ ok (lengths next'))
          × Emitted w next w' next'
          × (length next' ≤ length next + 1)
          × (3 * length next' ≤ 3 * length next + waiting previous)
    unfolding emit emit_plan
    emit_lem w none none next w' next' alone d short room e =
        let same_writer : w ≡ w' = cc in
        let same_next : next ≡ next' = cc in
        (
          ap (λ (x : List Child). ok (lengths x)) same_next,
          record {
            pages = 0;
            grows = subst (λ x. Grows w x 0) same_writer (Grows-refl w alone);
            more = omega (arith, ap length same_next);
            short = subst (λ (x : List Child). All IsShort x) same_next short;
          },
          omega (arith, ap length same_next),
          omega (arith, ap length same_next),
        )
    emit_lem w none (some g) next w' next' alone d short room e = absurd d
    emit_lem w (some cs) none next w' next' alone d short room e = absurd d
    emit_lem w (some cs) (some g) next w' next' alone (v, short_cs, long) short room e =
        let ((c, u), made, e') = >>=-eq_ok (parent others w none kind cs) _ e in
        let same_writer : u ≡ w' = cc in
        let same_next : next ++ (c ∷ []) ≡ next' = cc in
        let (planned, d) =
          parent_emits w cs g.last next c u alone v.last_is short_cs short room made in
        (
          planned ∙ ap (λ (x : List Child). ok (lengths x)) same_next,
          subst₂ (λ (x : PageWriter) (y : List Child). Emitted w next x y) same_writer same_next d,
          omega (arith, ap length same_next, length-append next (c ∷ [])),
          omega (arith, ap length same_next, length-append next (c ∷ [])),
        )
