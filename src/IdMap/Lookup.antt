-- ===== src/IdMap/Lookup.antt =====
-- A value that was set on a sealed page is found in its slot.
use velr.Base.{
  ℕ, zero, suc, ◌%◌, ◌^◌, ◌<◌, Bool, true, false, List, [], ◌∷◌, Option, some, length, get_elem?,
  ◌+◌, ◌*◌, ◌/◌, bit_or, none, if◌then◌else◌, ◌≢◌, sym, ◌∙◌, ap₂, ltb, ltb→lt, Bool-cases, inl, inr,
  ◌≡◌, refl, ap, arith,
}
use velr.Base.Bits.{bit_or-shifted, bit_or_comm}
use velr.IdMap.Ranks.{is_declared, declared_before, declared_before_mono}
use velr.IdMap.Sealed.{IsSealed, rank-IsSealed}
use velr.Base.Result.{ok, err, ◌>>=◌, >>=-eq_ok, ok_inj, ok_or, ok_or-eq_ok}
use velr.IdMap.{ImportNode}
use velr.IdMap.Page.{
  PageValues, building, compact_values, packed_values, wide_values, Page, M, set_elem, rank,
  set_value, set, get_value, lookup, lookup_at, panicked, undeclared_slot,
}

get_elem?-set_elem {ℓ} :
    {A : Type ℓ} (xs : List A) (i : ℕ) (a : A)
    → i < length xs
    → get_elem? (set_elem xs i a) i ≡ some a
get_elem?-set_elem [] i a h = absurd (omega arith)
get_elem?-set_elem (x ∷ xs) zero a h = refl
get_elem?-set_elem (x ∷ xs) (suc i) a h = get_elem?-set_elem xs i a (omega arith)

get_elem?-set_elem_other {ℓ} :
    {A : Type ℓ} (xs : List A) (i j : ℕ) (a : A)
    → i ≢ j
    → get_elem? (set_elem xs i a) j ≡ get_elem? xs j
get_elem?-set_elem_other [] i j a h = refl
get_elem?-set_elem_other (x ∷ xs) zero zero a h = absurd (h refl)
get_elem?-set_elem_other (x ∷ xs) zero (suc j) a h = refl
get_elem?-set_elem_other (x ∷ xs) (suc i) zero a h = refl
get_elem?-set_elem_other (x ∷ xs) (suc i) (suc j) a h =
    get_elem?-set_elem_other xs i j a (λ e. h (ap suc e))

-- What a page's form of values can hold: a node id of 32 bits and the page's one label, an id and a
-- label of 32 bits, or any node.
abbrev pub Holds : PageValues → Option ℕ → ImportNode → Type 0
Holds (compact_values values) label node = (node.id < 2 ^ 32) × (label ≡ some node.label_group)
Holds (wide_values values) label node = Unit {0}
Holds (packed_values values) label node = (node.id < 2 ^ 32) × (node.label_group < 2 ^ 32)
Holds building label node = ◌≡◌ {A = Bool} true false

-- An id and a label in one word are read back.
packed_word :
    (id group : ℕ)
    → id < 2 ^ 32
    → group < 2 ^ 32
    → bit_or id (group * 2 ^ 32 % 2 ^ 64) ≡ group * 2 ^ 32 + id
packed_word id group h k =
    let fits : group * 2 ^ 32 % 2 ^ 64 ≡ group * 2 ^ 32 = omega arith in
    ap (bit_or id) fits ∙ bit_or_comm id (group * 2 ^ 32) ∙ bit_or-shifted 32 group id h

abbrev compact_node : ℕ → ℕ → ImportNode
compact_node id group = record { id = id; label_group = group }

get_value-set_value :
    (values : PageValues) (label : Option ℕ) (at : ℕ) (node : ImportNode) (values' : PageValues)
    → Holds values label node
    → set_value values at node ≡ ok values'
    → get_value values' label at ≡ ok node
unfolding set_value get_value
get_value-set_value building label at node values' h e = cc
get_value-set_value (packed_values values) label at node values' (small, labelled) e =
    elim (Bool-cases (ltb at (length values))) [
      | inl inside ↦
          let v : ℕ = bit_or node.id (node.label_group * 2 ^ 32 % 2 ^ 64) in
          let made : ◌≡◌ {A = M PageValues} (ok (packed_values (set_elem values at v)))
              (ok values') =
            rw inside at e in
          let word : v ≡ node.label_group * 2 ^ 32 + node.id =
            packed_word node.id node.label_group small labelled in
          let id_back : v % 2 ^ 32 ≡ node.id = omega (arith, word) in
          let group_back : v / 2 ^ 32 ≡ node.label_group = omega (arith, word) in
          rw (← ok_inj made) (
            rw (get_elem?-set_elem values at v (ltb→lt at (length values) inside))
              (ap₂ (λ (i g : ℕ). ok (compact_node i g)) id_back group_back))
      | inr outside ↦
          let refused : ◌≡◌ {A = M PageValues} (err panicked) (ok values') = rw outside at e in
          absurd (cc)
    ]
get_value-set_value (compact_values values) label at node values' (small, labelled) e =
    elim (Bool-cases (ltb at (length values))) [
      | inl inside ↦
          let made : ◌≡◌ {A = M PageValues}
              (ok (compact_values (set_elem values at (node.id % 2 ^ 32)))) (ok values') =
            rw inside at e in
          let low : node.id % 2 ^ 32 ≡ node.id = omega arith in
          rw (← ok_inj made) (
            rw
              (
                get_elem?-set_elem values at (node.id % 2 ^ 32) (ltb→lt at (length values) inside),
                labelled,
              )
              (ap (λ (i : ℕ). ok (compact_node i node.label_group)) low))
      | inr outside ↦
          let refused : ◌≡◌ {A = M PageValues} (err panicked) (ok values') = rw outside at e in
          absurd (cc)
    ]
get_value-set_value (wide_values values) label at node values' h e =
    elim (Bool-cases (ltb at (length values))) [
      | inl inside ↦
          let made : ◌≡◌ {A = M PageValues} (ok (wide_values (set_elem values at node)))
              (ok values') =
            rw inside at e in
          rw (← ok_inj made)
            (rw (get_elem?-set_elem values at node (ltb→lt at (length values) inside)) refl)
      | inr outside ↦
          let refused : ◌≡◌ {A = M PageValues} (err panicked) (ok values') = rw outside at e in
          absurd (cc)
    ]

-- The other values stay.
get_value-set_value_other :
    (values : PageValues) (label : Option ℕ) (at other : ℕ) (node : ImportNode)
    (values' : PageValues)
    → at ≢ other
    → set_value values at node ≡ ok values'
    → get_value values' label other ≡ get_value values label other
unfolding set_value get_value
get_value-set_value_other building label at other node values' h e = cc
get_value-set_value_other (packed_values values) label at other node values' h e =
    elim (Bool-cases (ltb at (length values))) [
      | inl inside ↦
          let v : ℕ = bit_or node.id (node.label_group * 2 ^ 32 % 2 ^ 64) in
          let made : ◌≡◌ {A = M PageValues} (ok (packed_values (set_elem values at v)))
              (ok values') =
            rw inside at e in
          rw (← ok_inj made) (rw (get_elem?-set_elem_other values at other v h) refl)
      | inr outside ↦
          let refused : ◌≡◌ {A = M PageValues} (err panicked) (ok values') = rw outside at e in
          absurd (cc)
    ]
get_value-set_value_other (compact_values values) label at other node values' h e =
    elim (Bool-cases (ltb at (length values))) [
      | inl inside ↦
          let made : ◌≡◌ {A = M PageValues}
              (ok (compact_values (set_elem values at (node.id % 2 ^ 32)))) (ok values') =
            rw inside at e in
          rw (← ok_inj made)
            (rw (get_elem?-set_elem_other values at other (node.id % 2 ^ 32) h) refl)
      | inr outside ↦
          let refused : ◌≡◌ {A = M PageValues} (err panicked) (ok values') = rw outside at e in
          absurd (cc)
    ]
get_value-set_value_other (wide_values values) label at other node values' h e =
    elim (Bool-cases (ltb at (length values))) [
      | inl inside ↦
          let made : ◌≡◌ {A = M PageValues} (ok (wide_values (set_elem values at node)))
              (ok values') =
            rw inside at e in
          rw (← ok_inj made) (rw (get_elem?-set_elem_other values at other node h) refl)
      | inr outside ↦
          let refused : ◌≡◌ {A = M PageValues} (err panicked) (ok values') = rw outside at e in
          absurd (cc)
    ]

-- Two declared slots have two ranks.
ranks_differ :
    (bitmap : List ℕ) (slot other : ℕ)
    → length bitmap ≡ 64
    → slot < 4096
    → other < 4096
    → other ≢ slot
    → is_declared bitmap slot ≡ true
    → is_declared bitmap other ≡ true
    → declared_before bitmap slot ≢ declared_before bitmap other
ranks_differ bitmap slot other len h k ne s o e = elim (Bool-cases (ltb slot other)) [
  | inl below ↦
      absurd (omega (arith, declared_before_mono bitmap slot other s (ground arith) (omega arith)))
  | inr above ↦
      absurd (omega (arith, declared_before_mono bitmap other slot o (ground arith) (omega arith)))
]

-- What `rank` has found.
rank_found :
    (bitmap : List ℕ) (slot at : ℕ)
    → (if is_declared bitmap slot then some (declared_before bitmap slot) else none) ≡ some at
    → (is_declared bitmap slot ≡ true) × (declared_before bitmap slot ≡ at)
rank_found bitmap slot at e = found (is_declared bitmap slot) (declared_before bitmap slot) e
  where
    found : (b : Bool) (n : ℕ) → (if b then some n else none) ≡ some at → (b ≡ true) × (n ≡ at)
    found true n e = (refl, cc)
    found false n e = absurd (cc)

lookup_at-other :
    (bitmap : List ℕ) (p : Page) (slot other at : ℕ) (node : ImportNode) (values : PageValues)
    → length bitmap ≡ 64
    → slot < 4096
    → other < 4096
    → other ≢ slot
    → is_declared bitmap slot ≡ true
    → declared_before bitmap slot ≡ at
    → set_value p.values at node ≡ ok values
    → (b : Bool) → is_declared bitmap other ≡ b
    → lookup_at
        (record p { values = values })
        (if b then some (declared_before bitmap other) else none)
      ≡ lookup_at p (if b then some (declared_before bitmap other) else none)
lookup_at-other bitmap p slot other at node values len h k ne s is_at stored false o = refl
lookup_at-other bitmap p slot other at node values len h k ne s is_at stored true o =
    ap (λ (m : M ImportNode). m >>= λ n. ok (some n))
      (get_value-set_value_other p.values p.single_label at (declared_before bitmap other) node
        values (λ e. ranks_differ bitmap slot other len h k ne s o (is_at ∙ e)) stored)

-- When a node is set in a slot of a sealed page of 64 bitmap words, dense or sparse, that holds nodes of
-- its kind, the page then gives this node for the slot, and for every other slot below 4096 what it
-- gave before.
pub lookup-set :
    (bitmap : List ℕ) (p : Page) (slot : ℕ) (node : ImportNode) (p' : Page)
    → IsSealed p bitmap
    → length bitmap ≡ 64
    → slot < 4096
    → Holds p.values p.single_label node
    → set p slot node ≡ ok p'
    → (lookup p' slot ≡ ok (some node))
      × ((other : ℕ) → other < 4096 → other ≢ slot → lookup p' other ≡ lookup p other)
unfolding set lookup rank
lookup-set bitmap p slot node p' sealed len small h e =
    let (found, ranked, e1) = >>=-eq_ok (rank p slot) _ e in
    let (at, is_at, e2) = >>=-eq_ok (ok_or found undeclared_slot) _ e1 in
    let (values, stored, e3) = >>=-eq_ok (set_value p.values at node) _ e2 in
    let some_at = ok_or-eq_ok found undeclared_slot is_at in
    let value = get_value-set_value p.values p.single_label at node values h stored in
    let spec = rank-IsSealed p bitmap slot sealed len small in
    let (declared, before) = rank_found bitmap slot at (ok_inj (sym spec ∙ ranked) ∙ some_at) in
    (
      rw (← ok_inj e3) (rw (ranked, some_at, value) refl),
      λ other low ne.
          let spec' = rank-IsSealed p bitmap other sealed len low in
          rw (← ok_inj e3) (
            rw spec' (
              lookup_at-other bitmap p slot other at node values len small low ne declared before
                stored (is_declared bitmap other) refl)),
    )
