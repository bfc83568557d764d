-- ===== src/IdMap/Affine.antt =====
-- Affine ranges answer for the ids they were extended by, and coordinates tell ids apart.
use velr.Base.{
  ℕ, ◌+◌, ◌-◌, ◌*◌, ◌%◌, ◌^◌, ◌≤◌, ◌<◌, Bool, true, false, ◌||◌, none, some, ltb, if◌then◌else◌,
  ◌≡◌, ◌≢◌, sym, ap, ap₂, arith,
}
use velr.Base.Word.{IsU64}
use velr.IdMap.{ImportNode, AffineRange, sortable, affine_lookup, is_next, extends, coordinates}

-- Both ends of a range stand for i64s, in order, and its nodes go as far as its ids.
pub record IsRange (a : AffineRange) : Type 0 where
  pub first_word : IsU64 a.first
  pub last_word : IsU64 a.last
  pub node_word : IsU64 a.first_node
  pub ordered : sortable a.first ≤ sortable a.last
  pub node_last : a.last_node ≡ (a.first_node + (sortable a.last - sortable a.first)) % 2 ^ 64

-- A range extended by the next id and its node.
abbrev pub extended : AffineRange → ℕ → ImportNode → AffineRange
extended a id node = record a { last = id; last_node = node.id }

next_id :
    (last id : ℕ)
    → IsU64 last
    → is_next last id ≡ true
    → (sortable id ≡ sortable last + 1) × (id ≡ (last + 1) % 2 ^ 64)
next_id last id h e = ground arith

abbrev node_of : ℕ → ℕ → ImportNode
node_of id group = record { id = id; label_group = group }

same_test :
    (o i first last : ℕ)
    → i ≡ last + 1
    → o ≢ i
    → (ltb o first || ltb i o) ≡ (ltb o first || ltb last o)
same_test o i first last up ne = ground arith

-- When a range is extended by an id and its node that follow its last ones, the extended range is
-- again a range, gives the node for the id, and gives for every other id what it gave before.
pub affine_lookup-extended :
    (a : AffineRange) (id : ℕ) (node : ImportNode)
    → IsRange a
    → extends a id node ≡ true
    → IsRange (extended a id node)
      × (affine_lookup (extended a id node) id ≡ some node)
      × ((other : ℕ)
          → sortable other ≢ sortable id
          → affine_lookup (extended a id node) other ≡ affine_lookup a other)
unfolding extends affine_lookup
affine_lookup-extended a id node r e =
    let follows : is_next a.last id ≡ true = ground arith in
    let node_follows : is_next a.last_node node.id ≡ true = ground arith in
    let same_group : a.label_group ≡ node.label_group = ground arith in
    let (up, word) = next_id a.last id r.last_word follows in
    let node_up : node.id ≡ (a.last_node + 1) % 2 ^ 64 = ground arith in
    let node_is : (a.first_node + (sortable id - sortable a.first)) % 2 ^ 64 ≡ node.id =
      omega (arith, r.ordered, r.node_last) in
    let inside : (ltb (sortable id) (sortable a.first) || ltb (sortable id) (sortable id)) ≡ false =
      ground (arith, r.ordered) in
    (
      record {
        first_word = r.first_word;
        last_word = omega arith;
        node_word = r.node_word;
        ordered = omega (arith, r.ordered);
        node_last = sym node_is;
      },
      rw inside (ap some (ap₂ node_of node_is same_group)),
      λ other ne.
          ap
            (λ (b : Bool).
              if b
              then none
              else some (
                  node_of ((a.first_node + (sortable other - sortable a.first)) % 2 ^ 64)
                    a.label_group))
            (same_test (sortable other) (sortable id) (sortable a.first) (sortable a.last) up ne),
    )

-- The three coordinates of an id are in their bounds, and give the id back.
pub coordinates_lem :
    (id : ℕ)
    → IsU64 id
    → ((coordinates id).0 < 2 ^ 32)
      × ((coordinates id).1 < 2 ^ 20)
      × ((coordinates id).2 < 2 ^ 12)
      × (sortable ((coordinates id).0 * 2 ^ 32 + (coordinates id).1 * 2 ^ 12 + (coordinates id).2)
          ≡ id)
unfolding coordinates
coordinates_lem id h = (omega arith, omega arith, omega arith, omega arith)
