-- ===== src/IdMap.antt =====
-- rust/velr-cli/src/offline_import/native/id_map.rs: from the integer ids of an import to nodes.
-- An i64 is its bit pattern, and `usize` has 64 bits. The spool file, its replay into the map and the
-- SQLite table for what does not fit are not modelled.
pub mod Page
pub mod Affine
pub mod Ones
pub mod Ranks
pub mod Sparse
pub mod Sealed
pub mod Lookup
mod Tests
use velr.Base.{
  ℕ, zero, suc, ◌+◌, ◌-◌, ◌*◌, ◌/◌, ◌%◌, ◌^◌, Bool, true, false, not, ◌&&◌, ◌||◌, List, [], ◌∷◌,
  Option, none, some, ltb, leb, ◌==◌, if◌then◌else◌,
}

pub record ImportNode : Type 0 where
  pub id : ℕ
  pub label_group : ℕ

pub record Budget : Type 0 where
  pub used : ℕ
  pub limit : ℕ

-- `none` is the error, which leaves the budget as it is.
unfoldable pub charge : Budget → ℕ → Option Budget
charge b bytes =
    if ltb (b.used + bytes) (2 ^ 64) && leb (b.used + bytes) b.limit
    then some (record b { used = b.used + bytes })
    else none

-- `(id as u64) ^ (1 << 63)`: the order of these numbers is the order of the i64s.
abbrev pub sortable : ℕ → ℕ
sortable id = (id + 2 ^ 63) % 2 ^ 64

pub record AffineRange : Type 0 where
  pub first : ℕ
  pub last : ℕ
  pub first_node : ℕ
  pub last_node : ℕ
  pub label_group : ℕ

-- The sum in i128, as i64, is the sum of the patterns.
unfoldable pub affine_lookup : AffineRange → ℕ → Option ImportNode
affine_lookup a id =
    let offset = sortable id - sortable a.first in
    if ltb (sortable id) (sortable a.first) || ltb (sortable a.last) (sortable id)
    then none
    else some (record { id = (a.first_node + offset) % 2 ^ 64; label_group = a.label_group })

-- `value.checked_add(1) == Some(next)`
abbrev pub is_next : ℕ → ℕ → Bool
is_next value next = not (value == 2 ^ 63 - 1) && (value + 1) % 2 ^ 64 == next

unfoldable pub extends : AffineRange → ℕ → ImportNode → Bool
extends a id node =
    is_next a.last id && is_next a.last_node node.id && a.label_group == node.label_group

-- The pairs that `for_each` visits while the visitor succeeds, from one id and its node on. The
-- increments are those of i64 that do not overflow; one step for each id is enough fuel.
unfoldable pub visits : ℕ → AffineRange → ℕ → ℕ → Option (List (ℕ × ImportNode))
visits zero a id node = none
visits (suc fuel) a id node =
    let rest = visits fuel a ((id + 1) % 2 ^ 64) ((node + 1) % 2 ^ 64) in
    let here : ℕ × ImportNode = (id, record { id = node; label_group = a.label_group }) in
    if id == a.last then some (here ∷ []) else velr.Base.◌>>=◌ rest (λ vs. some (here ∷ vs))

-- RadixMap::coordinates: the region, the page in it and the slot on the page.
unfoldable pub coordinates : ℕ → ℕ × ℕ × ℕ
coordinates id =
    (sortable id / 2 ^ 32 % 2 ^ 32, sortable id % 2 ^ 32 / 2 ^ 12, sortable id % 2 ^ 12)
