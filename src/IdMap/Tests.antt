-- ===== src/IdMap/Tests.antt =====
-- A range of three ids around zero, and a page with three slots.
use velr.Base.{
  List, replicate, none, false, inr, if◌then◌else◌, ℕ, ◌+◌, ◌*◌, ◌-◌, ◌^◌, ◌<◌, true, [], ◌∷◌, some,
  ◌≡◌, ◌≢◌, refl, arith,
}
use velr.Base.Result.{ok}
use velr.IdMap.{ImportNode, AffineRange, sortable, affine_lookup, extends, coordinates}
use velr.IdMap.Affine.{IsRange, extended, affine_lookup-extended, coordinates_lem}
use velr.IdMap.Page.{
  Page, dense, sparse, building, packed_values, mask_from, occupied_words, ranks_from, seal,
  word_of_slot, rank, set_value, set, lookup,
}
use velr.IdMap.Ranks.{is_declared, declared_before}
use velr.IdMap.Sealed.{rank-seal}
use velr.IdMap.Lookup.{lookup-set}

abbrev range : AffineRange
range = record { first = 2 ^ 64 - 1; last = 0; first_node = 7; last_node = 8; label_group = 3 }

abbrev node : ImportNode
node = record { id = 9; label_group = 3 }

range-IsRange : IsRange range
range-IsRange = record {
  first_word = omega arith;
  last_word = omega arith;
  node_word = omega arith;
  ordered = omega arith;
  node_last = refl;
}

one_more : extends range 1 node ≡ true
unfolding extends
one_more = refl

affine_lookup-extended_example :
    IsRange (extended range 1 node)
    × (affine_lookup (extended range 1 node) 1 ≡ some node)
    × ((other : ℕ)
        → sortable other ≢ sortable 1
        → affine_lookup (extended range 1 node) other ≡ affine_lookup range other)
affine_lookup-extended_example = affine_lookup-extended range 1 node range-IsRange one_more

coordinates_lem_example :
    ((coordinates 5).0 < 2 ^ 32)
    × ((coordinates 5).1 < 2 ^ 20)
    × ((coordinates 5).2 < 2 ^ 12)
    × (sortable ((coordinates 5).0 * 2 ^ 32 + (coordinates 5).1 * 2 ^ 12 + (coordinates 5).2) ≡ 5)
coordinates_lem_example = coordinates_lem 5 (omega arith)

-- Slots 1 and 3 of the first word, and slot 64.
abbrev bitmap : List ℕ
bitmap = 10 ∷ 1 ∷ replicate 62 0

abbrev built : Page
built = record {
  membership = dense bitmap (replicate 64 0);
  count = 3;
  single_label = none;
  compact = true;
  packed = true;
  values = building;
}

rank-seal_example :
    rank (seal (λ n. n) built (record { used = 0; limit = 1000 }) true).0 64
    ≡ ok (if is_declared bitmap 64 then some (declared_before bitmap 64) else none)
rank-seal_example =
    rank-seal (λ n. n) built bitmap (replicate 64 0) (record { used = 0; limit = 1000 }) true 64
      refl refl (omega arith)

two_before :
    (is_declared bitmap 64 ≡ true)
    × (declared_before bitmap 64 ≡ 2)
    × (is_declared bitmap 2 ≡ false)
two_before = (refl, refl, refl)

-- Sealed sparsely, with ids and labels in one word.
abbrev page : ℕ → Page
page second = record built {
  membership = sparse (mask_from 0 bitmap) (occupied_words bitmap (ranks_from 0 bitmap));
  values = packed_values (0 ∷ second ∷ 0 ∷ []);
}

stored : set (page 0) 3 node ≡ ok (page (9 + 3 * 2 ^ 32))
unfolding set rank word_of_slot set_value
stored = refl

lookup-set_example :
    (lookup (page (9 + 3 * 2 ^ 32)) 3 ≡ ok (some node))
    × ((other : ℕ)
        → other < 4096
        → other ≢ 3
        → lookup (page (9 + 3 * 2 ^ 32)) other ≡ lookup (page 0) other)
lookup-set_example =
    lookup-set bitmap (page 0) 3 node (page (9 + 3 * 2 ^ 32)) (inr refl) refl (omega arith)
      (omega arith, omega arith) stored
