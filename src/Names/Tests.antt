-- ===== src/Names/Tests.antt =====
-- Comparisons of a few names, and three of them in a cycle.
use velr.Base.{[], ◌∷◌, some, ◌≡◌, refl}
use velr.Names.{Ordering, less, natural_cmp, natural_loop}
use velr.Names.Order.{reverse, natural_cmp-reverse}

-- a2 and a10
numbers_compared : natural_cmp (97 ∷ 50 ∷ []) (97 ∷ 49 ∷ 48 ∷ []) ≡ some less
unfolding natural_cmp natural_loop
numbers_compared = refl

-- a001 is before a001a, which is before a1b, which is before a001.
cycle_first : natural_cmp (97 ∷ 48 ∷ 48 ∷ 49 ∷ []) (97 ∷ 48 ∷ 48 ∷ 49 ∷ 97 ∷ []) ≡ some less
unfolding natural_cmp natural_loop
cycle_first = refl

cycle_second : natural_cmp (97 ∷ 48 ∷ 48 ∷ 49 ∷ 97 ∷ []) (97 ∷ 49 ∷ 98 ∷ []) ≡ some less
unfolding natural_cmp natural_loop
cycle_second = refl

cycle_third : natural_cmp (97 ∷ 49 ∷ 98 ∷ []) (97 ∷ 48 ∷ 48 ∷ 49 ∷ []) ≡ some less
unfolding natural_cmp natural_loop
cycle_third = refl

natural_cmp-reverse_example :
    (o : Ordering) × (natural_cmp (97 ∷ 50 ∷ []) (97 ∷ 49 ∷ 48 ∷ []) ≡ some o)
    × (natural_cmp (97 ∷ 49 ∷ 48 ∷ []) (97 ∷ 50 ∷ []) ≡ some (reverse o))
natural_cmp-reverse_example = natural_cmp-reverse (97 ∷ 50 ∷ []) (97 ∷ 49 ∷ 48 ∷ [])
