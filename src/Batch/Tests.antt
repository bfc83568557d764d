-- ===== src/Batch/Tests.antt =====
-- A batch of one value of each kind.
use velr.Base.{[], ◌∷◌, ◌++◌, some, ◌≡◌, refl}
use velr.Batch.{null, integer, text, blob, empty, iter, push_all}
use velr.Batch.Values.{iter-push_all}

nothing : iter empty ≡ some []
unfolding iter
nothing = refl

iter-push_all_example :
    iter (push_all empty (null ∷ text (104 ∷ 105 ∷ []) ∷ integer 5 ∷ blob (0 ∷ []) ∷ []))
    ≡ some ([] ++ (null ∷ text (104 ∷ 105 ∷ []) ∷ integer 5 ∷ blob (0 ∷ []) ∷ []))
iter-push_all_example =
    iter-push_all empty [] (null ∷ text (104 ∷ 105 ∷ []) ∷ integer 5 ∷ blob (0 ∷ []) ∷ []) nothing
