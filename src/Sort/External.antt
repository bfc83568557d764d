-- ===== src/Sort/External.antt =====
-- IntegerSpool::make_runs and the merges of IntegerSpool::sort_keys, for any packing of tuples into
-- keys: every worker sorts the runs of its turn, and runs are merged in groups until one merge is left.
use velr.Base.{
  ℕ, zero, suc, ◌+◌, ◌-◌, ◌*◌, ◌/◌, min, List, [], ◌∷◌, ◌++◌, map, Option, none, some, ◌>>=◌,
  length, take, drop, ltb, leb, if◌then◌else◌,
}
use velr.Sort.{merge_visit}
use velr.Sort.Radix.{radix_sort}

abbrev pub merge_fan_in : ℕ
merge_fan_in = 16

-- `(next..end).step_by(step)`; there are no more than `fuel` elements.
unfoldable pub step_by : ℕ → ℕ → ℕ → ℕ → List ℕ
step_by zero next end step = []
step_by (suc fuel) next end step =
    let rest = step_by fuel (next + step) end step in if ltb next end then next ∷ rest else []

module _ (pack_tuple : List ℕ → ℕ) (passes : ℕ) (tuples : List (List ℕ)) (capacity : ℕ) where
  -- `self.rows.div_ceil(capacity)`
  abbrev pub run_count : ℕ
  run_count = (length tuples + (capacity - 1)) / capacity

  -- The keys of one run, sorted.
  unfoldable pub sorted_run : ℕ → List ℕ
  sorted_run run =
      let first = run * capacity in
      let rows = min (length tuples - first) capacity in
      radix_sort (map pack_tuple (take rows (drop first tuples))) passes

  unfoldable pub make_runs : ℕ → ℕ → List (List ℕ)
  make_runs worker workers = map sorted_run (step_by run_count worker run_count workers)

  -- The runs of `n` workers from `worker` on, in the order of the workers.
  unfoldable pub runs_of_workers : ℕ → ℕ → ℕ → List (List ℕ)
  runs_of_workers zero worker workers = []
  runs_of_workers (suc n) worker workers =
      make_runs worker workers ++ runs_of_workers n (worker + 1) workers

-- One generation of merges: groups of runs become runs.
unfoldable pub merge_groups : ℕ → List (List ℕ) → Option (List (List ℕ))
merge_groups zero runs = none
merge_groups (suc fuel) [] = some []
merge_groups (suc fuel) (run ∷ runs) = do
  merged ← merge_visit (take merge_fan_in (run ∷ runs))
  rest ← merge_groups fuel (drop merge_fan_in (run ∷ runs))
  some (merged ∷ rest)

unfoldable pub merge_generations : ℕ → List (List ℕ) → Option (List (List ℕ))
merge_generations zero runs = none
merge_generations (suc fuel) runs =
    let next = merge_groups (length runs + 1) runs >>= merge_generations fuel in
    if leb (length runs) merge_fan_in then some runs else next

-- The keys that the last merge visits. A generation leaves fewer runs, so their number is enough fuel.
unfoldable pub external_sort : (List ℕ → ℕ) → ℕ → List (List ℕ) → ℕ → ℕ → Option (List ℕ)
external_sort pack_tuple passes tuples capacity workers =
    let runs = runs_of_workers pack_tuple passes tuples capacity workers 0 workers in
    merge_generations (length runs + 1) runs >>= merge_visit
