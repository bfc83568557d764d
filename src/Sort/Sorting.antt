-- ===== src/Sort/Sorting.antt =====
-- The external sort: every key of the tuples comes out, in order.
use velr.Base.{
  ℕ, zero, suc, ◌+◌, ◌-◌, ◌*◌, ◌/◌, ◌%◌, ◌^◌, min, ◌≤◌, ◌<◌, Bool, true, List, [], ◌∷◌, ◌++◌, map,
  Option, some, ◌>>=◌, length, length-drop, take, drop, All, All-append, ltb, leb, lt→ltb,
  if◌then◌else◌, Bool-cases, inl, inr, ◌≡◌, refl, sym, ap, ◌∙◌, arith,
}
use native.Mathlib.Nat.{div-add-mod', mod-lt}
use velr.Sort.{merge_visit}
use velr.Sort.Merge.{IsSorted, occurrences, occurrences_in, merge_visit-IsSorted}
use velr.Sort.RadixOrder.{radix_sort-IsSorted}
use velr.Sort.External.{
  merge_fan_in, step_by, run_count, sorted_run, make_runs, runs_of_workers, merge_groups,
  merge_generations, external_sort,
}
use velr.Sort.Turns.{sum_over, bounded_sum, turns, turns-bounded_sum}

occurrences_in-append :
    (k : ℕ) (xs ys : List (List ℕ))
    → occurrences_in k (xs ++ ys) ≡ occurrences_in k xs + occurrences_in k ys
occurrences_in-append k [] ys = omega arith
occurrences_in-append k (x ∷ xs) ys = omega (arith, occurrences_in-append k xs ys)

occurrences_in-take :
    (k n : ℕ) (xs : List (List ℕ))
    → occurrences_in k (take n xs) + occurrences_in k (drop n xs) ≡ occurrences_in k xs
occurrences_in-take k zero xs = omega arith
occurrences_in-take k (suc n) [] = omega arith
occurrences_in-take k (suc n) (x ∷ xs) = omega (arith, occurrences_in-take k n xs)

All-take : (P : List ℕ → Type 0) (n : ℕ) (xs : List (List ℕ)) → All P xs → All P (take n xs)
All-take P zero xs h = tt
All-take P (suc n) [] h = tt
All-take P (suc n) (x ∷ xs) (h, hs) = (h, All-take P n xs hs)

All-drop : (P : List ℕ → Type 0) (n : ℕ) (xs : List (List ℕ)) → All P xs → All P (drop n xs)
All-drop P zero xs h = h
All-drop P (suc n) [] h = tt
All-drop P (suc n) (x ∷ xs) (h, hs) = All-drop P n xs hs

-- A generation of merges: sorted runs of the same keys, and fewer of them.
record Merges (runs next : List (List ℕ)) : Type 0 where
  sorted : All IsSorted next
  counts : (k : ℕ) → occurrences_in k next ≡ occurrences_in k runs
  groups_of : length next * merge_fan_in < length runs + merge_fan_in

merge_groups-Merges :
    (fuel : ℕ) (runs : List (List ℕ))
    → All IsSorted runs
    → length runs < fuel
    → (next : List (List ℕ)) × (merge_groups fuel runs ≡ some next) × Merges runs next
unfolding merge_groups
merge_groups-Merges zero runs h room = absurd (omega arith)
merge_groups-Merges (suc fuel) [] h room =
    ([], refl, record { sorted = tt; counts = λ k. refl; groups_of = omega arith })
merge_groups-Merges (suc fuel) (run ∷ runs) h room =
    let all : List (List ℕ) = run ∷ runs in
    let (merged, is_merged, sorted, counts) =
      merge_visit-IsSorted (take merge_fan_in all) (All-take IsSorted merge_fan_in all h) in
    let shorter = length-drop merge_fan_in all in
    let (rest, is_rest, m) =
      merge_groups-Merges fuel (drop merge_fan_in all) (All-drop IsSorted merge_fan_in all h)
        (omega arith) in
    let below = m.groups_of in
    (
      merged ∷ rest,
      ap
            (λ (o : Option (List ℕ)). o >>= λ merged.
              merge_groups fuel (drop merge_fan_in all) >>= λ rest. some (merged ∷ rest))
            is_merged
          ∙ ap (λ (o : Option (List (List ℕ))). o >>= λ rest. some (merged ∷ rest)) is_rest,
      record {
        sorted = (sorted, m.sorted);
        counts = λ k. omega (arith, counts k, m.counts k, occurrences_in-take k merge_fan_in all);
        groups_of = omega arith;
      },
    )

merge_generations-Merges :
    (fuel : ℕ) (runs : List (List ℕ))
    → All IsSorted runs
    → length runs < fuel
    → (next : List (List ℕ)) × (merge_generations fuel runs ≡ some next)
      × All IsSorted next
      × ((k : ℕ) → occurrences_in k next ≡ occurrences_in k runs)
unfolding merge_generations
merge_generations-Merges zero runs h room = absurd (omega arith)
merge_generations-Merges (suc fuel) runs h room =
    elim (Bool-cases (leb (length runs) merge_fan_in)) [
      | inl few ↦ (runs, rw few refl, h, λ k. refl)
      | inr many ↦
          let (next, is_next, m) = merge_groups-Merges (length runs + 1) runs h (omega arith) in
          let fewer = m.groups_of in
          let more : 16 < length runs = ground arith in
          let (last, is_last, sorted, counts) =
            merge_generations-Merges fuel next m.sorted (omega arith) in
          (
            last,
            ap
                  (λ (b : Bool).
                    if b
                    then some runs
                    else (merge_groups (length runs + 1) runs >>= merge_generations fuel))
                  many
                ∙ ap (λ (o : Option (List (List ℕ))). o >>= merge_generations fuel) is_next
                ∙ is_last,
            sorted,
            λ k. counts k ∙ m.counts k,
          )
    ]

module _ (pack_tuple : List ℕ → ℕ) (passes : ℕ) (tuples : List (List ℕ)) (capacity : ℕ)
    (some_room : 1 ≤ capacity) (small : All (λ t. pack_tuple t < 2 ^ (passes * 8)) tuples) where
  abbrev keys_of : List (List ℕ) → List ℕ
  keys_of ts = map pack_tuple ts

  abbrev Small : List (List ℕ) → Type 0
  Small ts = All (λ k. k < 2 ^ (passes * 8)) (keys_of ts)

  Small-map : (ts : List (List ℕ)) → All (λ t. pack_tuple t < 2 ^ (passes * 8)) ts → Small ts
  Small-map [] h = tt
  Small-map (t ∷ ts) (h, hs) = (h, Small-map ts hs)

  Small-take : (n : ℕ) (ts : List (List ℕ)) → Small ts → Small (take n ts)
  Small-take zero ts h = tt
  Small-take (suc n) [] h = tt
  Small-take (suc n) (t ∷ ts) (h, hs) = (h, Small-take n ts hs)

  Small-drop : (n : ℕ) (ts : List (List ℕ)) → Small ts → Small (drop n ts)
  Small-drop zero ts h = h
  Small-drop (suc n) [] h = tt
  Small-drop (suc n) (t ∷ ts) (h, hs) = Small-drop n ts hs

  chunk : ℕ → List (List ℕ)
  chunk run = take (min (length tuples - run * capacity) capacity) (drop (run * capacity) tuples)

  sorted_run-chunk :
      (run : ℕ)
      → IsSorted (sorted_run pack_tuple passes tuples capacity run)
        × ((k : ℕ)
            → occurrences k (sorted_run pack_tuple passes tuples capacity run)
              ≡ occurrences k (keys_of (chunk run)))
  unfolding sorted_run chunk
  sorted_run-chunk run = radix_sort-IsSorted (keys_of (chunk run)) passes (
      Small-take (min (length tuples - run * capacity) capacity) (drop (run * capacity) tuples)
        (Small-drop (run * capacity) tuples (Small-map tuples small)))

  keys-take :
      (k n : ℕ) (ts : List (List ℕ))
      → occurrences k (keys_of (take (min (length ts) n) ts)) + occurrences k (keys_of (drop n ts))
        ≡ occurrences k (keys_of ts)
  keys-take k zero ts = let e : min (length ts) 0 ≡ 0 = omega arith in rw e (omega arith)
  keys-take k (suc n) [] =
      let e : min (length {A = List ℕ} []) (suc n) ≡ 0 = omega arith in rw e (omega arith)
  keys-take k (suc n) (t ∷ ts) =
      let e : min (suc (length ts)) (suc n) ≡ suc (min (length ts) n) = omega arith in
      rw e (omega (arith, keys-take k n ts))

  drop-drop : (a b : ℕ) (ts : List (List ℕ)) → drop a (drop b ts) ≡ drop (b + a) ts
  drop-drop a zero ts = ap (λ (x : ℕ). drop x ts) {x = a} {y = 0 + a} (omega arith)
  drop-drop a (suc b) [] = drop-nil a ∙ sym (drop-nil (suc b + a))
    where
      drop-nil : (n : ℕ) → drop {A = List ℕ} n [] ≡ []
      drop-nil zero = refl
      drop-nil (suc n) = refl
  drop-drop a (suc b) (t ∷ ts) =
      let e : suc b + a ≡ suc (b + a) = omega arith in
      drop-drop a b ts ∙ ap (λ (x : ℕ). drop x (t ∷ ts)) (sym e)

  drop-all : (n : ℕ) (ts : List (List ℕ)) → length ts ≤ n → drop n ts ≡ []
  drop-all zero [] h = refl
  drop-all zero (t ∷ ts) h = absurd (omega arith)
  drop-all (suc n) [] h = refl
  drop-all (suc n) (t ∷ ts) h = drop-all n ts (omega arith)

  -- The runs from `a` on, and the tuples from the start of run `a` on.
  runs-keys :
      (k end n a : ℕ)
      → a + n ≡ end
      → bounded_sum
            (λ run. occurrences k (sorted_run pack_tuple passes tuples capacity run))
            n
            a
            end
          + occurrences k (keys_of (drop (end * capacity) tuples))
        ≡ occurrences k (keys_of (drop (a * capacity) tuples))
  unfolding chunk
  runs-keys k end zero a e =
      let same : end ≡ a = omega arith in
      ap (λ (x : ℕ). 0 + occurrences k (keys_of (drop (x * capacity) tuples))) same ∙ omega arith
  runs-keys k end (suc n) a e =
      let inside : ltb a end ≡ true = lt→ltb a end (omega arith) in
      let later = runs-keys k end n (a + 1) (omega arith) in
      let sorted = (sorted_run-chunk a).1 k in
      let len : length (drop (a * capacity) tuples) ≡ length tuples - a * capacity =
        length-drop (a * capacity) tuples in
      let split = keys-take k capacity (drop (a * capacity) tuples) in
      let split' : occurrences k (keys_of (chunk a))
            + occurrences k (keys_of (drop capacity (drop (a * capacity) tuples)))
          ≡ occurrences k (keys_of (drop (a * capacity) tuples)) =
        ap
          (λ (x : ℕ).
            occurrences k (keys_of (take (min x capacity) (drop (a * capacity) tuples)))
            + occurrences k (keys_of (drop capacity (drop (a * capacity) tuples))))
          (sym len)
        ∙ split in
      let next : a * capacity + capacity ≡ (a + 1) * capacity = omega arith in
      let moved : occurrences k (keys_of (drop capacity (drop (a * capacity) tuples)))
          ≡ occurrences k (keys_of (drop ((a + 1) * capacity) tuples)) =
        ap (λ (ts : List (List ℕ)). occurrences k (keys_of ts))
          (drop-drop capacity (a * capacity) tuples ∙ ap (λ (x : ℕ). drop x tuples) next) in
      rw inside (omega (arith, later, sorted, split', moved))

  enough_runs : length tuples ≤ run_count pack_tuple passes tuples capacity * capacity
  enough_runs =
      let n : ℕ = length tuples + (capacity - 1) in
      let whole : n / capacity * capacity + n % capacity ≡ n = div-add-mod' n capacity in
      let r : n % capacity < capacity = mod-lt n (omega arith) in omega arith

  All-runs : (xs : List ℕ) → All IsSorted (map (sorted_run pack_tuple passes tuples capacity) xs)
  All-runs [] = tt
  All-runs (x ∷ xs) = ((sorted_run-chunk x).0, All-runs xs)

  occurrences_in-runs :
      (k : ℕ) (xs : List ℕ)
      → occurrences_in k (map (sorted_run pack_tuple passes tuples capacity) xs)
        ≡ sum_over (λ run. occurrences k (sorted_run pack_tuple passes tuples capacity run)) xs
  occurrences_in-runs k [] = refl
  occurrences_in-runs k (x ∷ xs) =
      ap (λ (n : ℕ). occurrences k (sorted_run pack_tuple passes tuples capacity x) + n)
        (occurrences_in-runs k xs)

  workers-runs :
      (n worker workers : ℕ)
      → All IsSorted (runs_of_workers pack_tuple passes tuples capacity n worker workers)
        × ((k : ℕ)
            → occurrences_in k (runs_of_workers pack_tuple passes tuples capacity n worker workers)
              ≡ turns
                  (λ run. occurrences k (sorted_run pack_tuple passes tuples capacity run))
                  n
                  (run_count pack_tuple passes tuples capacity)
                  worker
                  (run_count pack_tuple passes tuples capacity)
                  workers)
  unfolding runs_of_workers make_runs
  workers-runs zero worker workers = (tt, λ k. refl)
  workers-runs (suc n) worker workers =
      let end : ℕ = run_count pack_tuple passes tuples capacity in
      let mine : List (List ℕ) =
        map (sorted_run pack_tuple passes tuples capacity) (step_by end worker end workers) in
      let others : List (List ℕ) =
        runs_of_workers pack_tuple passes tuples capacity n (worker + 1) workers in
      let (sorted, counts) = workers-runs n (worker + 1) workers in
      (
        All-append IsSorted mine others (All-runs (step_by end worker end workers)) sorted,
        λ k. omega (
          arith,
          occurrences_in-append k mine others,
          occurrences_in-runs k (step_by end worker end workers),
          counts k,
        ),
      )

  -- For any capacity of the key arrays and any number of workers, if the passes cover the keys: the sort
  -- ends, and the keys of all tuples come out in ascending order, each as often as there are tuples with it.
  pub external_sort-IsSorted :
      (workers : ℕ)
      → 1 ≤ workers
      → (keys : List ℕ) × (external_sort pack_tuple passes tuples capacity workers ≡ some keys)
        × IsSorted keys
        × ((k : ℕ) → occurrences k keys ≡ occurrences k (map pack_tuple tuples))
  unfolding external_sort
  external_sort-IsSorted workers some_worker =
      let end : ℕ = run_count pack_tuple passes tuples capacity in
      let runs : List (List ℕ) =
        runs_of_workers pack_tuple passes tuples capacity workers 0 workers in
      let (sorted, counts) = workers-runs workers 0 workers in
      let (last, is_last, last_sorted, last_counts) =
        merge_generations-Merges (length runs + 1) runs sorted (omega arith) in
      let (keys, is_keys, keys_sorted, keys_counts) = merge_visit-IsSorted last last_sorted in
      (
        keys,
        ap (λ (o : Option (List (List ℕ))). o >>= merge_visit) is_last ∙ is_keys,
        keys_sorted,
        λ k.
            let f : ℕ → ℕ =
              λ run. occurrences k (sorted_run pack_tuple passes tuples capacity run) in
            let none_left : occurrences k (keys_of (drop (end * capacity) tuples)) ≡ 0 =
              ap (λ (ts : List (List ℕ)). occurrences k (keys_of ts))
                (drop-all (end * capacity) tuples enough_runs) in
            let all = runs-keys k end end 0 (omega arith) in
            let here : 0 * capacity ≡ 0 = omega arith in
            let start : occurrences k (keys_of (drop (0 * capacity) tuples))
                ≡ occurrences k (keys_of tuples) =
              ap (λ (x : ℕ). occurrences k (keys_of (drop x tuples))) here in
            omega (
              arith,
              keys_counts k,
              last_counts k,
              counts k,
              turns-bounded_sum f workers end some_worker,
              all,
              none_left,
              start,
            ),
      )
