-- ===== src/Sort/Merge.antt =====
-- Merging sorted runs gives one sorted stream of the same keys.
use velr.Base.{
  ℕ, zero, suc, ◌+◌, ◌≤◌, ◌<◌, List, [], ◌∷◌, Option, some, ◌>>=◌, length, ◌==◌, if◌then◌else◌,
  Bool-cases, inl, inr, ◌≡◌, refl, ap, ◌∙◌, arith, All,
}
use velr.Sort.{
  Entry, before, extract_least, least_of, push_head, merge_loop, merge_next, heads, total,
  merge_visit,
}

-- In ascending order.
abbrev pub IsSorted : List ℕ → Type 0
IsSorted [] = Unit {0}
IsSorted (x ∷ xs) = All (λ y. x ≤ y) xs × IsSorted xs

-- How often a key occurs.
abbrev pub occurrences : ℕ → List ℕ → ℕ
occurrences k [] = 0
occurrences k (x ∷ xs) = (if x == k then 1 else 0) + occurrences k xs

abbrev pub occurrences_in : ℕ → List (List ℕ) → ℕ
occurrences_in k [] = 0
occurrences_in k (keys ∷ runs) = occurrences k keys + occurrences_in k runs

abbrev entry_count : ℕ → Entry → ℕ
entry_count k e = (if e.key == k then 1 else 0) + occurrences k e.rest

abbrev heap_count : ℕ → List Entry → ℕ
heap_count k [] = 0
heap_count k (e ∷ es) = entry_count k e + heap_count k es

abbrev size : List Entry → ℕ
size [] = 0
size (e ∷ es) = 1 + length e.rest + size es

abbrev IsRun : Entry → Type 0
IsRun e = IsSorted (e.key ∷ e.rest)

-- What it means that `m` is least and the others are the rest of the heap.
record Least (heap : List Entry) (m : Entry) (others : List Entry) : Type 0 where
  counts : (k : ℕ) → heap_count k heap ≡ entry_count k m + heap_count k others
  sizes : size heap ≡ 1 + length m.rest + size others
  run : IsRun m
  runs : All IsRun others
  lowest : All (λ e. m.key ≤ e.key) others
  bounds : (b : ℕ) → All (λ e. b ≤ e.key) heap → (b ≤ m.key) × All (λ e. b ≤ e.key) others

lower : (a b : ℕ) (es : List Entry) → a ≤ b → All (λ e. b ≤ e.key) es → All (λ e. a ≤ e.key) es
lower a b [] h all = tt
lower a b (e ∷ es) h (x, all) = (omega arith, lower a b es h all)

least_of-Least :
    (e : Entry) (es : List Entry) (m : Entry) (others : List Entry)
    → IsRun e
    → Least es m others
    → (n : Entry) × (rest : List Entry) × (least_of e (some (m, others)) ≡ some (n, rest))
      × Least (e ∷ es) n rest
least_of-Least e es m others run l = elim (Bool-cases (before m e)) [
  | inl first ↦
      let le : m.key ≤ e.key = ground arith in
      (
        m,
        e ∷ others,
        rw first refl,
        record {
          counts = λ k. omega (arith, l.counts k);
          sizes = omega (arith, l.sizes);
          run = l.run;
          runs = (run, l.runs);
          lowest = (le, l.lowest);
          bounds = λ b h. let (low, all) = l.bounds b h.1 in (low, (h.0, all));
        },
      )
  | inr later ↦
      let le : e.key ≤ m.key = ground arith in
      (
        e,
        m ∷ others,
        rw later refl,
        record {
          counts = λ k. omega (arith, l.counts k);
          sizes = omega (arith, l.sizes);
          run = run;
          runs = (l.run, l.runs);
          lowest = (le, lower e.key m.key others le l.lowest);
          bounds = λ b h. let (low, all) = l.bounds b h.1 in (h.0, (low, all));
        },
      )
]

extract_least-Least :
    (e : Entry) (es : List Entry)
    → All IsRun (e ∷ es)
    → (m : Entry) × (others : List Entry) × (extract_least (e ∷ es) ≡ some (m, others))
      × Least (e ∷ es) m others
unfolding extract_least
extract_least-Least e [] (run, runs) = (
  e,
  [],
  refl,
  record {
    counts = λ k. omega arith;
    sizes = omega arith;
    run = run;
    runs = tt;
    lowest = tt;
    bounds = λ b h. h;
  },
)
extract_least-Least e (f ∷ fs) (run, runs) =
    let (m, others, found, l) = extract_least-Least f fs runs in
    let (n, rest, made, l') = least_of-Least e (f ∷ fs) m others run l in
    (n, rest, ap (least_of e) found ∙ made, l')

rise : (a b : ℕ) (ks : List ℕ) → a ≤ b → All (λ k. b ≤ k) ks → All (λ k. a ≤ k) ks
rise a b [] h all = tt
rise a b (k ∷ ks) h (x, all) = (omega arith, rise a b ks h all)

-- What the loop makes of a heap of runs.
record Merged (heap : List Entry) (out : List ℕ) : Type 0 where
  sorted : IsSorted out
  counts : (k : ℕ) → occurrences k out ≡ heap_count k heap
  above : (b : ℕ) → All (λ e. b ≤ e.key) heap → All (λ k. b ≤ k) out

push_head-runs :
    (run : ℕ) (keys : List ℕ) (heap : List Entry)
    → IsSorted keys
    → All IsRun heap
    → All IsRun (push_head run keys heap)
push_head-runs run [] heap s h = h
push_head-runs run (k ∷ ks) heap s h = (s, h)

push_head-count :
    (k run : ℕ) (keys : List ℕ) (heap : List Entry)
    → heap_count k (push_head run keys heap) ≡ occurrences k keys + heap_count k heap
push_head-count k run [] heap = omega arith
push_head-count k run (x ∷ keys) heap = omega arith

push_head-size :
    (run : ℕ) (keys : List ℕ) (heap : List Entry)
    → size (push_head run keys heap) ≡ length keys + size heap
push_head-size run [] heap = omega arith
push_head-size run (x ∷ keys) heap = omega arith

push_head-above :
    (b run : ℕ) (keys : List ℕ) (heap : List Entry)
    → All (λ k. b ≤ k) keys
    → All (λ e. b ≤ e.key) heap
    → All (λ e. b ≤ e.key) (push_head run keys heap)
push_head-above b run [] heap h all = all
push_head-above b run (x ∷ keys) heap (h, hs) all = (h, all)

merge_loop-Merged :
    (fuel : ℕ) (heap : List Entry)
    → All IsRun heap
    → size heap < fuel
    → (out : List ℕ) × (merge_loop fuel heap ≡ some out) × Merged heap out
unfolding merge_loop
merge_loop-Merged zero heap runs room = absurd (omega arith)
merge_loop-Merged (suc fuel) [] runs room = (
  [],
  unfold extract_least in refl,
  record { sorted = tt; counts = λ k. refl; above = λ b h. tt },
)
merge_loop-Merged (suc fuel) (e ∷ es) runs room =
    let (m, others, found, l) = extract_least-Least e es runs in
    let heap : List Entry = push_head m.run m.rest others in
    let next_runs = push_head-runs m.run m.rest others l.run.1 l.runs in
    let (out, looped, done) =
      merge_loop-Merged fuel heap next_runs
        (omega (arith, l.sizes, push_head-size m.run m.rest others)) in
    (
      m.key ∷ out,
      ap (merge_next (merge_loop fuel)) found
          ∙ ap (λ (o : Option (List ℕ)). o >>= λ keys. some (m.key ∷ keys)) looped,
      record {
        sorted = (
          done.above m.key (push_head-above m.key m.run m.rest others l.run.0 l.lowest),
          done.sorted,
        );
        counts =
            λ k. omega (arith, done.counts k, l.counts k, push_head-count k m.run m.rest others);
        above = λ b h.
            let (low, all) = l.bounds b h in
            (
              low,
              done.above b
                  (push_head-above b m.run m.rest others (rise b m.key m.rest low l.run.0) all),
            );
      },
    )

heads-runs : (run : ℕ) (runs : List (List ℕ)) → All IsSorted runs → All IsRun (heads run runs)
heads-runs run [] h = tt
heads-runs run (keys ∷ runs) (s, h) =
    push_head-runs run keys (heads (run + 1) runs) s (heads-runs (run + 1) runs h)

heads-count :
    (k run : ℕ) (runs : List (List ℕ)) → heap_count k (heads run runs) ≡ occurrences_in k runs
heads-count k run [] = refl
heads-count k run (keys ∷ runs) =
    omega (arith, push_head-count k run keys (heads (run + 1) runs), heads-count k (run + 1) runs)

heads-size : (run : ℕ) (runs : List (List ℕ)) → size (heads run runs) ≡ total runs
heads-size run [] = refl
heads-size run (keys ∷ runs) =
    omega (arith, push_head-size run keys (heads (run + 1) runs), heads-size (run + 1) runs)

-- Merging any number of sorted runs ends, with the keys in order, each as often as in all runs together.
pub merge_visit-IsSorted :
    (runs : List (List ℕ))
    → All IsSorted runs
    → (out : List ℕ) × (merge_visit runs ≡ some out)
      × IsSorted out
      × ((k : ℕ) → occurrences k out ≡ occurrences_in k runs)
unfolding merge_visit
merge_visit-IsSorted runs h =
    let (out, looped, m) =
      merge_loop-Merged (total runs + 1) (heads 0 runs) (heads-runs 0 runs h)
        (omega (arith, heads-size 0 runs)) in
    (out, looped, m.sorted, λ k. m.counts k ∙ heads-count k 0 runs)
