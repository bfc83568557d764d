-- ===== src/Stats/Sampler.antt =====
-- The samples of an index: there is always one to give way, so the sampler never panics.
use velr.Base.{
  ℕ, zero, suc, ◌+◌, ◌≤◌, ◌<◌, max, Bool, true, false, not, ◌&&◌, List, [], ◌∷◌, ◌++◌, none, some,
  length, length-append, ◌==◌, ==_iff, ==→ne, if◌then◌else◌, Bool-cases, inl, inr, ◌≡◌, refl, ap,
  ◌∙◌, arith,
}
use velr.Base.Result.{ok}
use velr.Stats.{
  R, Sample, IndexStatistics, sample_count, better, minimum_loop, find_minimum, fill, remove,
  room_for_one, add_sample, Search, stop, candidate, search_upgrade, upgrade_sample, insert_found,
  insert_sample,
}

-- The number of periodic samples.
abbrev pub periodic_count : List Sample → ℕ
periodic_count [] = 0
periodic_count (x ∷ xs) = (if x.periodic then 1 else 0) + periodic_count xs

minimum_loop_kept :
    (columns index : ℕ) (xs : List Sample) (i : ℕ) (x : Sample)
    → i < index
    → (j : ℕ) × (y : Sample) × (minimum_loop columns index xs (some (i, x)) ≡ some (j, y))
      × (j < index + length xs)
unfolding minimum_loop
minimum_loop_kept columns index [] i x h = (i, x, refl, omega arith)
minimum_loop_kept columns index (y ∷ xs) i x h =
    elim (Bool-cases (not y.periodic && better columns x y)) [
      | inl lower ↦
          let (j, z, e, k) = minimum_loop_kept columns (index + 1) xs index y (omega arith) in
          (j, z, ap (minimum_loop columns (index + 1) xs) (rw lower refl) ∙ e, omega arith)
      | inr same ↦
          let (j, z, e, k) = minimum_loop_kept columns (index + 1) xs i x (omega arith) in
          (j, z, ap (minimum_loop columns (index + 1) xs) (rw same refl) ∙ e, omega arith)
    ]

minimum_loop_found :
    (columns index : ℕ) (xs : List Sample)
    → periodic_count xs < length xs
    → (j : ℕ) × (y : Sample) × (minimum_loop columns index xs none ≡ some (j, y))
      × (j < index + length xs)
unfolding minimum_loop
minimum_loop_found columns index [] h = absurd (omega arith)
minimum_loop_found columns index (y ∷ xs) h = elim (Bool-cases y.periodic) [
  | inl regular ↦
      let fewer : 1 + periodic_count xs < suc (length xs) = rw regular at h in
      let (j, z, e, k) = minimum_loop_found columns (index + 1) xs (omega arith) in
      (j, z, ap (minimum_loop columns (index + 1) xs) (rw regular refl) ∙ e, omega arith)
  | inr usual ↦
      let (j, z, e, k) = minimum_loop_kept columns (index + 1) xs index y (omega arith) in
      (j, z, ap (minimum_loop columns (index + 1) xs) (rw usual refl) ∙ e, omega arith)
]

find_minimum-ok :
    (s : IndexStatistics) (p : ℕ)
    → s.minimum < 24
    → periodic_count s.samples ≤ p
    → p < 24
    → (m : ℕ) × (find_minimum s ≡ ok (record s { minimum = m })) × (m < 24)
unfolding find_minimum
find_minimum-ok s p low few h = elim (Bool-cases (length s.samples == sample_count)) [
  | inl full ↦
      let e : length s.samples ≡ 24 = (==_iff (length s.samples) 24).0 full in
      let (j, y, found, k) = minimum_loop_found s.columns 0 s.samples (omega arith) in
      (j, rw full (rw found refl), omega arith)
  | inr other ↦ (s.minimum, rw other refl, low)
]

periodic_count-append :
    (xs ys : List Sample) → periodic_count (xs ++ ys) ≡ periodic_count xs + periodic_count ys
periodic_count-append [] ys = omega arith
periodic_count-append (x ∷ xs) ys = omega (arith, periodic_count-append xs ys)

remove-some :
    (i : ℕ) (xs : List Sample)
    → i < length xs
    → (ys : List Sample) × (remove i xs ≡ some ys)
      × (suc (length ys) ≡ length xs)
      × (periodic_count ys ≤ periodic_count xs)
unfolding remove
remove-some i [] h = absurd (omega arith)
remove-some zero (x ∷ xs) h = (xs, refl, refl, omega arith)
remove-some (suc i) (x ∷ xs) h =
    let (ys, e, len, count) = remove-some i xs (omega arith) in
    (x ∷ ys, rw e refl, ap suc len, omega arith)

-- What the sampler has made of a state: other samples, best samples and marks.
pub record Sampled (s : IndexStatistics) (p : ℕ) (r : R IndexStatistics) : Type 0 where
  pub samples : List Sample
  pub minimum : ℕ
  pub zeros : ℕ
  pub best : List Sample
  pub is_ok :
      r
      ≡ ok (record s {
        samples = samples;
        minimum = minimum;
        maximum_equal_zero = zeros;
        best = best;
      })
  pub few : length samples ≤ 24
  pub low : minimum < 24
  pub periodics : periodic_count samples ≤ p
  pub eight : length best ≡ length s.best
  pub plain : periodic_count best ≡ 0

-- The state of the sampler, with at most `p` periodic samples.
pub record IsSampling (s : IndexStatistics) (p : ℕ) : Type 0 where
  pub few : length s.samples ≤ 24
  pub low : s.minimum < 24
  pub periodics : periodic_count s.samples ≤ p
  pub plain : periodic_count s.best ≡ 0

room_for_one-some :
    (s : IndexStatistics) (p : ℕ)
    → IsSampling s p
    → (xs : List Sample) × (room_for_one s ≡ ok xs) × (length xs < 24) × (periodic_count xs ≤ p)
room_for_one-some s p w = elim (Bool-cases (length s.samples == sample_count)) [
  | inl full ↦
      let e : length s.samples ≡ 24 = (==_iff (length s.samples) 24).0 full in
      let low = w.low in
      let (ys, removed, len, count) = remove-some s.minimum s.samples (omega arith) in
      let all = w.periodics in (ys, rw full (rw removed refl), omega arith, omega arith)
  | inr other ↦
      let few = w.few in
      let ne = ==→ne (length s.samples) 24 other in
      (s.samples, rw other refl, omega arith, w.periodics)
]

add_sample-ok :
    (s : IndexStatistics) (new : Sample) (equal_zero p : ℕ)
    → IsSampling s p
    → p + 1 < 24
    → Sampled s (p + (if new.periodic then 1 else 0)) (add_sample s new equal_zero)
unfolding add_sample
add_sample-ok s new equal_zero p w h =
    let (xs, room, short, count) = room_for_one-some s p w in
    let added : Sample = record new { equal = fill equal_zero 0 new.equal } in
    let all : List Sample = xs ++ (added ∷ []) in
    let one : (if new.periodic then 1 else 0) ≤ 1 = ground arith in
    let counts : periodic_count all ≤ p + (if new.periodic then 1 else 0) =
      omega (arith, periodic_count-append xs (added ∷ [])) in
    let (m, found, low) =
      find_minimum-ok (record s { samples = all }) (p + (if new.periodic then 1 else 0)) w.low
        counts (omega arith) in
    record {
      samples = all;
      minimum = m;
      zeros = s.maximum_equal_zero;
      best = s.best;
      is_ok = rw room found;
      few = omega (arith, length-append xs (added ∷ []));
      low = low;
      periodics = counts;
      eight = refl;
      plain = w.plain;
    }

length-upgrade_sample :
    (i : ℕ) (new : Sample) (xs : List Sample) → length (upgrade_sample i new xs) ≡ length xs
length-upgrade_sample i new [] = refl
length-upgrade_sample zero new (x ∷ xs) = refl
length-upgrade_sample (suc i) new (x ∷ xs) = ap suc (length-upgrade_sample i new xs)

periodic_count-upgrade_sample :
    (i : ℕ) (new : Sample) (xs : List Sample)
    → periodic_count (upgrade_sample i new xs) ≡ periodic_count xs
periodic_count-upgrade_sample i new [] = refl
periodic_count-upgrade_sample zero new (x ∷ xs) = refl
periodic_count-upgrade_sample (suc i) new (x ∷ xs) =
    ap (λ (n : ℕ). (if x.periodic then 1 else 0) + n) (periodic_count-upgrade_sample i new xs)

insert_found-ok :
    (s : IndexStatistics) (new : Sample) (equal_zero p : ℕ) (found : Search)
    → IsSampling s p
    → p + 1 < 24
    → Sampled s (p + (if new.periodic then 1 else 0)) (insert_found s new equal_zero found)
insert_found-ok s new equal_zero p stop w h = record {
  samples = s.samples;
  minimum = s.minimum;
  zeros = s.maximum_equal_zero;
  best = s.best;
  is_ok = refl;
  few = w.few;
  low = w.low;
  periodics = let c = w.periodics in omega arith;
  eight = refl;
  plain = w.plain;
}
insert_found-ok s new equal_zero p (candidate none) w h = add_sample-ok s new equal_zero p w h
insert_found-ok s new equal_zero p (candidate (some (i, old))) w h =
    let all : List Sample = upgrade_sample i new s.samples in
    let c = w.periodics in
    let few = w.few in
    let (m, found, low) =
      find_minimum-ok (record s { samples = all }) p w.low
        (omega (arith, periodic_count-upgrade_sample i new s.samples)) (omega arith) in
    record {
      samples = all;
      minimum = m;
      zeros = s.maximum_equal_zero;
      best = s.best;
      is_ok = found;
      few = omega (arith, length-upgrade_sample i new s.samples);
      low = low;
      periodics = omega (arith, periodic_count-upgrade_sample i new s.samples);
      eight = refl;
      plain = w.plain;
    }

pub if-Sampled :
    (s : IndexStatistics) (p : ℕ) (b : Bool) (x y : R IndexStatistics)
    → Sampled s p x
    → Sampled s p y
    → Sampled s p (if b then x else y)
if-Sampled s p true x y hx hy = hx
if-Sampled s p false x y hx hy = hy

pub insert_sample-ok :
    (s : IndexStatistics) (new : Sample) (equal_zero p : ℕ)
    → IsSampling s p
    → p + 1 < 24
    → Sampled s (p + (if new.periodic then 1 else 0)) (insert_sample s new equal_zero)
unfolding insert_sample
insert_sample-ok s new equal_zero p w h =
    let s' = record s { maximum_equal_zero = max s.maximum_equal_zero equal_zero } in
    let w' : IsSampling s' p = record {
      few = w.few;
      low = w.low;
      periodics = w.periodics;
      plain = w.plain;
    } in
    let added = add_sample-ok s' new equal_zero p w' h in
    let searched =
      insert_found-ok s' new equal_zero p (search_upgrade s.columns new.column 0 s.samples) w' h in
    if-Sampled s _ new.periodic (add_sample s' new equal_zero)
      (insert_found s' new equal_zero (search_upgrade s.columns new.column 0 s.samples))
      (record {
        samples = added.samples;
        minimum = added.minimum;
        zeros = added.zeros;
        best = added.best;
        is_ok = added.is_ok;
        few = added.few;
        low = added.low;
        periodics = added.periodics;
        eight = added.eight;
        plain = added.plain;
      })
      (record {
        samples = searched.samples;
        minimum = searched.minimum;
        zeros = searched.zeros;
        best = searched.best;
        is_ok = searched.is_ok;
        few = searched.few;
        low = searched.low;
        periodics = searched.periodics;
        eight = searched.eight;
        plain = searched.plain;
      })
