-- ===== src/Stats.antt =====
-- The statistics of a sorted index: rust/velr-cli/src/offline_import/native/index_stats.rs.
-- Arrays of eight columns are lists; u64 sums wrap, as in a release build. The text of stat1 is the
-- list of its numbers, which the source joins by blanks.
pub mod Counts
pub mod Sampler
pub mod Previous
pub mod Reached
pub mod Marks
pub mod Rows
pub mod Averages
pub mod Runs
mod Tests
use velr.Base.{
  ℕ, zero, suc, ◌+◌, ◌-◌, ◌*◌, ◌/◌, ◌%◌, ◌^◌, max, Bool, true, false, not, ◌&&◌, ◌||◌, List, [],
  ◌∷◌, ◌++◌, map, Option, none, some, length, take, drop, replicate, ltb, leb, ◌==◌, if◌then◌else◌,
}
use velr.Base.Result.{Result, ok, err, ◌>>=◌, ok_or}
use Prim.Native.Nat.{bit_xor}
use velr.Sort.Keys.{at, put}

pub data StatsError : Type 0 where
  invalid_column_count invalid_stream first_must_change_zero unexpected_row_count stats_panicked :
      StatsError

abbrev pub R : Type 0 → Type 0
R = Result StatsError

abbrev pub sample_count : ℕ
sample_count = 24

abbrev pub add64 : ℕ → ℕ → ℕ
add64 a b = (a + b) % 2 ^ 64

pub record Sample : Type 0 where
  pub equal : List ℕ
  pub less : List ℕ
  pub distinct_less : List ℕ
  pub witness : ℕ
  pub periodic : Bool
  pub column : ℕ
  pub hash : ℕ

pub record IndexStatistics : Type 0 where
  pub columns : ℕ
  pub key_columns : ℕ
  pub expected_rows : ℕ
  pub rows : ℕ
  pub periodic_interval : ℕ
  pub next_periodic_row : ℕ
  pub random : ℕ
  pub current : Sample
  pub best : List Sample
  pub samples : List Sample
  pub minimum : ℕ
  pub maximum_equal_zero : ℕ

abbrev pub default_sample : Sample
default_sample = record {
  equal = replicate 8 0;
  less = replicate 8 0;
  distinct_less = replicate 8 0;
  witness = 0;
  periodic = false;
  column = 0;
  hash = 0;
}

-- The best samples of `n` columns from `column` on; those below `columns` know their column.
abbrev pub new_best : ℕ → ℕ → ℕ → List Sample
new_best zero column columns = []
new_best (suc n) column columns =
    (record default_sample { column = if ltb column columns then column else 0 })
    ∷ new_best n (column + 1) columns

unfoldable pub new_statistics : ℕ → ℕ → ℕ → R IndexStatistics
new_statistics columns key_columns expected_rows =
    if not (leb 1 columns && leb columns 8) || key_columns == 0 || ltb columns key_columns
    then err invalid_column_count
    else ok (record {
      columns = columns;
      key_columns = key_columns;
      expected_rows = expected_rows;
      rows = 0;
      periodic_interval = expected_rows / (sample_count / 3 + 1) + 1;
      next_periodic_row = expected_rows / (sample_count / 3 + 1) + 1;
      random =
          bit_xor (1755223597 * columns % 2 ^ 32) (3499378021 * (expected_rows % 2 ^ 32) % 2 ^ 32);
      current = default_sample;
      best = new_best 8 0 columns;
      samples = [];
      minimum = 0;
      maximum_equal_zero = 0;
    })

-- `better_after`: the first of `n` columns from `column` on that differs, or the hash.
unfoldable pub better_from : ℕ → ℕ → Sample → Sample → Bool
better_from zero column new old = ltb old.hash new.hash
better_from (suc n) column new old =
    let rest = better_from n (column + 1) new old in
    if at new.equal column == at old.equal column
    then rest
    else ltb (at old.equal column) (at new.equal column)

abbrev pub better_after : ℕ → Sample → Sample → Bool
better_after columns new old = better_from (columns - (new.column + 1)) (new.column + 1) new old

unfoldable pub better : ℕ → Sample → Sample → Bool
better columns new old =
    let new_equal = at new.equal new.column in
    let old_equal = at old.equal old.column in
    ltb old_equal new_equal
    || (new_equal == old_equal
        && (ltb new.column old.column
            || (new.column == old.column && better_after columns new old)))

-- What the search for a sample to upgrade found: a periodic sample, or a candidate with its index.
pub data Search : Type 0 where
  stop : Search
  candidate : Option (ℕ × Sample) → Search

abbrev pub better_or_first : ℕ → Sample → Option (ℕ × Sample) → Bool
better_or_first columns old none = true
better_or_first columns old (some (_, previous)) = better columns old previous

abbrev pub search_step : ℕ → ℕ → ℕ → Sample → Search → Search
search_step columns column index old stop = stop
search_step columns column index old (candidate upgrade) =
    if at old.equal column == 0
    then (if old.periodic
        then stop
        else candidate (if better_or_first columns old upgrade then some (index, old) else upgrade))
    else candidate upgrade

-- The samples from the last to the first; `index` is that of the head.
unfoldable pub search_upgrade : ℕ → ℕ → ℕ → List Sample → Search
search_upgrade columns column index [] = candidate none
search_upgrade columns column index (old ∷ later) =
    search_step columns column index old (search_upgrade columns column (index + 1) later)

abbrev pub minimum_step : ℕ → ℕ → Sample → Option (ℕ × Sample) → Option (ℕ × Sample)
minimum_step columns index sample none = if sample.periodic then none else some (index, sample)
minimum_step columns index sample (some (i, previous)) =
    if not sample.periodic && better columns previous sample
    then some (index, sample)
    else some (i, previous)

unfoldable pub minimum_loop : ℕ → ℕ → List Sample → Option (ℕ × Sample) → Option (ℕ × Sample)
minimum_loop columns index [] minimum = minimum
minimum_loop columns index (sample ∷ later) minimum =
    minimum_loop columns (index + 1) later (minimum_step columns index sample minimum)

unfoldable pub find_minimum : IndexStatistics → R IndexStatistics
find_minimum s =
    if not (length s.samples == sample_count)
    then ok s
    else (ok_or (minimum_loop s.columns 0 s.samples none) stats_panicked >>= λ m.
        ok (record s { minimum = m.0 }))

abbrev pub fill : ℕ → ℕ → List ℕ → List ℕ
fill (suc n) value (x ∷ xs) = value ∷ fill n value xs
fill _ value xs = xs

-- `Vec::remove`, which panics out of range.
unfoldable pub remove : ℕ → List Sample → Option (List Sample)
remove i [] = none
remove zero (x ∷ xs) = some xs
remove (suc i) (x ∷ xs) = velr.Base.◌>>=◌ (remove i xs) (λ rest. some (x ∷ rest))

abbrev pub upgrade_sample : ℕ → Sample → List Sample → List Sample
upgrade_sample i new [] = []
upgrade_sample zero new (old ∷ later) =
    record old { column = new.column; equal = put old.equal new.column (at new.equal new.column) }
    ∷ later
upgrade_sample (suc i) new (old ∷ later) = old ∷ upgrade_sample i new later

abbrev pub room_for_one : IndexStatistics → R (List Sample)
room_for_one s =
    if length s.samples == sample_count
    then ok_or (remove s.minimum s.samples) stats_panicked
    else ok s.samples

unfoldable pub add_sample : IndexStatistics → Sample → ℕ → R IndexStatistics
add_sample s new equal_zero = room_for_one s >>= λ samples.
    find_minimum
      (record s { samples = samples ++ (record new { equal = fill equal_zero 0 new.equal } ∷ []) })

abbrev pub insert_found : IndexStatistics → Sample → ℕ → Search → R IndexStatistics
insert_found s new equal_zero stop = ok s
insert_found s new equal_zero (candidate (some (index, _))) =
    find_minimum (record s { samples = upgrade_sample index new s.samples })
insert_found s new equal_zero (candidate none) = add_sample s new equal_zero

unfoldable pub insert_sample : IndexStatistics → Sample → ℕ → R IndexStatistics
insert_sample s new equal_zero =
    let s' = record s { maximum_equal_zero = max s.maximum_equal_zero equal_zero } in
    if new.periodic
    then add_sample s' new equal_zero
    else insert_found s' new equal_zero (search_upgrade s.columns new.column 0 s.samples)

abbrev pub sample_at : List Sample → ℕ → Option Sample
sample_at [] i = none
sample_at (x ∷ xs) zero = some x
sample_at (x ∷ xs) (suc i) = sample_at xs i

abbrev pub put_sample : List Sample → ℕ → Sample → List Sample
put_sample [] i x = []
put_sample (y ∷ ys) zero x = x ∷ ys
put_sample (y ∷ ys) (suc i) x = y ∷ put_sample ys i x

-- One column of `push_previous`: the best sample of the column gets its count of equal keys.
abbrev pub previous_best : IndexStatistics → ℕ → Sample → R IndexStatistics
previous_best s column best =
    let s' = record s { best = put_sample s.best column best } in
    if ltb (length s.samples) sample_count
    then insert_sample s' best column
    else (ok_or (sample_at s.samples s.minimum) stats_panicked >>= λ worst.
        if better s.columns best worst then insert_sample s' best column else ok s')

unfoldable pub previous_step : IndexStatistics → ℕ → R IndexStatistics
previous_step s column = ok_or (sample_at s.best column) stats_panicked >>= λ best.
    previous_best s column
      (record best { equal = put best.equal column (at s.current.equal column) })

-- The columns `changed + n - 1` to `changed`.
unfoldable pub previous_loop : ℕ → ℕ → IndexStatistics → R IndexStatistics
previous_loop zero changed s = ok s
previous_loop (suc n) changed s = previous_step s (changed + n) >>= λ t. previous_loop n changed t

-- Counts that were not known yet, in `n` columns from `column` on.
abbrev pub settle : ℕ → ℕ → List ℕ → List ℕ → List ℕ
settle zero column equal sample_equal = sample_equal
settle (suc n) column equal sample_equal = settle n (column + 1) equal (
    if at sample_equal column == 0 then put sample_equal column (at equal column) else sample_equal)

abbrev pub settle_sample : ℕ → ℕ → List ℕ → Sample → Sample
settle_sample n column equal sample = record sample { equal = settle n column equal sample.equal }

unfoldable pub settle_samples : IndexStatistics → ℕ → IndexStatistics
settle_samples s changed =
    if ltb changed s.maximum_equal_zero
    then record s {
      samples = map (settle_sample (s.columns - changed) changed s.current.equal) s.samples;
      maximum_equal_zero = changed;
    }
    else s

unfoldable pub push_previous : IndexStatistics → ℕ → R IndexStatistics
push_previous s changed =
    previous_loop (s.columns - 1 - changed) changed s >>= λ t. ok (settle_samples t changed)

-- The columns below `n` have one more equal key.
unfoldable pub count_equal : ℕ → Sample → Sample
count_equal zero c = c
count_equal (suc column) c =
    let d = count_equal column c in
    record d { equal = put d.equal column (add64 (at d.equal column) 1) }

-- A new key begins in `n` columns from `column` on.
unfoldable pub count_new : ℕ → ℕ → Sample → Sample
count_new zero column c = c
count_new (suc n) column c = count_new n (column + 1) (record c {
  distinct_less = put c.distinct_less column (add64 (at c.distinct_less column) 1);
  less = put c.less column (add64 (at c.less column) (at c.equal column));
  equal = put c.equal column 1;
})

-- The counts after a row.
unfoldable pub advance : IndexStatistics → ℕ → R IndexStatistics
advance s changed =
    if s.rows == 0
    then (if changed == 0
        then ok
            (record s { current = record s.current { equal = fill s.columns 1 s.current.equal } })
        else err first_must_change_zero)
    else (push_previous s changed >>= λ t. ok (record t {
      current = count_new (t.columns - changed) changed (count_equal changed t.current);
    }))

-- A periodic sample when its row has come.
unfoldable pub push_periodic : IndexStatistics → R IndexStatistics
push_periodic s =
    if s.rows == s.next_periodic_row
    then (insert_sample
          (record s {
            next_periodic_row =
                if ltb (s.next_periodic_row + s.periodic_interval) (2 ^ 64)
                then s.next_periodic_row + s.periodic_interval
                else 0;
            current = record s.current { periodic = true; column = 0 };
          })
          (record s.current { periodic = true; column = 0 }) (s.columns - 1)
        >>= λ t. ok (record t { current = record t.current { periodic = false } }))
    else ok s

-- The best sample of each column, for `n` columns from `column` on.
unfoldable pub choose_best : ℕ → ℕ → ℕ → IndexStatistics → R IndexStatistics
choose_best zero column changed s = ok s
choose_best (suc n) column changed s =
    let c = record s.current { column = column } in
    ok_or (sample_at s.best column) stats_panicked >>= λ old.
    choose_best n (column + 1) changed (record s {
      current = c;
      best =
          if leb changed column || better_after s.columns c old
          then put_sample s.best column c
          else s.best;
    })

abbrev pub with_row : IndexStatistics → ℕ → IndexStatistics
with_row s witness =
    let random = (s.random * 1103515245 + 12345) % 2 ^ 32 in
    record s {
      rows = s.rows + 1;
      random = random;
      current = record s.current { witness = witness; hash = random };
    }

unfoldable pub push_row : IndexStatistics → ℕ → ℕ → R IndexStatistics
push_row s first_changed witness =
    if leb s.columns first_changed || leb s.expected_rows s.rows
    then err invalid_stream
    else (advance s first_changed >>= λ t.
        push_periodic (with_row t witness) >>= λ u. choose_best (u.columns - 1) 0 first_changed u)

pub record IndexSample : Type 0 where
  pub witness : ℕ
  pub equal : List ℕ
  pub less : List ℕ
  pub distinct_less : List ℕ

pub record FullIndexStatistics : Type 0 where
  pub stat1 : List ℕ
  pub samples : List IndexSample

abbrev pub index_sample : ℕ → Sample → IndexSample
index_sample columns sample = record {
  witness = sample.witness;
  equal = take columns sample.equal;
  less = take columns sample.less;
  distinct_less = take columns sample.distinct_less;
}

-- The average number of rows of a key, rounded up, but 1 if it is at most 1.1.
unfoldable pub average : ℕ → ℕ → ℕ
average rows distinct =
    let a = rows / distinct + (if rows % distinct == 0 then 0 else 1) in
    if a == 2 && leb (rows * 10) (distinct * 11) then 1 else a

unfoldable pub averages : ℕ → ℕ → IndexStatistics → List ℕ
averages zero column s = []
averages (suc n) column s =
    average s.rows (add64 (at s.current.distinct_less column) 1) ∷ averages n (column + 1) s

unfoldable pub finish_statistics : IndexStatistics → R FullIndexStatistics
finish_statistics s =
    if not (s.rows == s.expected_rows)
    then err unexpected_row_count
    else ((if s.rows == 0 then ok s else push_previous s 0) >>= λ t. ok (record {
      stat1 = s.rows ∷ averages s.key_columns 0 s;
      samples = map (index_sample s.columns) t.samples;
    }))
