-- ===== src/Stats/Runs.antt =====
-- A run of the statistics: a new state, rows, and the end.
use velr.Base.{
  ℕ, zero, suc, ◌+◌, ◌*◌, ◌/◌, ◌%◌, ◌^◌, ◌≤◌, ◌<◌, true, false, not, ◌&&◌, ◌||◌, List, [], ◌∷◌, map,
  length, replicate, leb, ltb, ◌==◌, ==_iff, ne→==, le→leb, ge→ltb, inl, ◌≡◌, refl, sym, ap, ◌∙◌,
  arith,
}
use Prim.Native.Nat.{bit_xor}
use velr.Base.Result.{ok, ◌>>=◌}
use velr.Sort.Keys.{at}
use velr.Stats.{
  R, Sample, IndexStatistics, new_statistics, new_best, default_sample, add64, push_row,
  index_sample, FullIndexStatistics, averages, finish_statistics,
}
use velr.Stats.Averages.{AreAverages, average-IsAverage}
use velr.Stats.Counts.{groups, groups-length}
use velr.Stats.Previous.{push_previous-ok}
use velr.Stats.Reached.{IsReached, SameRun, few_periodics}
use velr.Stats.Rows.{push_row-accepted}

at-zeros : (n c : ℕ) → at (replicate n 0) c ≡ 0
at-zeros zero c = refl
at-zeros (suc n) zero = refl
at-zeros (suc n) (suc c) = at-zeros n c

abbrev pub started : ℕ → ℕ → ℕ → IndexStatistics
started columns key_columns expected_rows = record {
  columns = columns;
  key_columns = key_columns;
  expected_rows = expected_rows;
  rows = 0;
  periodic_interval = expected_rows / (24 / 3 + 1) + 1;
  next_periodic_row = expected_rows / (24 / 3 + 1) + 1;
  random = bit_xor (1755223597 * columns % 2 ^ 32) (3499378021 * (expected_rows % 2 ^ 32) % 2 ^ 32);
  current = default_sample;
  best = new_best 8 0 columns;
  samples = [];
  minimum = 0;
  maximum_equal_zero = 0;
}

pub new_statistics-IsReached :
    (columns key_columns expected_rows : ℕ)
    → 1 ≤ columns
    → columns ≤ 8
    → 1 ≤ key_columns
    → key_columns ≤ columns
    → expected_rows < 2 ^ 64
    → (new_statistics columns key_columns expected_rows
        ≡ ok (started columns key_columns expected_rows))
      × IsReached (started columns key_columns expected_rows) []
unfolding new_statistics
new_statistics-IsReached columns key_columns expected_rows some_columns few some_key key_in word = (
  rw valid refl,
  record {
    some_columns = some_columns;
    few_columns = few;
    some_key = some_key;
    key_in = key_in;
    rows_are = refl;
    within = omega arith;
    word = word;
    interval_is = refl;
    best_eight = refl;
    periodics = 0;
    sampling = record {
      few = omega arith;
      low = omega arith;
      periodics = omega arith;
      plain = refl;
    };
    spaced = omega arith;
    next_is = inl (omega arith, omega arith);
    arrays = record {
      equal_length = refl;
      less_length = refl;
      distinct_length = refl;
      plain = refl;
    };
    counted = λ c small. record {
      equal_is = at-zeros 8 c;
      less_is = omega (arith, at-zeros 8 c);
      distinct_is = at-zeros 8 c;
      some_group = λ h. absurd (omega arith);
    };
  },
)
  where
    valid :
        (not (leb 1 columns && leb columns 8) || key_columns == 0 || ltb columns key_columns)
        ≡ false
    valid =
        rw
          (
            le→leb 1 columns some_columns,
            le→leb columns 8 few,
            ne→== key_columns 0 (λ e. omega arith),
            ge→ltb columns key_columns key_in,
          )
          refl

-- The rows of a run, as pairs of their changed fields and witnesses, the latest first.
abbrev pub push_rows : IndexStatistics → List (ℕ × ℕ) → R IndexStatistics
push_rows s [] = ok s
push_rows s (row ∷ earlier) = push_rows s earlier >>= λ t. push_row t row.0 row.1

-- Changed fields of a stream: all are columns, and that of the earliest row is zero.
abbrev pub AreChanges : ℕ → List ℕ → Type 0
AreChanges columns [] = Unit {0}
AreChanges columns (changed ∷ earlier) =
    (changed < columns) × (length earlier ≡ 0 → changed ≡ 0) × AreChanges columns earlier

push_rows-IsReached :
    (s : IndexStatistics) (rows : List (ℕ × ℕ))
    → IsReached s []
    → AreChanges s.columns (map (λ row. row.0) rows)
    → length rows ≤ s.expected_rows
    → (t : IndexStatistics) × (push_rows s rows ≡ ok t)
      × IsReached t (map (λ row. row.0) rows)
      × SameRun s t
push_rows-IsReached s [] r h room =
    (s, refl, r, record { expected = refl; columns = refl; keys = refl })
push_rows-IsReached s (row ∷ earlier) r (low, first, h) room =
    let (t, pushed, rt, same) = push_rows-IsReached s earlier r h (omega arith) in
    let rows_are = rt.rows_are in
    let same_rows = same.expected in
    let same_columns = same.columns in
    let len = length-changes earlier in
    let (u, one, ru, next) =
      push_row-accepted t (map (λ row. row.0) earlier) row.0 row.1 rt (omega arith) (omega arith)
        (λ e. first (omega arith)) in
    (
      u,
      ap (λ (m : R IndexStatistics). m >>= λ t. push_row t row.0 row.1) pushed ∙ one,
      ru,
      record {
        expected = next.expected ∙ same.expected;
        columns = next.columns ∙ same.columns;
        keys = next.keys ∙ same.keys;
      },
    )
  where
    length-changes : (rows : List (ℕ × ℕ)) → length (map (λ row. row.0) rows) ≡ length rows
    length-changes [] = refl
    length-changes (x ∷ xs) = ap suc (length-changes xs)

length-averages : (n column : ℕ) (s : IndexStatistics) → length (averages n column s) ≡ n
unfolding averages
length-averages zero column s = refl
length-averages (suc n) column s = ap suc (length-averages n (column + 1) s)

averages-AreAverages :
    (n column : ℕ) (s : IndexStatistics) (changes : List ℕ)
    → IsReached s changes
    → 0 < length changes
    → column + n ≤ s.columns
    → AreAverages column changes (averages n column s)
unfolding averages
averages-AreAverages zero column s changes r some_rows h = tt
averages-AreAverages (suc n) column s changes r some_rows h =
    let within = r.within in
    let word = r.word in
    let k = r.counted column (omega arith) in
    let distinct_is = k.distinct_is in
    let some_group = k.some_group some_rows in
    let rows_are = r.rows_are in
    let same : add64 (at s.current.distinct_less column) 1 ≡ groups column changes =
      omega (arith, groups-length column changes) in
    (
      rw (same, rows_are)
          (average-IsAverage (length changes) (groups column changes) some_group
            (groups-length column changes)),
      averages-AreAverages n (column + 1) s changes r some_rows (omega arith),
    )

length-samples :
    (columns : ℕ) (xs : List Sample) → length (map (index_sample columns) xs) ≡ length xs
length-samples columns [] = refl
length-samples columns (x ∷ xs) = ap suc (length-samples columns xs)

finish_statistics-counted :
    (s : IndexStatistics) (changes : List ℕ)
    → IsReached s changes
    → 0 < length changes
    → s.rows ≡ s.expected_rows
    → (f : FullIndexStatistics) × (finish_statistics s ≡ ok f)
      × (f.stat1 ≡ s.rows ∷ averages s.key_columns 0 s)
      × (length f.samples ≤ 24)
unfolding finish_statistics
finish_statistics-counted s changes r some_rows done =
    let rows_are = r.rows_are in
    let spaced = r.spaced in
    let eight = r.best_eight in
    let few_columns = r.few_columns in
    let p8 =
      few_periodics r.periodics s.expected_rows s.periodic_interval r.interval_is (omega arith) in
    let key_in = r.key_in in
    let a = push_previous-ok s 0 r.periodics r.sampling (omega arith) (omega arith) (omega arith) in
    let full : (s.rows == s.expected_rows) ≡ true = (==_iff s.rows s.expected_rows).1 done in
    let none_empty : (s.rows == 0) ≡ false = ne→== s.rows 0 (λ e. omega arith) in
    let few = a.few in
    (
      record {
        stat1 = s.rows ∷ averages s.key_columns 0 s;
        samples = map (index_sample s.columns) a.samples;
      },
      rw (full, none_empty) (rw a.is_ok refl),
      refl,
      omega (arith, length-samples s.columns a.samples),
    )

abbrev pub statistics_of : ℕ → ℕ → List (ℕ × ℕ) → R FullIndexStatistics
statistics_of columns key_columns rows =
    new_statistics columns key_columns (length rows) >>= λ s. push_rows s rows >>= finish_statistics

length-fields : (rows : List (ℕ × ℕ)) → length (map (λ row. row.0) rows) ≡ length rows
length-fields [] = refl
length-fields (x ∷ xs) = ap suc (length-fields xs)

-- For any stream of at least one row and fewer than 2 ^ 64, of up to eight columns, the statistics are
-- made without an error. stat1 is the number of rows and one average for each key column: 1 if the rows
-- are at most 1.1 times the groups of keys that agree up to the column, and else the least number that,
-- times the groups, is at least the rows. There are at most 24 samples.
pub finish_statistics-AreAverages :
    (columns key_columns : ℕ) (rows : List (ℕ × ℕ))
    → 1 ≤ columns
    → columns ≤ 8
    → 1 ≤ key_columns
    → key_columns ≤ columns
    → 0 < length rows
    → length rows < 2 ^ 64
    → AreChanges columns (map (λ row. row.0) rows)
    → (f : FullIndexStatistics) × (averages : List ℕ) × (statistics_of columns key_columns rows
        ≡ ok f)
      × (f.stat1 ≡ length rows ∷ averages)
      × (length averages ≡ key_columns)
      × AreAverages 0 (map (λ row. row.0) rows) averages
      × (length f.samples ≤ 24)
finish_statistics-AreAverages columns key_columns rows some_columns few some_key key_in some_rows
      word h =
    let (made, reached) =
      new_statistics-IsReached columns key_columns (length rows) some_columns few some_key key_in
        word in
    let s = started columns key_columns (length rows) in
    let (t, pushed, rt, same) = push_rows-IsReached s rows reached h (omega arith) in
    let rows_are = rt.rows_are in
    let expected = same.expected in
    let key_in_t = rt.key_in in
    let all_rows : t.rows ≡ length rows = rows_are ∙ length-fields rows in
    let some_fields : 0 < length (map (λ row. row.0) rows) = omega (arith, length-fields rows) in
    let (f, finished, stat, samples) =
      finish_statistics-counted t (map (λ row. row.0) rows) rt some_fields
        (all_rows ∙ sym expected) in
    (
      f,
      averages t.key_columns 0 t,
      ap (λ (m : R IndexStatistics). m >>= λ s. push_rows s rows >>= finish_statistics) made
          ∙ ap (λ (m : R IndexStatistics). m >>= finish_statistics) pushed
          ∙ finished,
      stat ∙ ap (λ (n : ℕ). n ∷ averages t.key_columns 0 t) all_rows,
      length-averages t.key_columns 0 t ∙ same.keys,
      averages-AreAverages t.key_columns 0 t (map (λ row. row.0) rows) rt some_fields (omega arith),
      samples,
    )
