-- ===== src/Stats/Reached.antt =====
-- The state after some rows: the counts are those of the rows, and pushing a row never panics.
use velr.Base.{
  ℕ, ◌+◌, ◌-◌, ◌*◌, ◌/◌, ◌^◌, ◌≤◌, ◌<◌, Bool, true, false, List, [], ◌∷◌, length, leb, ◌==◌, ==_iff,
  ==→ne, le→leb, if◌then◌else◌, Bool-cases, ◌⊎◌, inl, inr, ◌≡◌, refl, sym, ap, ◌∙◌, arith, subst,
}
use velr.Base.Result.{ok, err, ◌>>=◌}
use native.Mathlib.Nat.{mul-le-mul_right}
use velr.Stats.{
  R, first_must_change_zero, Sample, IndexStatistics, fill, push_previous, count_equal, count_new,
  advance,
}
use velr.Stats.Counts.{Counted, Arrays, length-fill, at-fill, counted_Arrays, count_row}
use velr.Stats.Sampler.{IsSampling, periodic_count}
use velr.Stats.Previous.{push_previous-ok}

-- What the parts of `push_row` leave as it is, and what they keep up.
pub record IsReached (s : IndexStatistics) (changes : List ℕ) : Type 0 where
  pub some_columns : 1 ≤ s.columns
  pub few_columns : s.columns ≤ 8
  pub some_key : 1 ≤ s.key_columns
  pub key_in : s.key_columns ≤ s.columns
  pub rows_are : s.rows ≡ length changes
  pub within : s.rows ≤ s.expected_rows
  pub word : s.expected_rows < 2 ^ 64
  pub interval_is : s.periodic_interval ≡ s.expected_rows / 9 + 1
  pub best_eight : length s.best ≡ 8
  pub periodics : ℕ
  pub sampling : IsSampling s periodics
  pub spaced : periodics * s.periodic_interval ≤ s.rows
  pub next_is :
      ((s.next_periodic_row ≡ (periodics + 1) * s.periodic_interval)
        × (s.rows < s.next_periodic_row))
      ⊎ (s.next_periodic_row ≡ 0)
  pub arrays : Arrays s.current
  pub counted : (c : ℕ) → c < s.columns → Counted s.current changes c

-- What a run was started with.
pub record SameRun (s t : IndexStatistics) : Type 0 where
  pub expected : t.expected_rows ≡ s.expected_rows
  pub columns : t.columns ≡ s.columns
  pub keys : t.key_columns ≡ s.key_columns

-- Periodic samples are further apart than a ninth of the rows.
pub few_periodics : (p n interval : ℕ) → interval ≡ n / 9 + 1 → p * interval ≤ n → p ≤ 8
few_periodics p n interval e h = elim (Bool-cases (leb p 8)) [
  | inl few ↦ ground arith
  | inr many ↦
      let up : 9 * interval ≤ p * interval = mul-le-mul_right interval (ground arith) in
      absurd (omega arith)
]

-- After `advance`.
pub record Advanced (s : IndexStatistics) (p : ℕ) (changes : List ℕ) (r : R IndexStatistics)
    : Type 0 where
  pub samples : List Sample
  pub minimum : ℕ
  pub zeros : ℕ
  pub best : List Sample
  pub current : Sample
  pub is_ok :
      r
      ≡ ok (record s {
        samples = samples;
        minimum = minimum;
        maximum_equal_zero = zeros;
        best = best;
        current = current;
      })
  pub few : length samples ≤ 24
  pub low : minimum < 24
  pub periodics : periodic_count samples ≤ p
  pub eight : length best ≡ 8
  pub plain : periodic_count best ≡ 0
  pub arrays : Arrays current
  pub counted : (c : ℕ) → c < s.columns → Counted current changes c

first_Counted :
    (columns c : ℕ) (current : Sample)
    → Arrays current
    → Counted current [] c
    → c < columns
    → columns ≤ 8
    → Counted (record current { equal = fill columns 1 current.equal }) (0 ∷ []) c
first_Counted columns c current a k small few =
    let eight = a.equal_length in
    let less_is = k.less_is in
    let distinct_is = k.distinct_is in
    let here : leb 0 c ≡ true = le→leb 0 c (omega arith) in
    record {
      equal_is = at-fill columns 1 c current.equal small (omega arith) ∙ sym (rw here refl);
      less_is = rw here (omega arith);
      distinct_is = rw here (omega arith);
      some_group = λ h. rw here (omega arith);
    }

abbrev later_row : IndexStatistics → ℕ → R IndexStatistics
later_row s changed = push_previous s changed >>= λ t.
    ok (record t {
      current = count_new (t.columns - changed) changed (count_equal changed t.current);
    })

no_rows : (changes : List ℕ) → length changes ≡ 0 → changes ≡ []
no_rows [] h = refl
no_rows (x ∷ xs) h = absurd (omega arith)

start_ok :
    (s : IndexStatistics) (changed : ℕ)
    → (s.rows == 0) ≡ true
    → changed ≡ 0
    → advance s changed
      ≡ ok (record s { current = record s.current { equal = fill s.columns 1 s.current.equal } })
unfolding advance
start_ok s changed start e =
    let zero_changed : (changed == 0) ≡ true = (==_iff changed 0).1 e in
    ap
      (λ (b : Bool).
        if b
        then (if changed == 0
            then ok (record s {
              current = record s.current { equal = fill s.columns 1 s.current.equal };
            })
            else err first_must_change_zero)
        else later_row s changed)
      start
    ∙ ap
        (λ (b : Bool).
          if b
          then ok
              (record s { current = record s.current { equal = fill s.columns 1 s.current.equal } })
          else err first_must_change_zero)
        zero_changed

later_ok :
    (s : IndexStatistics) (changed : ℕ)
    → (s.rows == 0) ≡ false
    → (t : IndexStatistics) → push_previous s changed ≡ ok t
    → advance s changed
      ≡ ok (record t {
        current = count_new (t.columns - changed) changed (count_equal changed t.current);
      })
unfolding advance
later_ok s changed later t e =
    ap
      (λ (b : Bool).
        if b
        then (if changed == 0
            then ok (record s {
              current = record s.current { equal = fill s.columns 1 s.current.equal };
            })
            else err first_must_change_zero)
        else later_row s changed)
      later
    ∙ ap
        (λ (m : R IndexStatistics). m >>= λ t. ok (record t {
          current = count_new (t.columns - changed) changed (count_equal changed t.current);
        }))
        e

pub advance-ok :
    (s : IndexStatistics) (changes : List ℕ) (changed : ℕ) (r : IsReached s changes)
    → changed < s.columns
    → s.rows < s.expected_rows
    → (s.rows ≡ 0 → changed ≡ 0)
    → Advanced s r.periodics (changed ∷ changes) (advance s changed)
unfolding advance
advance-ok s changes changed r low more first =
    let few_columns = r.few_columns in
    let word = r.word in
    let rows_are = r.rows_are in
    let w = r.sampling in
    elim (Bool-cases (s.rows == 0)) [
      | inl start ↦
          let none_yet : s.rows ≡ 0 = (==_iff s.rows 0).0 start in
          let zero_changed = first none_yet in
          let empty : changes ≡ [] = no_rows changes (sym rows_are ∙ none_yet) in
          record {
            samples = s.samples;
            minimum = s.minimum;
            zeros = s.maximum_equal_zero;
            best = s.best;
            current = record s.current { equal = fill s.columns 1 s.current.equal };
            is_ok = start_ok s changed start zero_changed;
            few = w.few;
            low = w.low;
            periodics = w.periodics;
            eight = r.best_eight;
            plain = w.plain;
            arrays = record {
              equal_length = length-fill s.columns 1 s.current.equal ∙ r.arrays.equal_length;
              less_length = r.arrays.less_length;
              distinct_length = r.arrays.distinct_length;
              plain = r.arrays.plain;
            };
            counted = λ c small.
                subst
                  (λ xs.
                    Counted (record s.current { equal = fill s.columns 1 s.current.equal })
                      (changed ∷ xs) c)
                  (sym empty)
                  (subst
                    (λ x.
                      Counted (record s.current { equal = fill s.columns 1 s.current.equal })
                        (x ∷ []) c)
                    (sym zero_changed)
                    (first_Counted s.columns c s.current r.arrays
                      (subst (λ xs. Counted s.current xs c) empty (r.counted c small)) small
                      few_columns));
          }
      | inr later ↦
          let eight = r.best_eight in
          let spaced = r.spaced in
          let within = r.within in
          let p8 =
            few_periodics r.periodics s.expected_rows s.periodic_interval r.interval_is
              (omega arith) in
          let a =
            push_previous-ok s changed r.periodics w (omega arith) (omega arith) (omega arith) in
          let some_rows = ==→ne s.rows 0 later in
          record {
            samples = a.samples;
            minimum = a.minimum;
            zeros = a.zeros;
            best = a.best;
            current = count_new (s.columns - changed) changed (count_equal changed s.current);
            is_ok = later_ok s changed later _ a.is_ok;
            few = a.few;
            low = a.low;
            periodics = a.periodics;
            eight = a.eight ∙ eight;
            plain = a.plain;
            arrays = counted_Arrays s.columns changed s.current r.arrays;
            counted = λ c small.
                count_row s.columns changed s.current changes c r.arrays (r.counted c small)
                  (omega arith) (omega arith) low few_columns small;
          }
    ]
