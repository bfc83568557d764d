-- ===== src/Stats/Rows.antt =====
-- Pushing a row and finishing: every branch.
use velr.Base.{
  ℕ, ◌+◌, ◌-◌, ◌*◌, ◌≤◌, ◌<◌, Bool, false, ◌||◌, List, ◌∷◌, leb, if◌then◌else◌, ◌⊎◌, inl, inr, ◌≡◌,
  refl, ap, ◌∙◌, arith,
}
use velr.Base.Result.{ok, err, ◌>>=◌}
use velr.Stats.{
  R, invalid_stream, IndexStatistics, advance, with_row, push_periodic, choose_best, push_row,
}
use velr.Stats.Reached.{IsReached, SameRun, few_periodics, advance-ok}
use velr.Stats.Marks.{choose_best-ok, push_periodic-ok}

accepted :
    (s : IndexStatistics) (changed witness : ℕ)
    → changed < s.columns
    → s.rows < s.expected_rows
    → (t : IndexStatistics) → advance s changed ≡ ok t
    → (v : IndexStatistics) → push_periodic (with_row t witness) ≡ ok v
    → push_row s changed witness ≡ choose_best (v.columns - 1) 0 changed v
unfolding push_row
accepted s changed witness low more t e v f =
    ap
      (λ (b : Bool).
        if b
        then err invalid_stream
        else (advance s changed >>= λ t.
            push_periodic (with_row t witness) >>= λ u. choose_best (u.columns - 1) 0 changed u))
      valid
    ∙ ap
        (λ (m : R IndexStatistics). m >>= λ t.
          push_periodic (with_row t witness) >>= λ u. choose_best (u.columns - 1) 0 changed u)
        e
    ∙ ap (λ (m : R IndexStatistics). m >>= λ u. choose_best (u.columns - 1) 0 changed u) f
  where
    valid : (leb s.columns changed || leb s.expected_rows s.rows) ≡ false
    valid = ground arith

pub push_row-accepted :
    (s : IndexStatistics) (changes : List ℕ) (changed witness : ℕ)
    → IsReached s changes
    → changed < s.columns
    → s.rows < s.expected_rows
    → (s.rows ≡ 0 → changed ≡ 0)
    → (t : IndexStatistics) × (push_row s changed witness ≡ ok t)
      × IsReached t (changed ∷ changes)
      × SameRun s t
unfolding push_row
push_row-accepted s changes changed witness r low more first =
    let a = advance-ok s changes changed r low more first in
    let t = record s {
      samples = a.samples;
      minimum = a.minimum;
      maximum_equal_zero = a.zeros;
      best = a.best;
      current = a.current;
    } in
    let u = with_row t witness in
    let spaced = r.spaced in
    let interval_is = r.interval_is in
    let p8 =
      few_periodics r.periodics s.expected_rows s.periodic_interval r.interval_is (omega arith) in
    let next : ((s.next_periodic_row ≡ (r.periodics + 1) * s.periodic_interval)
          × (s.rows + 1 ≤ s.next_periodic_row))
        ⊎ (s.next_periodic_row ≡ 0) =
      elim r.next_is [ inl n ↦ inl (n.0, let below = n.1 in omega arith) | inr n ↦ inr n ] in
    let m =
      push_periodic-ok u r.periodics
        (record { few = a.few; low = a.low; periodics = a.periodics; plain = a.plain })
        (omega arith) (omega arith) (omega arith) (omega arith) next a.arrays.plain in
    let v = record u {
      samples = m.samples;
      minimum = m.minimum;
      maximum_equal_zero = m.zeros;
      best = m.best;
      next_periodic_row = m.next;
      current = record u.current { column = m.column; periodic = false };
    } in
    let eight = m.eight ∙ a.eight in
    let few_columns = r.few_columns in
    let c = choose_best-ok (v.columns - 1) 0 changed v (omega arith) m.plain refl in
    let done = record v { best = c.best; current = record v.current { column = c.column } } in
    let rows_are = r.rows_are in
    (
      done,
      accepted s changed witness low more t a.is_ok v m.is_ok ∙ c.is_ok,
      record {
        some_columns = r.some_columns;
        few_columns = r.few_columns;
        some_key = r.some_key;
        key_in = r.key_in;
        rows_are = omega arith;
        within = omega arith;
        word = r.word;
        interval_is = r.interval_is;
        best_eight = c.eight ∙ eight;
        periodics = m.periodics;
        sampling = record { few = m.few; low = m.low; periodics = m.regular; plain = c.plain };
        spaced = m.spaced;
        next_is = m.next_is;
        arrays = record {
          equal_length = a.arrays.equal_length;
          less_length = a.arrays.less_length;
          distinct_length = a.arrays.distinct_length;
          plain = refl;
        };
        counted = λ x small.
            let k = a.counted x small in
            record {
              equal_is = k.equal_is;
              less_is = k.less_is;
              distinct_is = k.distinct_is;
              some_group = k.some_group;
            };
      },
      record { expected = refl; columns = refl; keys = refl },
    )
