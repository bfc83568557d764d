-- ===== src/Stats/Marks.antt =====
-- The periodic sample and the best samples of a row.
use velr.Base.{
  ℕ, zero, suc, ◌+◌, ◌-◌, ◌*◌, ◌^◌, ◌≤◌, ◌<◌, Bool, true, false, ◌||◌, List, Option, length, leb,
  ltb, ◌==◌, ==_iff, ==→ne, if◌then◌else◌, Bool-cases, ◌⊎◌, inl, inr, ◌≡◌, refl, ap, ◌∙◌, arith,
}
use velr.Base.Result.{ok, ◌>>=◌, ok_or}
use velr.Stats.{
  R, stats_panicked, Sample, IndexStatistics, better_after, put_sample, insert_sample,
  push_periodic, choose_best,
}
use velr.Stats.Sampler.{IsSampling, insert_sample-ok, periodic_count}
use velr.Stats.Previous.{sample_at-some, put_sample-plain, length-put_sample}

-- The best samples of a row.
pub record Chosen (s : IndexStatistics) (r : R IndexStatistics) : Type 0 where
  pub best : List Sample
  pub column : ℕ
  pub is_ok : r ≡ ok (record s { best = best; current = record s.current { column = column } })
  pub eight : length best ≡ length s.best
  pub plain : periodic_count best ≡ 0

pub choose_best-ok :
    (n column changed : ℕ) (s : IndexStatistics)
    → column + n ≤ length s.best
    → periodic_count s.best ≡ 0
    → s.current.periodic ≡ false
    → Chosen s (choose_best n column changed s)
unfolding choose_best
choose_best-ok zero column changed s room plain usual = record {
  best = s.best;
  column = s.current.column;
  is_ok = refl;
  eight = refl;
  plain = plain;
}
choose_best-ok (suc n) column changed s room plain usual =
    let (old, found) = sample_at-some s.best column (omega arith) in
    let c : Sample = record s.current { column = column } in
    let take_it : Bool = leb changed column || better_after s.columns c old in
    let best : List Sample = if take_it then put_sample s.best column c else s.best in
    let len : length best ≡ length s.best =
      length-if take_it (put_sample s.best column c) s.best (length-put_sample s.best column c) in
    let none_regular : periodic_count best ≡ 0 =
      plain-if take_it (put_sample s.best column c) s.best
        (put_sample-plain s.best column c plain usual) plain in
    let r =
      choose_best-ok n (column + 1) changed (record s { current = c; best = best }) (omega arith)
        none_regular usual in
    record {
      best = r.best;
      column = r.column;
      is_ok =
          ap
            (λ (o : Option Sample). ok_or o stats_panicked >>= λ old.
              choose_best n (column + 1) changed (record s {
                current = c;
                best =
                    if leb changed column || better_after s.columns c old
                    then put_sample s.best column c
                    else s.best;
              }))
            found
          ∙ r.is_ok;
      eight = r.eight ∙ len;
      plain = r.plain;
    }
  where
    length-if :
        (b : Bool) (xs ys : List Sample)
        → length xs ≡ length ys
        → length (if b then xs else ys) ≡ length ys
    length-if true xs ys e = e
    length-if false xs ys e = refl

    plain-if :
        (b : Bool) (xs ys : List Sample)
        → periodic_count xs ≡ 0
        → periodic_count ys ≡ 0
        → periodic_count (if b then xs else ys) ≡ 0
    plain-if true xs ys e f = e
    plain-if false xs ys e f = f

-- After `push_periodic`.
pub record Marked (s : IndexStatistics) (r : R IndexStatistics) : Type 0 where
  pub samples : List Sample
  pub minimum : ℕ
  pub zeros : ℕ
  pub best : List Sample
  pub next : ℕ
  pub column : ℕ
  pub is_ok :
      r
      ≡ ok (record s {
        samples = samples;
        minimum = minimum;
        maximum_equal_zero = zeros;
        best = best;
        next_periodic_row = next;
        current = record s.current { column = column; periodic = false };
      })
  pub periodics : ℕ
  pub few : length samples ≤ 24
  pub low : minimum < 24
  pub regular : periodic_count samples ≤ periodics
  pub eight : length best ≡ length s.best
  pub plain : periodic_count best ≡ 0
  pub spaced : periodics * s.periodic_interval ≤ s.rows
  pub next_is : ((next ≡ (periodics + 1) * s.periodic_interval) × (s.rows < next)) ⊎ (next ≡ 0)

-- The row of a periodic sample and the one after it.
later_row_is : (p interval : ℕ) → (p + 1) * interval + interval ≡ (p + 1 + 1) * interval
later_row_is p interval = omega arith

pub push_periodic-ok :
    (s : IndexStatistics) (p : ℕ)
    → IsSampling s p
    → p + 1 < 24
    → 1 ≤ s.periodic_interval
    → 1 ≤ s.rows
    → p * s.periodic_interval ≤ s.rows
    → ((s.next_periodic_row ≡ (p + 1) * s.periodic_interval) × (s.rows ≤ s.next_periodic_row))
      ⊎ (s.next_periodic_row ≡ 0)
    → s.current.periodic ≡ false
    → Marked s (push_periodic s)
unfolding push_periodic
push_periodic-ok s p w h some_interval some_row spaced next usual =
    elim (Bool-cases (s.rows == s.next_periodic_row)) [
      | inl now ↦
          let e : s.rows ≡ s.next_periodic_row = (==_iff s.rows s.next_periodic_row).0 now in
          let here : s.next_periodic_row ≡ (p + 1) * s.periodic_interval = elim next [
            | inl n ↦ n.0
            | inr n ↦ absurd (omega arith)
          ] in
          let at_here : s.rows ≡ (p + 1) * s.periodic_interval = e ∙ here in
          let after : ℕ =
            if ltb (s.next_periodic_row + s.periodic_interval) (2 ^ 64)
            then s.next_periodic_row + s.periodic_interval
            else 0 in
          let c : Sample = record s.current { periodic = true; column = 0 } in
          let s' = record s { next_periodic_row = after; current = c } in
          let a =
            insert_sample-ok s' c (s.columns - 1) p
              (record { few = w.few; low = w.low; periodics = w.periodics; plain = w.plain }) h in
          record {
            samples = a.samples;
            minimum = a.minimum;
            zeros = a.zeros;
            best = a.best;
            next = after;
            column = 0;
            is_ok =
                ap
                  (λ (b : Bool).
                    if b
                    then (insert_sample s' c (s.columns - 1) >>= λ t.
                        ok (record t { current = record t.current { periodic = false } }))
                    else ok s)
                  now
                ∙ ap
                    (λ (m : R IndexStatistics).
                      m >>= λ t. ok (record t { current = record t.current { periodic = false } }))
                    a.is_ok;
            periodics = p + 1;
            few = a.few;
            low = a.low;
            regular = a.periodics;
            eight = a.eight;
            plain = a.plain;
            spaced = omega (arith, at_here);
            next_is = elim (Bool-cases (ltb (s.next_periodic_row + s.periodic_interval) (2 ^ 64))) [
              | inl fits ↦
                  let is_after : after ≡ s.next_periodic_row + s.periodic_interval = rw fits refl in
                  let product = later_row_is p s.periodic_interval in
                  inl (
                    is_after ∙ ap (λ (x : ℕ). x + s.periodic_interval) here ∙ product,
                    omega (arith, is_after),
                  )
              | inr over ↦ inr (rw over refl)
            ];
          }
      | inr other ↦
          let ne = ==→ne s.rows s.next_periodic_row other in
          record {
            samples = s.samples;
            minimum = s.minimum;
            zeros = s.maximum_equal_zero;
            best = s.best;
            next = s.next_periodic_row;
            column = s.current.column;
            is_ok =
                ap
                  (λ (b : Bool).
                    if b
                    then (insert_sample
                          (record s {
                            next_periodic_row =
                                if ltb (s.next_periodic_row + s.periodic_interval) (2 ^ 64)
                                then s.next_periodic_row + s.periodic_interval
                                else 0;
                            current = record s.current { periodic = true; column = 0 };
                          })
                          (record s.current { periodic = true; column = 0 }) (s.columns - 1)
                        >>= λ t. ok (record t { current = record t.current { periodic = false } }))
                    else ok s)
                  other
                ∙ ap (λ (b : Bool). ok (record s { current = record s.current { periodic = b } }))
                    usual;
            periodics = p;
            few = w.few;
            low = w.low;
            regular = w.periodics;
            eight = refl;
            plain = w.plain;
            spaced = spaced;
            next_is = elim next [ inl n ↦ inl (n.0, let le = n.1 in omega arith) | inr n ↦ inr n ];
          }
    ]
