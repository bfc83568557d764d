-- ===== src/Stats/Previous.antt =====
-- What push_previous does to the samples and to the best samples of the columns.
use velr.Base.{
  ℕ, zero, suc, ◌+◌, ◌-◌, ◌≤◌, ◌<◌, Bool, true, false, List, [], ◌∷◌, map, Option, some, length,
  ltb, subst, if◌then◌else◌, Bool-cases, inl, inr, ◌≡◌, refl, sym, ap, ◌∙◌, arith,
}
use velr.Base.Result.{ok, ◌>>=◌, ok_or}
use velr.Sort.Keys.{at, put}
use velr.Stats.{
  R, stats_panicked, Sample, IndexStatistics, sample_count, better, insert_sample, sample_at,
  put_sample, previous_best, previous_step, previous_loop, settle_sample, settle_samples,
  push_previous,
}
use velr.Stats.Sampler.{IsSampling, Sampled, periodic_count, if-Sampled, insert_sample-ok}

-- The best samples.
pub sample_at-some :
    (xs : List Sample) (i : ℕ) → i < length xs → (x : Sample) × (sample_at xs i ≡ some x)
sample_at-some [] i h = absurd (omega arith)
sample_at-some (x ∷ xs) zero h = (x, refl)
sample_at-some (x ∷ xs) (suc i) h = sample_at-some xs i (omega arith)

sample_at-plain :
    (xs : List Sample) (i : ℕ) (x : Sample)
    → sample_at xs i ≡ some x
    → periodic_count xs ≡ 0
    → x.periodic ≡ false
sample_at-plain [] i x e h = cc
sample_at-plain (y ∷ xs) zero x e h = elim (Bool-cases y.periodic) [
  | inl regular ↦ let more : 1 + periodic_count xs ≡ 0 = rw regular at h in absurd (omega arith)
  | inr usual ↦ let same : y ≡ x = cc in ap (λ (z : Sample). z.periodic) (sym same) ∙ usual
]
sample_at-plain (y ∷ xs) (suc i) x e h = sample_at-plain xs i x e (omega arith)

pub length-put_sample :
    (xs : List Sample) (i : ℕ) (x : Sample) → length (put_sample xs i x) ≡ length xs
length-put_sample [] i x = refl
length-put_sample (y ∷ xs) zero x = refl
length-put_sample (y ∷ xs) (suc i) x = ap suc (length-put_sample xs i x)

pub put_sample-plain :
    (xs : List Sample) (i : ℕ) (x : Sample)
    → periodic_count xs ≡ 0
    → x.periodic ≡ false
    → periodic_count (put_sample xs i x) ≡ 0
put_sample-plain [] i x h e = refl
put_sample-plain (y ∷ xs) zero x h e = rw e (omega arith)
put_sample-plain (y ∷ xs) (suc i) x h e =
    let tail : periodic_count xs ≡ 0 = omega arith in omega (arith, put_sample-plain xs i x tail e)

-- Samplings one after the other.
compose :
    (s : IndexStatistics) (p q : ℕ) (r : R IndexStatistics)
    (f : IndexStatistics → R IndexStatistics)
    → Sampled s p r
    → ((t : IndexStatistics)
        → IsSampling t p
        → length t.best ≡ length s.best
        → r ≡ ok t
        → Sampled t q (f t))
    → Sampled s q (r >>= f)
compose s p q r f a b =
    let t = record s {
      samples = a.samples;
      minimum = a.minimum;
      maximum_equal_zero = a.zeros;
      best = a.best;
    } in
    let c =
      b t (record { few = a.few; low = a.low; periodics = a.periodics; plain = a.plain }) a.eight
        a.is_ok in
    record {
      samples = c.samples;
      minimum = c.minimum;
      zeros = c.zeros;
      best = c.best;
      is_ok = ap (λ (m : R IndexStatistics). m >>= f) a.is_ok ∙ c.is_ok;
      few = c.few;
      low = c.low;
      periodics = c.periodics;
      eight = c.eight ∙ a.eight;
      plain = c.plain;
    }

-- A sampled state keeps any change of its best samples.
with_best :
    (s : IndexStatistics) (best : List Sample) (p : ℕ) (r : R IndexStatistics)
    → length best ≡ length s.best
    → Sampled (record s { best = best }) p r
    → Sampled s p r
with_best s best p r len a = record {
  samples = a.samples;
  minimum = a.minimum;
  zeros = a.zeros;
  best = a.best;
  is_ok = a.is_ok;
  few = a.few;
  low = a.low;
  periodics = a.periodics;
  eight = a.eight ∙ len;
  plain = a.plain;
}

unchanged : (s : IndexStatistics) (p : ℕ) → IsSampling s p → Sampled s p (ok s)
unchanged s p w = record {
  samples = s.samples;
  minimum = s.minimum;
  zeros = s.maximum_equal_zero;
  best = s.best;
  is_ok = refl;
  few = w.few;
  low = w.low;
  periodics = w.periodics;
  eight = refl;
  plain = w.plain;
}

usual_count :
    (p : ℕ) (s : IndexStatistics) (r : R IndexStatistics) (b : Bool)
    → b ≡ false
    → Sampled s (p + (if b then 1 else 0)) r
    → Sampled s p r
usual_count p s r true e a = absurd cc
usual_count p s r false e a = record {
  samples = a.samples;
  minimum = a.minimum;
  zeros = a.zeros;
  best = a.best;
  is_ok = a.is_ok;
  few = a.few;
  low = a.low;
  periodics = (let c = a.periodics in omega arith);
  eight = a.eight;
  plain = a.plain;
}

previous_best-ok :
    (s : IndexStatistics) (column : ℕ) (best : Sample) (p : ℕ)
    → IsSampling s p
    → p + 1 < 24
    → best.periodic ≡ false
    → Sampled s p (previous_best s column best)
previous_best-ok s column best p w h plain =
    let s' = record s { best = put_sample s.best column best } in
    let w' : IsSampling s' p = record {
      few = w.few;
      low = w.low;
      periodics = w.periodics;
      plain = put_sample-plain s.best column best w.plain plain;
    } in
    let len = length-put_sample s.best column best in
    let inserted : Sampled s p (insert_sample s' best column) =
      with_best s (put_sample s.best column best) p _ len
        (usual_count p s' _ best.periodic plain (insert_sample-ok s' best column p w' h)) in
    let kept : Sampled s p (ok s') =
      with_best s (put_sample s.best column best) p _ len (unchanged s' p w') in
    elim (Bool-cases (ltb (length s.samples) sample_count)) [
      | inl room ↦
          subst (Sampled s p)
            (sym (
              ap (λ (b : Bool). if b then insert_sample s' best column else full s column best)
                room))
            inserted
      | inr none_left ↦
          let few = w.few in
          let low = w.low in
          let (worst, found) = sample_at-some s.samples s.minimum (ground arith) in
          subst (Sampled s p)
            (sym (
              ap (λ (b : Bool). if b then insert_sample s' best column else full s column best)
                none_left
              ∙ ap
                  (λ (o : Option Sample). ok_or o stats_panicked >>= λ worst.
                    if better s.columns best worst then insert_sample s' best column else ok s')
                  found))
            (if-Sampled s p (better s.columns best worst) (insert_sample s' best column) (ok s')
              inserted kept)
    ]
  where
    full : IndexStatistics → ℕ → Sample → R IndexStatistics
    full s column best = ok_or (sample_at s.samples s.minimum) stats_panicked >>= λ worst.
        if better s.columns best worst
        then insert_sample (record s { best = put_sample s.best column best }) best column
        else ok (record s { best = put_sample s.best column best })

previous_step-ok :
    (s : IndexStatistics) (column p : ℕ)
    → IsSampling s p
    → p + 1 < 24
    → column < length s.best
    → Sampled s p (previous_step s column)
unfolding previous_step
previous_step-ok s column p w h small =
    let (best, found) = sample_at-some s.best column small in
    subst
      (λ (o : Option Sample). Sampled s p (
        ok_or o stats_panicked >>= λ b.
        previous_best s column
          (record b { equal = put b.equal column (at s.current.equal column) })))
      (sym found)
      (previous_best-ok s column
        (record best { equal = put best.equal column (at s.current.equal column) }) p w h
        (sample_at-plain s.best column best found w.plain))

previous_loop-ok :
    (n changed : ℕ) (s : IndexStatistics) (p : ℕ)
    → IsSampling s p
    → p + 1 < 24
    → changed + n ≤ length s.best
    → Sampled s p (previous_loop n changed s)
unfolding previous_loop
previous_loop-ok zero changed s p w h small = unchanged s p w
previous_loop-ok (suc n) changed s p w h small =
    compose s p p (previous_step s (changed + n)) (previous_loop n changed)
      (previous_step-ok s (changed + n) p w h (omega arith))
      (λ t wt len e. previous_loop-ok n changed t p wt h (omega arith))

periodic_count-settle :
    (n column : ℕ) (equal : List ℕ) (xs : List Sample)
    → periodic_count (map (settle_sample n column equal) xs) ≡ periodic_count xs
periodic_count-settle n column equal [] = refl
periodic_count-settle n column equal (x ∷ xs) =
    ap (λ (k : ℕ). (if x.periodic then 1 else 0) + k) (periodic_count-settle n column equal xs)

length-settle :
    (n column : ℕ) (equal : List ℕ) (xs : List Sample)
    → length (map (settle_sample n column equal) xs) ≡ length xs
length-settle n column equal [] = refl
length-settle n column equal (x ∷ xs) = ap suc (length-settle n column equal xs)

settled :
    (s : IndexStatistics) (changed p : ℕ)
    → IsSampling s p
    → Sampled s p (ok (settle_samples s changed))
unfolding settle_samples
settled s changed p w = elim (Bool-cases (ltb changed s.maximum_equal_zero)) [
  | inl lower ↦
      let xs = map (settle_sample (s.columns - changed) changed s.current.equal) s.samples in
      let few = w.few in
      let count = w.periodics in
      record {
        samples = xs;
        minimum = s.minimum;
        zeros = changed;
        best = s.best;
        is_ok = rw lower refl;
        few = omega (arith, length-settle (s.columns - changed) changed s.current.equal s.samples);
        low = w.low;
        periodics =
            omega (
              arith,
              periodic_count-settle (s.columns - changed) changed s.current.equal s.samples,
            );
        eight = refl;
        plain = w.plain;
      }
  | inr same ↦ record {
    samples = s.samples;
    minimum = s.minimum;
    zeros = s.maximum_equal_zero;
    best = s.best;
    is_ok = rw same refl;
    few = w.few;
    low = w.low;
    periodics = w.periodics;
    eight = refl;
    plain = w.plain;
  }
]

pub push_previous-ok :
    (s : IndexStatistics) (changed p : ℕ)
    → IsSampling s p
    → p + 1 < 24
    → changed ≤ length s.best
    → s.columns ≤ length s.best
    → Sampled s p (push_previous s changed)
unfolding push_previous
push_previous-ok s changed p w h small enough =
    compose s p p (previous_loop (s.columns - 1 - changed) changed s)
      (λ t. ok (settle_samples t changed))
      (previous_loop-ok (s.columns - 1 - changed) changed s p w h (omega arith))
      (λ t wt len e. settled t changed p wt)
