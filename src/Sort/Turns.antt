-- ===== src/Sort/Turns.antt =====
-- The turns of the workers: every run is made by one of them.
use velr.Base.{
  ℕ, zero, suc, ◌+◌, ◌-◌, ◌*◌, ◌≤◌, List, [], ◌∷◌, ltb, ge→ltb, if◌then◌else◌, Bool-cases, inl, inr,
  ◌≡◌, refl, sym, ap, ◌∙◌, arith,
}
use native.Mathlib.Nat.{mul-le-mul_left}
use velr.Sort.External.{step_by}

module _ (f : ℕ → ℕ) where
  abbrev pub sum_over : List ℕ → ℕ
  sum_over [] = 0
  sum_over (x ∷ xs) = f x + sum_over xs

  -- The sum of `n` elements from `a` on, of which those from `end` on count nothing.
  abbrev pub bounded_sum : ℕ → ℕ → ℕ → ℕ
  bounded_sum zero a end = 0
  bounded_sum (suc n) a end = (if ltb a end then f a else 0) + bounded_sum n (a + 1) end

  -- The sums of `n` workers from `a` on.
  abbrev pub turns : ℕ → ℕ → ℕ → ℕ → ℕ → ℕ
  turns zero fuel a end step = 0
  turns (suc n) fuel a end step = sum_over (step_by fuel a end step) + turns n fuel (a + 1) end step

  sum_over_end : (fuel a end step : ℕ) → end ≤ a → sum_over (step_by fuel a end step) ≡ 0
  unfolding step_by
  sum_over_end zero a end step h = refl
  sum_over_end (suc fuel) a end step h = rw (ge→ltb a end h) refl

  sum_over-step_by :
      (fuel a end step : ℕ)
      → sum_over (step_by (suc fuel) a end step)
        ≡ (if ltb a end then f a else 0) + sum_over (step_by fuel (a + step) end step)
  unfolding step_by
  sum_over-step_by fuel a end step = elim (Bool-cases (ltb a end)) [
    | inl inside ↦ rw inside refl
    | inr beyond ↦
        rw beyond (sym (sum_over_end fuel (a + step) end step (ground arith)) ∙ omega arith)
  ]

  turns-round :
      (n fuel a end step : ℕ)
      → turns n (suc fuel) a end step ≡ bounded_sum n a end + turns n fuel (a + step) end step
  turns-round zero fuel a end step = omega arith
  turns-round (suc n) fuel a end step =
      let e : a + 1 + step ≡ a + step + 1 = omega arith in
      let moved : turns n fuel (a + 1 + step) end step ≡ turns n fuel (a + step + 1) end step =
        ap (λ (x : ℕ). turns n fuel x end step) e in
      omega (arith, sum_over-step_by fuel a end step, turns-round n fuel (a + 1) end step, moved)

  bounded_sum-plus :
      (m n a end : ℕ) → bounded_sum (m + n) a end ≡ bounded_sum m a end + bounded_sum n (a + m) end
  bounded_sum-plus zero n a end =
      let e : 0 + n ≡ n = omega arith in
      let here : a + 0 ≡ a = omega arith in rw (e, here) (omega arith)
  bounded_sum-plus (suc m) n a end =
      let e : suc m + n ≡ suc (m + n) = omega arith in
      let moved : a + 1 + m ≡ a + suc m = omega arith in
      let ih = bounded_sum-plus m n (a + 1) end in
      let rest : bounded_sum n (a + 1 + m) end ≡ bounded_sum n (a + suc m) end =
        ap (λ (x : ℕ). bounded_sum n x end) moved in
      ap (λ (x : ℕ). bounded_sum x a end) e ∙ omega (arith, ih, rest)

  turns_none : (n a end step : ℕ) → turns n 0 a end step ≡ 0
  unfolding step_by
  turns_none zero a end step = refl
  turns_none (suc n) a end step = omega (arith, turns_none n (a + 1) end step)

  turns_all : (fuel step a end : ℕ) → turns step fuel a end step ≡ bounded_sum (fuel * step) a end
  turns_all zero step a end =
      let e : 0 * step ≡ 0 = omega arith in
      turns_none step a end step ∙ sym (ap (λ (x : ℕ). bounded_sum x a end) e)
  turns_all (suc fuel) step a end =
      let e : step + fuel * step ≡ suc fuel * step = omega arith in
      turns-round step fuel a end step
      ∙ ap (λ (x : ℕ). bounded_sum step a end + x) (turns_all fuel step (a + step) end)
      ∙ sym (bounded_sum-plus step (fuel * step) a end)
      ∙ ap (λ (x : ℕ). bounded_sum x a end) e

  bounded_sum-beyond : (n a end : ℕ) → end ≤ a → bounded_sum n a end ≡ 0
  bounded_sum-beyond zero a end h = refl
  bounded_sum-beyond (suc n) a end h =
      rw (ge→ltb a end h) (omega (arith, bounded_sum-beyond n (a + 1) end (omega arith)))

  -- All workers together make every run once.
  pub turns-bounded_sum :
      (step end : ℕ) → 1 ≤ step → turns step end 0 end step ≡ bounded_sum end 0 end
  turns-bounded_sum step end h =
      let enough : end * 1 ≤ end * step = mul-le-mul_left end h in
      let e : end * step ≡ end + (end * step - end) = omega arith in
      turns_all end step 0 end
      ∙ ap (λ (x : ℕ). bounded_sum x 0 end) e
      ∙ bounded_sum-plus end (end * step - end) 0 end
      ∙ omega (arith, bounded_sum-beyond (end * step - end) (0 + end) end (omega arith))
