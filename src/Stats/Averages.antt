-- ===== src/Stats/Averages.antt =====
-- The averages of stat1, described without a division.
use velr.Base.{
  ℕ, zero, suc, ◌+◌, ◌-◌, ◌*◌, ◌/◌, ◌%◌, ◌≤◌, ◌<◌, List, [], ◌∷◌, length, leb, ◌==◌, ==_iff, ==→ne,
  if◌then◌else◌, Bool-cases, ◌⊎◌, inl, inr, ◌≡◌, ◌≢◌, refl, arith,
}
use native.Mathlib.Nat.{div-add-mod', mod-lt, mul-le-mul_right}
use velr.Stats.{average}
use velr.Stats.Counts.{groups}

-- One when the rows are at most 1.1 times the groups, and else the least number of rows that is enough
-- for every group.
abbrev pub IsAverage : ℕ → ℕ → ℕ → Type 0
IsAverage rows groups a =
    ((rows * 10 ≤ groups * 11) × (a ≡ 1))
    ⊎ ((groups * 11 < rows * 10) × (rows ≤ a * groups) × ((a - 1) * groups < rows))

-- The averages of the columns from `column` on.
abbrev pub AreAverages : ℕ → List ℕ → List ℕ → Type 0
AreAverages column changes [] = Unit {0}
AreAverages column changes (a ∷ later) =
    IsAverage (length changes) (groups column changes) a × AreAverages (column + 1) changes later

-- The quotient rounded up.
rounded_up : ℕ → ℕ → ℕ
rounded_up rows distinct = rows / distinct + (if rows % distinct == 0 then 0 else 1)

rounded_up_lem :
    (rows distinct : ℕ)
    → 0 < distinct
    → distinct ≤ rows
    → (rows ≤ rounded_up rows distinct * distinct)
      × ((rounded_up rows distinct - 1) * distinct < rows)
unfolding rounded_up
rounded_up_lem rows distinct h k =
    let q : ℕ = rows / distinct in
    let whole : q * distinct + rows % distinct ≡ rows = div-add-mod' rows distinct in
    let r : rows % distinct < distinct = mod-lt rows h in
    elim (Bool-cases (rows % distinct == 0)) [
      | inl even ↦
          let none_left : rows % distinct ≡ 0 = (==_iff (rows % distinct) 0).0 even in
          rw even (even_case rows distinct q h k (omega arith))
      | inr odd ↦
          let some_left = ==→ne (rows % distinct) 0 odd in
          rw odd (odd_case rows distinct q (rows % distinct) r whole (omega arith))
    ]
  where
    even_case :
        (rows distinct q : ℕ)
        → 0 < distinct
        → distinct ≤ rows
        → q * distinct ≡ rows
        → (rows ≤ (q + 0) * distinct) × ((q + 0 - 1) * distinct < rows)
    even_case rows distinct zero h k e = absurd (omega arith)
    even_case rows distinct (suc q) h k e =
        let same : suc q + 0 ≡ suc q = omega arith in
        let less : suc q - 1 ≡ q = omega arith in rw same (rw less (omega arith, omega arith))

    odd_case :
        (rows distinct q r : ℕ)
        → r < distinct
        → q * distinct + r ≡ rows
        → 0 < r
        → (rows ≤ (q + 1) * distinct) × ((q + 1 - 1) * distinct < rows)
    odd_case rows distinct q r h e k =
        let less : q + 1 - 1 ≡ q = omega arith in rw less (omega arith, omega arith)

-- With few more rows than groups, the quotient rounded up is one or two.
rounded_up_small :
    (rows distinct : ℕ)
    → 0 < distinct
    → distinct ≤ rows
    → rows * 10 ≤ distinct * 11
    → rounded_up rows distinct ≢ 2
    → rounded_up rows distinct ≡ 1
rounded_up_small rows distinct h k few other =
    let (enough, least) = rounded_up_lem rows distinct h k in
    small (rounded_up rows distinct) enough least other
  where
    small : (a : ℕ) → rows ≤ a * distinct → (a - 1) * distinct < rows → a ≢ 2 → a ≡ 1
    small zero e l o = absurd (omega arith)
    small (suc zero) e l o = refl
    small (suc (suc zero)) e l o = absurd (o refl)
    small (suc (suc (suc a))) e l o =
        let two : 2 * distinct ≤ (suc (suc (suc a)) - 1) * distinct =
          mul-le-mul_right distinct (omega arith) in
        absurd (omega arith)

pub average-IsAverage :
    (rows distinct : ℕ)
    → 0 < distinct
    → distinct ≤ rows
    → IsAverage rows distinct (average rows distinct)
unfolding average rounded_up
average-IsAverage rows distinct h k =
    let a : ℕ = rounded_up rows distinct in
    let (enough, least) = rounded_up_lem rows distinct h k in
    elim (Bool-cases (leb (rows * 10) (distinct * 11))) [
      | inl few ↦ elim (Bool-cases (a == 2)) [
        | inl two ↦ rw (two, few) (inl (ground arith, refl))
        | inr other ↦ rw other (
            inl (ground arith, rounded_up_small rows distinct h k (ground arith) (==→ne a 2 other)))
      ]
      | inr many ↦ elim (Bool-cases (a == 2)) [
        | inl two ↦ rw (two, many) (inr (ground arith, enough, least))
        | inr other ↦ rw other (inr (ground arith, enough, least))
      ]
    ]
