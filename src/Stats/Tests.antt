-- ===== src/Stats/Tests.antt =====
-- The statistics of four rows in two columns.
use velr.Base.{ℕ, ◌≤◌, List, [], ◌∷◌, map, length, ◌≡◌, refl, arith}
use velr.Base.Result.{ok}
use velr.Stats.{FullIndexStatistics, average}
use velr.Stats.Averages.{AreAverages}
use velr.Stats.Runs.{statistics_of, finish_statistics-AreAverages}

-- The latest row first: two keys in column 0, of three rows and of one.
abbrev four_rows : List (ℕ × ℕ)
four_rows = (0, 21) ∷ (1, 14) ∷ (1, 7) ∷ (0, 0) ∷ []

-- An exact average, one rounded up, and one of at most 1.1.
three_averages : (average 4 2 ≡ 2) × (average 10 9 ≡ 2) × (average 11 10 ≡ 1)
unfolding average
three_averages = (refl, refl, refl)

finish_statistics-AreAverages_example :
    (f : FullIndexStatistics) × (averages : List ℕ) × (statistics_of 2 1 four_rows ≡ ok f)
    × (f.stat1 ≡ 4 ∷ averages)
    × (length averages ≡ 1)
    × AreAverages 0 (map (λ row. row.0) four_rows) averages
    × (length f.samples ≤ 24)
finish_statistics-AreAverages_example =
    finish_statistics-AreAverages 2 1 four_rows (omega arith) (omega arith) (omega arith)
      (omega arith) (omega arith) (omega arith)
      (
        omega arith,
        (λ e. refl),
        (
          omega arith,
          (λ e. absurd (omega arith)),
          (omega arith, (λ e. absurd (omega arith)), (omega arith, (λ e. refl), tt)),
        ),
      )
