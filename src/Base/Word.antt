-- ===== src/Base/Word.antt =====
-- Masks on one byte as arithmetic: tables of at most 256 entries, checked by evaluation.
use Prim.Native.Nat.{ℕ, zero, suc, ◌+◌, ◌%◌, ◌^◌, ◌<◌, bit_and, bit_or}
use mathlib.Core.Path.{◌≡◌, refl}
use mathlib.Core.Bool.{Bool, true, ◌&&◌}
use mathlib.Core.List.{List}
use native.Mathlib.Omega.{arith}
use velr.Base.Tests.{◌==◌}

abbrev pub Bytes : Type 0
Bytes = List ℕ

abbrev pub IsByte : ℕ → Type 0
IsByte b = b < 256

abbrev pub IsU64 : ℕ → Type 0
IsU64 v = v < 2 ^ 64

-- Two functions agree on every number below `n`.
agree_below : (ℕ → ℕ) → (ℕ → ℕ) → ℕ → Bool
agree_below f g zero = true
agree_below f g (suc n) = f n == g n && agree_below f g n

agree_below→eq : (f g : ℕ → ℕ) (n : ℕ) → agree_below f g n ≡ true → (i : ℕ) → i < n → f i ≡ g i
unfolding agree_below
agree_below→eq f g zero e i h = absurd (omega arith)
agree_below→eq f g (suc n) e i h = ground (arith, agree_below→eq f g n (ground arith) i)

pub low_seven : (b : ℕ) → b < 256 → bit_and b 0x7f ≡ b % 128
unfolding agree_below
low_seven = agree_below→eq _ _ 256 refl

pub set_top : (b : ℕ) → b < 128 → bit_or b 0x80 ≡ b + 128
unfolding agree_below
set_top = agree_below→eq _ _ 128 refl

pub keep_low : (b : ℕ) → b < 128 → bit_or b 0 ≡ b
unfolding agree_below
keep_low = agree_below→eq _ _ 128 refl
