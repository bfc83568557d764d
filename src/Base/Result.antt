-- ===== src/Base/Result.antt =====
-- Results with an error value, and their chaining.
use mathlib.Core.Path.{◌≡◌, refl}
use mathlib.Core.Option.{Option, none, some}
use mathlib.Core.Bool.{Bool, true, false}

pub data Result (E A : Type 0) : Type 0 where
  ok : A → Result E A
  err : E → Result E A

infixl 5 ◌>>=◌ ◌>>◌
abbrev pub ◌>>=◌ : {E A B : Type 0} → Result E A → (A → Result E B) → Result E B
ok a >>= f = f a
err e >>= f = err e

abbrev pub ◌>>◌ : {E A : Type 0} → Result E (Unit {0}) → Result E A → Result E A
m >> k = m >>= λ _. k

-- `ok_or`: the value of an option, or an error.
abbrev pub ok_or : {E A : Type 0} → Option A → E → Result E A
ok_or none e = err e
ok_or (some a) e = ok a

-- `if bad { return Err(e) }`.
abbrev pub reject_if : {E : Type 0} → Bool → E → Result E (Unit {0})
reject_if true e = err e
reject_if false e = ok tt

pub >>=-eq_ok :
    {E A B : Type 0} (m : Result E A) (f : A → Result E B) {b : B}
    → (m >>= f) ≡ ok b
    → (a : A) × (m ≡ ok a) × (f a ≡ ok b)
>>=-eq_ok (ok a) f h = (a, refl, h)
>>=-eq_ok (err e) f h = cc

pub ok_inj : {E A : Type 0} {a b : A} → ◌≡◌ {A = Result E A} (ok a) (ok b) → a ≡ b
ok_inj e = cc

pub ok_or-eq_ok : {E A : Type 0} (o : Option A) (x : E) {a : A} → ok_or o x ≡ ok a → o ≡ some a
ok_or-eq_ok none x e = cc
ok_or-eq_ok (some b) x e = cc
