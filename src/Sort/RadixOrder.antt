-- ===== src/Sort/RadixOrder.antt =====
-- The radix sort sorts: after each pass the keys are in the order of the bytes read so far.
use velr.Base.{
  ℕ, zero, suc, ◌+◌, ◌*◌, ◌%◌, ◌^◌, ◌≤◌, ◌<◌, true, List, [], ◌∷◌, length, replicate,
  length-replicate, ◌==◌, ==_iff, Bool-cases, inl, inr, ◌≡◌, refl, ◌∙◌, arith, All, subst,
}
use native.Mathlib.Nat.{mod-eq_of_lt}
use velr.Sort.Merge.{IsSorted, occurrences}
use velr.Sort.Radix.{radix_pass, radix_loop, radix_sort}
use velr.Sort.Pass.{SortedBy, radix_pass-Passed}

record Looped (m : ℕ) (keys out : List ℕ) : Type 0 where
  sorted : SortedBy (λ k. k % 2 ^ (m * 8)) out
  counts : (k : ℕ) → occurrences k out ≡ occurrences k keys

radix_loop-Looped :
    (n pass : ℕ) (keys scratch : List ℕ)
    → length scratch ≡ length keys
    → SortedBy (λ k. k % 2 ^ (pass * 8)) keys
    → Looped (pass + n) keys (radix_loop n pass keys scratch)
unfolding radix_loop
radix_loop-Looped zero pass keys scratch room s =
    let e : pass ≡ pass + 0 = omega arith in
    record {
      sorted = subst (λ (m : ℕ). SortedBy (λ k. k % 2 ^ (m * 8)) keys) e s;
      counts = λ k. refl;
    }
radix_loop-Looped (suc n) pass keys scratch room s =
    let p = radix_pass-Passed pass keys scratch room in
    let one : suc pass ≡ pass + 1 = omega arith in
    let e : pass + 1 + n ≡ pass + suc n = omega arith in
    let l =
      radix_loop-Looped n (pass + 1) (radix_pass pass keys scratch).0
        (radix_pass pass keys scratch).1 p.scratch
        (subst (λ (m : ℕ). SortedBy (λ k. k % 2 ^ (m * 8)) (radix_pass pass keys scratch).0) one
          (p.sorted s)) in
    record {
      sorted =
          subst
            (λ (m : ℕ).
              SortedBy (λ k. k % 2 ^ (m * 8))
                (radix_loop n (pass + 1) (radix_pass pass keys scratch).0
                  (radix_pass pass keys scratch).1))
            e l.sorted;
      counts = λ k. l.counts k ∙ p.counts k;
    }

-- A key that occurs is below every bound of the keys.
occurs_below :
    (bound k : ℕ) (keys : List ℕ) → All (λ x. x < bound) keys → 0 < occurrences k keys → k < bound
occurs_below bound k [] h o = absurd (omega arith)
occurs_below bound k (x ∷ keys) (h, hs) o = elim (Bool-cases (x == k)) [
  | inl same ↦ let e : x ≡ k = (==_iff x k).0 same in omega arith
  | inr other ↦
      let later : 0 < 0 + occurrences k keys = rw other at o in
      occurs_below bound k keys hs (omega arith)
]

below_by_key :
    (bound : ℕ) (out : List ℕ)
    → ((k : ℕ) → 0 < occurrences k out → k < bound)
    → All (λ x. x < bound) out
below_by_key bound [] h = tt
below_by_key bound (x ∷ out) h =
    let here : (x == x) ≡ true = (==_iff x x).1 refl in
    let occurs : 0 < occurrences x (x ∷ out) = rw here (omega arith) in
    (h x occurs, below_by_key bound out (λ k o. h k (omega arith)))

All-mod :
    (bound x : ℕ) (ys : List ℕ)
    → x < bound
    → All (λ y. y < bound) ys
    → All (λ y. x % bound ≤ y % bound) ys
    → All (λ y. x ≤ y) ys
All-mod bound x [] h hs s = tt
All-mod bound x (y ∷ ys) h (k, ks) (s, ss) =
    (omega (arith, mod-eq_of_lt {n = x} h, mod-eq_of_lt {n = y} k), All-mod bound x ys h ks ss)

SortedBy-IsSorted :
    (bound : ℕ) (xs : List ℕ) → All (λ x. x < bound) xs → SortedBy (λ k. k % bound) xs → IsSorted xs
SortedBy-IsSorted bound [] h s = tt
SortedBy-IsSorted bound (x ∷ xs) (h, hs) (s, ss) =
    (All-mod bound x xs h hs s, SortedBy-IsSorted bound xs hs ss)

one_class : (x : ℕ) (ys : List ℕ) → All (λ y. x % 2 ^ (0 * 8) ≤ y % 2 ^ (0 * 8)) ys
one_class x [] = tt
one_class x (y ∷ ys) = (omega arith, one_class x ys)

start-SortedBy : (keys : List ℕ) → SortedBy (λ k. k % 2 ^ (0 * 8)) keys
start-SortedBy [] = tt
start-SortedBy (x ∷ keys) = (one_class x keys, start-SortedBy keys)

-- With a pass for every byte of the keys, the radix sort puts them in ascending order, each as often as before.
pub radix_sort-IsSorted :
    (keys : List ℕ) (passes : ℕ)
    → All (λ k. k < 2 ^ (passes * 8)) keys
    → IsSorted (radix_sort keys passes)
      × ((k : ℕ) → occurrences k (radix_sort keys passes) ≡ occurrences k keys)
unfolding radix_sort
radix_sort-IsSorted keys passes small =
    let l =
      radix_loop-Looped passes 0 keys (replicate (length keys) 0) (length-replicate (length keys) 0)
        (start-SortedBy keys) in
    let out : List ℕ = radix_loop passes 0 keys (replicate (length keys) 0) in
    let e : 0 + passes ≡ passes = omega arith in
    let below =
      below_by_key (2 ^ (passes * 8)) out
        (λ k o. occurs_below (2 ^ (passes * 8)) k keys small (omega (arith, l.counts k))) in
    (
      SortedBy-IsSorted (2 ^ (passes * 8)) out below
          (subst (λ (m : ℕ). SortedBy (λ k. k % 2 ^ (m * 8)) out) e l.sorted),
      l.counts,
    )
