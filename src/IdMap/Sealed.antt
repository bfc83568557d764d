-- ===== src/IdMap/Sealed.antt =====
-- Sealing a page, dense or sparse, and the ranks of its slots.
use velr.Base.{
  ℕ, ◌/◌, ◌%◌, ◌^◌, ◌≤◌, ◌<◌, Bool, false, ◌&&◌, List, Option, none, some, length, ltb, ◌==◌,
  ==_iff, if◌then◌else◌, Bool-cases, ◌⊎◌, inl, inr, ◌≡◌, refl, sym, ap, ◌∙◌, arith, two_pow_mono,
}
use native.Mathlib.Nat.{div-eq_of_lt}
use velr.Base.Result.{ok, ◌>>=◌}
use velr.IdMap.{Budget, charge}
use velr.IdMap.Page.{
  Page, Membership, dense, sparse, bitmap_words, count_ones, ranks_from, mask_from, occupied_words,
  rank_in, rank, M, seal, seal_membership, seal_values, pay, value_bytes,
}
use velr.IdMap.Ranks.{
  is_set, is_declared, declared_before, word_at, words_before, is_set-word_at, rank_in-word,
  rank-dense,
}
use velr.IdMap.Sparse.{word_of_sparse}

-- The membership of a sealed page with these bitmap words.
abbrev pub IsSealed : Page → List ℕ → Type 0
IsSealed p bitmap =
    (p.membership ≡ dense bitmap (ranks_from 0 bitmap))
    ⊎ (p.membership ≡ sparse (mask_from 0 bitmap) (occupied_words bitmap (ranks_from 0 bitmap)))

-- A word of zeros declares no slot.
empty_word :
    (bitmap : List ℕ) (i b : ℕ)
    → i < length bitmap
    → word_at bitmap i ≡ 0
    → is_set bitmap i b ≡ false
empty_word bitmap i b h e =
    let some_bit : 2 ^ 0 ≤ 2 ^ b = two_pow_mono 0 b (omega arith) in
    let none_there : 0 / 2 ^ b ≡ 0 = div-eq_of_lt (omega arith) in
    is_set-word_at bitmap i b h
    ∙ ap (λ (w : ℕ). w / 2 ^ b % 2 == 1) e
    ∙ ap (λ (x : ℕ). x % 2 == 1) none_there

rank-sparse :
    (p : Page) (bitmap : List ℕ) (slot : ℕ)
    → p.membership ≡ sparse (mask_from 0 bitmap) (occupied_words bitmap (ranks_from 0 bitmap))
    → length bitmap ≡ 64
    → slot < 4096
    → rank p slot
      ≡ ok (if is_declared bitmap slot then some (declared_before bitmap slot) else none)
unfolding rank
rank-sparse p bitmap slot m len h =
    let i : ℕ = slot / 64 in
    let inside : i < length bitmap = omega arith in
    let word = word_of_sparse bitmap i inside len in
    let found = rank_in-word bitmap i (slot % 64) inside (omega arith) in
    elim (Bool-cases (word_at bitmap i == 0)) [
      | inl empty ↦
          let unset =
            empty_word bitmap i (slot % 64) inside ((==_iff (word_at bitmap i) 0).0 empty) in
          rw m (
            ap (λ (o : M (Option (ℕ × ℕ))). o >>= λ e. ok (rank_in (2 ^ (slot % 64)) e)) word
            ∙ ap
                (λ (t : Bool). ok (
                  rank_in (2 ^ (slot % 64))
                    (if t then none else some (word_at bitmap i, words_before bitmap i))))
                empty
            ∙ sym (
                ap (λ (t : Bool). ok (if t then some (declared_before bitmap slot) else none))
                  unset))
      | inr full ↦ rw m (
          ap (λ (o : M (Option (ℕ × ℕ))). o >>= λ e. ok (rank_in (2 ^ (slot % 64)) e)) word
          ∙ ap
              (λ (t : Bool). ok (
                rank_in (2 ^ (slot % 64))
                  (if t then none else some (word_at bitmap i, words_before bitmap i))))
              full
          ∙ ap ok found)
    ]

pub rank-IsSealed :
    (p : Page) (bitmap : List ℕ) (slot : ℕ)
    → IsSealed p bitmap
    → length bitmap ≡ 64
    → slot < 4096
    → rank p slot
      ≡ ok (if is_declared bitmap slot then some (declared_before bitmap slot) else none)
rank-IsSealed p bitmap slot (inl m) len h = rank-dense p bitmap slot m len h
rank-IsSealed p bitmap slot (inr m) len h = rank-sparse p bitmap slot m len h

-- Sealing keeps the bitmap words, dense or sparse.
seal_values-membership :
    (p : Page) (budget : Budget) (bytes : Option ℕ)
    → (seal_values p budget bytes).0.membership ≡ p.membership
seal_values-membership p budget none = refl
seal_values-membership p budget (some bytes) = paid (charge budget bytes)
  where
    paid : (o : Option Budget) → (pay p budget bytes o).0.membership ≡ p.membership
    paid none = refl
    paid (some b) = refl

pub seal-IsSealed :
    (capacity : ℕ → ℕ) (p : Page) (bitmap ranks : List ℕ) (budget : Budget) (compress : Bool)
    → p.membership ≡ dense bitmap ranks
    → IsSealed (seal capacity p budget compress).0 bitmap
unfolding seal seal_membership
seal-IsSealed capacity p bitmap ranks budget compress m =
    let b = seal_membership capacity compress p.membership budget in
    let kept =
      seal_values-membership (record p { membership = b.0 }) b.1
        (value_bytes (record p { membership = b.0 })) in
    let made = ap (λ (x : Membership). (seal_membership capacity compress x budget).0) m in
    elim (Bool-cases (compress && ltb (count_ones 64 (mask_from 0 bitmap)) bitmap_words)) [
      | inl small ↦ inr (kept ∙ made ∙ rw small refl)
      | inr large ↦ inl (kept ∙ made ∙ rw large refl)
    ]

-- On a page of 64 bitmap words that was sealed, compressed or not, a declared slot has as its rank the
-- number of declared slots before it, and a slot below 4096 that is not declared has none.
pub rank-seal :
    (capacity : ℕ → ℕ) (p : Page) (bitmap ranks : List ℕ) (budget : Budget) (compress : Bool)
    (slot : ℕ)
    → p.membership ≡ dense bitmap ranks
    → length bitmap ≡ 64
    → slot < 4096
    → rank (seal capacity p budget compress).0 slot
      ≡ ok (if is_declared bitmap slot then some (declared_before bitmap slot) else none)
rank-seal capacity p bitmap ranks budget compress slot m len h =
    rank-IsSealed (seal capacity p budget compress).0 bitmap slot
      (seal-IsSealed capacity p bitmap ranks budget compress m) len h
