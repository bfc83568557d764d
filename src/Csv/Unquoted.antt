-- ===== src/Csv/Unquoted.antt =====
-- Records without quotes: the spans are the parts between the delimiters.
use velr.Base.{
  ℕ, zero, suc, ◌+◌, ◌-◌, ◌≤◌, List, [], ◌∷◌, ◌++◌, append-nil, append_assoc, map, take, drop, ◌==◌,
  if◌then◌else◌, Bool-cases, inl, inr, ◌≡◌, refl, sym, ap, ap₂, ◌∙◌, arith,
}
use velr.Base.Result.{ok, >>=-eq_ok, ok_inj}
use velr.Base.Word.{Bytes}
use velr.Csv.{span, decoded, Field, field_length, split_byte, parse_unquoted_record}
use velr.Csv.Record.{between}

abbrev pub text_of : Bytes → Field → Bytes
text_of raw field = elim field.text [ span start end ↦ between raw start end | decoded text ↦ text ]

abbrev pub prepend : Bytes → List Bytes → List Bytes
prepend p [] = []
prepend p (x ∷ xs) = (p ++ x) ∷ xs

-- The parts between delimiters.
abbrev pub split : ℕ → Bytes → List Bytes
split d [] = [] ∷ []
split d (b ∷ bytes) = if b == d then [] ∷ split d bytes else prepend (b ∷ []) (split d bytes)

prepend-nil : (xs : List Bytes) → prepend [] xs ≡ xs
prepend-nil [] = refl
prepend-nil (x ∷ xs) = refl

prepend-prepend : (p q : Bytes) (xs : List Bytes) → prepend p (prepend q xs) ≡ prepend (p ++ q) xs
prepend-prepend p q [] = refl
prepend-prepend p q (x ∷ xs) = ap (λ (y : Bytes). y ∷ xs) (sym (append_assoc p q x))

drop-cons :
    (n : ℕ) (xs : Bytes) (b : ℕ) (bs : Bytes)
    → drop n xs ≡ b ∷ bs
    → (drop (suc n) xs ≡ bs) × (take (suc n) xs ≡ take n xs ++ (b ∷ []))
drop-cons zero [] b bs e = absurd (cc)
drop-cons zero (x ∷ xs) b bs e = (cc, cc)
drop-cons (suc n) [] b bs e = absurd (cc)
drop-cons (suc n) (x ∷ xs) b bs e = let (d, t) = drop-cons n xs b bs e in (d, ap (◌∷◌ x) t)

drop-nil : (n : ℕ) → drop {A = ℕ} n [] ≡ []
drop-nil zero = refl
drop-nil (suc n) = refl

drop-drop : (m n : ℕ) (xs : Bytes) → drop n (drop m xs) ≡ drop (m + n) xs
drop-drop zero n xs = let e : n ≡ zero + n = omega arith in ap (λ (k : ℕ). drop k xs) e
drop-drop (suc m) n [] = drop-nil n ∙ sym (drop-nil (suc m + n))
drop-drop (suc m) n (x ∷ xs) =
    let e : suc (m + n) ≡ suc m + n = omega arith in
    drop-drop m n xs ∙ ap (λ (k : ℕ). drop k (x ∷ xs)) e

between-step :
    (raw : Bytes) (start position b : ℕ) (bytes : Bytes)
    → start ≤ position
    → drop position raw ≡ b ∷ bytes
    → between raw start (position + 1) ≡ between raw start position ++ (b ∷ [])
between-step raw start position b bytes h e =
    let n : ℕ = position - start in
    let there : start + n ≡ position = omega arith in
    let one : position + 1 - start ≡ suc n = omega arith in
    let here : drop n (drop start raw) ≡ b ∷ bytes =
      drop-drop start n raw ∙ ap (λ (k : ℕ). drop k raw) there ∙ e in
    let (d, t) = drop-cons n (drop start raw) b bytes here in
    ap (λ (k : ℕ). take k (drop start raw)) one ∙ t

empty_span : (raw : Bytes) (position : ℕ) → between raw position position ≡ []
empty_span raw position =
    ap (λ (k : ℕ). take k (drop position raw)) {x = position - position} {y = 0} (omega arith)

split_byte-split :
    (raw : Bytes) (d limit : ℕ) (bytes : Bytes) (start position : ℕ) (cells : List Field)
    → start ≤ position
    → drop position raw ≡ bytes
    → split_byte d limit start position bytes ≡ ok cells
    → map (text_of raw) cells ≡ prepend (between raw start position) (split d bytes)
unfolding split_byte
split_byte-split raw d limit [] start position cells h at e =
    let (_, fits, e') = >>=-eq_ok (field_length (position - start) limit) _ e in
    rw (← ok_inj e') (ap (λ (x : Bytes). x ∷ []) (sym (append-nil (between raw start position))))
split_byte-split raw d limit (b ∷ bytes) start position cells h at e =
    let (behind, _) = drop-cons position raw b bytes at in
    let behind' : drop (position + 1) raw ≡ bytes =
      ap (λ (k : ℕ). drop k raw) {x = position + 1} {y = suc position} (omega arith) ∙ behind in
    elim (Bool-cases (b == d)) [
      | inl found ↦
          let (_, fits, e1) = >>=-eq_ok (field_length (position - start) limit) _ (rw found at e) in
          let (rest, split_rest, e2) =
            >>=-eq_ok (split_byte d limit (position + 1) (position + 1) bytes) _ e1 in
          let ih =
            split_byte-split raw d limit bytes (position + 1) (position + 1) rest (omega arith)
              behind' split_rest in
          let tail =
            ih
            ∙ ap (λ (p : Bytes). prepend p (split d bytes)) (empty_span raw (position + 1))
            ∙ prepend-nil (split d bytes) in
          rw (found, ← ok_inj e2)
            (ap₂ (λ (x : Bytes) (xs : List Bytes). x ∷ xs)
              (sym (append-nil (between raw start position))) tail)
      | inr other ↦
          let e1 : split_byte d limit start (position + 1) bytes ≡ ok cells = rw other at e in
          let ih =
            split_byte-split raw d limit bytes start (position + 1) cells (omega arith) behind'
              e1 in
          rw other (
            ih
            ∙ ap (λ (p : Bytes). prepend p (split d bytes))
                (between-step raw start position b bytes h at)
            ∙ sym (prepend-prepend (between raw start position) (b ∷ []) (split d bytes)))
    ]

-- When a record without quotes is parsed with a delimiter of one byte, the texts of the fields' spans
-- are the parts of the record between the delimiters, in order.
pub parse_unquoted_record-split :
    (raw : Bytes) (d limit : ℕ) (cells : List Field)
    → parse_unquoted_record raw (d ∷ []) limit ≡ ok cells
    → map (text_of raw) cells ≡ split d raw
unfolding parse_unquoted_record
parse_unquoted_record-split raw d limit cells e =
    split_byte-split raw d limit raw 0 0 cells (omega arith) refl e ∙ prepend-nil (split d raw)
