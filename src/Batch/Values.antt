-- ===== src/Batch/Values.antt =====
-- A batch gives back what was pushed: later bytes and ranges never change an earlier cell.
use velr.Base.{
  ℕ, zero, suc, ◌+◌, ◌-◌, ◌^◌, ◌≤◌, Bool, true, false, ◌&&◌, List, [], ◌∷◌, ◌++◌, append-nil,
  append_assoc, Option, none, some, ◌>>=◌, >>=-eq_some, length, length-append, length-drop,
  get_elem?, take, drop, drop-append_left, ltb, leb, if◌then◌else◌, Bool-cases, inl, inr, ◌≡◌, refl,
  sym, ◌∙◌, ap, arith, if_both,
}
use velr.Base.Word.{Bytes}
use velr.Batch.{
  ImportValue, null, integer, real, text, blob, Range, BatchCell, null_cell, integer_cell,
  real_cell, text_cell, blob_cell, wide_text, wide_blob, BatchValues, append_bytes, wide_range_cell,
  range_cell_bounded, range_cell, push_cell, push_range, push_owned, slice, cell_value, values_of,
  iter, push_all,
}

take-all : (n : ℕ) (xs : Bytes) → n ≡ length xs → take n xs ≡ xs
take-all zero [] h = refl
take-all zero (x ∷ xs) h = absurd (omega arith)
take-all (suc n) [] h = refl
take-all (suc n) (x ∷ xs) h = ap (◌∷◌ x) (take-all n xs (omega arith))

take-within : (n : ℕ) (xs ys : Bytes) → n ≤ length xs → take n (xs ++ ys) ≡ take n xs
take-within zero xs ys h = refl
take-within (suc n) [] ys h = absurd (omega arith)
take-within (suc n) (x ∷ xs) ys h = ap (◌∷◌ x) (take-within n xs ys (omega arith))

drop-within : (n : ℕ) (xs ys : Bytes) → n ≤ length xs → drop n (xs ++ ys) ≡ drop n xs ++ ys
drop-within zero xs ys h = refl
drop-within (suc n) [] ys h = absurd (omega arith)
drop-within (suc n) (x ∷ xs) ys h = drop-within n xs ys (omega arith)

get_elem?-append :
    (xs ys : List Range) (i : ℕ) (r : Range)
    → get_elem? xs i ≡ some r
    → get_elem? (xs ++ ys) i ≡ some r
get_elem?-append [] ys i r e = absurd (cc)
get_elem?-append (x ∷ xs) ys zero r e = e
get_elem?-append (x ∷ xs) ys (suc i) r e = get_elem?-append xs ys i r e

get_elem?-last : (xs : List Range) (r : Range) → get_elem? (xs ++ (r ∷ [])) (length xs) ≡ some r
get_elem?-last [] r = refl
get_elem?-last (x ∷ xs) r = get_elem?-last xs r

-- A range that is inside stays what it was.
slice-append :
    (bytes more : Bytes) (r : Range) (s : Bytes)
    → slice bytes r ≡ some s
    → slice (bytes ++ more) r ≡ some s
unfolding slice
slice-append bytes more (start, end) s e =
    elim (Bool-cases (leb start end && leb end (length bytes))) [
      | inl inside ↦
          let ordered : start ≤ end = ground arith in
          let within : end ≤ length bytes = ground arith in
          let longer : (leb start end && leb end (length (bytes ++ more))) ≡ true =
            ground (arith, length-append bytes more) in
          let taken : ◌≡◌ {A = Option Bytes} (some (take (end - start) (drop start bytes)))
              (some s) =
            rw inside at e in
          rw longer (
            ap (λ (x : Bytes). some (take (end - start) x))
              (drop-within start bytes more (omega arith))
            ∙ ap some (
                take-within (end - start) (drop start bytes) more
                  (omega (arith, length-drop start bytes)))
            ∙ taken)
      | inr outside ↦
          let refused : ◌≡◌ {A = Option Bytes} none (some s) = rw outside at e in absurd (cc)
    ]

slice-last :
    (bytes more : Bytes)
    → slice (bytes ++ more) (length bytes, length bytes + length more) ≡ some more
unfolding slice
slice-last bytes more =
    let inside : (leb (length bytes) (length bytes + length more)
          && leb (length bytes + length more) (length (bytes ++ more)))
        ≡ true =
      ground (arith, length-append bytes more) in
    rw inside (
      ap (λ (x : Bytes). some (take (length bytes + length more - length bytes) x))
        (drop-append_left (length bytes) bytes more refl)
      ∙ ap some (take-all (length bytes + length more - length bytes) more (omega arith)))

-- One batch has the bytes and the wide ranges of another, and perhaps more behind them.
record Extends (b b' : BatchValues) : Type 0 where
  more_bytes : Bytes
  more_ranges : List Range
  bytes_are : b'.bytes ≡ b.bytes ++ more_bytes
  ranges_are : b'.wide_ranges ≡ b.wide_ranges ++ more_ranges

slice-Extends :
    (b b' : BatchValues) (r : Range) (s : Bytes)
    → Extends b b'
    → slice b.bytes r ≡ some s
    → slice b'.bytes r ≡ some s
slice-Extends b b' r s x e =
    ap (λ (bs : Bytes). slice bs r) x.bytes_are ∙ slice-append b.bytes x.more_bytes r s e

abbrev as_value : (Bytes → ImportValue) → Option Bytes → Option ImportValue
as_value f o = o >>= λ s. some (f s)

short-Extends :
    (f : Bytes → ImportValue) (b b' : BatchValues) (r : Range) (v : ImportValue)
    → Extends b b'
    → as_value f (slice b.bytes r) ≡ some v
    → as_value f (slice b'.bytes r) ≡ some v
short-Extends f b b' r v x e =
    let (s, found, rest) = >>=-eq_some (slice b.bytes r) _ e in
    ap (as_value f) (slice-Extends b b' r s x found) ∙ rest

wide-Extends :
    (f : Bytes → ImportValue) (b b' : BatchValues) (i : ℕ) (v : ImportValue)
    → Extends b b'
    → (get_elem? b.wide_ranges i >>= λ r. as_value f (slice b.bytes r)) ≡ some v
    → (get_elem? b'.wide_ranges i >>= λ r. as_value f (slice b'.bytes r)) ≡ some v
wide-Extends f b b' i v x e =
    let (r, at, rest) = >>=-eq_some (get_elem? b.wide_ranges i) _ e in
    let at' =
      ap (λ (l : List Range). get_elem? l i) x.ranges_are
      ∙ get_elem?-append b.wide_ranges x.more_ranges i r at in
    ap (λ (o : Option Range). o >>= λ r. as_value f (slice b'.bytes r)) at'
    ∙ short-Extends f b b' r v x rest

cell_value-Extends :
    (b b' : BatchValues) (cell : BatchCell) (v : ImportValue)
    → Extends b b'
    → cell_value b cell ≡ some v
    → cell_value b' cell ≡ some v
unfolding cell_value
cell_value-Extends b b' null_cell v x e = e
cell_value-Extends b b' (integer_cell n) v x e = e
cell_value-Extends b b' (real_cell n) v x e = e
cell_value-Extends b b' (text_cell r) v x e = short-Extends text b b' r v x e
cell_value-Extends b b' (blob_cell r) v x e = short-Extends blob b b' r v x e
cell_value-Extends b b' (wide_text i) v x e = wide-Extends text b b' i v x e
cell_value-Extends b b' (wide_blob i) v x e = wide-Extends blob b b' i v x e

-- What a push does: one cell that has the value, behind the others, in a batch that extends the first.
record Pushed (b : BatchValues) (v : ImportValue) (b' : BatchValues) : Type 0 where
  cell : BatchCell
  cells_are : b'.cells ≡ b.cells ++ (cell ∷ [])
  extends : Extends b b'
  gives : cell_value b' cell ≡ some v

values_of-Pushed :
    (b b' : BatchValues) (cells : List BatchCell) (cell : BatchCell) (v : ImportValue)
    (vs : List ImportValue)
    → Extends b b'
    → cell_value b' cell ≡ some v
    → values_of b cells ≡ some vs
    → values_of b' (cells ++ (cell ∷ [])) ≡ some (vs ++ (v ∷ []))
values_of-Pushed b b' [] cell v vs x gives e = rw gives (cc)
values_of-Pushed b b' (c ∷ cells) cell v vs x gives e =
    let (u, at, e1) = >>=-eq_some (cell_value b c) _ e in
    let (us, at', e2) = >>=-eq_some (values_of b cells) _ e1 in
    rw (cell_value-Extends b b' c u x at, values_of-Pushed b b' cells cell v us x gives at')
      (ap (λ (o : Option (List ImportValue)). o >>= λ l. some (l ++ (v ∷ []))) e2)

plain_push :
    (b : BatchValues) (cell : BatchCell) (v : ImportValue)
    → ((b' : BatchValues) → cell_value b' cell ≡ some v)
    → Pushed b v (push_cell (cell, b))
plain_push b cell v gives = record {
  cell = cell;
  cells_are = refl;
  extends = record {
    more_bytes = [];
    more_ranges = [];
    bytes_are = sym (append-nil b.bytes);
    ranges_are = sym (append-nil b.wide_ranges);
  };
  gives = gives _;
}

abbrev kind_of : Bool → Bytes → ImportValue
kind_of true = text
kind_of false = blob

short_push :
    (b : BatchValues) (bytes : Bytes) (is_text : Bool)
    → Pushed b (kind_of is_text bytes) (
        push_cell (
          if is_text
              then text_cell (length b.bytes, length b.bytes + length bytes)
              else blob_cell (length b.bytes, length b.bytes + length bytes),
          record b { bytes = b.bytes ++ bytes },
        ))
unfolding cell_value
short_push b bytes true = record {
  cell = text_cell (length b.bytes, length b.bytes + length bytes);
  cells_are = refl;
  extends = record {
    more_bytes = bytes;
    more_ranges = [];
    bytes_are = refl;
    ranges_are = sym (append-nil b.wide_ranges);
  };
  gives = ap (as_value text) (slice-last b.bytes bytes);
}
short_push b bytes false = record {
  cell = blob_cell (length b.bytes, length b.bytes + length bytes);
  cells_are = refl;
  extends = record {
    more_bytes = bytes;
    more_ranges = [];
    bytes_are = refl;
    ranges_are = sym (append-nil b.wide_ranges);
  };
  gives = ap (as_value blob) (slice-last b.bytes bytes);
}

wide_value :
    (f : Bytes → ImportValue) (b : BatchValues) (bytes : Bytes)
    → (get_elem?
          (b.wide_ranges ++ ((length b.bytes, length b.bytes + length bytes) ∷ []))
          (length b.wide_ranges)
        >>= λ r. as_value f (slice (b.bytes ++ bytes) r))
      ≡ some (f bytes)
wide_value f b bytes =
    ap (λ (o : Option Range). o >>= λ r. as_value f (slice (b.bytes ++ bytes) r))
      (get_elem?-last b.wide_ranges (length b.bytes, length b.bytes + length bytes))
    ∙ ap (as_value f) (slice-last b.bytes bytes)

wide_push :
    (b : BatchValues) (bytes : Bytes) (is_text : Bool)
    → Pushed b (kind_of is_text bytes) (
        push_cell (
          wide_range_cell
            (record b { bytes = b.bytes ++ bytes })
            (length b.bytes, length b.bytes + length bytes)
            is_text))
unfolding cell_value wide_range_cell
wide_push b bytes true = record {
  cell = wide_text (length b.wide_ranges);
  cells_are = refl;
  extends = record {
    more_bytes = bytes;
    more_ranges = (length b.bytes, length b.bytes + length bytes) ∷ [];
    bytes_are = refl;
    ranges_are = refl;
  };
  gives = wide_value text b bytes;
}
wide_push b bytes false = record {
  cell = wide_blob (length b.wide_ranges);
  cells_are = refl;
  extends = record {
    more_bytes = bytes;
    more_ranges = (length b.bytes, length b.bytes + length bytes) ∷ [];
    bytes_are = refl;
    ranges_are = refl;
  };
  gives = wide_value blob b bytes;
}

by_range :
    (P : BatchCell × BatchValues → Type 0) (b : BatchValues) (start end : ℕ) (is_text : Bool)
    → P (wide_range_cell b (start, end) is_text)
    → P (if is_text then text_cell (start, end) else blob_cell (start, end), b)
    → P (range_cell b (start, end) is_text)
unfolding range_cell range_cell_bounded
by_range P b start end is_text wide short =
    if_both P (ltb (2 ^ 32 - 1) end) (λ _. wide)
      (λ _. if_both P (ltb start (2 ^ 32) && ltb end (2 ^ 32)) (λ _. short) (λ _. wide))

push_range-Pushed :
    (b : BatchValues) (bytes : Bytes) (is_text : Bool)
    → Pushed b (kind_of is_text bytes) (push_range b bytes is_text)
unfolding push_range append_bytes
push_range-Pushed b bytes is_text =
    by_range (λ p. Pushed b (kind_of is_text bytes) (push_cell p))
      (record b { bytes = b.bytes ++ bytes }) (length b.bytes) (length b.bytes + length bytes)
      is_text (wide_push b bytes is_text) (short_push b bytes is_text)

push_owned-Pushed : (b : BatchValues) (v : ImportValue) → Pushed b v (push_owned b v)
unfolding push_owned cell_value
push_owned-Pushed b null = plain_push b null_cell null (λ b'. refl)
push_owned-Pushed b (integer n) = plain_push b (integer_cell n) (integer n) (λ b'. refl)
push_owned-Pushed b (real n) = plain_push b (real_cell n) (real n) (λ b'. refl)
push_owned-Pushed b (text bytes) = push_range-Pushed b bytes true
push_owned-Pushed b (blob bytes) = push_range-Pushed b bytes false

-- A batch that gives some values gives, after more are pushed, the same values and then those pushed,
-- whether their ranges are short or wide.
pub iter-push_all :
    (b : BatchValues) (vs more : List ImportValue)
    → iter b ≡ some vs
    → iter (push_all b more) ≡ some (vs ++ more)
unfolding iter
iter-push_all b vs [] e = rw (append-nil vs) e
iter-push_all b vs (v ∷ more) e =
    let p = push_owned-Pushed b v in
    let one =
      ap (values_of (push_owned b v)) p.cells_are
      ∙ values_of-Pushed b (push_owned b v) b.cells p.cell v vs p.extends p.gives e in
    iter-push_all (push_owned b v) (vs ++ (v ∷ [])) more one
    ∙ ap some (append_assoc vs (v ∷ []) more)
