-- ===== src/Stats/Counts.antt =====
-- The counts of a row: the sizes of the groups of keys with equal first columns. The changed fields of
-- the rows so far are a list, the latest first.
use velr.Base.{
  ℕ, zero, suc, ◌+◌, ◌-◌, ◌^◌, ◌≤◌, ◌<◌, false, List, [], ◌∷◌, length, leb, ltb, if◌then◌else◌,
  Bool-cases, inl, inr, ◌≡◌, refl, sym, ap, ◌∙◌, arith, subst,
}
use velr.Sort.Keys.{at, put}
use velr.Sort.Unpack.{at-put, at-put_other, length-put}
use velr.Stats.{Sample, add64, fill, count_equal, count_new}

-- The rows of the latest group of keys that agree up to column `c`, and the number of these groups.
abbrev pub latest : ℕ → List ℕ → ℕ
latest c [] = 0
latest c (changed ∷ earlier) = if leb changed c then 1 else suc (latest c earlier)

abbrev pub groups : ℕ → List ℕ → ℕ
groups c [] = 0
groups c (changed ∷ earlier) = (if leb changed c then 1 else 0) + groups c earlier

-- Column `c` of the counts.
pub record Counted (current : Sample) (changes : List ℕ) (c : ℕ) : Type 0 where
  pub equal_is : at current.equal c ≡ latest c changes
  pub less_is : at current.less c + latest c changes ≡ length changes
  pub distinct_is : at current.distinct_less c ≡ groups c changes - 1
  pub some_group : 0 < length changes → 0 < groups c changes

pub record Arrays (current : Sample) : Type 0 where
  pub equal_length : length current.equal ≡ 8
  pub less_length : length current.less ≡ 8
  pub distinct_length : length current.distinct_less ≡ 8
  pub plain : current.periodic ≡ false

pub length-fill : (n v : ℕ) (xs : List ℕ) → length (fill n v xs) ≡ length xs
length-fill zero v xs = refl
length-fill (suc n) v [] = refl
length-fill (suc n) v (x ∷ xs) = ap suc (length-fill n v xs)

pub at-fill : (n v c : ℕ) (xs : List ℕ) → c < n → c < length xs → at (fill n v xs) c ≡ v
at-fill zero v c xs h k = absurd (omega arith)
at-fill (suc n) v c [] h k = absurd (omega arith)
at-fill (suc n) v zero (x ∷ xs) h k = refl
at-fill (suc n) v (suc c) (x ∷ xs) h k = at-fill n v c xs (omega arith) (omega arith)

count_equal_frame :
    (n : ℕ) (s : Sample) → count_equal n s ≡ record s { equal = (count_equal n s).equal }
unfolding count_equal
count_equal_frame zero s = refl
count_equal_frame (suc n) s =
    ap
      (λ (d : Sample). record d {
        equal = put (count_equal n s).equal n (add64 (at (count_equal n s).equal n) 1);
      })
      (count_equal_frame n s)

length-count_equal : (n : ℕ) (s : Sample) → length (count_equal n s).equal ≡ length s.equal
unfolding count_equal
length-count_equal zero s = refl
length-count_equal (suc n) s = length-put (count_equal n s).equal n _ ∙ length-count_equal n s

count_equal_above : (n c : ℕ) (s : Sample) → n ≤ c → at (count_equal n s).equal c ≡ at s.equal c
unfolding count_equal
count_equal_above zero c s h = refl
count_equal_above (suc n) c s h =
    at-put_other (count_equal n s).equal n c _ (λ e. omega arith)
    ∙ count_equal_above n c s (omega arith)

count_equal_below :
    (n c : ℕ) (s : Sample)
    → c < n
    → n ≤ length s.equal
    → at (count_equal n s).equal c ≡ add64 (at s.equal c) 1
unfolding count_equal
count_equal_below zero c s h k = absurd (omega arith)
count_equal_below (suc n) c s h k = elim (Bool-cases (ltb c n)) [
  | inl lower ↦
      at-put_other (count_equal n s).equal n c _ (λ e. ground arith)
      ∙ count_equal_below n c s (ground arith) (omega arith)
  | inr here ↦
      let e : n ≡ c = ground arith in
      subst
        (λ x.
          at (put (count_equal n s).equal n (add64 (at (count_equal n s).equal n) 1)) x
          ≡ add64 (at s.equal x) 1)
        e
        (at-put (count_equal n s).equal n _ (omega (arith, length-count_equal n s))
          ∙ ap (λ (x : ℕ). add64 x 1) (count_equal_above n n s (omega arith)))
]

count_new-Arrays : (n column : ℕ) (s : Sample) → Arrays s → Arrays (count_new n column s)
unfolding count_new
count_new-Arrays zero column s a = a
count_new-Arrays (suc n) column s a = count_new-Arrays n (column + 1) _ (record {
  equal_length = length-put s.equal column 1 ∙ a.equal_length;
  less_length = length-put s.less column _ ∙ a.less_length;
  distinct_length = length-put s.distinct_less column _ ∙ a.distinct_length;
  plain = a.plain;
})

-- What `count_new` does to a column.
record Kept (s t : Sample) (c : ℕ) : Type 0 where
  equal : at t.equal c ≡ at s.equal c
  less : at t.less c ≡ at s.less c
  distinct : at t.distinct_less c ≡ at s.distinct_less c

record Renewed (s t : Sample) (c : ℕ) : Type 0 where
  equal : at t.equal c ≡ 1
  less : at t.less c ≡ add64 (at s.less c) (at s.equal c)
  distinct : at t.distinct_less c ≡ add64 (at s.distinct_less c) 1

count_new-Kept : (n column c : ℕ) (s : Sample) → c < column → Kept s (count_new n column s) c
unfolding count_new
count_new-Kept zero column c s h = record { equal = refl; less = refl; distinct = refl }
count_new-Kept (suc n) column c s h =
    let k =
      count_new-Kept n (column + 1) c
        (record s {
          distinct_less = put s.distinct_less column (add64 (at s.distinct_less column) 1);
          less = put s.less column (add64 (at s.less column) (at s.equal column));
          equal = put s.equal column 1;
        })
        (omega arith) in
    record {
      equal = k.equal ∙ at-put_other s.equal column c _ (λ e. omega arith);
      less = k.less ∙ at-put_other s.less column c _ (λ e. omega arith);
      distinct = k.distinct ∙ at-put_other s.distinct_less column c _ (λ e. omega arith);
    }

count_new-Renewed :
    (n column i : ℕ) (s : Sample)
    → Arrays s
    → i < n
    → column + i < 8
    → Renewed s (count_new n column s) (column + i)
unfolding count_new
count_new-Renewed zero column i s a h k = absurd (omega arith)
count_new-Renewed (suc n) column zero s a h k =
    let eq = a.equal_length in
    let le = a.less_length in
    let di = a.distinct_length in
    let e : column ≡ column + 0 = omega arith in
    let t = count_new (suc n) column s in
    let kept =
      count_new-Kept n (column + 1) column
        (record s {
          distinct_less = put s.distinct_less column (add64 (at s.distinct_less column) 1);
          less = put s.less column (add64 (at s.less column) (at s.equal column));
          equal = put s.equal column 1;
        })
        (omega arith) in
    subst (Renewed s t) e (record {
      equal = kept.equal ∙ at-put s.equal column 1 (omega arith);
      less = kept.less ∙ at-put s.less column _ (omega arith);
      distinct = kept.distinct ∙ at-put s.distinct_less column _ (omega arith);
    })
count_new-Renewed (suc n) column (suc i) s a h k =
    let s' = record s {
      distinct_less = put s.distinct_less column (add64 (at s.distinct_less column) 1);
      less = put s.less column (add64 (at s.less column) (at s.equal column));
      equal = put s.equal column 1;
    } in
    let a' : Arrays s' = record {
      equal_length = length-put s.equal column 1 ∙ a.equal_length;
      less_length = length-put s.less column _ ∙ a.less_length;
      distinct_length = length-put s.distinct_less column _ ∙ a.distinct_length;
      plain = a.plain;
    } in
    let e : column + 1 + i ≡ column + suc i = omega arith in
    let r =
      subst (Renewed s' (count_new n (column + 1) s')) e
        (count_new-Renewed n (column + 1) i s' a' (omega arith) (omega arith)) in
    record {
      equal = r.equal;
      less =
          r.less
          ∙ ap (λ (p : ℕ × ℕ). add64 p.0 p.1)
              (pair (at-put_other s.less column (column + suc i) _ (λ e. omega arith))
                (at-put_other s.equal column (column + suc i) _ (λ e. omega arith)));
      distinct =
          r.distinct
          ∙ ap (λ (x : ℕ). add64 x 1)
              (at-put_other s.distinct_less column (column + suc i) _ (λ e. omega arith));
    }
  where
    pair : {a b c d : ℕ} → a ≡ b → c ≡ d → ◌≡◌ {A = ℕ × ℕ} (a, c) (b, d)
    pair p q i = (p i, q i)

latest-length : (c : ℕ) (changes : List ℕ) → latest c changes ≤ length changes
latest-length c [] = omega arith
latest-length c (changed ∷ earlier) = ground (arith, latest-length c earlier)

pub groups-length : (c : ℕ) (changes : List ℕ) → groups c changes ≤ length changes
groups-length c [] = omega arith
groups-length c (changed ∷ earlier) = ground (arith, groups-length c earlier)

pub counted_Arrays :
    (columns changed : ℕ) (current : Sample)
    → Arrays current
    → Arrays (count_new (columns - changed) changed (count_equal changed current))
counted_Arrays columns changed current a =
    count_new-Arrays (columns - changed) changed (count_equal changed current) (
      subst Arrays (sym (count_equal_frame changed current)) (record {
        equal_length = length-count_equal changed current ∙ a.equal_length;
        less_length = a.less_length;
        distinct_length = a.distinct_length;
        plain = a.plain;
      }))

-- The counts follow a later row.
pub count_row :
    (columns changed : ℕ) (current : Sample) (changes : List ℕ) (c : ℕ)
    → Arrays current
    → Counted current changes c
    → 0 < length changes
    → length changes + 1 < 2 ^ 64
    → changed < columns
    → columns ≤ 8
    → c < columns
    → Counted
        (count_new (columns - changed) changed (count_equal changed current))
        (changed ∷ changes)
        c
count_row columns changed current changes c a k some_rows room low few small =
    let d = count_equal changed current in
    let frame = count_equal_frame changed current in
    let less_same : at d.less c ≡ at current.less c = ap (λ (x : Sample). at x.less c) frame in
    let distinct_same : at d.distinct_less c ≡ at current.distinct_less c =
      ap (λ (x : Sample). at x.distinct_less c) frame in
    let equal_is = k.equal_is in
    let less_is = k.less_is in
    let distinct_is = k.distinct_is in
    let some_group = k.some_group some_rows in
    let eight = a.equal_length in
    elim (Bool-cases (leb changed c)) [
      | inl renewed ↦
          let at_c : changed + (c - changed) ≡ c = ground arith in
          let da : Arrays d = subst Arrays (sym frame) (record {
            equal_length = length-count_equal changed current ∙ a.equal_length;
            less_length = a.less_length;
            distinct_length = a.distinct_length;
            plain = a.plain;
          }) in
          let r = subst (Renewed d (count_new (columns - changed) changed d)) at_c (
            count_new-Renewed (columns - changed) changed (c - changed) d da (ground arith)
              (ground arith)) in
          let above = count_equal_above changed c current (ground arith) in
          let re = r.equal in
          let rl = r.less in
          let rd = r.distinct in
          record {
            equal_is = re ∙ sym (rw renewed refl);
            less_is = rw renewed (omega (arith, latest-length c changes));
            distinct_is = rw renewed (omega (arith, groups-length c changes));
            some_group = λ h. rw renewed (omega arith);
          }
      | inr kept ↦
          let q = count_new-Kept (columns - changed) changed c d (ground arith) in
          let below = count_equal_below changed c current (ground arith) (omega arith) in
          let qe = q.equal in
          let ql = q.less in
          let qd = q.distinct in
          record {
            equal_is = rw kept (omega (arith, latest-length c changes));
            less_is = rw kept (omega (arith, latest-length c changes));
            distinct_is = rw kept (omega arith);
            some_group = λ h. rw kept (omega arith);
          }
    ]
