-- ===== src/Sort/Packing.antt =====
-- Packed keys have the order of their tuples, and give the tuples back.
use velr.Base.{
  ℕ, ◌+◌, ◌-◌, ◌*◌, ◌/◌, ◌%◌, ◌^◌, ◌≤◌, ◌<◌, bit_and, Bool, false, ◌&&◌, ◌||◌, List, [], ◌∷◌, ltb,
  ◌==◌, if◌then◌else◌, Bool-cases, ==_iff, ne→==, lt→ltb, ge→ltb, inl, inr, ◌≡◌, refl, sym, ap, ◌∙◌,
  arith, All, pow-add, two_pow_mono,
}
use velr.Base.Bits.{bit_or-shifted, bit_and-ones}
use velr.Base.Word.{IsU64}
use native.Mathlib.Nat.{
  mul-le-mul_right, mul_assoc, div-add-mod', mod-eq_of_lt, add-mul-mod_self_right,
  mul-add-div_right, div-eq_of_lt,
}
use velr.Varint.{leading_zeros}
use velr.Varint.Length.{bit_length}
use velr.Sort.Keys.{
  at, ordered, IntegerSpool, Part, width_of, bits_of, mask_of, parts_from, pack_parts, part_value,
}

-- Shifting up and adding less than the shift.
pub shifted-lt : (m d e v u : ℕ) → v < m → d < e → d * m + v < e * m + u
shifted-lt m d e v u h k =
    let up : (d + 1) * m ≤ e * m = mul-le-mul_right m (omega arith) in
    let one : (d + 1) * m ≡ d * m + m = omega arith in omega arith

below_power : (w r d v : ℕ) → d < 2 ^ w → v < 2 ^ r → d * 2 ^ r + v < 2 ^ (w + r)
below_power w r d v h k = omega (arith, shifted-lt (2 ^ r) d (2 ^ w) v 0 k h, pow-add 2 w r)

mod_mod : (q c m : ℕ) → q % (c * m) % m ≡ q % m
mod_mod q c m =
    let whole : q / (c * m) * (c * m) + q % (c * m) ≡ q = div-add-mod' q (c * m) in
    let again : q / (c * m) * (c * m) ≡ q / (c * m) * c * m = sym (mul_assoc (q / (c * m)) c m) in
    let e : q % (c * m) + q / (c * m) * c * m ≡ q = omega arith in
    sym (add-mul-mod_self_right (q % (c * m)) (q / (c * m) * c) m) ∙ ap (λ (x : ℕ). x % m) e

pub right_distrib : (a b m : ℕ) → (a + b) * m ≡ a * m + b * m
right_distrib a b m = omega arith

-- The order of two numbers over the same base is that of their high parts and then of their low parts.
order_step :
    (m x y a v u : ℕ)
    → v < m
    → u < m
    → a ≤ x
    → a ≤ y
    → ltb ((x - a) * m + v) ((y - a) * m + u) ≡ (ltb x y || (x == y && ltb v u))
order_step m x y a v u hv hu hx hy = elim (Bool-cases (ltb x y)) [
  | inl lower ↦ rw lower (lt→ltb _ _ (shifted-lt m (x - a) (y - a) v u hv (ground arith)))
  | inr not_lower ↦ elim (Bool-cases (x == y)) [
    | inl same ↦ let e : x ≡ y = (==_iff x y).0 same in rw (not_lower, same) (rw e (ground arith))
    | inr other ↦
        let h : y < x = ground arith in
        rw (not_lower, other)
          (ge→ltb _ _ (let l = shifted-lt m (y - a) (x - a) u v hu (omega arith) in omega arith))
  ]
]

-- A field of a tuple that lies in the bounds of its column.
pub record Within (s : IntegerSpool) (t : List ℕ) (field : ℕ) : Type 0 where
  pub word : IsU64 (at t field)
  pub above : at s.minimum field ≤ ordered (at t field)
  pub below : ordered (at t field) ≤ at s.maximum field
  pub bounded : at s.maximum field < 2 ^ 64
  pub in_array : field < 4

-- The order of tuples, field by field, as i64s.
abbrev pub tuple_ltb : List ℕ → List ℕ → List ℕ → Bool
tuple_ltb [] t u = false
tuple_ltb (field ∷ fields) t u =
    ltb (ordered (at t field)) (ordered (at u field))
    || (ordered (at t field) == ordered (at u field) && tuple_ltb fields t u)

module _ (s : IntegerSpool) (some_rows : 0 < s.rows) where
  abbrev pub delta : List ℕ → ℕ → ℕ
  delta t field = ordered (at t field) - at s.minimum field

  delta-width :
      (t : List ℕ) (field : ℕ)
      → Within s t field
      → (delta t field < 2 ^ width_of s field) × (width_of s field ≤ 64)
  unfolding width_of
  delta-width t field h =
      let range : ℕ = at s.maximum field - at s.minimum field in
      let (b, l) = bit_length 64 range (omega (arith, h.bounded)) in
      let width : 64 - leading_zeros 64 range ≡ b = omega (arith, l.parts) in
      rw (ne→== s.rows 0 (omega arith))
        (rw width (omega (arith, l.above, h.above, h.below), omega (arith, l.parts)))

  -- The number that a key stands for.
  abbrev pub value : List ℕ → List ℕ → ℕ
  value [] t = 0
  value (field ∷ fields) t = delta t field * 2 ^ bits_of s fields + value fields t

  pub value-lt :
      (fields t : List ℕ) → All (Within s t) fields → value fields t < 2 ^ bits_of s fields
  value-lt [] t h = omega arith
  value-lt (field ∷ fields) t (h, hs) =
      below_power (width_of s field) (bits_of s fields) (delta t field) (value fields t)
        (delta-width t field h).0 (value-lt fields t hs)

  shift_of : ℕ → ℕ → ℕ
  shift_of width left = if width == 0 then 0 else left

  abbrev pub part : ℕ → ℕ → Part
  part field left = record {
    field = field;
    minimum = at s.minimum field;
    shift = if width_of s field == 0 then 0 else left;
    mask = mask_of (width_of s field);
  }

  -- What one field adds to a key is not cut off.
  term_lem :
      (word width r d : ℕ)
      → d < 2 ^ width
      → width + r ≤ word
      → d * 2 ^ (if width == 0 then 0 else r) % 2 ^ word ≡ d * 2 ^ r
  term_lem word width r d h room = elim (Bool-cases (width == 0)) [
    | inl none_left ↦
        let w : width ≡ 0 = (==_iff width 0).0 none_left in
        let zero_is : d ≡ 0 = omega (arith, ap (λ (x : ℕ). 2 ^ x) w) in
        rw (none_left, zero_is) (omega arith)
    | inr wide ↦
        let small : d * 2 ^ r + 0 < 2 ^ (width + r) =
          below_power width r d 0 h (omega (arith, two_pow_mono 0 r (omega arith))) in
        rw wide (mod-eq_of_lt (omega (arith, two_pow_mono (width + r) word room)))
  ]

  -- One field more of a key goes to its high part.
  pub value-next :
      (field : ℕ) (fields t : List ℕ) (high : ℕ)
      → high * 2 ^ bits_of s (field ∷ fields) + value (field ∷ fields) t
        ≡ (high * 2 ^ width_of s field + delta t field) * 2 ^ bits_of s fields + value fields t
  value-next field fields t high =
      let w : ℕ = width_of s field in
      let r : ℕ = bits_of s fields in
      let split : high * 2 ^ (w + r) ≡ high * 2 ^ w * 2 ^ r =
        ap (λ (x : ℕ). high * x) (pow-add 2 w r) ∙ sym (mul_assoc high (2 ^ w) (2 ^ r)) in
      omega (arith, split, right_distrib (high * 2 ^ w) (delta t field) (2 ^ r))

  pub pack_parts-value :
      (word : ℕ) (fields t : List ℕ) (high : ℕ)
      → All (Within s t) fields
      → bits_of s fields ≤ word
      → pack_parts word (parts_from s (bits_of s fields) fields) t (high * 2 ^ bits_of s fields)
        ≡ high * 2 ^ bits_of s fields + value fields t
  unfolding pack_parts
  pack_parts-value word [] t high h room = omega arith
  pack_parts-value word (field ∷ fields) t high (h, hs) room =
      let w : ℕ = width_of s field in
      let r : ℕ = bits_of s fields in
      let d : ℕ = delta t field in
      let (small, narrow) = delta-width t field h in
      let left : w + r - w ≡ r = omega arith in
      let term = term_lem word w r d small room in
      let added : d * 2 ^ r + 0 < 2 ^ (w + r) =
        below_power w r d 0 small (omega (arith, two_pow_mono 0 r (omega arith))) in
      let joined = bit_or-shifted (w + r) high (d * 2 ^ r) (omega arith) in
      let split : high * 2 ^ (w + r) ≡ high * 2 ^ w * 2 ^ r =
        ap (λ (x : ℕ). high * x) (pow-add 2 w r) ∙ sym (mul_assoc high (2 ^ w) (2 ^ r)) in
      let next : high * 2 ^ (w + r) + d * 2 ^ r ≡ (high * 2 ^ w + d) * 2 ^ r =
        omega (arith, split, right_distrib (high * 2 ^ w) d (2 ^ r)) in
      let ih = pack_parts-value word fields t (high * 2 ^ w + d) hs (omega arith) in
      rw left (rw (term, joined, next) (ih ∙ omega (arith, next)))

  pub value-order :
      (fields t u : List ℕ)
      → All (Within s t) fields
      → All (Within s u) fields
      → ltb (value fields t) (value fields u) ≡ tuple_ltb fields t u
  value-order [] t u h k = refl
  value-order (field ∷ fields) t u (h, hs) (k, ks) =
      order_step (2 ^ bits_of s fields) (ordered (at t field)) (ordered (at u field))
        (at s.minimum field) (value fields t) (value fields u) (value-lt fields t hs)
        (value-lt fields u ks) h.above k.above
      ∙ ap
          (λ (b : Bool).
            ltb (ordered (at t field)) (ordered (at u field))
            || (ordered (at t field) == ordered (at u field) && b))
          (value-order fields t u hs ks)

  ordered-ordered : (x : ℕ) → IsU64 x → ordered (ordered x) ≡ x
  ordered-ordered x h = omega arith

  mask_lem : (width x : ℕ) → bit_and x (mask_of width) ≡ x % 2 ^ width
  mask_lem width x = elim (Bool-cases (width == 0)) [
    | inl none_left ↦ let w : width ≡ 0 = (==_iff width 0).0 none_left in rw w (bit_and-ones 0 x)
    | inr some_left ↦ elim (Bool-cases (width == 64)) [
      | inl full ↦ let w : width ≡ 64 = (==_iff width 64).0 full in rw w (bit_and-ones 64 x)
      | inr partly ↦ rw (some_left, partly) (bit_and-ones width x)
    ]
  ]

  -- The bits of one field of a key, at the place where the codec put them.
  field_bits :
      (high width r d v : ℕ)
      → d < 2 ^ width
      → v < 2 ^ r
      → width ≤ 64
      → bit_and
          ((high * 2 ^ (width + r) + (d * 2 ^ r + v)) / 2 ^ (if width == 0 then 0 else r) % 2 ^ 64)
          (mask_of width)
        ≡ d
  field_bits high width r d v h k narrow = elim (Bool-cases (width == 0)) [
    | inl none_left ↦
        let w : width ≡ 0 = (==_iff width 0).0 none_left in
        let zero_is : d ≡ 0 = omega (arith, ap (λ (x : ℕ). 2 ^ x) w) in
        mask_lem width _
        ∙ ap
            (λ (x : ℕ).
              (high * 2 ^ (width + r) + (d * 2 ^ r + v))
              / 2 ^ (if width == 0 then 0 else r)
              % 2 ^ 64
              % 2 ^ x)
            w
        ∙ omega arith
    | inr wide ↦
        let split : high * 2 ^ (width + r) ≡ high * 2 ^ width * 2 ^ r =
          ap (λ (x : ℕ). high * x) (pow-add 2 width r) ∙ sym (mul_assoc high (2 ^ width) (2 ^ r)) in
        let together : high * 2 ^ (width + r) + (d * 2 ^ r + v)
            ≡ (high * 2 ^ width + d) * 2 ^ r + v =
          omega (arith, split, right_distrib (high * 2 ^ width) d (2 ^ r)) in
        let pos : 0 < 2 ^ r = omega arith in
        let down : ((high * 2 ^ width + d) * 2 ^ r + v) / 2 ^ r ≡ high * 2 ^ width + d =
          mul-add-div_right pos (high * 2 ^ width + d) v ∙ omega (arith, div-eq_of_lt k) in
        let word : 2 ^ 64 ≡ 2 ^ (64 - width) * 2 ^ width =
          ap (λ (n : ℕ). 2 ^ n) {x = 64} {y = 64 - width + width} (omega arith)
          ∙ pow-add 2 (64 - width) width in
        let order : high * 2 ^ width + d ≡ d + high * 2 ^ width = omega arith in
        mask_lem width _
        ∙ rw wide (
            ap (λ (x : ℕ). x / 2 ^ r % 2 ^ 64 % 2 ^ width) together
            ∙ ap (λ (x : ℕ). x % 2 ^ 64 % 2 ^ width) down
            ∙ ap (λ (x : ℕ). (high * 2 ^ width + d) % x % 2 ^ width) word
            ∙ mod_mod (high * 2 ^ width + d) (2 ^ (64 - width)) (2 ^ width)
            ∙ ap (λ (x : ℕ). x % 2 ^ width) order
            ∙ add-mul-mod_self_right d high (2 ^ width)
            ∙ mod-eq_of_lt h)
  ]

  pub part_value-part :
      (field : ℕ) (fields t : List ℕ) (high : ℕ)
      → Within s t field
      → All (Within s t) fields
      → part_value
          (high * 2 ^ bits_of s (field ∷ fields) + value (field ∷ fields) t)
          (part field (bits_of s fields))
        ≡ at t field
  unfolding part_value
  part_value-part field fields t high h hs =
      let (small, narrow) = delta-width t field h in
      let d =
        field_bits high (width_of s field) (bits_of s fields) (delta t field) (value fields t) small
          (value-lt fields t hs) narrow in
      let back : (delta t field + at s.minimum field) % 2 ^ 64 ≡ ordered (at t field) =
        omega (arith, h.above, h.below, h.bounded) in
      ap (λ (x : ℕ). ordered ((x + at s.minimum field) % 2 ^ 64)) d
      ∙ ap ordered back
      ∙ ordered-ordered (at t field) h.word
