-- ===== src/IdMap/Page.antt =====
-- Page: 4096 slots as bitmap words with the ranks before them, and one value for each occupied slot.
use velr.Base.{
  ℕ, zero, suc, ◌+◌, ◌-◌, ◌*◌, ◌/◌, ◌%◌, ◌^◌, bit_and, bit_or, Bool, true, false, not, ◌&&◌, List,
  [], ◌∷◌, Option, none, some, length, get_elem?, replicate, ltb, ◌==◌, if◌then◌else◌,
}
use velr.Base.Result.{Result, ok, err, ◌>>=◌, ok_or}
use velr.IdMap.{ImportNode, Budget, charge}

pub data MapError : Type 0 where
  undeclared_slot not_sealed panicked : MapError

pub data PageValues : Type 0 where
  building : PageValues
  compact_values : List ℕ → PageValues
  packed_values : List ℕ → PageValues
  wide_values : List ImportNode → PageValues

pub record OccupiedWord : Type 0 where
  pub bitmap : ℕ
  pub rank : ℕ

pub data Membership : Type 0 where
  dense : List ℕ → List ℕ → Membership
  sparse : ℕ → List OccupiedWord → Membership

pub record Page : Type 0 where
  pub membership : Membership
  pub count : ℕ
  pub single_label : Option ℕ
  pub compact : Bool
  pub packed : Bool
  pub values : PageValues

abbrev pub bitmap_words : ℕ
bitmap_words = 64

abbrev pub M : Type 0 → Type 0
M = Result MapError

unfoldable pub new_page : Page
new_page = record {
  membership = dense (replicate bitmap_words 0) (replicate bitmap_words 0);
  count = 0;
  single_label = none;
  compact = true;
  packed = true;
  values = building;
}

abbrev pub set_elem {ℓ} : {A : Type ℓ} → List A → ℕ → A → List A
set_elem [] i a = []
set_elem (x ∷ xs) zero a = a ∷ xs
set_elem (x ∷ xs) (suc i) a = x ∷ set_elem xs i a

-- Ones among the low `w` bits.
abbrev pub count_ones : ℕ → ℕ → ℕ
count_ones zero x = 0
count_ones (suc w) x = x / 2 ^ w % 2 + count_ones w x

abbrev pub next_label : ℕ → Option ℕ → ℕ → Option ℕ
next_label zero label group = some group
next_label (suc n) none group = none
next_label (suc n) (some label) group = if label == group then some label else none

-- `u32::try_from(value).is_ok()` of an i64.
abbrev pub is_u32 : ℕ → Bool
is_u32 value = ltb value (2 ^ 32)

abbrev insert_word : Page → List ℕ → List ℕ → ℕ → ImportNode → ℕ → Bool × Page
insert_word p bitmap ranks slot node word =
    let bit = 2 ^ (slot % 64) in
    if not (bit_and word bit == 0) then (false, p) else (
      true,
      record p {
        membership = dense (set_elem bitmap (slot / 64) (bit_or word bit)) ranks;
        count = p.count + 1;
        single_label = next_label p.count p.single_label node.label_group;
        compact = p.compact && is_u32 node.id;
        packed = p.packed && (is_u32 node.id && is_u32 node.label_group);
      },
    )

abbrev insert_in : Membership → Page → ℕ → ImportNode → M (Bool × Page)
insert_in (dense bitmap ranks) p slot node =
    ok_or (get_elem? bitmap (slot / 64)) panicked >>= λ word.
    ok (insert_word p bitmap ranks slot node word)
insert_in (sparse mask words) p slot node = err panicked

unfoldable pub insert : Page → ℕ → ImportNode → M (Bool × Page)
insert p slot node = insert_in p.membership p slot node

-- The bitmap word of a slot and the rank before it; `none` where no word is kept.
unfoldable pub word_of_slot : Membership → ℕ → M (Option (ℕ × ℕ))
word_of_slot (dense bitmap ranks) index = do
  word ← ok_or (get_elem? bitmap index) panicked
  prefix ← ok_or (get_elem? ranks index) panicked
  ok (some (word, prefix))
word_of_slot (sparse mask words) index =
    let word_bit = 2 ^ index in
    let entry =
      (ok_or (get_elem? words (count_ones 64 (bit_and mask (word_bit - 1)))) panicked >>= λ e.
      ok (some (e.bitmap, e.rank))) in
    if bit_and mask word_bit == 0 then ok none else entry

abbrev pub rank_in : ℕ → Option (ℕ × ℕ) → Option ℕ
rank_in bit none = none
rank_in bit (some (word, prefix)) =
    if bit_and word bit == 0 then none else some (prefix + count_ones 64 (bit_and word (bit - 1)))

unfoldable pub rank : Page → ℕ → M (Option ℕ)
rank p slot = word_of_slot p.membership (slot / 64) >>= λ o. ok (rank_in (2 ^ (slot % 64)) o)

abbrev pub is_some {ℓ} : {A : Type ℓ} → Option A → Bool
is_some none = false
is_some (some a) = true

-- u32, u64 and ImportNode have 4, 8 and 16 bytes. `none` is the error.
unfoldable pub value_bytes : Page → Option ℕ
value_bytes p =
    let bytes =
      p.count * (if p.compact && is_some p.single_label then 4 else if p.packed then 8 else 16) in
    if ltb bytes (2 ^ 64) then some bytes else none

-- The ranks before the words, from the one given.
abbrev pub ranks_from : ℕ → List ℕ → List ℕ
ranks_from rank [] = []
ranks_from rank (word ∷ words) = rank ∷ ranks_from ((rank + count_ones 64 word) % 2 ^ 16) words

abbrev pub mask_from : ℕ → List ℕ → ℕ
mask_from index [] = 0
mask_from index (word ∷ words) =
    bit_or (if word == 0 then 0 else 2 ^ index) (mask_from (index + 1) words)

abbrev pub occupied_words : List ℕ → List ℕ → List OccupiedWord
occupied_words (bitmap ∷ bitmaps) (rank ∷ ranks) =
    let rest = occupied_words bitmaps ranks in
    if bitmap == 0 then rest else record { bitmap = bitmap; rank = rank } ∷ rest
occupied_words _ _ = []

-- The membership part of `seal`. A dense membership has 640 bytes and an occupied word 10; `capacity`
-- is what a vector of so many words is given.
unfoldable pub seal_membership : (ℕ → ℕ) → Bool → Membership → Budget → Membership × Budget
seal_membership capacity compress (sparse mask words) budget = (sparse mask words, budget)
seal_membership capacity compress (dense bitmap _) budget =
    let ranks = ranks_from 0 bitmap in
    let mask = mask_from 0 bitmap in
    let occupied = count_ones 64 mask in
    if compress && ltb occupied bitmap_words
    then (
      sparse mask (occupied_words bitmap ranks),
      record budget { used = budget.used - (640 - capacity occupied * 10) },
    )
    else (dense bitmap ranks, budget)

unfoldable pub zero_values : Page → PageValues
zero_values p =
    if p.compact && is_some p.single_label
    then compact_values (replicate p.count 0)
    else if p.packed
    then packed_values (replicate p.count 0)
    else wide_values (replicate p.count (record { id = 0; label_group = 0 }))

abbrev pub pay : Page → Budget → ℕ → Option Budget → Page × Budget × Option ℕ
pay p budget bytes none = (p, budget, none)
pay p budget bytes (some paid) = (record p { values = zero_values p }, paid, some bytes)

abbrev pub seal_values : Page → Budget → Option ℕ → Page × Budget × Option ℕ
seal_values p budget none = (p, budget, none)
seal_values p budget (some bytes) = pay p budget bytes (charge budget bytes)

-- The page and the budget afterwards, and the bytes charged; `none` is the error.
unfoldable pub seal : (ℕ → ℕ) → Page → Budget → Bool → Page × Budget × Option ℕ
seal capacity p budget compress =
    let (membership, budget') = seal_membership capacity compress p.membership budget in
    let p' = record p { membership = membership } in seal_values p' budget' (value_bytes p')

unfoldable pub set_value : PageValues → ℕ → ImportNode → M PageValues
set_value building rank node = err not_sealed
set_value (compact_values values) rank node =
    if ltb rank (length values)
    then ok (compact_values (set_elem values rank (node.id % 2 ^ 32)))
    else err panicked
set_value (packed_values values) rank node =
    if ltb rank (length values)
    then ok
        (packed_values (set_elem values rank (bit_or node.id (node.label_group * 2 ^ 32 % 2 ^ 64))))
    else err panicked
set_value (wide_values values) rank node =
    if ltb rank (length values) then ok (wide_values (set_elem values rank node)) else err panicked

unfoldable pub set : Page → ℕ → ImportNode → M Page
set p slot node = do
  found ← rank p slot
  at ← ok_or found undeclared_slot
  values ← set_value p.values at node
  ok (record p { values = values })

unfoldable pub get_value : PageValues → Option ℕ → ℕ → M ImportNode
get_value building label rank = err panicked
get_value (compact_values values) label rank = do
  id ← ok_or (get_elem? values rank) panicked
  group ← ok_or label panicked
  ok (record { id = id; label_group = group })
get_value (packed_values values) label rank = ok_or (get_elem? values rank) panicked >>= λ v.
    ok (record { id = v % 2 ^ 32; label_group = v / 2 ^ 32 })
get_value (wide_values values) label rank = ok_or (get_elem? values rank) panicked

abbrev pub lookup_at : Page → Option ℕ → M (Option ImportNode)
lookup_at p none = ok none
lookup_at p (some at) = get_value p.values p.single_label at >>= λ node. ok (some node)

unfoldable pub lookup : Page → ℕ → M (Option ImportNode)
lookup p slot = rank p slot >>= lookup_at p
