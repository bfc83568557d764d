-- ===== src/Pager/Page.antt =====
-- One B-tree page under construction.
use velr.Base.{
  ℕ, ◌+◌, ◌-◌, ◌*◌, ◌%◌, ◌^◌, Bool, true, false, List, [], ◌∷◌, ◌++◌, Option, none, some, length,
  take, drop, replicate, leb, if◌then◌else◌,
}
use velr.Base.Word.{Bytes}
use velr.Record.{be_bytes}

pub data Kind : Type 0 where
  table index : Kind

pub record Page : Type 0 where
  pub bytes : Bytes
  pub offsets : List ℕ
  pub bottom : ℕ
  pub interior : Bool
  pub kind : Kind

unfoldable pub new : ℕ → Kind → Bool → Page
new size kind interior = record {
  bytes = replicate size 0;
  offsets = [];
  bottom = size;
  interior = interior;
  kind = kind;
}

abbrev pub header_size : Page → ℕ
header_size p = if p.interior then 12 else 8

unfoldable pub fits : Page → ℕ → Bool
fits p bytes = leb (header_size p + (length p.offsets + 1) * 2 + bytes) p.bottom

-- `target[at..at + source.len()].copy_from_slice(source)`
abbrev pub splice : Bytes → ℕ → Bytes → Bytes
splice target at source = take at target ++ source ++ drop (at + length source) target

-- `none` is the failed assert.
unfoldable pub push_parts : Page → Bytes → Bytes → Option Page
push_parts p prefix payload =
    let len = length prefix + length payload in
    let bottom = p.bottom - len in
    let split = bottom + length prefix in
    if fits p len
    then some (record p {
      bytes = splice (splice p.bytes bottom prefix) split payload;
      offsets = p.offsets ++ (bottom % 2 ^ 16 ∷ []);
      bottom = bottom;
    })
    else none

unfoldable pub push : Page → Bytes → Option Page
push p bytes = push_parts p bytes []

-- The last of a list, and the list without it.
abbrev pub last? {ℓ} : {A : Type ℓ} → List A → Option A
last? [] = none
last? (x ∷ []) = some x
last? (x ∷ y ∷ xs) = last? (y ∷ xs)

abbrev pub init {ℓ} : {A : Type ℓ} → List A → List A
init [] = []
init (x ∷ []) = []
init (x ∷ y ∷ xs) = x ∷ init (y ∷ xs)

abbrev pub unwrap_or {ℓ} : {A : Type ℓ} → Option A → A → A
unwrap_or none d = d
unwrap_or (some x) d = x

-- The cell from `start` up to the cell before it, or the end of the page.
unfoldable pub pop_from : Page → Option ℕ → Option (Bytes × Page)
pop_from p none = none
pop_from p (some start) =
    let end = unwrap_or (last? (init p.offsets)) (length p.bytes) in
    some
      (take (end - start) (drop start p.bytes), record p { offsets = init p.offsets; bottom = end })

-- `none` is the unwrap of an empty page.
unfoldable pub pop : Page → Option (Bytes × Page)
unfolding pop_from
pop p = pop_from p (last? p.offsets)

abbrev page_type : Kind → Bool → ℕ
page_type Kind.table false = 13
page_type Kind.table true = 5
page_type Kind.index false = 10
page_type Kind.index true = 2

abbrev offset_bytes : List ℕ → Bytes
offset_bytes [] = []
offset_bytes (o ∷ os) = be_bytes 2 o ++ offset_bytes os

-- The header, with the right child of an interior page, and the cell offsets, over the cells.
unfoldable pub image : Page → ℕ → Bytes
image p right =
    let head =
      page_type p.kind p.interior
      ∷ 0
      ∷ 0
      ∷ (be_bytes 2 (length p.offsets % 2 ^ 16) ++ be_bytes 2 (p.bottom % 2 ^ 16) ++ (0 ∷ [])) in
    let header = if p.interior then head ++ be_bytes 4 right else head in
    splice p.bytes 0 (header ++ offset_bytes p.offsets)

unfoldable pub clear : Page → Page
clear p = record p { bytes = replicate (length p.bytes) 0; offsets = []; bottom = length p.bytes }
