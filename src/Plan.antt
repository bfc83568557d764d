-- ===== src/Plan.antt =====
-- rust/velr-cli/src/offline_import/native/page_plan.rs: how many pages a packed index will take,
-- from the lengths of its records. A spool of descriptors is the list of the boundaries pushed, as
-- `read_boundary` gives them back; creating, writing and reading the file succeed.
pub mod Level
pub mod LevelLoop
pub mod Levels
pub mod Leaves
pub mod Agree
pub mod Push
pub mod Whole
mod Tests
use velr.Base.{
  ℕ, zero, suc, ◌+◌, ◌-◌, ◌*◌, ◌/◌, ◌%◌, ◌^◌, Bool, true, false, not, ◌&&◌, ◌||◌, List, [], ◌∷◌,
  ◌++◌, Option, none, some, length, ltb, leb, ◌==◌, if◌then◌else◌,
}
use velr.Base.Result.{Result, ok, err, ◌>>=◌, ◌>>◌, reject_if}

pub data PlanError : Type 0 where
  space_exhausted cannot_lend unsupported_page_size requires_overflow plan_out_of_fuel : PlanError

abbrev pub P : Type 0 → Type 0
P = Result PlanError

-- The u32 count of a spool is its length.
unfoldable pub push_boundary : List ℕ → ℕ → P (List ℕ)
push_boundary descriptors boundary =
    if ltb (length descriptors + 1) (2 ^ 32)
    then ok (descriptors ++ (boundary ∷ []))
    else err space_exhausted

pub record Group : Type 0 where
  pub children : ℕ
  pub last : ℕ
  pub penultimate : ℕ

abbrev pub no_children : Group
no_children = record { children = 0; last = 0; penultimate = 0 }

unfoldable pub push_group : Group → ℕ → Group
push_group g boundary = record { children = g.children + 1; last = boundary; penultimate = g.last }

unfoldable pub emit_plan : Option Group → List ℕ → P (List ℕ)
emit_plan none next = ok next
emit_plan (some previous) next = push_boundary next previous.last

abbrev pub additional_plan : Group → ℕ
additional_plan g = if g.children == 0 then 0 else 6 + g.last

unfoldable pub plan_loop :
    ℕ → Option Group → Group → ℕ → List ℕ → List ℕ → P (Option Group × Group × List ℕ)
plan_loop page_size previous group used next [] = ok (previous, group, next)
plan_loop page_size previous group used next (boundary ∷ input) =
    let more = additional_plan group in
    let full =
      (emit_plan previous next >>= λ next'.
      plan_loop page_size (some group) (push_group no_children boundary) 12 next' input) in
    let room = plan_loop page_size previous (push_group group boundary) (used + more) next input in
    if ltb page_size (used + more) then full else room

-- The deferred group lends its last child to a last group of one.
unfoldable pub lend : Group → Group → P (Group × Group)
lend previous group =
    if group.children == 1
    then if ltb previous.children 3
      then err cannot_lend
      else ok (
        record previous { children = previous.children - 1; last = previous.penultimate },
        record group { children = group.children + 1 },
      )
    else ok (previous, group)

unfoldable pub plan_end : Option Group → Group → List ℕ → P (Option (List ℕ))
plan_end none group next = ok none
plan_end (some previous) group next = do
  (previous', group') ← lend previous group
  next' ← push_boundary next previous'.last
  next'' ← push_boundary next' group'.last
  ok (some next'')

unfoldable pub plan_level : ℕ → List ℕ → P (Option (List ℕ))
plan_level page_size children = do
  (previous, group, next) ← plan_loop page_size none no_children 12 [] children
  plan_end previous group next

pub record IndexPagePlan : Type 0 where
  pub page_size : ℕ
  pub maximum : ℕ
  pub leaves : Option (List ℕ)
  pub used : ℕ
  pub last_cell : ℕ

-- `(512..=32768).contains(&page_size) && page_size.is_power_of_two()`
abbrev pub supported : ℕ → Bool
supported n =
    n == 512 || n == 1024 || n == 2048 || n == 4096 || n == 8192 || n == 16384 || n == 32768

unfoldable pub new_plan : ℕ → P IndexPagePlan
new_plan page_size =
    if not (supported page_size)
    then err unsupported_page_size
    else ok (record {
      page_size = page_size;
      maximum = (page_size - 12) * 64 / 255 - 23;
      leaves = none;
      used = 8;
      last_cell = 0;
    })

abbrev pub prefix_size : ℕ → ℕ
prefix_size len = if ltb len 128 then 1 else if ltb len 16384 then 2 else 3

abbrev pub or_empty : Option (List ℕ) → List ℕ
or_empty none = []
or_empty (some l) = l

unfoldable pub push_length : IndexPagePlan → ℕ → P IndexPagePlan
push_length p len =
    let size = len + prefix_size len in
    if ltb p.maximum len
    then err requires_overflow
    else if ltb p.page_size (p.used + 2 + size)
    then (push_boundary (or_empty p.leaves) (p.last_cell % 2 ^ 16) >>= λ leaves.
        ok (record p { leaves = some leaves; used = 8 + 2 + size; last_cell = size }))
    else ok (record p { used = p.used + 2 + size; last_cell = size })

unfoldable pub add_count : ℕ → ℕ → P ℕ
add_count pages count =
    if ltb (pages + count) (2 ^ 32) then ok (pages + count) else err space_exhausted

unfoldable pub finish_loop : ℕ → ℕ → ℕ → List ℕ → P ℕ
finish_loop zero page_size pages children = err plan_out_of_fuel
finish_loop (suc fuel) page_size pages children = plan_level page_size children >>= λ o. elim o [
  | none ↦ ok pages
  | some next ↦ add_count pages (length next) >>= λ n. finish_loop fuel page_size n next
]

unfoldable pub finish_leaves : ℕ → Option (List ℕ) → P ℕ
finish_leaves page_size none = ok 0
finish_leaves page_size (some leaves) = do
  children ← push_boundary leaves 0
  finish_loop (length children) page_size (length children) children

-- Each level is shorter than the one below it, so their length is enough fuel.
unfoldable pub finish : IndexPagePlan → P ℕ
finish p = finish_leaves p.page_size p.leaves

unfoldable pub push_lengths : IndexPagePlan → List ℕ → P IndexPagePlan
push_lengths p [] = ok p
push_lengths p (len ∷ lengths) = do q ← push_length p len; push_lengths q lengths

unfoldable pub plan_index_lengths : ℕ → List ℕ → P ℕ
plan_index_lengths page_size lengths = do
  p ← new_plan page_size
  q ← push_lengths p lengths
  finish q
