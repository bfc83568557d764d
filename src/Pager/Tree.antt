-- ===== src/Pager/Tree.antt =====
-- PageWriter::cell, tree, parent and level: a packed B-tree from sorted records. A row id is the bit
-- pattern of an i64. `others w` is what other threads store in the shared page counter while this
-- writer, in state `w`, waits for a grant. A spool of children is the list of what was pushed.
pub mod Local
pub mod Shape
use velr.Base.{
  ℕ, zero, suc, ◌+◌, ◌-◌, ◌*◌, ◌/◌, ◌%◌, ◌^◌, min, Bool, true, false, not, ◌&&◌, ◌||◌, List, [],
  ◌∷◌, ◌++◌, Option, none, some, length, take, drop, replicate, ltb, leb, ◌==◌, if◌then◌else◌,
}
use velr.Base.Word.{Bytes}
use velr.Base.Result.{Result, ok, err, ◌>>=◌, ◌>>◌, reject_if, ok_or}
use velr.Varint.{varint_bytes}
use velr.Record.{be_bytes}
use velr.Pager.Error.{
  WriterError, u32_limit, chain_count_exhausted, rowids_not_increasing, panicked, out_of_fuel,
  foreign_root,
}
use velr.Pager.Alloc.{BlockAllocator, claim_root}
use velr.Pager.Page.{
  Kind, table, index, Page, new, fits, push, push_parts, pop, image, clear, last?, init,
}
use velr.Pager.Writer.{
  PageWriter, W, append, write_root, ensure_contiguous, next_available, is_other,
}

pub record Child : Type 0 where
  pub page : ℕ
  pub boundary : Bytes

abbrev pub is_table : Kind → Bool
is_table table = true
is_table index = false

abbrev pub minimum_local : ℕ → ℕ
minimum_local usable = (usable - 12) * 32 / 255 - 23

abbrev pub maximum_local : Kind → ℕ → ℕ
maximum_local table usable = usable - 35
maximum_local index usable = (usable - 12) * 64 / 255 - 23

-- How many payload bytes stay on the page.
unfoldable pub local_bytes : Kind → ℕ → ℕ → ℕ
local_bytes kind usable len =
    let minimum = minimum_local usable in
    let maximum = maximum_local kind usable in
    let candidate = minimum + (len - minimum) % (usable - 4) in
    if leb len maximum then len else if leb candidate maximum then candidate else minimum

-- The size of the payload, and the row id of a table's cell.
unfoldable pub cell_prefix : Kind → ℕ → ℕ → Bytes
cell_prefix kind rowid len = varint_bytes len ++ (if is_table kind then varint_bytes rowid else [])

-- `div_ceil`
abbrev pub div_ceil : ℕ → ℕ → ℕ
div_ceil n d = (n + d - 1) / d

-- A full page is written out. In an index its last cell moves up as the boundary.
abbrev pub boundary_of : Kind → Page → Option ℕ → W (Bytes × Page)
boundary_of table page none = err panicked
boundary_of table page (some previous) = ok (varint_bytes previous, page)
boundary_of index page previous = ok_or (pop page) panicked

-- i64 comparison of bit patterns.
abbrev pub leb_i64 : ℕ → ℕ → Bool
leb_i64 a b = leb ((a + 2 ^ 63) % 2 ^ 64) ((b + 2 ^ 63) % 2 ^ 64)

abbrev pub out_of_order : Kind → ℕ → Option ℕ → Bool
out_of_order table rowid (some previous) = leb_i64 rowid previous
out_of_order _ rowid _ = false

-- What one more child adds to its group's page: the cell of the child before it.
abbrev pub behind : Option Child → ℕ
behind none = 0
behind (some last) = 6 + length last.boundary

abbrev pub additional : List Child → ℕ
additional group = behind (last? group)

-- A last group of one child borrows the last child of the group before it.
abbrev pub borrow_from : List Child → Child → Option Child → Option (List Child × List Child)
borrow_from previous only none = none
borrow_from previous only (some child) = some (init previous, child ∷ only ∷ [])

abbrev pub borrow : List Child → List Child → Option (List Child × List Child)
borrow previous (only ∷ []) = borrow_from previous only (last? previous)
borrow previous group = some (previous, group)

abbrev pub claimed : Option BlockAllocator → Bool → ℕ → W (Option BlockAllocator)
claimed none worker root = ok none
claimed (some a) true root = ok (some a)
claimed (some a) false root = do b ← claim_root a root; ok (some b)

unfoldable pub push_children : Page → List Child → Option Page
push_children page [] = some page
push_children page (child ∷ group) =
    velr.Base.◌>>=◌ (push page (be_bytes 4 child.page ++ child.boundary))
      (λ page'. push_children page' group)

module _ (others : PageWriter → List ℕ) where
  -- The overflow pages of a payload. Each holds a byte at least, so its length is enough fuel.
  unfoldable pub chain : ℕ → PageWriter → Bytes → W PageWriter
  chain fuel w [] = ok w
  chain zero w (b ∷ remaining) = err out_of_fuel
  chain (suc fuel) w (b ∷ remaining) =
      let rest = b ∷ remaining in
      let taken = min (length rest) (w.page_size - 4) in
      let id = next_available w w.next_page in
      let next = if ltb taken (length rest) then next_available w (id + 1) else 0 in
      let page = be_bytes 4 next ++ take taken rest ++ replicate (w.page_size - 4 - taken) 0 in
      append w page (others w) >>= λ p. chain fuel p.1 (drop taken rest)

  -- The cell of a record that may be too long for its page.
  unfoldable pub cell : PageWriter → Kind → ℕ → Bytes → W (Bytes × PageWriter)
  cell w kind rowid payload =
      let local = local_bytes kind w.page_size (length payload) in
      let on_page = cell_prefix kind rowid (length payload) ++ take local payload in
      let pages = div_ceil (length payload - local) (w.page_size - 4) in
      let chained = λ (v : PageWriter).
        (chain (length payload) v (drop local payload) >>= λ v'.
        ok (on_page ++ be_bytes 4 (next_available v v.next_page), v')) in
      if ltb local (length payload)
      then if leb u32_limit pages
        then err chain_count_exhausted
        else (ensure_contiguous w pages (others w) >>= chained)
      else ok (on_page, w)

  unfoldable pub flush_leaf :
      PageWriter → Kind → Page → List Child → Option ℕ → W (PageWriter × Page × List Child)
  flush_leaf w kind page children previous = do
    (boundary, full) ← boundary_of kind page previous
    (id, w') ← append w (image full 0) (others w)
    ok (w', clear full, children ++ (record { page = id; boundary = boundary } ∷ []))

  -- The cell of a record, and the payload that goes behind it straight from the record.
  unfoldable pub leaf_cell : PageWriter → Kind → ℕ → Bytes → W (Bytes × Bytes × PageWriter)
  leaf_cell w kind rowid payload =
      if leb (length payload) (maximum_local kind w.page_size)
      then ok (cell_prefix kind rowid (length payload), payload, w)
      else (cell w kind rowid payload >>= λ p. ok (p.0, [], p.1))

  unfoldable pub tree_step :
      PageWriter
      → Kind
      → Page
      → List Child
      → Option ℕ
      → ℕ
      → Bytes
      → W (PageWriter × Page × List Child)
  tree_step w kind page children previous rowid payload = do
    reject_if (out_of_order kind rowid previous) rowids_not_increasing
    (prefix, body, w') ← leaf_cell w kind rowid payload
    (v, p, cs) ←
        if fits page (length prefix + length body)
        then ok (w', page, children)
        else flush_leaf w' kind page children previous
    p' ← ok_or (push_parts p prefix body) panicked
    ok (v, p', cs)

  unfoldable pub tree_loop :
      PageWriter
      → Kind
      → Page
      → List Child
      → Option ℕ
      → List (ℕ × Bytes)
      → W (PageWriter × Page × List Child)
  tree_loop w kind page children previous [] = ok (w, page, children)
  tree_loop w kind page children previous ((rowid, payload) ∷ records) = do
    (w', page', children') ← tree_step w kind page children previous rowid payload
    tree_loop w' kind page' children' (some rowid) records

  -- Where the page of a group goes: into the root, or to the end.
  unfoldable pub place_parent : PageWriter → Option ℕ → Bytes → W (ℕ × PageWriter)
  place_parent w (some root) bytes = do w' ← write_root w root bytes; ok (root, w')
  place_parent w none bytes = append w bytes (others w)

  unfoldable pub parent : PageWriter → Option ℕ → Kind → List Child → W (Child × PageWriter)
  parent w root kind group = do
    last ← ok_or (last? group) panicked
    page ← ok_or (push_children (new w.page_size kind true) (init group)) panicked
    (id, w') ← place_parent w root (image page last.page)
    ok (record { page = id; boundary = last.boundary }, w')

  -- The deferred group of a level becomes a page when the next one is full.
  unfoldable pub emit :
      PageWriter → Kind → Option (List Child) → List Child → W (PageWriter × List Child)
  emit w kind none next = ok (w, next)
  emit w kind (some previous) next = do
    (child, w') ← parent w none kind previous
    ok (w', next ++ (child ∷ []))

  unfoldable pub level_loop :
      PageWriter
      → Kind
      → Option (List Child)
      → List Child
      → ℕ
      → List Child
      → List Child
      → W (PageWriter × Option (List Child) × List Child × List Child)
  level_loop w kind previous group used next [] = ok (w, previous, group, next)
  level_loop w kind previous group used next (child ∷ children) =
      let more = additional group in
      let full =
        (emit w kind previous next >>= λ p.
        level_loop p.0 kind (some group) (child ∷ []) 12 p.1 children) in
      let room = level_loop w kind previous (group ++ (child ∷ [])) (used + more) next children in
      if ltb w.page_size (used + more) then full else room

  unfoldable pub level_end :
      PageWriter
      → ℕ
      → Kind
      → Option (List Child)
      → List Child
      → List Child
      → W (PageWriter × Option (List Child))
  level_end w root kind none group next = do
    (_, w') ← parent w (some root) kind group
    ok (w', none)
  level_end w root kind (some previous) group next = do
    (previous', group') ← ok_or (borrow previous group) panicked
    (first, v) ← parent w none kind previous'
    (second, v') ← parent v none kind group'
    ok (v', some (next ++ (first ∷ second ∷ [])))

  unfoldable pub level : PageWriter → ℕ → Kind → List Child → W (PageWriter × Option (List Child))
  level w root kind children = do
    (w', previous, group, next) ← level_loop w kind none [] 12 [] children
    level_end w' root kind previous group next

  unfoldable pub levels : ℕ → PageWriter → ℕ → Kind → List Child → W PageWriter
  levels zero w root kind children = err out_of_fuel
  levels (suc fuel) w root kind children = level w root kind children >>= λ p. elim p.1 [
    | none ↦ ok p.0
    | some next ↦ levels fuel p.0 root kind next
  ]

  unfoldable pub tree_end : PageWriter → ℕ → Kind → Page → List Child → W PageWriter
  tree_end w root kind page [] = write_root w root (image page 0)
  tree_end w root kind page (c ∷ children) = do
    (id, w') ← append w (image page 0) (others w)
    levels (suc (suc (length children))) w' root kind
        ((c ∷ children) ++ (record { page = id; boundary = [] } ∷ []))

  -- `levels` has the fuel of one level for each child.
  unfoldable pub tree : PageWriter → ℕ → Kind → List (ℕ × Bytes) → W PageWriter
  tree w root kind records = do
    reject_if (elim w.allocator [ none ↦ false | some _ ↦ is_other w.assigned_root root ])
        foreign_root
    a ← claimed w.allocator w.dynamic_worker root
    (w', page, children) ←
        tree_loop (record w { allocator = a }) kind (new w.page_size kind false) [] none records
    tree_end w' root kind page children
