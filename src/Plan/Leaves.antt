-- ===== src/Plan/Leaves.antt =====
-- The leaves of an index: the plan knows how full the writer's page is, and how long its last cell.
use velr.Base.{
  ℕ, ◌+◌, ◌-◌, ◌*◌, ◌%◌, ◌^◌, ◌≤◌, ◌<◌, true, false, not, List, [], ◌∷◌, ◌++◌, Option, none, some,
  length, length-append, take, drop, length-replicate, length-take, length-drop, ◌≡◌, refl, sym,
  ◌∙◌, ap, arith, ltb, leb, if◌then◌else◌, Bool-cases, ◌⊎◌, inl, inr, leb→le,
}
use velr.Base.Word.{Bytes}
use velr.Pager.Page.{Page, fits, push_parts, splice, pop, pop_from, clear, last?, init, unwrap_or}
use velr.Pager.Tree.Shape.{last?-concat, init-concat}

-- A leaf page of the given size, as the plan sees it.
pub record Leaf (size : ℕ) (page : Page) (used last_cell : ℕ) : Type 0 where
  pub is_leaf : page.interior ≡ false
  pub sized : length page.bytes ≡ size
  pub bottom_fits : page.bottom ≤ size
  pub used_is : used + page.bottom ≡ 8 + 2 * length page.offsets + size
  pub last_at : unwrap_or (last? page.offsets) size ≡ page.bottom
  pub cell_fits : (page.offsets ≡ []) ⊎ (page.bottom + last_cell ≤ size)
  pub last_is :
      (page.offsets ≡ []) ⊎ (unwrap_or (last? (init page.offsets)) size ≡ page.bottom + last_cell)

length-splice :
    (target : Bytes) (at : ℕ) (source : Bytes)
    → at + length source ≤ length target
    → length (splice target at source) ≡ length target
length-splice target at source h = omega (
  arith,
  length-append (take at target ++ source) (drop (at + length source) target),
  length-append (take at target) source,
  length-take at target,
  length-drop (at + length source) target,
)

-- The writer's test and the plan's agree.
pub fits_lem :
    (size : ℕ) (page : Page) (used last_cell cell : ℕ)
    → Leaf size page used last_cell
    → fits page cell ≡ not (ltb size (used + 2 + cell))
unfolding fits
fits_lem size page used last_cell cell l = rw l.is_leaf (ground (arith, l.used_is))

some_inj {ℓ} : {A : Type ℓ} {a b : A} → some a ≡ some b → a ≡ b
some_inj e = cc

enough :
    (size : ℕ) (page : Page) (used last_cell len : ℕ)
    → Leaf size page used last_cell
    → fits page len ≡ true
    → 8 + (length page.offsets + 1) * 2 + len ≤ page.bottom
unfolding fits
enough size page used last_cell len l room =
    let e : leb ((if false then 12 else 8) + (length page.offsets + 1) * 2 + len) page.bottom
        ≡ true =
      rw l.is_leaf at room in
    leb→le _ _ e

pub push_parts-Leaf :
    (size : ℕ) (page : Page) (used last_cell : ℕ) (prefix body : Bytes) (page' : Page)
    → Leaf size page used last_cell
    → size < 2 ^ 16
    → push_parts page prefix body ≡ some page'
    → Leaf size page' (used + 2 + (length prefix + length body)) (length prefix + length body)
unfolding push_parts
push_parts-Leaf size page used last_cell prefix body page' l small e =
    let len : ℕ = length prefix + length body in
    let bottom : ℕ = page.bottom - len in
    elim (Bool-cases (fits page len)) [
      | inl room ↦
          let fit = enough size page used last_cell len l room in
          let made : page' ≡ record page {
            bytes = splice (splice page.bytes bottom prefix) (bottom + length prefix) body;
            offsets = page.offsets ++ (bottom % 2 ^ 16 ∷ []);
            bottom = bottom;
          } =
            some_inj (sym (rw room at e)) in
          let inner =
            length-splice page.bytes bottom prefix (omega (arith, l.sized, l.bottom_fits)) in
          let outer =
            length-splice (splice page.bytes bottom prefix) (bottom + length prefix) body
              (omega (arith, l.sized, l.bottom_fits)) in
          rw made (record {
            is_leaf = l.is_leaf;
            sized = outer ∙ inner ∙ l.sized;
            bottom_fits = omega (arith, l.bottom_fits);
            used_is = omega (arith, l.used_is, length-append page.offsets (bottom % 2 ^ 16 ∷ []));
            last_at =
                ap (λ (o : Option ℕ). unwrap_or o size)
                  (last?-concat page.offsets (bottom % 2 ^ 16))
                ∙ omega (arith, l.bottom_fits);
            cell_fits = inr (omega (arith, l.bottom_fits));
            last_is = inr (
                ap (λ (x : List ℕ). unwrap_or (last? x) size)
                  (init-concat page.offsets (bottom % 2 ^ 16))
                ∙ l.last_at
                ∙ omega arith);
          })
      | inr full ↦ let none_is : none ≡ some page' = rw full at e in cc
    ]

-- The cell that `pop` takes off has the length that the plan keeps.
pop_from-Leaf :
    (size : ℕ) (page : Page) (used last_cell : ℕ) (o : Option ℕ) (cell : Bytes) (page' : Page)
    → Leaf size page used last_cell
    → o ≡ last? page.offsets
    → pop_from page o ≡ some (cell, page')
    → (length cell ≡ last_cell) × (page'.interior ≡ false) × (length page'.bytes ≡ size)
unfolding pop_from
pop_from-Leaf size page used last_cell none cell page' l same e = cc
pop_from-Leaf size page used last_cell (some start) cell page' l same e =
    let end : ℕ = unwrap_or (last? (init page.offsets)) (length page.bytes) in
    let taken : cell ≡ take (end - start) (drop start page.bytes) = cc in
    let left : page' ≡ record page { offsets = init page.offsets; bottom = end } = cc in
    let at : start ≡ page.bottom = ap (λ (o : Option ℕ). unwrap_or o size) same ∙ l.last_at in
    let upto : end ≡ page.bottom + last_cell =
      ap (unwrap_or (last? (init page.offsets))) l.sized ∙ upto_size l.last_is in
    (
      ap length taken
          ∙ omega (
            arith,
            length-take (end - start) (drop start page.bytes),
            length-drop start page.bytes,
            l.sized,
            l.bottom_fits,
            in_page l.cell_fits,
          ),
      ap (λ (x : Page). x.interior) left ∙ l.is_leaf,
      ap (λ (x : Page). length x.bytes) left ∙ l.sized,
    )
  where
    upto_size :
        (page.offsets ≡ []) ⊎ (unwrap_or (last? (init page.offsets)) size ≡ page.bottom + last_cell)
        → unwrap_or (last? (init page.offsets)) size ≡ page.bottom + last_cell
    upto_size (inl empty) = let nothing : some start ≡ none = same ∙ ap last? empty in cc
    upto_size (inr e) = e

    in_page :
        (page.offsets ≡ []) ⊎ (page.bottom + last_cell ≤ size) → page.bottom + last_cell ≤ size
    in_page (inl empty) = let nothing : some start ≡ none = same ∙ ap last? empty in cc
    in_page (inr e) = e

-- The cell that `pop` takes off has the length that the plan keeps.
pub pop-Leaf :
    (size : ℕ) (page : Page) (used last_cell : ℕ) (cell : Bytes) (page' : Page)
    → Leaf size page used last_cell
    → pop page ≡ some (cell, page')
    → (length cell ≡ last_cell) × (page'.interior ≡ false) × (length page'.bytes ≡ size)
unfolding pop
pop-Leaf size page used last_cell cell page' l e =
    pop_from-Leaf size page used last_cell (last? page.offsets) cell page' l refl e

pub clear-Leaf :
    (size : ℕ) (page : Page) (last_cell : ℕ)
    → page.interior ≡ false
    → length page.bytes ≡ size
    → Leaf size (clear page) 8 last_cell
unfolding clear
clear-Leaf size page last_cell leaf sized = record {
  is_leaf = leaf;
  sized = omega (arith, length-replicate {A = ℕ} (length page.bytes) 0);
  bottom_fits = omega arith;
  used_is = omega arith;
  last_at = sym sized;
  cell_fits = inl refl;
  last_is = inl refl;
}
