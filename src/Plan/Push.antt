-- ===== src/Plan/Push.antt =====
-- One record of an index, pushed onto the writer's leaf and onto the plan.
use velr.Base.{
  ℕ, ◌+◌, ◌-◌, ◌*◌, ◌/◌, ◌%◌, ◌^◌, ◌≤◌, ◌<◌, true, List, [], ◌∷◌, ◌++◌, append-nil, Option, none,
  some, length, length-append, ◌≡◌, refl, sym, ◌∙◌, ap, arith, All, All-append, subst, ltb, leb,
  Bool-cases, inl, inr, le→leb, lt→ltb,
}
use velr.Base.Word.{Bytes}
use velr.Base.Result.{ok, ◌>>=◌, >>=-eq_ok, ok_or-eq_ok}
use velr.Varint.{varint_len, varint_bytes}
use velr.Varint.RoundTrip.{length-varint}
use velr.Varint.Small.{varint_len_range}
use velr.Pager.Error.{panicked}
use velr.Pager.Page.{index, Page, push_parts, pop, clear, image}
use velr.Pager.Writer.{PageWriter, W, append}
use velr.Pager.Tree.{Child, maximum_local, cell_prefix, flush_leaf, leaf_cell, boundary_of}
use velr.Pager.Tree.Local.{Grows, Grows-trans, append-Grows}
use velr.Plan.{IndexPagePlan, prefix_size, push_boundary, or_empty}
use velr.Plan.Level.{lengths, lengths-append, length-lengths, IsShort}
use velr.Plan.Leaves.{Leaf, push_parts-Leaf, pop-Leaf, clear-Leaf}

abbrev pub leaves_of : List Child → Option (List ℕ)
leaves_of [] = none
leaves_of (c ∷ cs) = some (lengths (c ∷ cs))

-- The prefix of an index cell has the size that the plan adds.
prefix_size_lem : (len : ℕ) → len < 2 ^ 16 → varint_len len ≡ prefix_size len
prefix_size_lem len h = elim (Bool-cases (ltb len 128)) [
  | inl one ↦ rw one (varint_len_range len 0 (omega arith) (ground arith) (inl refl))
  | inr more ↦ elim (Bool-cases (ltb len 16384)) [
    | inl two ↦
        rw (more, two) (varint_len_range len 1 (omega arith) (ground arith) (inr (ground arith)))
    | inr three ↦
        rw (more, three) (varint_len_range len 2 (omega arith) (omega arith) (inr (ground arith)))
  ]
]

abbrev pub longest : ℕ → ℕ
longest size = (size - 12) * 64 / 255 - 23

module _ (size : ℕ) (small : size < 2 ^ 16) (roomy : 12 + 2 * (6 + (longest size + 3)) ≤ size)
    (others : PageWriter → List ℕ) where
  -- What the plan knows of a writer that began as `w0`: its leaf and its finished children.
  pub record Follows (w0 w : PageWriter) (page : Page) (children : List Child) (p : IndexPagePlan)
      : Type 0 where
    pub leaf : Leaf size page p.used p.last_cell
    pub size_is : p.page_size ≡ size
    pub maximum_is : p.maximum ≡ longest size
    pub leaves_are : p.leaves ≡ leaves_of children
    pub grows : Grows w0 w (length children)
    pub short : All (IsShort size (longest size + 3) roomy) children
    pub short_cell : p.last_cell ≤ longest size + 3

  pub leaf_cell_lem :
      (w : PageWriter) (rowid : ℕ) (payload prefix body : Bytes) (w' : PageWriter)
      → w.page_size ≡ size
      → length payload ≤ longest size
      → leaf_cell others w index rowid payload ≡ ok (prefix, body, w')
      → (length prefix + length body ≡ length payload + prefix_size (length payload)) × (w' ≡ w)
  unfolding leaf_cell cell_prefix
  leaf_cell_lem w rowid payload prefix body w' sized fit e =
      let local : leb (length payload) (maximum_local index w.page_size) ≡ true =
        rw sized (le→leb _ _ fit) in
      let made : ◌≡◌ {A = W (Bytes × Bytes × PageWriter)}
          (ok (varint_bytes (length payload) ++ [], payload, w)) (ok (prefix, body, w')) =
        rw local at e in
      let a : varint_bytes (length payload) ++ [] ≡ prefix = cc in
      let b : payload ≡ body = cc in
      (
        omega (
          arith,
          ap length a,
          ap length b,
          ap length (append-nil (varint_bytes (length payload))),
          length-varint (length payload),
          prefix_size_lem (length payload) (omega arith),
        ),
        cc,
      )

  or_empty-leaves_of : (children : List Child) → or_empty (leaves_of children) ≡ lengths children
  or_empty-leaves_of [] = refl
  or_empty-leaves_of (c ∷ cs) = refl

  leaves_of-push :
      (children : List Child) (c : Child)
      → leaves_of (children ++ (c ∷ [])) ≡ some (lengths children ++ (length c.boundary ∷ []))
  leaves_of-push [] c = refl
  leaves_of-push (d ∷ ds) c = ap some (lengths-append (d ∷ ds) (c ∷ []))

  -- A full leaf is written, and its last cell becomes the boundary of a child.
  pub record Flushed (w0 : PageWriter) (children : List Child) (p : IndexPagePlan) (v : PageWriter)
      (page : Page) (children' : List Child) : Type 0 where
    pub child : Child
    pub children_are : children' ≡ children ++ (child ∷ [])
    pub boundary_is : length child.boundary ≡ p.last_cell
    pub emptied : (last_cell : ℕ) → Leaf size page 8 last_cell
    pub grows : Grows w0 v (length children + 1)

  pub flush_leaf_lem :
      (w0 w : PageWriter) (page : Page) (children : List Child) (p : IndexPagePlan)
      (previous : Option ℕ) (v : PageWriter) (page' : Page) (children' : List Child)
      → Follows w0 w page children p
      → flush_leaf others w index page children previous ≡ ok (v, page', children')
      → Flushed w0 children p v page' children'
  unfolding flush_leaf
  flush_leaf_lem w0 w page children p previous v page' children' f e =
      let ((boundary, full), popped, e1) = >>=-eq_ok (boundary_of index page previous) _ e in
      let ((id, u), appended, e2) = >>=-eq_ok (append w (image full 0) (others w)) _ e1 in
      let some_cell = ok_or-eq_ok (pop page) panicked popped in
      let (len, leaf, sized) =
        pop-Leaf size page p.used p.last_cell boundary full f.leaf some_cell in
      let writer : u ≡ v = cc in
      let cleared : clear full ≡ page' = cc in
      let more : children ++ (record { page = id; boundary = boundary } ∷ []) ≡ children' = cc in
      let g =
        Grows-trans f.grows
          (append-Grows w (image full 0) (others w) id u f.grows.alone appended) in
      record {
        child = record { page = id; boundary = boundary };
        children_are = sym more;
        boundary_is = len;
        emptied = λ n. subst (λ x. Leaf size x 8 n) cleared (clear-Leaf size full n leaf sized);
        grows = subst (λ x. Grows w0 x (length children + 1)) writer g;
      }

  pub full-Follows :
      (w0 v : PageWriter) (page page' : Page) (children children' : List Child) (p : IndexPagePlan)
      (prefix body : Bytes) (len : ℕ)
      → length prefix + length body ≡ len
      → len ≤ longest size + 3
      → length children + 1 < 2 ^ 32
      → Flushed w0 children p v page children'
      → p.leaves ≡ leaves_of children
      → p.page_size ≡ size
      → p.maximum ≡ longest size
      → p.last_cell ≤ longest size + 3
      → All (IsShort size (longest size + 3) roomy) children
      → push_parts page prefix body ≡ some page'
      → (q : IndexPagePlan) × ((push_boundary (or_empty p.leaves) (p.last_cell % 2 ^ 16)
            >>= λ leaves.
                ok (record p { leaves = some leaves; used = 8 + 2 + len; last_cell = len }))
          ≡ ok q)
        × Follows w0 v page' children' q
  unfolding push_boundary
  full-Follows w0 v page page' children children' p prefix body len is_len fit room x leaves_are
        size_is maximum_is cell short e =
      let olds : or_empty p.leaves ≡ lengths children =
        ap or_empty leaves_are ∙ or_empty-leaves_of children in
      let same : p.last_cell % 2 ^ 16 ≡ length x.child.boundary = omega (arith, x.boundary_is) in
      let one : length children' ≡ length children + 1 =
        ap length x.children_are ∙ length-append children (x.child ∷ []) in
      let parts = push_parts-Leaf size page 8 0 prefix body page' (x.emptied 0) small e in
      rw
        (
          olds,
          lt→ltb (length (lengths children) + 1) (2 ^ 32) (omega (arith, length-lengths children)),
        )
        (
          _,
          refl,
          record {
            leaf = subst (λ n. Leaf size page' (8 + 2 + n) n) is_len parts;
            size_is = size_is;
            maximum_is = maximum_is;
            leaves_are =
                ap (λ (n : ℕ). some (lengths children ++ (n ∷ []))) same
                ∙ sym (ap leaves_of x.children_are ∙ leaves_of-push children x.child);
            grows = subst (λ n. Grows w0 v n) (sym one) x.grows;
            short = subst (All (IsShort size (longest size + 3) roomy)) (sym x.children_are) (
                All-append (IsShort size (longest size + 3) roomy) children (x.child ∷ []) short
                  (omega (arith, x.boundary_is), tt));
            short_cell = fit;
          },
        )
