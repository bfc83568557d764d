-- ===== src/Pager/Tree/Shape.antt =====
-- A parent's boundary is that of its last child, and its page is one page.
use velr.Base.{
  ℕ, suc, true, List, [], ◌∷◌, ◌++◌, Option, none, some, length, ◌≡◌, refl, sym, ap, All, subst,
}
use velr.Base.Word.{Bytes}
use velr.Base.Result.{ok, >>=-eq_ok, ok_or, ok_or-eq_ok}
use velr.Pager.Error.{panicked}
use velr.Pager.Page.{Kind, new, image, last?, init}
use velr.Pager.Writer.{PageWriter, write_root}
use velr.Pager.Tree.{Child, parent, place_parent, push_children}
use velr.Pager.Tree.Local.{Grows, append-Grows, write_root-Grows}

module _ {ℓ} {A : Type ℓ} where
  pub last?-concat : (xs : List A) (x : A) → last? (xs ++ (x ∷ [])) ≡ some x
  last?-concat [] x = refl
  last?-concat (y ∷ []) x = refl
  last?-concat (y ∷ z ∷ xs) x = last?-concat (z ∷ xs) x

  pub init-concat : (xs : List A) (x : A) → init (xs ++ (x ∷ [])) ≡ xs
  init-concat [] x = refl
  init-concat (y ∷ []) x = refl
  init-concat (y ∷ z ∷ xs) x = ap (◌∷◌ y) (init-concat (z ∷ xs) x)

  pub last?-cons : (x : A) (xs : List A) → (l : A) × (last? (x ∷ xs) ≡ some l)
  last?-cons x [] = (x, refl)
  last?-cons x (y ∷ xs) = last?-cons y xs

  pub length-init : (x : A) (xs : List A) → suc (length (init (x ∷ xs))) ≡ length (x ∷ xs)
  length-init x [] = refl
  length-init x (y ∷ xs) = ap suc (length-init y xs)

  pub All-last? {κ} : (P : A → Type κ) (xs : List A) {l : A} → All P xs → last? xs ≡ some l → P l
  All-last? P [] h e = cc
  All-last? P (x ∷ []) h e = subst P (cc) h.0
  All-last? P (x ∷ y ∷ xs) h e = All-last? P (y ∷ xs) h.1 e

  pub All-init {κ} : (P : A → Type κ) (xs : List A) → All P xs → All P (init xs)
  All-init P [] h = h
  All-init P (x ∷ []) h = h.1
  All-init P (x ∷ y ∷ xs) h = (h.0, All-init P (y ∷ xs) h.1)

module _ (others : PageWriter → List ℕ) where
  -- The page that a parent takes: none in the root, else one.
  abbrev pub parent_pages : Option ℕ → ℕ
  parent_pages none = 1
  parent_pages (some root) = 0

  place_parent-Grows :
      (w : PageWriter) (root : Option ℕ) (bytes : Bytes) {id : ℕ} {w' : PageWriter}
      → w.allocator ≡ none
      → place_parent others w root bytes ≡ ok (id, w')
      → Grows w w' (parent_pages root)
  unfolding place_parent
  place_parent-Grows w none bytes {id} {w'} alone e = append-Grows w bytes (others w) id w' alone e
  place_parent-Grows w (some root) bytes {id} {w'} alone e =
      let (v, done, e') = >>=-eq_ok (write_root w root bytes) _ e in
      let same : v ≡ w' = cc in
      subst (λ x. Grows w x 0) same (write_root-Grows w root bytes v alone done)

  pub parent_lem :
      (w : PageWriter) (root : Option ℕ) (kind : Kind) (group : List Child) (child : Child)
      (w' : PageWriter)
      → w.allocator ≡ none
      → parent others w root kind group ≡ ok (child, w')
      → (last : Child) × (last? group ≡ some last)
        × (child.boundary ≡ last.boundary)
        × Grows w w' (parent_pages root)
  unfolding parent
  parent_lem w root kind group child w' alone e =
      let (last, l, e1) = >>=-eq_ok (ok_or (last? group) panicked) _ e in
      let (page, _, e2) =
        >>=-eq_ok (ok_or (push_children (new w.page_size kind true) (init group)) panicked) _ e1 in
      let ((id, v), placed, e3) =
        >>=-eq_ok (place_parent others w root (image page last.page)) _ e2 in
      let made : record { page = id; boundary = last.boundary } ≡ child = cc in
      let same : v ≡ w' = cc in
      (
        last,
        ok_or-eq_ok (last? group) panicked l,
        ap (λ (c : Child). c.boundary) (sym made),
        subst (λ x. Grows w x (parent_pages root)) same
            (place_parent-Grows w root (image page last.page) alone placed),
      )
