-- ===== src/Tests/Trees.antt =====
-- A search tree that is a list, which is enough for `Index`.
use mathlib.Core.List.Permᴰ
use free_bfd.Base.{
  ◌≡◌, refl, ap, sym, arith, true, Option, none, some, List, [], ◌∷◌, ◌++◌, ℤ, inl, inr, Bool-cases,
  if◌then◌else◌,
}
use free_bfd.Utils.{is_zero}
use free_bfd.Trees.{Index}

module _ {K : Type 0} (cmp : K → K → ℤ) where
  abbrev find_in : K → List K → Option K
  find_in k [] = none
  find_in k (x ∷ xs) = if is_zero (cmp k x) then some x else find_in k xs

  abbrev put_front : K → List K → List K
  put_front k t = elim (find_in k t) [ none ↦ k ∷ t | some x ↦ t ]

  abbrev take_from : K → List K → Option K × List K
  take_from k [] = (none, [])
  take_from k (x ∷ xs) =
      let (found, rest) = take_from k xs in
      if is_zero (cmp k x) then (some x, xs) else (found, x ∷ rest)

  pub find-Equal : (k x : K) (t : List K) → find_in k t ≡ some x → is_zero (cmp k x) ≡ true
  find-Equal k x [] e = absurd (cc e)
  find-Equal k x (y ∷ ys) e = elim (Bool-cases (is_zero (cmp k y))) [
    | inl on ↦ let same : y ≡ x = ground (arith, on, e) in rw (sym same) on
    | inr off ↦ find-Equal k x ys (ground (arith, off, e))
  ]

  pub find_same : (k j : K) (t : List K) → ((x : K) → cmp k x ≡ cmp j x) → find_in k t ≡ find_in j t
  find_same k j [] same = refl
  find_same k j (x ∷ xs) same = rw (same x, find_same k j xs same) refl

  pub take-find : (k : K) (t : List K) → (take_from k t).0 ≡ find_in k t
  take-find k [] = refl
  take-find k (x ∷ xs) = elim (Bool-cases (is_zero (cmp k x))) [
    | inl on ↦ rw on refl
    | inr off ↦ rw off (take-find k xs)
  ]

  pub take_there :
      (k x : K) (t : List K)
      → find_in k t ≡ some x
      → (xs ys : List K) × (t ≡ xs ++ (x ∷ ys)) × ((take_from k t).1 ≡ xs ++ ys)
  take_there k x [] e = absurd (cc e)
  take_there k x (z ∷ zs) e = elim (Bool-cases (is_zero (cmp k z))) [
    | inl on ↦
        let same : z ≡ x = ground (arith, on, e) in ([], zs, ap (λ y. y ∷ zs) same, rw on refl)
    | inr off ↦
        let (xs, ys, full, left) = take_there k x zs (ground (arith, off, e)) in
        (z ∷ xs, ys, ap (λ l. z ∷ l) full, rw off (ap (λ l. z ∷ l) left))
  ]

  pub take_none : (k : K) (t : List K) → find_in k t ≡ none → (take_from k t).1 ≡ t
  take_none k [] e = refl
  take_none k (z ∷ zs) e = elim (Bool-cases (is_zero (cmp k z))) [
    | inl on ↦ absurd (ground (arith, on, e))
    | inr off ↦ rw off (ap (λ l. z ∷ l) (take_none k zs (ground (arith, off, e))))
  ]

  abbrev pub list_index : Index K cmp (List K)
  list_index = record {
    create = [];
    find = find_in;
    insert = put_front;
    delete = take_from;
    items = λ t. t;
    visited = λ t. t;
    visited_items = Permᴰ.refl;
    items-create = refl;
    find-Equal = find-Equal;
    find_same = find_same;
    insert_there = λ k x t e. rw (e, put_front) refl;
    insert_new = λ k t e. ([], t, refl, rw (e, put_front) refl);
    delete-find = take-find;
    delete_there = take_there;
    delete_none = take_none;
    find-insert = λ k j t order absent zero. rw (absent, put_front, zero) refl;
  }
