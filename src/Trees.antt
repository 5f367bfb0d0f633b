-- ===== src/Trees.antt =====
-- What the monitor code uses of the AVL library: a search tree of items that a comparison orders.
-- Its laws are those of any search tree in which a search, an insertion and a deletion compare the
-- same items; only what is put in is found again needs the comparison to be an order.
pub mod Items
use mathlib.Core.List.{Permᴰ}
use free_bfd.Base.{
  ◌≡◌, Bool, true, false, Option, none, some, List, [], ◌∷◌, ◌++◌, ℤ, pos, negsuc, ◌==◌,
  if◌then◌else◌,
}
use free_bfd.Utils.{is_zero}

abbrev pub is_less : ℤ → Bool
is_less (pos n) = false
is_less (negsuc n) = true

abbrev pub is_greater : ℤ → Bool
is_greater (pos n) = if n == 0 then false else true
is_greater (negsuc n) = false

module _ {K : Type 0} where
  abbrev pub All : (K → Type 0) → List K → Type 0
  All P [] = Unit
  All P (x ∷ xs) = P x × All P xs

-- The comparison of a search tree orders these items: each compares equal to itself, two compare
-- the same from either side, and what is less is so along a chain.
pub record IsOrder {K : Type 0} (cmp : K → K → ℤ) (among : List K) : Type 0 where
  pub reflexive : All (λ x. is_zero (cmp x x) ≡ true) among
  pub flips : All (λ x. All (λ y. is_less (cmp x y) ≡ is_greater (cmp y x)) among) among
  pub chains :
      All
        (λ x.
          All
            (λ y.
              All
                (λ z.
                  is_less (cmp x y) ≡ true → is_less (cmp y z) ≡ true → is_less (cmp x z) ≡ true)
                among)
            among)
        among

pub record Index (K : Type 0) (cmp : K → K → ℤ) (Tree : Type 0) : Type 0 where
  pub create : Tree
  pub find : K → Tree → Option K
  pub insert : K → Tree → Tree
  pub delete : K → Tree → Option K × Tree
  -- The items from the least to the greatest.
  pub items : Tree → List K
  -- The items in the order of `avl_destroy`, which comes to both subtrees before their root.
  pub visited : Tree → List K
  pub visited_items : (t : Tree) → Permᴰ (items t) (visited t)
  pub items-create : items create ≡ []
  pub find-Equal : (k x : K) (t : Tree) → find k t ≡ some x → is_zero (cmp k x) ≡ true
  pub find_same : (k j : K) (t : Tree) → ((x : K) → cmp k x ≡ cmp j x) → find k t ≡ find j t
  pub insert_there : (k x : K) (t : Tree) → find k t ≡ some x → insert k t ≡ t
  pub insert_new :
      (k : K) (t : Tree)
      → find k t ≡ none
      → (xs ys : List K) × (items t ≡ xs ++ ys) × (items (insert k t) ≡ xs ++ (k ∷ ys))
  pub delete-find : (k : K) (t : Tree) → (delete k t).0 ≡ find k t
  pub delete_there :
      (k x : K) (t : Tree)
      → find k t ≡ some x
      → (xs ys : List K) × (items t ≡ xs ++ (x ∷ ys)) × (items (delete k t).1 ≡ xs ++ ys)
  pub delete_none : (k : K) (t : Tree) → find k t ≡ none → (delete k t).1 ≡ t
  pub find-insert :
      (k j : K) (t : Tree)
      → IsOrder cmp (k ∷ j ∷ items t)
      → find k t ≡ none
      → is_zero (cmp j k) ≡ true
      → find j (insert k t) ≡ some k
