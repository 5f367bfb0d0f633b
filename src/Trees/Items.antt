-- ===== src/Trees/Items.antt =====
-- Lists of items from which one is taken out, or which are put in another order.
use mathlib.Core.Path.{subst}
use mathlib.Core.List.{Permᴰ}
use free_bfd.Base.{◌≡◌, ◌≢◌, refl, List, [], ◌∷◌, ◌++◌}
use free_bfd.Trees.{All}

module _ {K : Type 0} (P : K → Type 0) where
  pub All-take_out : (xs ys : List K) (k : K) → All P (xs ++ (k ∷ ys)) → P k × All P (xs ++ ys)
  All-take_out [] ys k all = all
  All-take_out (x ∷ xs) ys k all = let (h, rest) = All-take_out xs ys k all.1 in (h, (all.0, rest))

module _ {K : Type 0} (P Q : K → Type 0) where
  pub All-map : (xs : List K) → ((x : K) → P x → Q x) → All P xs → All Q xs
  All-map [] f all = tt
  All-map (x ∷ xs) f all = (f x all.0, All-map xs f all.1)

-- What holds of all items holds of them in any other order.
pub All-perm : {K : Type 0} (P : K → Type 0) {xs ys : List K} → Permᴰ xs ys → All P xs → All P ys
All-perm P Permᴰ.nil all = tt
All-perm P (Permᴰ.cons e d) (h, all) = (subst P e h, All-perm P d all)
All-perm P (Permᴰ.swap e f) (h, (k, all)) = (subst P f k, (subst P e h, all))
All-perm P (Permᴰ.trans d e) all = All-perm P e (All-perm P d all)

-- No two items are related: the relation is symmetric where this is used.
abbrev pub AllApart : {K : Type 0} → (K → K → Type 0) → List K → Type 0
AllApart R [] = Unit
AllApart R (x ∷ xs) = All (R x) xs × AllApart R xs

-- Where an item is in a list once, there is one way to take it out.
module _ {K : Type 0} (m : K) where
  absent_lem : (us vs ys : List K) → All (λ x. x ≢ m) ys → ys ≢ us ++ (m ∷ vs)
  absent_lem us vs ys none e =
      (All-take_out (λ x. x ≢ m) us vs m (subst (All (λ x. x ≢ m)) e none)).0 refl

  pub take_out_once :
      (xs ys us vs : List K)
      → All (λ x. x ≢ m) (xs ++ ys)
      → xs ++ (m ∷ ys) ≡ us ++ (m ∷ vs)
      → xs ++ ys ≡ us ++ vs
  take_out_once [] ys [] vs once e = cc e
  take_out_once [] ys (u ∷ us) vs once e =
      let tail : ys ≡ us ++ (m ∷ vs) = cc e in absurd (absent_lem us vs ys once tail)
  take_out_once (x ∷ xs) ys [] vs once e = let head : x ≡ m = cc e in absurd (once.0 head)
  take_out_once (x ∷ xs) ys (u ∷ us) vs once e =
      let head : x ≡ u = cc e in
      let tail : xs ++ (m ∷ ys) ≡ us ++ (m ∷ vs) = cc e in
      let rest = take_out_once xs ys us vs once.1 tail in cc (head, rest)
