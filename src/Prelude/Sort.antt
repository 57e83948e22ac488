-- ===== src/Prelude/Sort.antt =====
-- `Array.prototype.sort` as a stable insertion sort; `leq a b` stands for `compare(a, b) <= 0`.
use mathlib.Core.Path.{◌≡◌, refl, ◌∙◌, ap}
use mathlib.Core.Bool.{Bool, true, false, ◌||◌}
use mathlib.Core.List.{List, [], ◌∷◌}
use native.Mathlib.Omega.{arith}
use frontdashboard.Prelude.Tests.{if◌then◌else◌}
use frontdashboard.Prelude.Lists.{any, All, length}
use Prim.Native.Nat.{suc}

module _ {ℓ} {A : Type ℓ} (leq : A → A → Bool) where
  abbrev pub insert : A → List A → List A
  insert x [] = x ∷ []
  insert x (y ∷ ys) = if leq x y then x ∷ y ∷ ys else y ∷ insert x ys

  abbrev pub sort : List A → List A
  sort [] = []
  sort (x ∷ xs) = insert x (sort xs)

  any-insert : (p : A → Bool) (x : A) (xs : List A) → any p (insert x xs) ≡ (p x || any p xs)
  any-insert p x [] = refl
  any-insert p x (y ∷ ys) = ground (arith, any-insert p x ys)

  -- Sorting keeps the elements.
  pub any-sort : (p : A → Bool) (xs : List A) → any p (sort xs) ≡ any p xs
  any-sort p [] = refl
  any-sort p (x ∷ xs) = any-insert p x (sort xs) ∙ ap (◌||◌ (p x)) (any-sort p xs)

  length-insert : (x : A) (xs : List A) → length (insert x xs) ≡ suc (length xs)
  length-insert x [] = refl
  length-insert x (y ∷ ys) = ground (arith, length-insert x ys)

  pub length-sort : (xs : List A) → length (sort xs) ≡ length xs
  length-sort [] = refl
  length-sort (x ∷ xs) = length-insert x (sort xs) ∙ ap suc (length-sort xs)

  module _ {κ} (P : A → Type κ) where
    pub All-insert : (x : A) (xs : List A) → P x → All P xs → All P (insert x xs)
    All-insert x [] p h = (p, h)
    All-insert x (y ∷ ys) p (q, h) = place (leq x y) (All-insert x ys p h)
      where
        place : (b : Bool) → All P (insert x ys) → All P (if b then x ∷ y ∷ ys else y ∷ insert x ys)
        place true r = (p, (q, h))
        place false r = (q, r)

    pub All-sort : (xs : List A) → All P xs → All P (sort xs)
    All-sort [] h = h
    All-sort (x ∷ xs) (p, h) = All-insert x (sort xs) p (All-sort xs h)

  -- Each element may stand before the next.
  abbrev pub IsChained : List A → Type 0
  IsChained [] = Unit
  IsChained (x ∷ []) = Unit
  IsChained (x ∷ y ∷ ys) = (leq x y ≡ true) × IsChained (y ∷ ys)

  -- Of two elements, one may stand before the other.
  abbrev pub IsTotal : Type ℓ
  IsTotal = (a b : A) → leq a b ≡ false → leq b a ≡ true

  insert-IsChained : IsTotal → (x : A) (xs : List A) → IsChained xs → IsChained (insert x xs)
  insert-IsChained t x [] h = tt
  insert-IsChained t x (y ∷ []) h = place (leq x y) refl
    where
      place : (b : Bool) → leq x y ≡ b → IsChained (if b then x ∷ y ∷ [] else y ∷ x ∷ [])
      place true e = (e, tt)
      place false e = (t x y e, tt)
  insert-IsChained t x (y ∷ z ∷ zs) (q, h) =
      place (leq x y) refl (leq x z) refl (insert-IsChained t x (z ∷ zs) h)
    where
      place :
          (b : Bool)
          → leq x y ≡ b
          → (c : Bool) → leq x z ≡ c
          → IsChained (if c then x ∷ z ∷ zs else z ∷ insert x zs)
          → IsChained
              (if b then x ∷ y ∷ z ∷ zs else y ∷ (if c then x ∷ z ∷ zs else z ∷ insert x zs))
      place true e c e' r = (e, (q, h))
      place false e true e' r = (t x y e, r)
      place false e false e' r = (q, r)

  pub sort-IsChained : IsTotal → (xs : List A) → IsChained (sort xs)
  sort-IsChained t [] = tt
  sort-IsChained t (x ∷ xs) = insert-IsChained t x (sort xs) (sort-IsChained t xs)
