-- ===== src/Prelude/Dict.antt =====
-- The built-in `Map` with string keys, as its entries in insertion order: `set` on a present key
-- keeps the entry's place.
use Prim.Native.String.{String}
use mathlib.Core.Path.{◌≡◌, refl}
use mathlib.Core.Bool.{Bool, true, false, not, ◌&&◌}
use mathlib.Core.Option.{Option, none, some}
use mathlib.Core.List.{List, [], ◌∷◌, map}
use native.Mathlib.Omega.{arith}
use text.Mathlib.Text.{◌==◌ as str_eq}
use text.Mathlib.TextEquality.{eq_iff}
use frontdashboard.Prelude.Tests.{if◌then◌else◌}
use frontdashboard.Prelude.Lists.{any, filter}

module _ {ℓ} {V : Type ℓ} where
  abbrev pub get : String → List (String × V) → Option V
  get k [] = none
  get k ((j, v) ∷ m) = if str_eq j k then some v else get k m

  abbrev pub set : String → V → List (String × V) → List (String × V)
  set k v [] = (k, v) ∷ []
  set k v ((j, w) ∷ m) = if str_eq j k then (j, v) ∷ m else (j, w) ∷ set k v m

  abbrev pub delete : String → List (String × V) → List (String × V)
  delete k = filter (λ e. not (str_eq e.0 k))

  abbrev pub values : List (String × V) → List V
  values = map (λ e. e.1)

  abbrev pub has : String → List (String × V) → Bool
  has k = any (λ e. str_eq e.0 k)

  -- No key twice: what a `Map` guarantees.
  abbrev pub is_dict : List (String × V) → Bool
  is_dict [] = true
  is_dict ((k, v) ∷ m) = not (has k m) && is_dict m

  pub get_of_not-has : (k : String) (m : List (String × V)) → has k m ≡ false → get k m ≡ none
  get_of_not-has k [] h = refl
  get_of_not-has k ((j, v) ∷ m) h = ground (arith, get_of_not-has k m)

  pub get-set :
      (k j : String) (v : V) (m : List (String × V))
      → get j (set k v m) ≡ (if str_eq k j then some v else get j m)
  get-set k j v [] = refl
  get-set k j v ((i, w) ∷ m) = ground (arith, eq_iff k j, eq_iff i k, eq_iff i j, get-set k j v m)

  has-set :
      (k j : String) (v : V) (m : List (String × V))
      → has j (set k v m) ≡ (if str_eq k j then true else has j m)
  has-set k j v [] = ground arith
  has-set k j v ((i, w) ∷ m) = ground (arith, eq_iff k j, eq_iff i k, eq_iff i j, has-set k j v m)

  pub is_dict-set :
      (k : String) (v : V) (m : List (String × V)) → is_dict m ≡ true → is_dict (set k v m) ≡ true
  is_dict-set k v [] h = refl
  is_dict-set k v ((i, w) ∷ m) h =
      ground (arith, eq_iff k i, eq_iff i k, has-set k i v m, is_dict-set k v m)

  has-filter :
      (p : String × V → Bool) (k : String) (m : List (String × V))
      → has k m ≡ false
      → has k (filter p m) ≡ false
  has-filter p k [] h = h
  has-filter p k (e ∷ m) h = ground (arith, has-filter p k m)

  pub is_dict-filter :
      (p : String × V → Bool) (m : List (String × V))
      → is_dict m ≡ true
      → is_dict (filter p m) ≡ true
  is_dict-filter p [] h = h
  is_dict-filter p ((k, v) ∷ m) h = ground (arith, has-filter p k m, is_dict-filter p m)

-- What a filter on values leaves at a key.
abbrev pub keep_if {ℓ} : {V : Type ℓ} → (V → Bool) → Option V → Option V
keep_if p none = none
keep_if p (some v) = if p v then some v else none

module _ {ℓ} {V : Type ℓ} where
  pub get-filter :
      (p : V → Bool) (k : String) (m : List (String × V))
      → is_dict m ≡ true
      → get k (filter (λ e. p e.1) m) ≡ keep_if p (get k m)
  get-filter p k [] h = refl
  get-filter p k ((j, v) ∷ m) h = ground (arith, eq_iff j k, get-filter p k m, get_of_not-has k m)
