-- ===== src/ChangedFields/Refetch.antt =====
-- Which frames need no refetch.
use frontdashboard.Prelude.{
  ◌≡◌, String, Bool, List, [], ◌∷◌, arith, includes, refl, str_eq_sym, subst, sym, inl, inr, ap,
  fun_ext, any, all, ◌&&◌,
}
use frontdashboard.ChangedFields.{
  effect_of, is_nonempty, is_fully_applied_locally, moves_dashboard_row, is_echo_suppressible,
  ChangedField, spelling, layout, widgets, name, restored, shares, field_cases, IsUnknown,
  known_of_IsUnknown, unknown_effect,
}

abbrev among : List String → String → Bool
among names field = includes names field

abbrev pub local_fields : List String
local_fields = "layout" ∷ "widgets" ∷ []

abbrev pub row_fields : List String
row_fields = "layout" ∷ "name" ∷ "restored" ∷ []

abbrev pub echoed_fields : List String
echoed_fields = "layout" ∷ "widgets" ∷ "name" ∷ "restored" ∷ []

-- The effects of one value are those of its spelling.
abbrev FollowsSpelling : String → Type 0
FollowsSpelling f =
    ((effect_of f).applied_locally ≡ includes local_fields f)
    × ((effect_of f).touches_dashboard_row ≡ includes row_fields f)
    × ((effect_of f).echo_suppressible ≡ includes echoed_fields f)

spelling-FollowsSpelling : (c : ChangedField) → FollowsSpelling (spelling c)
unfolding effect_of
spelling-FollowsSpelling layout = (refl, refl, refl)
spelling-FollowsSpelling widgets = (refl, refl, refl)
spelling-FollowsSpelling name = (refl, refl, refl)
spelling-FollowsSpelling restored = (refl, refl, refl)
spelling-FollowsSpelling shares = (refl, refl, refl)

effect_of_of_IsUnknown : (f : String) → IsUnknown f → effect_of f ≡ unknown_effect
unfolding effect_of
effect_of_of_IsUnknown f o = rw (known_of_IsUnknown f o, effect_of) refl

effect_of-FollowsSpelling : (f : String) → FollowsSpelling f
effect_of-FollowsSpelling f = elim (field_cases f) [
  | inl (c, e) ↦ subst FollowsSpelling (sym e) (spelling-FollowsSpelling c)
  | inr o ↦ rw (effect_of_of_IsUnknown f o) (
    ground (arith, o.layout, o.widgets, str_eq_sym "layout" f, str_eq_sym "widgets" f),
    ground (
      arith,
      o.layout,
      o.name,
      o.restored,
      str_eq_sym "layout" f,
      str_eq_sym "name" f,
      str_eq_sym "restored" f,
    ),
    ground (
      arith,
      o.layout,
      o.widgets,
      o.name,
      o.restored,
      str_eq_sym "layout" f,
      str_eq_sym "widgets" f,
      str_eq_sym "name" f,
      str_eq_sym "restored" f,
    ),
  )
]

all-ext :
    (p q : String → Bool) → ((f : String) → p f ≡ q f) → (fs : List String) → all p fs ≡ all q fs
all-ext p q h fs = ap (λ r. all r fs) (fun_ext h)

any-ext :
    (p q : String → Bool) → ((f : String) → p f ≡ q f) → (fs : List String) → any p fs ≡ any q fs
any-ext p q h fs = ap (λ r. any r fs) (fun_ext h)

-- A frame settles without a refetch of the listing exactly if it carries a value and each is the
-- layout or the widgets; it moves the dashboard's row exactly if one is the layout, the name or the
-- restored mark; the actor's echo needs no reload exactly if it carries a value and each is one of
-- the four that a mutation's response describes. A value that this build does not know falls on
-- the side of refetching.
pub refetch_lem :
    (fields : List String)
    → (is_fully_applied_locally fields ≡ (is_nonempty fields && all (includes local_fields) fields))
      × (moves_dashboard_row fields ≡ any (includes row_fields) fields)
      × (is_echo_suppressible fields ≡ (is_nonempty fields && all (includes echoed_fields) fields))
unfolding is_fully_applied_locally moves_dashboard_row is_echo_suppressible
refetch_lem fields = (
  ap (◌&&◌ (is_nonempty fields)) (all-ext _ _ (λ f. (effect_of-FollowsSpelling f).0) fields),
  any-ext _ _ (λ f. (effect_of-FollowsSpelling f).1) fields,
  ap (◌&&◌ (is_nonempty fields)) (all-ext _ _ (λ f. (effect_of-FollowsSpelling f).2) fields),
)
