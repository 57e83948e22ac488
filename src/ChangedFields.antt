-- ===== src/ChangedFields.antt =====
-- frontend/src/utils/dashboard/changedFields.ts: what each `changed_fields` value means.
-- The code looks a value up by `field in EFFECTS`, which also finds the names of `Object.prototype`;
-- these have no effect fields, so they read as an unknown value does, and are one here.
pub mod Primary
pub mod Refetch
mod Tests
use frontdashboard.Prelude.{
  ℕ, String, Bool, true, false, Option, none, some, List, [], ◌∷◌, str_eq, if◌then◌else◌, ltb, all,
  any, ◌&&◌, for_each, Bool-cases, eq_iff, inl, inr, refl, ◌≡◌, ◌⊎◌,
}

pub data ChangedField : Type 0 where
  layout widgets name restored shares : ChangedField

pub record ChangedFieldEffect : Type 0 where
  pub applied_locally : Bool
  pub touches_dashboard_row : Bool
  pub feed_precedence : ℕ
  pub echo_suppressible : Bool

-- `EFFECTS`
abbrev pub effects : ChangedField → ChangedFieldEffect
effects layout = record {
  applied_locally = true;
  touches_dashboard_row = true;
  feed_precedence = 1;
  echo_suppressible = true;
}
effects widgets = record {
  applied_locally = true;
  touches_dashboard_row = false;
  feed_precedence = 2;
  echo_suppressible = true;
}
effects name = record {
  applied_locally = false;
  touches_dashboard_row = true;
  feed_precedence = 3;
  echo_suppressible = true;
}
effects restored = record {
  applied_locally = false;
  touches_dashboard_row = true;
  feed_precedence = 4;
  echo_suppressible = true;
}
effects shares = record {
  applied_locally = false;
  touches_dashboard_row = false;
  feed_precedence = 0;
  echo_suppressible = false;
}

abbrev pub unknown_effect : ChangedFieldEffect
unknown_effect = record {
  applied_locally = false;
  touches_dashboard_row = false;
  feed_precedence = 0;
  echo_suppressible = false;
}

abbrev pub spelling : ChangedField → String
spelling layout = "layout"
spelling widgets = "widgets"
spelling name = "name"
spelling restored = "restored"
spelling shares = "shares"

-- The spelling of no value.
pub record IsUnknown (field : String) : Type 0 where
  pub layout : str_eq field "layout" ≡ false
  pub widgets : str_eq field "widgets" ≡ false
  pub name : str_eq field "name" ≡ false
  pub restored : str_eq field "restored" ≡ false
  pub shares : str_eq field "shares" ≡ false

pub field_cases : (field : String) → ((c : ChangedField) × (field ≡ spelling c)) ⊎ IsUnknown field
field_cases f = elim (Bool-cases (str_eq f "layout")) [
  | inl e ↦ inl (layout, (eq_iff f "layout").0 e)
  | inr no_layout ↦ elim (Bool-cases (str_eq f "widgets")) [
    | inl e ↦ inl (widgets, (eq_iff f "widgets").0 e)
    | inr no_widgets ↦ elim (Bool-cases (str_eq f "name")) [
      | inl e ↦ inl (name, (eq_iff f "name").0 e)
      | inr no_name ↦ elim (Bool-cases (str_eq f "restored")) [
        | inl e ↦ inl (restored, (eq_iff f "restored").0 e)
        | inr no_restored ↦ elim (Bool-cases (str_eq f "shares")) [
          | inl e ↦ inl (shares, (eq_iff f "shares").0 e)
          | inr no_shares ↦ inr (record {
            layout = no_layout;
            widgets = no_widgets;
            name = no_name;
            restored = no_restored;
            shares = no_shares;
          })
        ]
      ]
    ]
  ]
]

-- `isKnown`, with the value that it narrows to.
unfoldable pub known : String → Option ChangedField
known field =
    if str_eq field "layout"
    then some layout
    else if str_eq field "widgets"
    then some widgets
    else if str_eq field "name"
    then some name
    else if str_eq field "restored"
    then some restored
    else if str_eq field "shares"
    then some shares
    else none

pub known_of_IsUnknown : (field : String) → IsUnknown field → known field ≡ none
unfolding known
known_of_IsUnknown f o = rw (o.layout, o.widgets, o.name, o.restored, o.shares) refl

unfoldable pub effect_of : String → ChangedFieldEffect
unfolding known
effect_of field = elim (known field) [ none ↦ unknown_effect | some f ↦ effects f ]

-- `fields.length > 0`
abbrev pub is_nonempty : List String → Bool
is_nonempty [] = false
is_nonempty (_ ∷ _) = true

unfoldable pub is_fully_applied_locally : List String → Bool
unfolding effect_of
is_fully_applied_locally fields =
    is_nonempty fields && all (λ field. (effect_of field).applied_locally) fields

unfoldable pub moves_dashboard_row : List String → Bool
unfolding effect_of
moves_dashboard_row fields = any (λ field. (effect_of field).touches_dashboard_row) fields

unfoldable pub is_echo_suppressible : List String → Bool
unfolding effect_of
is_echo_suppressible fields =
    is_nonempty fields && all (λ field. (effect_of field).echo_suppressible) fields

unfoldable pub is_only : List String → ChangedField → Bool
is_only [] field = false
is_only (f ∷ []) field = str_eq f (spelling field)
is_only (f ∷ g ∷ rest) field = false

-- One round of the loop of `primaryChangedField`, on `(best, bestPrecedence)`.
unfoldable pub better : Option ChangedField × ℕ → String → Option ChangedField × ℕ
unfolding known
better (best, precedence) field = elim (known field) [
  | none ↦ (best, precedence)
  | some f ↦
      if ltb precedence (effects f).feed_precedence
      then (some f, (effects f).feed_precedence)
      else (best, precedence)
]

unfoldable pub primary_changed_field : List String → Option ChangedField
unfolding better
primary_changed_field fields = (for_each better (none, 0) fields).0
