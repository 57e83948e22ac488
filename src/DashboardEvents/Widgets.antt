-- ===== src/DashboardEvents/Widgets.antt =====
-- The patch of a widget's config from a frame.
use frontdashboard.Prelude.{
  ◌≡◌, refl, inl, inr, String, true, some, List, [], ◌∷◌, str_eq, if◌then◌else◌, map, any, arith,
  subst, Bool-cases, Option-cases,
}
use frontdashboard.ChangedFields.{is_only, widgets}
use frontdashboard.Sse.{SseEvent}
use frontdashboard.DashboardTypes.{Dashboard, DashboardWidget}
use frontdashboard.DashboardEvents.{
  changed_fields_of, patch_widget_config, patch_named, with_config,
}

-- A widget before and after a patch: itself but for the config, which is new for the named one only.
abbrev pub IsPatched : String → String → DashboardWidget → DashboardWidget → Type 0
IsPatched widget_id config before after =
    (after.id ≡ before.id)
    × (after.widget_type ≡ before.widget_type)
    × (after.resource_type ≡ before.resource_type)
    × (after.resource_id ≡ before.resource_id)
    × (after.config ≡ (if str_eq before.id widget_id then config else before.config))

-- Two lists of the same length, related place by place.
abbrev pub All₂ :
    (DashboardWidget → DashboardWidget → Type 0)
    → List DashboardWidget
    → List DashboardWidget
    → Type 0
All₂ R [] [] = Unit
All₂ R (x ∷ xs) (y ∷ ys) = R x y × All₂ R xs ys
All₂ R _ _ = ⊥

map-IsPatched :
    (widget_id config : String) (ws : List DashboardWidget)
    → All₂ (IsPatched widget_id config) ws (map (with_config widget_id config) ws)
map-IsPatched id config [] = tt
map-IsPatched id config (w ∷ ws) = (ground arith, map-IsPatched id config ws)

-- A patched dashboard: all but the widgets is unchanged, the version too, and the widgets are
-- patched place by place.
pub record Patched (before : Dashboard) (event : SseEvent) (after : Dashboard) : Type 0 where
  pub widget_id : String
  pub config : String
  pub named : event.payload.widget_id ≡ some widget_id
  pub carried : event.payload.config ≡ some config
  pub only : is_only (changed_fields_of event) widgets ≡ true
  pub present : any (λ w. str_eq w.id widget_id) before.widgets ≡ true
  pub rest : record after { widgets = before.widgets } ≡ before
  pub patched : All₂ (IsPatched widget_id config) before.widgets after.widgets

patch_named-Patched :
    (before : Dashboard) (event : SseEvent) (after : Dashboard) (widget_id config : String)
    → event.payload.widget_id ≡ some widget_id
    → event.payload.config ≡ some config
    → is_only (changed_fields_of event) widgets ≡ true
    → patch_named before widget_id config ≡ some after
    → Patched before event after
patch_named-Patched before event after id config n c o e =
    let same : record before { widgets = map (with_config id config) before.widgets } ≡ after =
      ground arith in
    record {
      widget_id = id;
      config = config;
      named = n;
      carried = c;
      only = o;
      present = ground arith;
      rest = subst (λ (d : Dashboard). record d { widgets = before.widgets } ≡ before) same refl;
      patched =
          subst (λ (d : Dashboard). All₂ (IsPatched id config) before.widgets d.widgets) same
            (map-IsPatched id config before.widgets);
    }

-- Where the frame changes the dashboard at all, the result is the dashboard with the one config
-- replaced: the version that a layout save compares is untouched.
pub patch_widget_config-Patched :
    (before : Dashboard) (event : SseEvent) (after : Dashboard)
    → patch_widget_config (some before) event ≡ some after
    → Patched before event after
unfolding patch_widget_config
patch_widget_config-Patched before event after e =
    elim (Bool-cases (is_only (changed_fields_of event) widgets)) [
      | inr o ↦ absurd (ground arith)
      | inl o ↦ elim (Option-cases event.payload.widget_id) [
        | inl n ↦ absurd (ground arith)
        | inr (id, n) ↦ elim (Option-cases event.payload.config) [
          | inl c ↦ absurd (ground arith)
          | inr (config, c) ↦ patch_named-Patched before event after id config n c o (ground arith)
        ]
      ]
    ]
