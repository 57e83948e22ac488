-- ===== src/ChangedFields/Primary.antt =====
-- The feed describes the value of the greatest precedence, in whatever order a frame lists them.
use frontdashboard.Prelude.{
  ℕ, ◌≡◌, ◌≤◌, ◌∙◌, ap, String, Option, none, some, List, [], ◌∷◌, str_eq, if◌then◌else◌, arith,
  for_each, includes, refl, max, ◌==◌, inl, inr,
}
use frontdashboard.ChangedFields.{
  ChangedField, layout, widgets, name, restored, shares, effects, known, better,
  primary_changed_field, spelling, field_cases, known_of_IsUnknown,
}

-- The value of each precedence.
abbrev ranked : ℕ → Option ChangedField
ranked p =
    if p == 0
    then none
    else if p == 1
    then some layout
    else if p == 2
    then some widgets
    else if p == 3
    then some name
    else some restored

abbrev rank : String → ℕ
rank field = elim (known field) [ none ↦ 0 | some f ↦ (effects f).feed_precedence ]

rank-le : (field : String) → rank field ≤ 4
rank-le field = ground arith

better-ranked :
    (p : ℕ) (field : String)
    → p ≤ 4
    → better (ranked p, p) field ≡ (ranked (max p (rank field)), max p (rank field))
unfolding better
better-ranked p field h = ground arith

abbrev top : ℕ → List String → ℕ
top p [] = p
top p (f ∷ fs) = top (max p (rank f)) fs

loop-top :
    (p : ℕ) (fields : List String)
    → p ≤ 4
    → for_each better (ranked p, p) fields ≡ (ranked (top p fields), top p fields)
loop-top p [] h = refl
loop-top p (f ∷ fs) h =
    ap (λ s. for_each better s fs) (better-ranked p f h)
    ∙ loop-top (max p (rank f)) fs (omega (arith, rank-le f))

-- The greatest precedence that the frame's values reach.
abbrev reach : List String → ℕ
reach fields =
    if includes fields "restored"
    then 4
    else if includes fields "name"
    then 3
    else if includes fields "widgets"
    then 2
    else if includes fields "layout"
    then 1
    else 0

abbrev rank_by_name : String → ℕ
rank_by_name f =
    if str_eq f "restored"
    then 4
    else if str_eq f "name"
    then 3
    else if str_eq f "widgets"
    then 2
    else if str_eq f "layout"
    then 1
    else 0

rank-spelling : (c : ChangedField) → rank (spelling c) ≡ rank_by_name (spelling c)
unfolding known
rank-spelling layout = refl
rank-spelling widgets = refl
rank-spelling name = refl
rank-spelling restored = refl
rank-spelling shares = refl

rank_lem : (f : String) → rank f ≡ rank_by_name f
rank_lem f = elim (field_cases f) [
  | inl (c, e) ↦ rw e (rank-spelling c)
  | inr o ↦ rw (known_of_IsUnknown f o, rank, o.restored, o.name, o.widgets, o.layout) refl
]

reach-cons : (f : String) (fs : List String) → reach (f ∷ fs) ≡ max (rank f) (reach fs)
reach-cons f fs = rw (rank_lem f) (ground arith)

top-reach : (p : ℕ) (fields : List String) → top p fields ≡ max p (reach fields)
top-reach p [] = omega arith
top-reach p (f ∷ fs) = omega (arith, top-reach (max p (rank f)) fs, reach-cons f fs)

-- What the feed's line should describe, by membership alone.
abbrev pub headline : List String → Option ChangedField
headline fields =
    if includes fields "restored"
    then some restored
    else if includes fields "name"
    then some name
    else if includes fields "widgets"
    then some widgets
    else if includes fields "layout"
    then some layout
    else none

-- The loop finds the value of the greatest precedence; a repeated or unknown value, `shares` and
-- the order make no difference.
pub primary_changed_field-eq-headline :
    (fields : List String) → primary_changed_field fields ≡ headline fields
unfolding primary_changed_field
primary_changed_field-eq-headline fields =
    ap (λ (s : Option ChangedField × ℕ). s.0) (loop-top 0 fields (omega arith))
    ∙ ap ranked (top-reach 0 fields)
    ∙ ground arith
