-- ===== src/Query/Updates.antt =====
-- The entry under a key once an updater has run, and what an updater makes of all entries.
use frontdashboard.Prelude.{
  ◌≡◌, refl, String, Bool, true, false, some, List, [], ◌∷◌, if◌then◌else◌, any, All, map, arith,
  Bool-cases, inl, inr, str_eq, eq_iff,
}
use frontdashboard.Prelude.Dict.{get}
use frontdashboard.Query.{QueryState, QueryEntry, Cache, update_where}

module _ {ℓ} {V : Type ℓ} where
  -- A test that no entry passes is not passed by the entry under a key.
  pub any-get :
      (p : String × V → Bool) (k : String) (v : V) (m : List (String × V))
      → any p m ≡ false
      → get k m ≡ some v
      → p (k, v) ≡ false
  any-get p k v [] h e = cc
  any-get p k v ((j, w) ∷ m) h e = elim (Bool-cases (str_eq j k)) [
    | inl i ↦
        let same : some w ≡ some v = ground (arith, e) in
        let w' : w ≡ v = cc in rw (← w', ← (eq_iff j k).0 i) (ground (arith, h))
    | inr i ↦ any-get p k v m (ground (arith, h)) (ground (arith, e))
  ]

module _ {ℓ} {S A : Type ℓ} (holds : S → Bool) (updater : QueryState A → S → QueryState A) where
  abbrev updated_entry : QueryEntry S A → QueryEntry S A
  updated_entry e = if holds e.scope then record e { state = updater e.state e.scope } else e

  abbrev updated_entries : List (String × QueryEntry S A) → List (String × QueryEntry S A)
  updated_entries = map (λ e. (e.0, updated_entry e.1))

  get-updated_entries :
      (k : String) (e : QueryEntry S A) (m : List (String × QueryEntry S A))
      → get k m ≡ some e
      → holds e.scope ≡ true
      → get k (updated_entries m) ≡ some (record e { state = updater e.state e.scope })
  get-updated_entries k e [] h p = cc
  get-updated_entries k e ((j, d) ∷ m) h p = elim (Bool-cases (str_eq j k)) [
    | inl i ↦
        let same : some d ≡ some e = ground (arith, h) in let d' : d ≡ e = cc in rw (i, d', p) refl
    | inr i ↦ rw i (get-updated_entries k e m (ground (arith, h)) p)
  ]

  -- What an updater makes true of every state that it is given, and what holds of the others.
  All-updated_entries {κ} :
      (P : QueryState A → S → Type κ) (m : List (String × QueryEntry S A))
      → ((s : QueryState A) (scope : S) → holds scope ≡ true → P (updater s scope) scope)
      → ((s : QueryState A) (scope : S) → holds scope ≡ false → P s scope)
      → All (λ e. P e.1.state e.1.scope) (updated_entries m)
  All-updated_entries P [] f g = tt
  All-updated_entries P ((k, e) ∷ m) f g = elim (Bool-cases (holds e.scope)) [
    | inl p ↦ rw p (f e.state e.scope p, All-updated_entries P m f g)
    | inr p ↦ rw p (g e.state e.scope p, All-updated_entries P m f g)
  ]

  pub get-update_where :
      (k : String) (e : QueryEntry S A) (c : Cache S A)
      → get k c.entries ≡ some e
      → holds e.scope ≡ true
      → get k (update_where holds updater c).entries
        ≡ some (record e { state = updater e.state e.scope })
  unfolding update_where
  get-update_where k e c h p = get-updated_entries k e c.entries h p

  pub All-update_where {κ} :
      (P : QueryState A → S → Type κ) (c : Cache S A)
      → ((s : QueryState A) (scope : S) → holds scope ≡ true → P (updater s scope) scope)
      → ((s : QueryState A) (scope : S) → holds scope ≡ false → P s scope)
      → All (λ e. P e.1.state e.1.scope) (update_where holds updater c).entries
  unfolding update_where
  All-update_where P c f g = All-updated_entries P c.entries f g
