-- ===== src/Query/Entries.antt =====
-- The map of entries: what holds of each entry, and of the keys, under the operations on the map.
use frontdashboard.Prelude.{
  ℕ, ◌-◌, ◌≡◌, refl, sym, subst, String, true, false, not, ◌&&◌, ◌||◌, ◌==◌, ltb, none, some, List,
  [], ◌∷◌, ◌++◌, map, if◌then◌else◌, All, All-append, All-filter, arith, Bool-cases, Option-cases,
  inl, inr, eq_iff, any-append, str_eq,
}
use frontdashboard.Prelude.Dict.{get, set, delete, has, is_dict, is_dict-filter}
use frontdashboard.Query.{QueryEntry, touch, is_pinned, evict_from, on_entry}

module _ {ℓ} {V : Type ℓ} where
  pub All-set {κ} :
      (P : String × V → Type κ) (k : String) (v : V) (m : List (String × V))
      → P (k, v)
      → All P m
      → All P (set k v m)
  All-set P k v [] p h = (p, tt)
  All-set P k v ((j, w) ∷ m) p (q, h) = elim (Bool-cases (str_eq j k)) [
    | inl e ↦ rw e (subst (λ i. P (i, v)) (sym ((eq_iff j k).0 e)) p, h)
    | inr e ↦ rw e (q, All-set P k v m p h)
  ]

  pub All-get {κ} :
      (P : String × V → Type κ) (k : String) (v : V) (m : List (String × V))
      → All P m
      → get k m ≡ some v
      → P (k, v)
  All-get P k v [] h e = cc
  All-get P k v ((j, w) ∷ m) (q, h) e = elim (Bool-cases (str_eq j k)) [
    | inl i ↦
        let same : some w ≡ some v = ground (arith, e) in
        subst (λ x. P (x, v)) ((eq_iff j k).0 i) (subst (λ x. P (j, x)) (cc) q)
    | inr i ↦ All-get P k v m h (ground (arith, e))
  ]

  pub All-others {κ} :
      (P : String × V → Type κ) (k : String) (m : List (String × V))
      → has k m ≡ false
      → All (λ e. str_eq e.0 k ≡ false → P e) m
      → All P m
  All-others P k [] n h = tt
  All-others P k (e ∷ m) n (q, h) = (q (ground arith), All-others P k m (ground arith) h)

  -- What holds at every other key and at this one holds at all.
  pub All-at {κ} :
      (P : String × V → Type κ) (k : String) (v : V) (m : List (String × V))
      → is_dict m ≡ true
      → get k m ≡ some v
      → P (k, v)
      → All (λ e. str_eq e.0 k ≡ false → P e) m
      → All P m
  All-at P k v [] d e p h = tt
  All-at P k v ((j, w) ∷ m) d e p (q, h) = elim (Bool-cases (str_eq j k)) [
    | inl i ↦
        let same : some w ≡ some v = ground (arith, e) in
        let here : P (k, w) = subst (λ x. P (k, x)) (cc) p in
        (
          subst (λ x. P (x, w)) (sym ((eq_iff j k).0 i)) here,
          All-others P k m (ground (arith, eq_iff j k)) h,
        )
    | inr i ↦ (q i, All-at P k v m (ground arith) (ground (arith, e)) p h)
  ]

  has-append : (k : String) (xs ys : List (String × V)) → has k (xs ++ ys) ≡ (has k xs || has k ys)
  has-append k xs ys = any-append (λ e. str_eq e.0 k) xs ys

  has-delete : (k : String) (m : List (String × V)) → has k (delete k m) ≡ false
  has-delete k [] = refl
  has-delete k (e ∷ m) = ground (arith, has-delete k m)

  pub is_dict-snoc :
      (k : String) (v : V) (m : List (String × V))
      → is_dict m ≡ true
      → has k m ≡ false
      → is_dict (m ++ (k, v) ∷ []) ≡ true
  is_dict-snoc k v [] d h = refl
  is_dict-snoc k v ((j, w) ∷ m) d h =
      ground (arith, is_dict-snoc k v m, has-append j m ((k, v) ∷ []), eq_iff j k, eq_iff k j)

  pub has_of_get-none : (k : String) (m : List (String × V)) → get k m ≡ none → has k m ≡ false
  has_of_get-none k [] h = refl
  has_of_get-none k ((j, w) ∷ m) h = ground (arith, has_of_get-none k m)

-- A change of every value.
module _ {ℓ} {V : Type ℓ} (change : V → V) where
  pub All-map {κ} :
      (P : String × V → Type κ)
      → ((k : String) (v : V) → P (k, v) → P (k, change v))
      → (m : List (String × V)) → All P m
      → All P (map (λ e. (e.0, change e.1)) m)
  All-map P f [] h = tt
  All-map P f ((k, v) ∷ m) (p, h) = (f k v p, All-map P f m h)

  has-map : (k : String) (m : List (String × V)) → has k (map (λ e. (e.0, change e.1)) m) ≡ has k m
  has-map k [] = refl
  has-map k (e ∷ m) = ground (arith, has-map k m)

  pub is_dict-map : (m : List (String × V)) → is_dict (map (λ e. (e.0, change e.1)) m) ≡ is_dict m
  is_dict-map [] = refl
  is_dict-map ((k, v) ∷ m) = ground (arith, has-map k m, is_dict-map m)

module _ {ℓ} {S A : Type ℓ} where
  pub All-evict {κ} :
      (P : String × QueryEntry S A → Type κ) (cap size : ℕ) (es : List (String × QueryEntry S A))
      → All P es
      → All P (evict_from cap size es)
  unfolding evict_from
  All-evict P cap size [] h = h
  All-evict P cap size (e ∷ es) (p, h) = elim (Bool-cases (ltb cap size && not (is_pinned e.1))) [
    | inl d ↦ rw d (All-evict P cap (size - 1) es h)
    | inr d ↦ rw d (p, All-evict P cap size es h)
  ]

  has-evict :
      (k : String) (cap size : ℕ) (es : List (String × QueryEntry S A))
      → has k es ≡ false
      → has k (evict_from cap size es) ≡ false
  unfolding evict_from
  has-evict k cap size [] h = h
  has-evict k cap size (e ∷ es) h =
      let drops = ltb cap size && not (is_pinned e.1) in
      ground (arith, has-evict k cap (if drops then size - 1 else size) es)

  pub is_dict-evict :
      (cap size : ℕ) (es : List (String × QueryEntry S A))
      → is_dict es ≡ true
      → is_dict (evict_from cap size es) ≡ true
  unfolding evict_from
  is_dict-evict cap size [] h = h
  is_dict-evict cap size ((k, e) ∷ es) h =
      let drops = ltb cap size && not (is_pinned e) in
      let size' = if drops then size - 1 else size in
      ground (arith, is_dict-evict cap size' es, has-evict k cap size' es)

  pub All-on_entry {κ} :
      (P : String × QueryEntry S A → Type κ) (n : ℕ) (change : QueryEntry S A → QueryEntry S A)
      → ((k : String) (e : QueryEntry S A) → P (k, e) → P (k, change e))
      → (es : List (String × QueryEntry S A)) → All P es
      → All P (on_entry n change es)
  All-on_entry P n change f es h =
      All-map (λ e. if e.number == n then change e else e) P
        (λ k e p. elim (Bool-cases (e.number == n)) [ inl i ↦ rw i (f k e p) | inr i ↦ rw i p ]) es
        h

  pub is_dict-on_entry :
      (n : ℕ) (change : QueryEntry S A → QueryEntry S A) (es : List (String × QueryEntry S A))
      → is_dict (on_entry n change es) ≡ is_dict es
  is_dict-on_entry n change es = is_dict-map (λ e. if e.number == n then change e else e) es

  pub All-touch {κ} :
      (P : String × QueryEntry S A → Type κ) (key : String) (es : List (String × QueryEntry S A))
      → All P es
      → All P (touch key es)
  All-touch P key es h = elim (Option-cases (get key es)) [
    | inl e ↦ rw (touch, e) h
    | inr (v, e) ↦
        rw (touch, e)
          (All-append P (delete key es) ((key, v) ∷ [])
            (All-filter P (λ x. not (str_eq x.0 key)) es h) (All-get P key v es h e, tt))
  ]

  pub is_dict-touch :
      (key : String) (es : List (String × QueryEntry S A))
      → is_dict es ≡ true
      → is_dict (touch key es) ≡ true
  is_dict-touch key es h = elim (Option-cases (get key es)) [
    | inl e ↦ rw (touch, e) h
    | inr (v, e) ↦
        rw (touch, e)
          (is_dict-snoc key v (delete key es) (is_dict-filter (λ x. not (str_eq x.0 key)) es h)
            (has-delete key es))
  ]
