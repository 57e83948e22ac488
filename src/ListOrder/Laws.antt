-- ===== src/ListOrder/Laws.antt =====
-- A reorder keeps every row, and is refused exactly where rows and ids diverge.
use frontdashboard.Prelude.{
  suc, ◌≤◌, ◌<◌, ◌≡◌, ◌∙◌, refl, ap, inl, inr, String, true, false, not, Option, none, some, List,
  [], ◌∷◌, str_eq, eq_iff, if◌then◌else◌, for_each, includes, length, map, filter, find, all, arith,
  Bool-cases, Option-cases, ◌↔◌, subst, sym, ap₂, length-filter-le,
}
use frontdashboard.Prelude.Dict.{get, set, get-set}
use frontdashboard.ListOrder.{is_distinct, by_id, pick, order_by_ids}

abbrev first_some {ℓ} : {A : Type ℓ} → Option A → Option A → Option A
first_some none b = b
first_some (some a) b = some a

abbrev without : String → List String → List String
without y = filter (λ x. not (str_eq x y))

includes-without :
    (x y : String) (ys : List String)
    → str_eq x y ≡ false
    → includes (without y ys) x ≡ includes ys x
includes-without x y [] h = refl
includes-without x y (z ∷ zs) h =
    ground (arith, includes-without x y zs h, eq_iff z y, eq_iff z x, eq_iff x y)

all-without :
    (y : String) (xs ys : List String)
    → includes xs y ≡ false
    → all (includes ys) xs ≡ true
    → all (includes (without y ys)) xs ≡ true
all-without y [] ys n h = refl
all-without y (x ∷ xs) ys n h = ground (arith, all-without y xs ys, includes-without x y ys)

length-without :
    (y : String) (ys : List String) → includes ys y ≡ true → length (without y ys) < length ys
length-without y [] h = cc
length-without y (z ∷ zs) h =
    ground (arith, length-without y zs, length-filter-le (λ x. not (str_eq x y)) zs)

-- Distinct ids among some ids are at most as many, and are all of them if they are as many.
length-le_of_all :
    (xs ys : List String)
    → is_distinct xs ≡ true
    → all (includes ys) xs ≡ true
    → length xs ≤ length ys
length-le_of_all [] ys d h = omega arith
length-le_of_all (x ∷ xs) ys d h =
    ground (arith, length-le_of_all xs (without x ys), all-without x xs ys, length-without x ys)

includes_of_length :
    (xs ys : List String) (y : String)
    → is_distinct xs ≡ true
    → all (includes ys) xs ≡ true
    → length xs ≡ length ys
    → includes ys y ≡ true
    → includes xs y ≡ true
includes_of_length xs ys y d h l i = elim (Bool-cases (includes xs y)) [
  | inl found ↦ found
  | inr missing ↦ absurd (
      ground (
        arith,
        length-le_of_all xs (without y ys) d (all-without y xs ys missing h),
        length-without y ys i,
      ))
]

module _ {A : Type 0} (id_of : A → String) where
  abbrev pub ids : List A → List String
  ids = map (λ row. (id_of row))

  abbrev pub row_of : String → List A → Option A
  row_of id = find (λ row. str_eq (id_of row) id)

  row_of_absent :
      (id : String) (rows : List A) → includes (ids rows) id ≡ false → row_of id rows ≡ none
  row_of_absent id [] h = refl
  row_of_absent id (row ∷ rows) h = ground (arith, row_of_absent id rows)

  row_of_present :
      (id : String) (rows : List A)
      → includes (ids rows) id ≡ true
      → (row : A) × (row_of id rows ≡ some row) × ((id_of row) ≡ id)
  row_of_present id [] h = cc
  row_of_present id (row ∷ rows) h = elim (Bool-cases (str_eq (id_of row) id)) [
    | inl e ↦ (row, ground arith, (eq_iff (id_of row) id).0 e)
    | inr e ↦
        let (found, same, named) = row_of_present id rows (ground arith) in
        (found, ground arith, named)
  ]

  get-loop :
      (id : String) (rows : List A) (m : List (String × A))
      → is_distinct (ids rows) ≡ true
      → get id (for_each (λ n (row : A). set (id_of row) row n) m rows)
        ≡ first_some (row_of id rows) (get id m)
  get-loop id [] m h = refl
  get-loop id (row ∷ rows) m h = ground (
    arith,
    get-loop id rows (set (id_of row) row m),
    get-set (id_of row) id row m,
    eq_iff (id_of row) id,
    row_of_absent (id_of row) rows,
  )

  get-by_id :
      (id : String) (rows : List A)
      → is_distinct (ids rows) ≡ true
      → get id (by_id id_of rows) ≡ row_of id rows
  unfolding by_id
  get-by_id id rows h = get-loop id rows [] h ∙ ground arith

  -- The loop succeeds exactly if every id is a row's.
  pick_total :
      (rows : List A) (wanted : List String)
      → is_distinct (ids rows) ≡ true
      → all (includes (ids rows)) wanted ≡ true
      → (next : List A) × (pick (by_id id_of rows) wanted ≡ some next)
  unfolding pick
  pick_total rows [] d h = ([], refl)
  pick_total rows (id ∷ wanted) d h =
      let (row, same, named) = row_of_present id rows (ground arith) in
      let (next, rest) = pick_total rows wanted d (ground arith) in
      (row ∷ next, ground (arith, get-by_id id rows d))

  pick-cons :
      (rows : List A) (id : String) (wanted : List String) (next : List A)
      → is_distinct (ids rows) ≡ true
      → pick (by_id id_of rows) (id ∷ wanted) ≡ some next
      → (row : A) × (rest : List A) × (row_of id rows ≡ some row)
        × (pick (by_id id_of rows) wanted ≡ some rest)
        × (next ≡ row ∷ rest)
  unfolding pick
  pick-cons rows id wanted next d e = elim (Option-cases (row_of id rows)) [
    | inl none_found ↦ absurd (ground (arith, get-by_id id rows d))
    | inr (row, found) ↦ elim (Option-cases (pick (by_id id_of rows) wanted)) [
      | inl stopped ↦ absurd (ground (arith, get-by_id id rows d))
      | inr (rest, picked) ↦ (row, rest, found, picked, ground (arith, get-by_id id rows d))
    ]
  ]

  includes_of_row :
      (id : String) (rows : List A) (row : A)
      → row_of id rows ≡ some row
      → (includes (ids rows) id ≡ true) × ((id_of row) ≡ id)
  includes_of_row id [] row e = cc
  includes_of_row id (r ∷ rows) row e = (
    ground (arith, includes_of_row id rows row),
    ground (arith, includes_of_row id rows row, eq_iff (id_of r) id),
  )

  -- What the loop picks: the rows of the ids, in the order of the ids.
  record Picked (rows next : List A) (wanted : List String) : Type 0 where
    in_order : ids next ≡ wanted
    known : all (includes (ids rows)) wanted ≡ true
    same : (k : String) → row_of k next ≡ (if includes wanted k then row_of k rows else none)

  pick-Picked :
      (rows : List A) (wanted : List String) (next : List A)
      → is_distinct (ids rows) ≡ true
      → pick (by_id id_of rows) wanted ≡ some next
      → Picked rows next wanted
  unfolding pick
  pick-Picked rows [] next d e =
      let empty : [] ≡ next = ground arith in
      subst (λ n. Picked rows n []) empty
        (record { in_order = refl; known = refl; same = λ k. refl })
  pick-Picked rows (id ∷ wanted) next d e =
      let (row, rest, found, picked, same) = pick-cons rows id wanted next d e in
      let p = pick-Picked rows wanted rest d picked in
      let (here, named) = includes_of_row id rows row found in
      subst (λ n. Picked rows n (id ∷ wanted)) (sym same)
        (record {
          in_order = ap₂ ◌∷◌ named p.in_order;
          known = ground (arith, here, p.known);
          same = λ k. ground (arith, p.same k, named, eq_iff id k, eq_iff (id_of row) k, found);
        })

  length-ids : (rows : List A) → length (ids rows) ≡ length rows
  length-ids [] = refl
  length-ids (row ∷ rows) = ap suc (length-ids rows)

  -- A reorder of rows with different ids, if it succeeds, stands in the order of the ids and holds
  -- every row under its id, unchanged: none is lost, none is doubled.
  pub order_by_ids-row_of :
      (rows : List A) (ordered_ids : List String) (next : List A) (id : String)
      → is_distinct (ids rows) ≡ true
      → order_by_ids id_of rows ordered_ids ≡ some next
      → (ids next ≡ ordered_ids) × (row_of id next ≡ row_of id rows)
  unfolding order_by_ids
  order_by_ids-row_of rows wanted next id d e =
      let p : Picked rows next wanted = pick-Picked rows wanted next d (ground arith) in
      (
        p.in_order,
        ground (
          arith,
          p.same id,
          includes_of_length wanted (ids rows) id (ground arith) p.known
              (ground (arith, length-ids rows)),
          row_of_absent id rows,
        ),
      )

  -- A reorder of rows with different ids succeeds exactly if the ids given are as many as the rows,
  -- none twice, and each is a row's.
  pub order_by_ids_iff :
      (rows : List A) (ordered_ids : List String)
      → is_distinct (ids rows) ≡ true
      → ((next : List A) × (order_by_ids id_of rows ordered_ids ≡ some next)) ↔ (
          (length ordered_ids ≡ length rows)
          × (is_distinct ordered_ids ≡ true)
          × (all (includes (ids rows)) ordered_ids ≡ true))
  unfolding order_by_ids
  order_by_ids_iff rows wanted d = (
    λ h.
        let (next, e) = h in
        (ground arith, ground arith, (pick-Picked rows wanted next d (ground arith)).known),
    λ h. let (next, e) = pick_total rows wanted d h.2 in (next, ground (arith, e, h.0, h.1)),
  )
