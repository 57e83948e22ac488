-- ===== src/Layout/Save/Serial.antt =====
-- Layout saves of a session are serialized, and none is stranded.
use frontdashboard.Prelude.{
  ℕ, suc, ◌+◌, ◌≤◌, ◌<◌, ◌≡◌, sym, subst, refl, inl, inr, String, true, false, Option, none, some,
  List, [], ◌∷◌, ◌++◌, ◌==◌, All, All-append, All_imp, Bool-cases, Option-cases, append-nil, arith,
}
use frontdashboard.DashboardTypes.{LayoutItem}
use frontdashboard.Layout.Save.{
  State, Drain, putting, rebasing, PendingLayoutSave, advance, save_layout, enqueue, request,
  resume_put, resume_rebase, reset,
}
use frontdashboard.Layout.Save.World.{
  World, generation_of, live, Step, asked, put_settled, rebase_settled, signed_out, visited, Reach,
  here, next,
}
use frontdashboard.Layout.Save.Continues.{
  IsFirstTry, flag, Continues, advance-Continues, resume_put-Continues, resume_rebase-Continues,
}

-- The invariant: the flag is set exactly while one drain of the session waits, and no other does;
-- drains belong to this session or an earlier one; a replay is never rebased again; and a save that
-- is pending has a drain that will take it.
pub record IsSerial (w : World) : Type 0 where
  pub bounded : All (λ d. generation_of d ≤ w.state.generation) w.drains
  pub first_tries : All IsFirstTry w.drains
  pub one : live w.state.generation w.drains ≡ flag w.state.layout_save_in_flight
  pub taken : w.state.layout_save_in_flight ≡ false → w.state.pending_layout_save ≡ none

live-append : (gen : ℕ) (xs ys : List Drain) → live gen (xs ++ ys) ≡ live gen xs + live gen ys
live-append gen [] ys = omega arith
live-append gen (x ∷ xs) ys = omega (arith, live-append gen xs ys)

-- No drain belongs to a session that is still to come.
live_later : (gen : ℕ) (xs : List Drain) → All (λ d. generation_of d < gen) xs → live gen xs ≡ 0
live_later gen [] h = refl
live_later gen (x ∷ xs) (p, h) = ground (arith, live_later gen xs h)

All-split {κ} :
    (P : Drain → Type κ) (before after : List Drain) (d : Drain)
    → All P (before ++ (d ∷ after))
    → All P before × P d × All P after
All-split P [] after d h = (tt, h.0, h.1)
All-split P (x ∷ xs) after d (p, h) = let (b, q, a) = All-split P xs after d h in ((p, b), q, a)

settled_count :
    (before after : List Drain) (d : Drain) (s : State) (r : State × List Drain)
    → live s.generation (before ++ (d ∷ after)) ≡ flag s.layout_save_in_flight
    → Continues (generation_of d) s r
    → live s.generation (before ++ (r.1 ++ after)) ≡ flag r.0.layout_save_in_flight
settled_count before after d s r h c = elim (Bool-cases (generation_of d == s.generation)) [
  | inl e ↦ ground (
    arith,
    c.ours (ground arith),
    live-append s.generation before (d ∷ after),
    live-append s.generation before (r.1 ++ after),
    live-append s.generation r.1 after,
  )
  | inr e ↦ ground (
    arith,
    c.stale (ground arith),
    c.stale_flag (ground arith),
    live-append s.generation before (d ∷ after),
    live-append s.generation before (r.1 ++ after),
    live-append s.generation r.1 after,
  )
]

settled_taken :
    (before after : List Drain) (d : Drain) (s : State) (r : State × List Drain)
    → live s.generation (before ++ (d ∷ after)) ≡ flag s.layout_save_in_flight
    → (s.layout_save_in_flight ≡ false → s.pending_layout_save ≡ none)
    → Continues (generation_of d) s r
    → r.0.layout_save_in_flight ≡ false
    → r.0.pending_layout_save ≡ none
settled_taken before after d s r h k c f = elim (Bool-cases (generation_of d == s.generation)) [
  | inl e ↦
      c.ours_taken (ground arith) (ground (arith, live-append s.generation before (d ∷ after))) f
  | inr e ↦ ground (arith, c.stale_flag (ground arith), c.stale_pending (ground arith))
]

settle-IsSerial :
    (w : World) (before after : List Drain) (d : Drain) (r : State × List Drain)
    → IsSerial w
    → w.drains ≡ before ++ (d ∷ after)
    → Continues (generation_of d) w.state r
    → IsSerial (record { state = r.0; drains = before ++ (r.1 ++ after) })
settle-IsSerial w before after d r v e c =
    let gen = w.state.generation in
    let bs = All-split (λ x. generation_of x ≤ gen) before after d (rw e at v.bounded) in
    let fs = All-split IsFirstTry before after d (rw e at v.first_tries) in
    let count = rw e at v.one in
    record {
      bounded =
          rw c.same
            (All-append _ before (r.1 ++ after) bs.0 (All-append _ r.1 after c.bounded bs.2));
      first_tries =
          All-append IsFirstTry before (r.1 ++ after) fs.0
            (All-append IsFirstTry r.1 after c.first_tries fs.2);
      one = rw c.same (settled_count before after d w.state r count c);
      taken = settled_taken before after d w.state r count v.taken c;
    }

same_world :
    (w' : World) {s : State} {ds : List Drain}
    → w'.state ≡ s
    → w'.drains ≡ ds
    → record { state = s; drains = ds } ≡ w'
same_world w' p q = sym (λ i. record { state = p i; drains = q i })

-- A new drain where none of the session waits.
begun-IsSerial :
    (s : State) (ds : List Drain)
    → All (λ d. generation_of d ≤ s.generation) ds
    → All IsFirstTry ds
    → live s.generation ds ≡ 0
    → s.layout_save_in_flight ≡ true
    → IsSerial
        (record { state = (advance s.generation s).0; drains = ds ++ (advance s.generation s).1 })
begun-IsSerial s ds b t l f =
    let r = advance s.generation s in
    let c = advance-Continues s.generation s (omega arith) in
    record {
      bounded = rw c.same (All-append _ ds r.1 b c.bounded);
      first_tries = All-append IsFirstTry ds r.1 t c.first_tries;
      one = rw c.same (omega (arith, c.ours refl f, live-append s.generation ds r.1));
      taken = λ e. c.ours_taken refl f e;
    }

earlier_all :
    (gen : ℕ) (ds : List Drain)
    → All (λ d. generation_of d ≤ gen) ds
    → All (λ d. generation_of d < suc gen) ds
earlier_all gen ds h = All_imp ds (λ d p. omega arith) h

-- The world after a call that gives a state and new drains.
abbrev after : World → State × List Drain → World
after w r = record { state = r.0; drains = w.drains ++ r.1 }

idle-IsSerial :
    (w : World) (s : State)
    → IsSerial w
    → s.generation ≡ w.state.generation
    → s.layout_save_in_flight ≡ w.state.layout_save_in_flight
    → (s.layout_save_in_flight ≡ false → s.pending_layout_save ≡ none)
    → IsSerial (after w (s, []))
idle-IsSerial w s v g f t = rw append-nil (record {
  bounded = subst (λ n. All (λ d. generation_of d ≤ n) w.drains) (sym g) v.bounded;
  first_tries = v.first_tries;
  one = subst (λ n. live n w.drains ≡ flag s.layout_save_in_flight) (sym g) (ground (arith, v.one));
  taken = t;
})

enqueue-IsSerial :
    (w : World) (pending : PendingLayoutSave)
    → IsSerial w
    → IsSerial (after w (enqueue pending w.state))
unfolding enqueue
enqueue-IsSerial w pending v = elim (Bool-cases w.state.layout_save_in_flight) [
  | inl f ↦
      let s = record (w.state) { pending_layout_save = some pending } in
      let same : (s, []) ≡ enqueue pending w.state = ground arith in
      subst (λ r. IsSerial (after w r)) same
        (idle-IsSerial w s v refl refl (λ e. absurd (ground arith)))
  | inr f ↦
      let s = record (w.state) {
        pending_layout_save = some pending;
        layout_save_in_flight = true;
      } in
      let same : advance s.generation s ≡ enqueue pending w.state = ground arith in
      subst (λ r. IsSerial (after w r)) same
        (begun-IsSerial s w.drains v.bounded v.first_tries (ground (arith, v.one)) refl)
]

saved-IsSerial :
    (w : World) (layout : List LayoutItem) (gesture : Option String)
    → IsSerial w
    → IsSerial (after w (save_layout layout gesture w.state))
unfolding save_layout
saved-IsSerial w layout gesture v = elim (Option-cases w.state.dashboard) [
  | inl e ↦
      let same : (w.state, []) ≡ save_layout layout gesture w.state = ground arith in
      subst (λ r. IsSerial (after w r)) same (idle-IsSerial w w.state v refl refl v.taken)
  | inr (d, e) ↦
      let same : enqueue (request d layout gesture) w.state ≡ save_layout layout gesture w.state =
        ground arith in
      subst (λ r. IsSerial (after w r)) same (enqueue-IsSerial w (request d layout gesture) v)
]

bounded_at :
    {w : World} (before after : List Drain) (d : Drain)
    → IsSerial w
    → w.drains ≡ before ++ (d ∷ after)
    → generation_of d ≤ w.state.generation
bounded_at before after d v e = (All-split _ before after d (rw e at v.bounded)).1

-- Every step of the interleaving keeps the invariant.
Step-IsSerial : {w w' : World} → IsSerial w → Step w w' → IsSerial w'
unfolding reset
Step-IsSerial {w} {w'} v (put_settled before after gen current pending response e p q) =
    subst IsSerial (same_world w' p q) (
      settle-IsSerial w before after (putting gen current pending)
        (resume_put gen current pending response w.state) v e
        (resume_put-Continues gen current pending response w.state
          (bounded_at before after (putting gen current pending) v e)))
Step-IsSerial {w} {w'} v (rebase_settled before after gen current pending server e p q) =
    subst IsSerial (same_world w' p q) (
      settle-IsSerial w before after (rebasing gen current pending)
        (resume_rebase gen current pending server w.state) v e
        (resume_rebase-Continues gen current pending server w.state
          (bounded_at before after (rebasing gen current pending) v e)))
Step-IsSerial {w} {w'} v (asked layout gesture p q) =
    subst IsSerial (same_world w' p q) (saved-IsSerial w layout gesture v)
Step-IsSerial {w} {w'} v (signed_out p q) = subst IsSerial (same_world w' p q) (record {
  bounded = All_imp w.drains (λ d h. omega arith) v.bounded;
  first_tries = v.first_tries;
  one = live_later (suc w.state.generation) w.drains (earlier_all _ w.drains v.bounded);
  taken = λ e. refl;
})
Step-IsSerial {w} {w'} v (visited dashboard conflict toasts p q) =
    subst IsSerial (same_world w' p q)
      (record { bounded = v.bounded; first_tries = v.first_tries; one = v.one; taken = v.taken })

-- Whatever the user does and in whatever order responses arrive, sign-outs included: at most one
-- drain of the session waits, and exactly while the flag is set; no replay is rebased again; and
-- no pending save is left without a drain that takes it.
pub Reach-IsSerial : {w : World} → Reach w → IsSerial w
Reach-IsSerial here = record { bounded = tt; first_tries = tt; one = refl; taken = λ e. refl }
Reach-IsSerial (next r st) = Step-IsSerial (Reach-IsSerial r) st
