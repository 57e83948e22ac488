-- ===== src/Layout/Save/Continues.antt =====
-- What a resumed drain does to the state, to the flag and to the drains of its session.
use frontdashboard.Prelude.{
  ℕ, ◌≤◌, ◌≡◌, ◌≢◌, refl, inl, inr, Bool, true, false, Option, none, List, if◌then◌else◌, All,
  arith, ◌⊎◌,
}
use frontdashboard.DashboardTypes.{Dashboard}
use frontdashboard.Layout.Save.{
  State, Drain, putting, rebasing, PendingLayoutSave, PutResponse, saved, conflicted, failed,
  finish, advance, resume_put, resume_rebase,
}
use frontdashboard.Layout.Save.World.{generation_of, live}

-- A replay is never rebased a second time.
abbrev pub IsFirstTry : Drain → Type 0
IsFirstTry (putting _ _ _) = Unit
IsFirstTry (rebasing _ _ pending) = pending.retried ≡ false

abbrev pub flag : Bool → ℕ
flag b = if b then 1 else 0

-- What a resumed drain of the generation does to the state and to the drains.
pub record Continues (gen : ℕ) (s : State) (r : State × List Drain) : Type 0 where
  pub same : r.0.generation ≡ s.generation
  pub bounded : All (λ d. generation_of d ≤ s.generation) r.1
  pub first_tries : All IsFirstTry r.1
  pub ours :
      gen ≡ s.generation
      → s.layout_save_in_flight ≡ true
      → live s.generation r.1 ≡ flag r.0.layout_save_in_flight
  pub ours_taken :
      gen ≡ s.generation
      → s.layout_save_in_flight ≡ true
      → r.0.layout_save_in_flight ≡ false
      → r.0.pending_layout_save ≡ none
  pub stale : gen ≢ s.generation → live s.generation r.1 ≡ 0
  pub stale_flag : gen ≢ s.generation → r.0.layout_save_in_flight ≡ s.layout_save_in_flight
  pub stale_pending :
      gen ≢ s.generation
      → (r.0.pending_layout_save ≡ s.pending_layout_save) ⊎ (r.0.pending_layout_save ≡ none)

pub finish-Continues :
    (gen : ℕ) (s : State)
    → gen ≤ s.generation
    → (gen ≡ s.generation → s.pending_layout_save ≡ none)
    → Continues gen s (finish gen s)
unfolding finish
finish-Continues gen s h p = record {
  same = refl;
  bounded = tt;
  first_tries = tt;
  ours = λ e o. ground arith;
  ours_taken = λ e o f. p e;
  stale = λ e. refl;
  stale_flag = λ e. ground arith;
  stale_pending = λ e. inl refl;
}

pub advance-Continues : (gen : ℕ) (s : State) → gen ≤ s.generation → Continues gen s (advance gen s)
unfolding advance
advance-Continues gen s h = record {
  same = ground arith;
  bounded = ground arith;
  first_tries = ground arith;
  ours = λ e o. ground arith;
  ours_taken = λ e o f. ground arith;
  stale = λ e. ground arith;
  stale_flag = λ e. ground arith;
  stale_pending = λ e. ground arith;
}

pub resume_put-Continues :
    (gen : ℕ) (current : Dashboard) (pending : PendingLayoutSave) (response : PutResponse)
    (s : State)
    → gen ≤ s.generation
    → Continues gen s (resume_put gen current pending response s)
unfolding resume_put
resume_put-Continues gen current pending failed s h = record {
  same = refl;
  bounded = tt;
  first_tries = tt;
  ours = λ e o. ground arith;
  ours_taken = λ e o f. refl;
  stale = λ e. refl;
  stale_flag = λ e. ground arith;
  stale_pending = λ e. inr refl;
}
resume_put-Continues gen current pending conflicted s h = record {
  same = ground arith;
  bounded = ground arith;
  first_tries = ground arith;
  ours = λ e o. ground arith;
  ours_taken = λ e o f. ground arith;
  stale = λ e. ground arith;
  stale_flag = λ e. ground arith;
  stale_pending = λ e. ground arith;
}
resume_put-Continues gen current pending (saved result) s h = record {
  same = ground arith;
  bounded = ground arith;
  first_tries = ground arith;
  ours = λ e o. ground arith;
  ours_taken = λ e o f. ground arith;
  stale = λ e. ground arith;
  stale_flag = λ e. ground arith;
  stale_pending = λ e. ground arith;
}

pub resume_rebase-Continues :
    (gen : ℕ) (current : Dashboard) (pending : PendingLayoutSave) (server : Option Dashboard)
    (s : State)
    → gen ≤ s.generation
    → Continues gen s (resume_rebase gen current pending server s)
unfolding resume_rebase
resume_rebase-Continues gen current pending server s h = record {
  same = ground arith;
  bounded = ground arith;
  first_tries = ground arith;
  ours = λ e o. ground arith;
  ours_taken = λ e o f. ground arith;
  stale = λ e. ground arith;
  stale_flag = λ e. ground arith;
  stale_pending = λ e. ground arith;
}
