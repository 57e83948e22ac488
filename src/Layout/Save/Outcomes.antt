-- ===== src/Layout/Save/Outcomes.antt =====
-- What the responses of a layout save lead to.
use frontdashboard.Prelude.{
  ◌≡◌, String, true, false, Option, none, some, List, [], ◌∷◌, arith, eq_iff,
}
use frontdashboard.DashboardTypes.{Dashboard, LayoutItem}
use frontdashboard.Layout.Rebase.{merge_layout}
use frontdashboard.Layout.Save.{
  State, putting, rebasing, PendingLayoutSave, saved, conflicted, save_layout, resume_put,
  resume_rebase, request,
}

-- The board held after a re-read, and the save that is then sent.
abbrev pub based : Dashboard → Dashboard → Dashboard
based held server = record held { version = server.version }

abbrev pub replay : PendingLayoutSave → Dashboard → PendingLayoutSave
replay pending server = record {
  dashboard_id = pending.dashboard_id;
  layout = merge_layout pending.layout server.layout;
  gesture = pending.gesture;
  retried = true;
}

module _ (s : State) (current held server : Dashboard) (pending : PendingLayoutSave)
    (first : pending.retried ≡ false) (idle : s.pending_layout_save ≡ none)
    (shown : s.dashboard ≡ some held) (same_board : held.id ≡ pending.dashboard_id) where
  -- The state once the server's layout has been read again.
  abbrev pub rebased : State
  rebased = record s { dashboard = some (based held server) }

  -- For a save of the open board that is no replay, with no newer one waiting: a first conflict
  -- re-reads the dashboard; the merged layout is then sent with the version that was read; a second
  -- conflict sends nothing more and reports the conflict.
  pub two_conflicts :
      (resume_put s.generation current pending conflicted s
        ≡ (s, rebasing s.generation current pending ∷ []))
      × (resume_rebase s.generation current pending (some server) s
          ≡ (rebased, putting s.generation (based held server) (replay pending server) ∷ []))
      × (resume_put s.generation (based held server) (replay pending server) conflicted rebased
          ≡ (record rebased { layout_save_in_flight = false; conflict = true }, []))
  unfolding resume_put resume_rebase
  two_conflicts = (ground arith, ground (arith, eq_iff held.id pending.dashboard_id), ground arith)

-- A save asked for while another is in flight waits; when that one succeeds, with the answered
-- board still open, the waiting layout, the newest, is sent on the version that the server answered.
pub newest_sent :
    (s : State) (current held result : Dashboard) (pending : PendingLayoutSave)
    (layout : List LayoutItem) (gesture : Option String)
    → s.layout_save_in_flight ≡ true
    → s.dashboard ≡ some held
    → result.id ≡ held.id
    → (save_layout layout gesture s).1 ≡ []
      × (resume_put s.generation current pending (saved result) (save_layout layout gesture s).0).1
        ≡ putting s.generation
            (record result { widgets = held.widgets })
            (request held layout gesture)
          ∷ []
unfolding save_layout resume_put
newest_sent s current held result pending layout gesture f e i =
    (ground arith, ground (arith, eq_iff result.id held.id))
