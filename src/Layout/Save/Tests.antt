-- ===== src/Layout/Save/Tests.antt =====
-- Runs of the layout saves, and their theorems at concrete inputs.
use frontdashboard.Prelude.{ℕ, ◌≡◌, refl, true, false, some, none, List, [], ◌∷◌, String}
use frontdashboard.DashboardTypes.{Dashboard, LayoutItem}
use frontdashboard.Layout.Rebase.{merge_layout}
use frontdashboard.Layout.Rebase.Laws.{item_of, item_of-merge_layout, first_some}
use frontdashboard.Layout.Save.{
  State, putting, rebasing, PendingLayoutSave, saved, conflicted, failed, save_layout, resume_put,
  resume_rebase, request, reset,
}
use frontdashboard.Layout.Save.World.{
  World, at_rest, visited, asked, put_settled, Reach, here, next,
}
use frontdashboard.Layout.Save.Serial.{IsSerial, Reach-IsSerial}
use frontdashboard.Layout.Save.Outcomes.{based, replay, two_conflicts}
use frontdashboard.Layout.Save.Stale.{
  at_rest_on, saved_twice, late_failure_lem, saved_over_other_board,
}

abbrev at : String → ℕ → LayoutItem
at i x = record { i = i; x = x; y = 0; w = 1; h = 1 }

abbrev board : String → ℕ → List LayoutItem → Dashboard
board id version layout = record {
  id = id;
  name = "Home";
  user_id = "u";
  version = version;
  is_favorite = false;
  is_shared = false;
  can_edit = true;
  can_manage_shares = true;
  layout = layout;
  widgets = [];
}

abbrev home : Dashboard
home = board "a" 3 (at "w1" 0 ∷ [])

abbrev other : Dashboard
other = board "b" 1 []

-- The other editor moved w1 and added w2.
abbrev theirs : Dashboard
theirs = board "a" 4 (at "w1" 5 ∷ at "w2" 6 ∷ [])

abbrev viewing : Dashboard → State
viewing d = record {
  generation = 1;
  layout_save_in_flight = true;
  pending_layout_save = none;
  dashboard = some d;
  conflict = false;
  toasts = [];
}

abbrev drag : PendingLayoutSave
drag = request home (at "w1" 2 ∷ []) none

runs :
    (merge_layout drag.layout theirs.layout ≡ at "w1" 2 ∷ at "w2" 6 ∷ [])
    × (save_layout drag.layout none (record (viewing home) { layout_save_in_flight = false })
        ≡ (viewing home, putting 1 home drag ∷ []))
unfolding merge_layout save_layout
runs = (refl, refl)

item_of-merge_layout_example :
    item_of "w1" (merge_layout drag.layout theirs.layout)
    ≡ first_some (item_of "w1" drag.layout) (item_of "w1" theirs.layout)
item_of-merge_layout_example = item_of-merge_layout "w1" drag.layout theirs.layout refl

-- The board is opened, a drag is saved, and a second drag waits while the PUT is out.
abbrev opened : World
opened = record { state = record (at_rest.state) { dashboard = some home }; drains = [] }

abbrev dragged : World
dragged = record {
  state = record (opened.state) { layout_save_in_flight = true };
  drains = putting 0 home drag ∷ [];
}

abbrev dragged_twice : World
dragged_twice = record {
  state = record (dragged.state) { pending_layout_save = some drag };
  drains = dragged.drains;
}

-- The first PUT is answered, and the second drag is sent.
abbrev sent_again : World
sent_again = record {
  state = record (dragged.state) { dashboard = some (record theirs { widgets = [] }) };
  drains = putting 0 (record theirs { widgets = [] }) drag ∷ [];
}

sent_again-Reach : Reach sent_again
unfolding save_layout resume_put
sent_again-Reach =
    next
      (next
        (next (next here (visited (some home) false [] refl refl))
          (asked drag.layout none {w' = dragged} refl refl))
        (asked drag.layout none {w' = dragged_twice} refl refl))
      (put_settled [] [] 0 home drag (saved theirs) refl refl refl)

Reach-IsSerial_example : IsSerial sent_again
Reach-IsSerial_example = Reach-IsSerial sent_again-Reach

two_conflicts_example :
    (resume_put 1 home drag conflicted (viewing home) ≡ (viewing home, rebasing 1 home drag ∷ []))
    × (resume_rebase 1 home drag (some theirs) (viewing home)
        ≡ (viewing (based home theirs), putting 1 (based home theirs) (replay drag theirs) ∷ []))
    × (resume_put 1
          (based home theirs)
          (replay drag theirs)
          conflicted
          (viewing (based home theirs))
        ≡ (
          record (viewing (based home theirs)) { layout_save_in_flight = false; conflict = true },
          [],
        ))
two_conflicts_example = two_conflicts (viewing home) home home theirs drag refl refl refl refl

-- The session that follows opens the other board; the drag of before was on the first one.
late_failure_lem_example :
    let waiting = saved_twice (viewing home) other drag.layout [] in
    let lost = (resume_put 1 home drag failed waiting).0 in
    (resume_put 1 home drag (saved theirs) waiting ≡ (waiting, []))
    × (resume_put 1 home drag conflicted waiting ≡ (waiting, []))
    × ((resume_put 2 other (request other drag.layout none) (saved other) waiting).1
        ≡ putting 2 other (request other [] none) ∷ [])
    × (lost.toasts ≡ "Failed to save layout." ∷ [])
    × ((resume_put 2 other (request other drag.layout none) (saved other) lost).1 ≡ [])
unfolding reset save_layout
late_failure_lem_example =
    late_failure_lem (viewing home) home other other drag drag.layout [] theirs refl

saved_over_other_board_example :
    let (sending, drains) = save_layout drag.layout none (at_rest_on home (viewing home)) in
    let opened_ = record sending { dashboard = some other } in
    let late = (resume_put 1 home drag (saved theirs) opened_).0 in
    (drains ≡ putting 1 home drag ∷ [])
    × (late.dashboard ≡ some theirs)
    × ((save_layout [] none late).1 ≡ putting 1 theirs (request theirs [] none) ∷ [])
saved_over_other_board_example =
    saved_over_other_board (viewing home) home other theirs drag.layout []
