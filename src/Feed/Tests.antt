-- ===== src/Feed/Tests.antt =====
-- Runs of the feed's rows and sentences, and its theorem at a concrete input.
use frontdashboard.Prelude.{
  ℕ, ◌≡◌, refl, String, Bool, Option, none, some, List, [], ◌∷◌, map, length, All, str_eq,
  if◌then◌else◌,
}
use frontdashboard.Feed.{text, texts, FeedEvent, group_activity_events}
use frontdashboard.Feed.Runs.{runs, IsCounted, group_activity_events-eq-runs}
use frontdashboard.Feed.Sentences.{format_activity_event, format_activity_group}

abbrev blank : String → Bool
blank s = str_eq s ""

-- Instants written as one letter, a minute or ten apart.
abbrev parse : String → Option ℕ
parse s = if str_eq s "a" then some 900000 else if str_eq s "b" then some 840000 else some 240000

abbrev same : String → String
same s = s

abbrev ticked : String → String → FeedEvent
ticked id at_ = record {
  event_type = "list.item.checked";
  entity_id = id;
  created_at = at_;
  payload = ("list_id", text "l") ∷ ("list_name", text "Shopping") ∷ ("text", text id) ∷ [];
}

abbrev feed : List FeedEvent
feed = ticked "milk" "a" ∷ ticked "bread" "b" ∷ ticked "eggs" "c" ∷ []

two_rows :
    map {B = ℕ × ℕ} (λ g. (length g.members, g.entities)) (group_activity_events blank parse feed)
    ≡ (2, 2) ∷ (1, 1) ∷ []
unfolding group_activity_events
two_rows = refl

boxes :
    map
      (λ g. (format_activity_group blank (λ day. none) same same same g).summary)
      (group_activity_events blank parse feed)
    ≡ "You updated checkboxes in \"Shopping\"." ∷ "You checked \"eggs\" in \"Shopping\"." ∷ []
unfolding group_activity_events format_activity_group
boxes = refl

renamed :
    (format_activity_event blank
      (λ day. none)
      same
      same
      same
      (record {
        event_type = "dashboard.updated";
        entity_id = "d";
        created_at = "a";
        payload = ("name", text "Home") ∷ ("changed_fields", texts ("name" ∷ [])) ∷ [];
      })).summary
    ≡ "You renamed \"Home\"."
unfolding format_activity_event
renamed = refl

group_activity_events-eq-runs_example :
    (map (λ g. g.members) (group_activity_events blank parse feed) ≡ runs blank parse feed)
    × All (IsCounted blank parse) (group_activity_events blank parse feed)
group_activity_events-eq-runs_example = group_activity_events-eq-runs blank parse feed
