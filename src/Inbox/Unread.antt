-- ===== src/Inbox/Unread.antt =====
-- The unread total against the notifications that are held.
use frontdashboard.Prelude.{
  ℕ, ◌+◌, ◌≤◌, ◌≡◌, refl, String, Bool, true, false, not, ◌&&◌, some, List, [], ◌∷◌, str_eq, eq_iff,
  if◌then◌else◌, map, find, arith, str_eq_refl,
}
use frontdashboard.Inbox.{
  Notification, State, holds_id, is_unread, is_unread_found, complete_mark_read, add_from_sse,
  read_now,
}

-- How many of the held notifications are unread.
abbrev pub unread : List Notification → ℕ
unread [] = 0
unread (n ∷ ns) = (if is_unread n then 1 else 0) + unread ns

-- No notification is held twice.
abbrev pub is_distinct : List Notification → Bool
is_distinct [] = true
is_distinct (n ∷ ns) = not (holds_id n.id ns) && is_distinct ns

replace_absent :
    (id : String) (updated : Notification) (ns : List Notification)
    → holds_id id ns ≡ false
    → map (λ n. if str_eq n.id id then updated else n) ns ≡ ns
replace_absent id updated [] h = refl
replace_absent id updated (n ∷ ns) h = ground (arith, replace_absent id updated ns)

-- Replacing an unread notification by a read one takes one from the count, and nothing else does.
unread-replace :
    (id : String) (updated : Notification) (ns : List Notification)
    → is_distinct ns ≡ true
    → is_unread updated ≡ false
    → unread ns
      ≡ unread (map (λ n. if str_eq n.id id then updated else n) ns)
        + (if is_unread_found (find (λ n. str_eq n.id id) ns) then 1 else 0)
unread-replace id updated [] d r = refl
unread-replace id updated (n ∷ ns) d r =
    ground (arith, unread-replace id updated ns, replace_absent id updated ns, eq_iff n.id id)

-- The total covers the unread ones that are held.
abbrev pub Covers : State → Type 0
Covers s = unread s.notifications ≤ s.unread_count

-- Where no notification is held twice, the total is at least the held unread ones and the server
-- answers with the notification read: a marking changes the total and the held unread ones alike,
-- so how many unread ones lie beyond what is held is left as it was.
pub mark_read-beyond :
    (s : State) (id : String) (updated : Notification)
    → is_distinct s.notifications ≡ true
    → Covers s
    → is_unread updated ≡ false
    → Covers (complete_mark_read s.generation id (some updated) s)
      × ((complete_mark_read s.generation id (some updated) s).unread_count + unread s.notifications
          ≡ unread (complete_mark_read s.generation id (some updated) s).notifications
            + s.unread_count)
unfolding complete_mark_read
mark_read-beyond s id updated d c r = (
  ground (arith, unread-replace id updated s.notifications d r),
  ground (arith, unread-replace id updated s.notifications d r),
)

-- A live notification is added once, and the total grows with it exactly if it is unread.
pub add_from_sse-unread :
    (s : State) (notif : Notification)
    → (unread (add_from_sse notif s).notifications + s.unread_count
        ≡ unread s.notifications + (add_from_sse notif s).unread_count)
      × (holds_id notif.id (add_from_sse notif s).notifications ≡ true)
      × (add_from_sse notif (add_from_sse notif s) ≡ add_from_sse notif s)
unfolding add_from_sse
add_from_sse-unread s notif =
    (ground arith, ground (arith, str_eq_refl notif.id), ground (arith, str_eq_refl notif.id))

unread-read_now : (now : String) (ns : List Notification) → unread (map (read_now now) ns) ≡ 0
unread-read_now now [] = refl
unread-read_now now (n ∷ ns) = ground (arith, unread-read_now now ns)
