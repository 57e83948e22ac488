-- ===== src/Inbox/Distinct.antt =====
-- No notification is shown twice.
use frontdashboard.Prelude.{
  ℕ, ◌≡◌, refl, String, Bool, true, false, not, Option, none, some, List, [], ◌∷◌, ◌++◌, str_eq,
  eq_iff, if◌then◌else◌, map, filter, all, arith, any-append, str_eq_refl,
}
use frontdashboard.Inbox.{
  Notification, Page, State, holds_id, complete_load, complete_load_more, complete_mark_read,
  complete_mark_all_read, add_from_sse, read_now, reset,
}
use frontdashboard.Inbox.Unread.{is_distinct}

holds_id-filter :
    (id : String) (known page : List Notification)
    → holds_id id page ≡ false
    → holds_id id (filter (λ n. not (holds_id n.id known)) page) ≡ false
holds_id-filter id known [] h = refl
holds_id-filter id known (n ∷ ns) h = ground (arith, holds_id-filter id known ns)

filter-is_distinct :
    (known page : List Notification)
    → is_distinct page ≡ true
    → is_distinct (filter (λ n. not (holds_id n.id known)) page) ≡ true
filter-is_distinct known [] h = refl
filter-is_distinct known (n ∷ ns) h =
    ground (arith, holds_id-filter n.id known ns, filter-is_distinct known ns)

-- A notification that is known is not in the rest of the page.
filter_lacks :
    (n : Notification) (known page : List Notification)
    → holds_id n.id known ≡ true
    → holds_id n.id (filter (λ m. not (holds_id m.id known)) page) ≡ false
filter_lacks n known [] h = refl
filter_lacks n known (m ∷ ms) h = ground (arith, filter_lacks n known ms h, eq_iff m.id n.id)

all_grow :
    (n : Notification) (known xs : List Notification)
    → all (λ x. holds_id x.id known) xs ≡ true
    → all (λ x. holds_id x.id (n ∷ known)) xs ≡ true
all_grow n known [] h = refl
all_grow n known (x ∷ xs) h = ground (arith, all_grow n known xs)

all_self : (known : List Notification) → all (λ x. holds_id x.id known) known ≡ true
all_self [] = refl
all_self (n ∷ ns) = ground (arith, all_grow n ns ns (all_self ns), str_eq_refl n.id)

append-is_distinct :
    (known page xs : List Notification)
    → is_distinct xs ≡ true
    → is_distinct page ≡ true
    → all (λ x. holds_id x.id known) xs ≡ true
    → is_distinct (xs ++ filter (λ n. not (holds_id n.id known)) page) ≡ true
append-is_distinct known page [] d p h = filter-is_distinct known page p
append-is_distinct known page (x ∷ xs) d p h = ground (
  arith,
  append-is_distinct known page xs,
  any-append (λ n. str_eq n.id x.id) xs (filter (λ n. not (holds_id n.id known)) page),
  filter_lacks x known page,
)

holds_id-replace :
    (k id : String) (updated : Notification) (ns : List Notification)
    → updated.id ≡ id
    → holds_id k (map (λ n. if str_eq n.id id then updated else n) ns) ≡ holds_id k ns
holds_id-replace k id updated [] e = refl
holds_id-replace k id updated (n ∷ ns) e =
    ground (arith, holds_id-replace k id updated ns e, eq_iff n.id id)

replace-is_distinct :
    (id : String) (updated : Notification) (ns : List Notification)
    → updated.id ≡ id
    → is_distinct (map (λ n. if str_eq n.id id then updated else n) ns) ≡ is_distinct ns
replace-is_distinct id updated [] e = refl
replace-is_distinct id updated (n ∷ ns) e = ground (
  arith,
  replace-is_distinct id updated ns e,
  holds_id-replace n.id id updated ns e,
  eq_iff n.id id,
)

holds_id-read_now :
    (k now : String) (ns : List Notification) → holds_id k (map (read_now now) ns) ≡ holds_id k ns
holds_id-read_now k now [] = refl
holds_id-read_now k now (n ∷ ns) = ground (arith, holds_id-read_now k now ns)

read_now-is_distinct :
    (now : String) (ns : List Notification) → is_distinct (map (read_now now) ns) ≡ is_distinct ns
read_now-is_distinct now [] = refl
read_now-is_distinct now (n ∷ ns) =
    ground (arith, read_now-is_distinct now ns, holds_id-read_now n.id now ns)

-- Everything that writes the list of notifications, with the generation of its request.
pub data Event : Type 0 where
  loaded : ℕ → Option Page → Event
  more_loaded : ℕ → Option Page → Event
  marked_read : ℕ → String → Option Notification → Event
  all_marked_read : ℕ → String → Bool → Event
  arrived : Notification → Event
  signed_out : Event

abbrev pub handle : Event → State → State
handle (loaded gen page) s = complete_load gen page s
handle (more_loaded gen page) s = complete_load_more gen page s
handle (marked_read gen id updated) s = complete_mark_read gen id updated s
handle (all_marked_read gen now done) s = complete_mark_all_read gen now done s
handle (arrived notif) s = add_from_sse notif s
handle signed_out s = reset s

-- What the server promises of its responses: a page repeats no notification, and the answer to a
-- read mark is the notification that was marked.
abbrev pub IsAnswer : Event → Type 0
IsAnswer (loaded gen (some page)) = is_distinct page.items ≡ true
IsAnswer (more_loaded gen (some page)) = is_distinct page.items ≡ true
IsAnswer (marked_read gen id (some updated)) = updated.id ≡ id
IsAnswer _ = Unit

-- Where no notification is held twice and no page of the server has one twice, none is held twice
-- after any call or response: not one that moved between pages, not one that the stream sent too.
pub handle-is_distinct :
    (event : Event) (s : State)
    → IsAnswer event
    → is_distinct s.notifications ≡ true
    → is_distinct (handle event s).notifications ≡ true
unfolding complete_load complete_load_more complete_mark_read complete_mark_all_read add_from_sse
    reset
handle-is_distinct (loaded gen (some page)) s a d = ground arith
handle-is_distinct (loaded gen none) s a d = ground arith
handle-is_distinct (more_loaded gen (some page)) s a d = ground (
  arith,
  append-is_distinct s.notifications page.items s.notifications d a (all_self s.notifications),
)
handle-is_distinct (more_loaded gen none) s a d = ground arith
handle-is_distinct (marked_read gen id (some updated)) s a d =
    ground (arith, replace-is_distinct id updated s.notifications a)
handle-is_distinct (marked_read gen id none) s a d = d
handle-is_distinct (all_marked_read gen now true) s a d =
    ground (arith, read_now-is_distinct now s.notifications)
handle-is_distinct (all_marked_read gen now false) s a d = d
handle-is_distinct (arrived notif) s a d = ground arith
handle-is_distinct signed_out s a d = refl
