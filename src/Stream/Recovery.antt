-- ===== src/Stream/Recovery.antt =====
-- The stream over time: what a closed stream leads to, and what is missed meanwhile.
use frontdashboard.Prelude.{
  ℕ, suc, ◌≡◌, refl, sym, ap, ◌∙◌, String, Bool, true, false, not, ◌||◌, Option, none, some, [],
  if◌then◌else◌, is_some, arith, Bool-cases, Option-cases, inl, inr,
}
use frontdashboard.Prelude.Dict.{get}
use frontdashboard.Sse.{SseEvent}
use frontdashboard.Stream.{
  reconnecting, Source, Stream, ResyncFrame, unmounted, event_routes, is_closed, offers,
  open_stream, on_error, on_timer, on_visible, on_connected, on_resync, on_activity_frame,
  resync_calls,
}

abbrev lost_source : Option Source → Option Source
lost_source none = none
lost_source (some source) = some (record source { closed = true })

-- What can happen to the stream. A browser closes a stream for good, may do so without an error, and
-- delivers nothing on a closed one.
pub data StreamStep (client : String) (shown loaded : Bool) (s : Stream) : Stream → Type 0 where
  user_changed : (user : Option String) → StreamStep client shown loaded s (open_stream user s)
  failed :
      (closed : Bool)
      → (is_closed s.source ≡ true → closed ≡ true)
      → StreamStep client shown loaded s (on_error closed s)
  ran_out : StreamStep client shown loaded s (on_timer s).0
  looked_at : StreamStep client shown loaded s (on_visible s)
  lost : StreamStep client shown loaded s (record s { source = lost_source s.source })
  greeted :
      (head : Option ℕ)
      → is_closed s.source ≡ false
      → StreamStep client shown loaded s (on_connected shown loaded head s).0
  framed :
      (name : String) (e : Option SseEvent)
      → is_closed s.source ≡ false
      → StreamStep client shown loaded s (on_activity_frame client name e s).0
  resynced :
      (f : Option ResyncFrame)
      → is_closed s.source ≡ false
      → StreamStep client shown loaded s (on_resync shown loaded f s).0

pub data StreamReach (client : String) (shown loaded : Bool) : Stream → Type 0 where
  mounted : StreamReach client shown loaded unmounted
  then_ :
      {s s' : Stream}
      → StreamReach client shown loaded s
      → StreamStep client shown loaded s s'
      → StreamReach client shown loaded s'

-- There is a stream exactly for a user, and a reconnect is scheduled only while the stream is closed
-- and shown as reconnecting.
pub record IsSound (s : Stream) : Type 0 where
  pub streams : is_some s.source ≡ is_some s.user
  pub waits : is_some s.timer ≡ true → (is_closed s.source ≡ true) × (s.status ≡ reconnecting)

open_stream-IsSound : (user : Option String) (s : Stream) → IsSound (open_stream user s)
unfolding open_stream
open_stream-IsSound none s = record { streams = refl; waits = λ t. absurd (cc) }
open_stream-IsSound (some user) s = record { streams = refl; waits = λ t. absurd (cc) }

on_error-IsSound :
    (closed : Bool) (s : Stream)
    → (is_closed s.source ≡ true → closed ≡ true)
    → IsSound s
    → IsSound (on_error closed s)
unfolding on_error
on_error-IsSound closed s c v = elim (Option-cases s.source) [
  | inl e ↦ rw (on_error, e) v
  | inr (source, e) ↦
      let signed : true ≡ is_some s.user = sym (ap is_some e) ∙ v.streams in
      elim (Bool-cases (not closed || is_some s.timer)) [
        | inl t ↦
            rw (on_error, e, t)
              (record { streams = signed; waits = λ w. (c ((v.waits w).0), refl) })
        | inr t ↦
            rw (on_error, e, t) (record { streams = signed; waits = λ w. (ground arith, refl) })
      ]
]

on_timer-IsSound : (s : Stream) → IsSound s → IsSound (on_timer s).0
unfolding on_timer
on_timer-IsSound s v = elim (Option-cases s.timer) [
  | inl e ↦ rw (on_timer, e) v
  | inr (attempt, e) ↦ rw (on_timer, e) (open_stream-IsSound s.user _)
]

on_visible-IsSound : (s : Stream) → IsSound s → IsSound (on_visible s)
unfolding on_visible
on_visible-IsSound s v = elim (Option-cases s.source) [
  | inl e ↦ rw (on_visible, e) v
  | inr (source, e) ↦ elim (Bool-cases (not source.closed || is_some s.timer)) [
    | inl t ↦ rw (on_visible, e, t) v
    | inr t ↦ rw (on_visible, e, t) (open_stream-IsSound s.user _)
  ]
]

lost-IsSound : (s : Stream) → IsSound s → IsSound (record s { source = lost_source s.source })
lost-IsSound s v = elim (Option-cases s.source) [
  | inl e ↦ rw e (record {
    streams = sym (ap is_some e) ∙ v.streams;
    waits = λ w. absurd (let c = (v.waits w).0 in let d = ap is_closed e in cc);
  })
  | inr (source, e) ↦
      rw e (record { streams = sym (ap is_some e) ∙ v.streams; waits = λ w. (refl, (v.waits w).1) })
]

-- Nothing is delivered while a reconnect is scheduled.
no_timer : (s : Stream) → IsSound s → is_closed s.source ≡ false → is_some s.timer ≡ false
no_timer s v o = elim (Bool-cases (is_some s.timer)) [
  | inl t ↦ absurd (let c = (v.waits t).0 in cc)
  | inr t ↦ t
]

on_error-closed :
    (s : Stream) (source : Source)
    → s.source ≡ some source
    → is_some s.timer ≡ false
    → on_error true s ≡ record s {
      source = some (record source { closed = true });
      status = reconnecting;
      attempts = suc s.attempts;
      timer = some s.attempts;
    }
unfolding on_error
on_error-closed s source e t = rw (on_error, e, t) refl

module _ (client : String) (shown loaded : Bool) where
  step-IsSound : {s s' : Stream} → IsSound s → StreamStep client shown loaded s s' → IsSound s'
  unfolding on_connected on_activity_frame on_resync
  step-IsSound {s} v (user_changed user) = open_stream-IsSound user s
  step-IsSound {s} v (failed closed c) = on_error-IsSound closed s c v
  step-IsSound {s} v ran_out = on_timer-IsSound s v
  step-IsSound {s} v looked_at = on_visible-IsSound s v
  step-IsSound {s} v lost = lost-IsSound s v
  step-IsSound {s} v (greeted head o) =
      let t = no_timer s v o in record { streams = v.streams; waits = λ w. absurd (cc) }
  step-IsSound {s} v (framed name none o) = v
  step-IsSound {s} v (framed name (some e) o) = elim (Option-cases (get name event_routes)) [
    | inl r ↦ rw (on_activity_frame, r) v
    | inr (route, r) ↦ rw (on_activity_frame, r) (record { streams = v.streams; waits = v.waits })
  ]
  step-IsSound {s} v (resynced none o) = v
  step-IsSound {s} v (resynced (some f) o) = record { streams = v.streams; waits = v.waits }

  -- Whatever happens to the stream: there is one exactly while a user is signed in, and a reconnect
  -- is scheduled only while the stream is closed and shown as reconnecting.
  pub StreamReach-IsSound : {s : Stream} → StreamReach client shown loaded s → IsSound s
  StreamReach-IsSound mounted = record { streams = refl; waits = λ w. absurd (cc) }
  StreamReach-IsSound (then_ r step) = step-IsSound (StreamReach-IsSound r) step

  -- The timer runs out, or the effect runs for another user.
  abbrev pub ends_wait : {s s' : Stream} → StreamStep client shown loaded s s' → Bool
  ends_wait (user_changed user) = true
  ends_wait (failed closed c) = false
  ends_wait ran_out = true
  ends_wait looked_at = false
  ends_wait lost = false
  ends_wait (greeted head o) = false
  ends_wait (framed name e o) = false
  ends_wait (resynced f o) = false

  -- The scheduled reconnect and the stream that it is for are as before.
  abbrev pub SameWait : Stream → Stream → Type 0
  SameWait s s' =
      (s'.timer ≡ s.timer)
      × (s'.attempts ≡ s.attempts)
      × (s'.source ≡ s.source)
      × (s'.status ≡ s.status)

  shut_source : (source : Option Source) → is_closed source ≡ true → lost_source source ≡ source
  shut_source none c = absurd (cc)
  shut_source (some source) c = rw c refl

  closed-is_some : (source : Option Source) → is_closed source ≡ true → is_some source ≡ true
  closed-is_some none c = absurd (cc)
  closed-is_some (some source) c = refl

  step-SameWait :
      {s s' : Stream}
      → IsSound s
      → is_some s.timer ≡ true
      → (step : StreamStep client shown loaded s s') → ends_wait step ≡ false
      → SameWait s s'
  unfolding on_error on_visible
  step-SameWait v w (user_changed user) h = absurd (cc)
  step-SameWait {s} v w (failed closed c) h = elim (Option-cases s.source) [
    | inl e ↦ absurd (let d = (v.waits w).0 in let f = ap is_closed e in cc)
    | inr (source, e) ↦
        let (shut, degraded) = v.waits w in
        let test : (not closed || is_some s.timer) ≡ true = ground (arith, w) in
        rw (on_error, e, test)
          (
            refl,
            refl,
            ap (λ b. some (record source { closed = b })) (c shut ∙ sym shut ∙ ap is_closed e),
            sym degraded,
          )
  ]
  step-SameWait v w ran_out h = absurd (cc)
  step-SameWait {s} v w looked_at h = elim (Option-cases s.source) [
    | inl e ↦ rw (on_visible, e) (refl, refl, e, refl)
    | inr (source, e) ↦
        let test : (not source.closed || is_some s.timer) ≡ true = ground (arith, w) in
        rw (on_visible, e, test) (refl, refl, e, refl)
  ]
  step-SameWait {s} v w lost h = (refl, refl, shut_source s.source (v.waits w).0, refl)
  step-SameWait v w (greeted head o) h = absurd (let d = (v.waits w).0 in cc)
  step-SameWait v w (framed name e o) h = absurd (let d = (v.waits w).0 in cc)
  step-SameWait v w (resynced f o) h = absurd (let d = (v.waits w).0 in cc)

  -- While a reconnect is scheduled, a user is signed in, the stream is closed, and it is shown as
  -- reconnecting. Until the timer runs out or the user changes, whatever else happens leaves the
  -- schedule, the count of attempts, the closed stream and the status as they are: neither a further
  -- error nor a look at the page opens a stream ahead of the timer.
  pub scheduled_reconnect_lem :
      {s s' : Stream}
      → StreamReach client shown loaded s
      → is_some s.timer ≡ true
      → (step : StreamStep client shown loaded s s') → ends_wait step ≡ false
      → (is_some s.user ≡ true)
        × (is_closed s.source ≡ true)
        × (s.status ≡ reconnecting)
        × SameWait s s'
  scheduled_reconnect_lem {s} r w step h =
      let v = StreamReach-IsSound r in
      let (closed, degraded) = v.waits w in
      (sym v.streams ∙ closed-is_some s.source closed, closed, degraded, step-SameWait v w step h)

  -- What the new stream offers, and what its greeting calls.
  opened :
      (watermark : Option ℕ)
      → let source : Source = record { mark = watermark; closed = false } in
        (some source ≡ some source)
        × (true ≡ true)
        × ((if not (is_some watermark) then resync_calls shown loaded none else [])
            ≡ (if is_some watermark then [] else resync_calls shown loaded none))
  opened none = (refl, refl, refl)
  opened (some mark) = (refl, refl, refl)

  -- A stream that is closed while a user is signed in is opened again: by the timer where a reconnect
  -- is scheduled, and otherwise as the page is looked at. The new stream offers the mark of before;
  -- as it connects the tab fetches everything again, unless it offered a mark, which lets the
  -- server decide.
  pub reconnect_lem :
      (s : Stream) (user : String) (head : Option ℕ)
      → s.user ≡ some user
      → is_closed s.source ≡ true
      → let again = if is_some s.timer then (on_timer s).0 else on_visible s in
        (again.source ≡ some (record { mark = s.watermark; closed = false }))
        × (again.needs_resync ≡ true)
        × ((on_connected shown loaded head again).1
            ≡ (if is_some s.watermark then [] else resync_calls shown loaded none))
  unfolding on_timer on_visible open_stream on_connected
  reconnect_lem s user head u c = elim (Option-cases s.timer) [
    | inl t ↦ elim (Option-cases s.source) [
      | inl e ↦ absurd (let d = ap is_closed e in cc)
      | inr (source, e) ↦
          let shut : (not source.closed || is_some s.timer) ≡ false =
            ground (arith, ap is_closed e, ap is_some t) in
          let none_ : is_some s.timer ≡ false = ap is_some t in
          rw (none_, on_visible, e, shut, u) (opened s.watermark)
    ]
    | inr (attempt, t) ↦
        let some_ : is_some s.timer ≡ true = ap is_some t in
        rw (some_, on_timer, t, u) (opened s.watermark)
  ]

  -- A stream that offered a mark and is greeted with the log's head calls no handler, as the server
  -- will say what was missed. Where the stream closes before the server has said so, the reconnect
  -- offers that head in place of the mark: what happened between the two is asked for no more.
  pub gap_lem :
      (s : Stream) (user : String) (source : Source) (mark head : ℕ)
      → s.user ≡ some user
      → s.source ≡ some source
      → source.mark ≡ some mark
      → s.timer ≡ none
      → let greeted_ = on_connected shown loaded (some head) s in
        let again = (on_timer (on_error true greeted_.0)).0 in
        (greeted_.1 ≡ []) × (again.source ≡ some (record { mark = some head; closed = false }))
  unfolding on_connected on_error on_timer open_stream
  gap_lem s user source mark head u e m t =
      let offered : offers s.source ≡ true = ap offers e ∙ ap is_some m in
      let idle : is_some s.timer ≡ false = ap is_some t in
      let up = (on_connected shown loaded (some head) s).0 in
      (
        rw offered (ground arith),
        ap (λ x. (on_timer x).0.source) (on_error-closed up source e idle) ∙ rw u refl,
      )
