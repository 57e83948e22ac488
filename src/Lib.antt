-- ===== src/Lib.antt =====
-- Verification library of the frontend (frontend/src), a shared dashboard with calendar, lists,
-- notifications and an activity feed, kept live by one event stream.
--
-- The program's parts and the files that model them:
-- - Prelude: shared names and list functions. Prelude/Dict is the `Map` of JavaScript as a list of
--   pairs in insertion order; Prelude/Sort is the stable `Array.prototype.sort`.
-- - Intervals: frontend/src/resources/occurrenceStore.ts, the arithmetic on covered intervals
--   (addInterval, gapsIn, trim on the coverage, watchedInterval).
-- - OccurrenceStore: the rest of that file. An entry per dashboard caches calendar occurrences; a
--   load fetches the gaps of a window, a response is reconciled into the entry, an invalidation
--   drops the coverage. `handle` of OccurrenceStore/Validity lists all that can happen to an entry.
-- - Layout: frontend/src/stores/dashboard.ts, saving the grid's layout. Layout/Rebase is
--   rebaseLayout; Layout/Save is saveLayout and its part of resetDashboardData. Layout/Save/World
--   holds the store with every drain that waits for a response, and its steps.
-- - Board: the rest of frontend/src/stores/dashboard.ts: Board/Listing the loads of the listing and
--   the trash, Board/Mutations the actions on them from their responses on, with all of
--   their answers in Board/Mutations/Stale, Board/Opening loadDashboard, Board/Events the handlers of
--   frames, which give the loads that they start.
-- - Inbox and Activity: frontend/src/stores/notifications.ts, the notification list and the feed of
--   own actions, with the feed's filters of frontend/src/utils/notifications/notificationFeedUtils.ts.
--   Activity/Interleaving is the feed with its requests in flight.
-- - Sse, ChangedFields, DashboardEvents and LoadOptions: what a frame of the stream means for the
--   dashboard store, from frontend/src/hooks/useSSE.ts, frontend/src/utils/shared/clientInstance.ts
--   and changedFields.ts, dashboardEvents.ts and loadOptions.ts of frontend/src/utils/dashboard.
--   DashboardTypes and ListTypes hold the records of frontend/src/api that these read.
-- - CheckedPile: frontend/src/components/lists/checkedPile.ts; ListOrder: orderByIds of
--   frontend/src/resources/listData.ts, on rows of any type.
-- - Query: frontend/src/resources/scopedQuery.ts, the cache by scope that the resources share, generic
--   in its scope and data. Query/Interleaving lists all that can happen to one.
-- - Agenda: frontend/src/resources/agendaData.ts, a Query of the reminders of each dashboard, which
--   are derived from its lists. Agenda/Refetch and Agenda/Removals compare its patches to a refetch.
-- - Lists: frontend/src/resources/listData.ts, two Queries (summaries by dashboard, details by list)
--   with the agenda. Lists/Mutations and Lists/Reorders are the writes of this tab, Lists/Events the
--   handler of frames; Lists/Histories/Steps lists all that can happen to them together, and
--   Lists/Histories/Resync is the handling of a resync after any of it.
-- - Calendar: frontend/src/resources/calendarData.ts, the cache of event details; what it invalidates
--   of the OccurrenceStore is a value.
-- - Stream: frontend/src/hooks/useSSE.ts and frontend/src/stores/connection.ts, the event stream as a
--   state machine, whose frames go to the handlers of Lists, Agenda, Calendar, Board and Activity.
-- - Session: frontend/src/stores/auth.ts and sessionGeneration.ts, who is signed in; its boundaries
--   reset the other stores, which compare the generation.
-- - Feed: the rest of notificationFeedUtils.ts, the rows of the activity feed and their sentences.
--
-- How the code is modelled: a store is a record, with the module's variables among its fields. An
-- asynchronous function is split at its awaits into functions from a state to a state and the
-- requests that are sent; a request that waits keeps the local variables that its continuation
-- reads, among them the session generation of its guard. Responses, failures included, are
-- arguments of the functions that resume. A pending promise is a flag. Steps of these functions in
-- any order stand for the event loop. Names are the source's in lower case with underscores.
--
-- Numbers are natural numbers: times are milliseconds since the epoch, from 1970 on, and versions,
-- counts and positions on the grid are not negative in the program. A difference that the program
-- cuts at 0 is the truncated one. Nothing runs on fuel: every loop is over a list, and saveLayout's
-- loop takes at most one turn between two awaits, since a turn that sends nothing leaves no save
-- pending.
--
-- Parameters stand for what the runtime brings: Date.parse, localeCompare (as a total order of time
-- texts where sorting is concerned), the folding of texts, the order and the texts of days, and the
-- current time. The cap of a Query is a parameter; the resources keep the default, 32.
--
-- Not modelled: rendering (components and pages), HTTP and the schemas of its responses, the browser
-- under the EventSource, local storage, the formatting of dates, calendars over the runtime's dates,
-- the members of a dashboard; of the dashboard store the debouncing of reloads; the stores of messages
-- and of confirmations; the backend.
pub mod Prelude
pub mod Intervals
pub mod OccurrenceStore
pub mod Sse
pub mod ChangedFields
pub mod DashboardTypes
pub mod DashboardEvents
pub mod LoadOptions
pub mod Layout
pub mod Board
pub mod Inbox
pub mod Activity
pub mod ListTypes
pub mod CheckedPile
pub mod ListOrder
pub mod Query
pub mod Agenda
pub mod Lists
pub mod Calendar
pub mod Stream
pub mod Feed
pub mod Session
