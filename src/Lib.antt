-- ===== src/Lib.antt =====
-- The trip planner's backend, tp_backend: what it computes and stores, and what holds of it.
--
-- The backend serves a JSON API over a database. People share trips; a trip has an itinerary of
-- blocks on its days, costs that its members split, and payments between them. A queue of tasks,
-- drained by workers, reads the sources that a city's places come from.
--
-- Base: shared names, Boolean tests, lists, integers over the native naturals, sums, sorting, texts,
--   and calls that raise (Base/Result: a value, or the error that answers the request).
-- Models: the tables of tp_backend/libs/db/models.py as records, and the vocabularies of enums.py. A
--   database is the record of its tables; ids, dates, times and currencies are numbers.
-- Expenses: tp_backend/tp_api/expenses. Split is `split_evenly`; Transfers is `_transfers`; Tally and
--   Balances are `_balances`; Schemas holds the bodies with their validators; Service and Include hold
--   each operation on costs and payments; Overview holds `_ledger` and `has_balance`, and Output what
--   `overview` answers; Requests is router.py, with the databases that sequences of requests reach.
--   Invariant and its children, Debts, Balances/Figures, Balances/Even, Transfers/Settle, Output/Paid
--   and Requests/Reached hold proofs.
-- Sharing: tp_backend/tp_api/sharing/service.py and the gates of tp_backend/tp_api/deps.py (Members),
--   with proofs in Roles. Removing a member asks Expenses whether they still owe.
-- Routing: tp_backend/libs/routing. Hours is `window_for`, DayPlan is `plan_day`; proofs in Warned.
-- Planning: tp_backend/tp_api/route_planning. Calendar is utils.py; Itinerary is `replace_days` of
--   service.py with its bodies of schemas.py; Shortlist is the claims and dismissals of places, with
--   tp_backend/libs/db/places.py; Ranking is `shortlist`; Reading is `filled_days` and
--   `provisional_reasons`. Proofs in Calendar/Covered, Shortlist/Listed, Ranked, Itinerary's children.
-- Ingest: tp_backend/tp_ingestions. Queue is queue.py, each write a function on the table of tasks;
--   Worker is worker.py with retry.py, errors.py and registry.py; Throttle and Gate are throttle.py
--   and limits.py; Enqueue is tp_backend/libs/ingest/enqueue.py, with proofs in its children; Leases,
--   Claims, Settling, Budget, Budget/Drained, Policy and Throttle/Windows hold proofs.
-- Auth: tp_backend/libs/auth.py, with tp_backend/tp_api/auth_routes.py. Google is the exchange of an
--   authorization code for an identity, Session the users and sessions; proofs in Accepted and Present.
-- Trips: tp_backend/tp_api/main.py. Create is `create_trip`, which asks Planning for claims and Ingest
--   for runs; Change is `rename_trip`, `delete_trip`, `draft_trip` (here `queue_draft`), and
--   `claim_after_ingest` of tp_backend/libs/ingest/enqueue.py. Resolved and its child, Refused, Created, Queued and
--   Claimed hold proofs.
-- Drafting: tp_backend/tp_ingestions/plan/draft.py. Reply is `keep` with `off_city`, Judged is
--   `problems`, which asks Routing, Rounds is `propose`, and Task is `draft`, which hands its days to
--   `replace_days` of Planning. Picked, Kept, Reached, Proposed, Items, Sent, Left and Written hold
--   proofs.
--
-- A request is a function from the database to a new one or an error; one that raises is rolled back,
-- but for the cities that `create_trip` commits one by one.
-- Row locks have no counterpart: requests and transactions follow each other. What the clock, the
-- uuids, the jitter and a task's handlers give is an argument. `_transfers` runs on fuel, one unit for
-- each debtor and creditor, since every round exhausts one of them; `pieces` on a unit for each day
-- and one more, since every round takes a day off the block. `drain` counts its tasks down,
-- and `take` has fuel for its waits: when it is used up it answers so. A draft makes three rounds at
-- most. Its times stand for Python's below 2^53, where `snap` divides floats exactly.
--
-- Not modelled: calls of external services (places, videos, posts, language models), logging, metrics,
-- uploads, rendering of exports, the prompts, the resolution of place names, the check of a stored day
-- against loaded hours, the lists of trips, a trip's default currency, the links of a mention, and the web
-- client. `search_users` and the queries that only shape output are left out. Distances, which are floats, are an argument of the shortlist.
pub mod Base
pub mod Models
pub mod Expenses
pub mod Sharing
pub mod Routing
pub mod Planning
pub mod Ingest
pub mod Auth
pub mod Drafting
pub mod Trips
