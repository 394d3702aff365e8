-- ===== src/Lib.antt =====
-- AirBridge coordinates the air-cargo shipments of several tenants: a shipper creates a shipment,
-- a coordinator books it on a flight leg, customs and security release it, and the ground team
-- loads it. This library models the code of internal/ and proves what holds of it.
--
-- The parts and how they interact:
-- - Base: results (the sentinels of internal/domain/errors.go), int64 with its wrap-around,
--   instants (time.Time as nanoseconds), maps as association lists, sorting, and the functions of
--   the strings package that the source calls.
-- - Domain: internal/domain. Types has the structs and statuses of types.go and pagination.go,
--   Rules the transition tables and checks of rules.go, on which every store and service relies.
--   Transitions and Validation state what they allow.
-- - Memory: internal/repository/memory/store.go. State is the struct Store; Accounts, Shipments,
--   Legs, Compliance and Outbox have one function for each method. A method that changes the store
--   takes it first and returns the new one with its result. Steps collects those methods as calls
--   and runs histories of them; the other modules prove the properties of bookings, versions,
--   listings, idempotency keys, the outbox and sessions. Worker is a tick of
--   internal/worker/outbox.go over it, Holding and Settling follow the events that it holds.
-- - Service: internal/service/application.go over the interface Repository of
--   internal/repository/repository.go, of which the memory store is an instance, with the table of
--   internal/permissions. Each use case is one function; the clock readings, random ids and random
--   tokens of a call are its arguments. Access has the requests that change data as values and
--   serves them.
-- - Http: internal/httpapi/server.go and the request id of internal/middleware/http.go. Replies
--   has what a handler writes, Server one function for each handler, composed by dispatch as New
--   composes them. A handler takes the store and returns it with its reply. Refinement states what
--   a route promises in terms of the service, Safety what any traffic keeps.
-- - Postgres: internal/repository/postgres. Tables has the database as tables of rows, with what
--   the constraints of migrations/001_core.sql refuse; Accounts, Shipments, Legs, Compliance and
--   Outbox have one function for each method of its Store, which Repository makes the second
--   instance of the interface of Service. Capacity, Agreement and Divergence compare it with the
--   memory store. Migration is the runner of migration.go: Alone states what one start-up does and
--   Again what a second one does after it, Startup what several do at once, in any interleaving of
--   their turns, Finish what one does with enough turns in a row, and Truth what the rows say of
--   the tables.
-- - Ledgers: internal/capacity, internal/booking and internal/finance, in-memory ledgers that no
--   other package calls; each method is one function from the state and its arguments to the new
--   state and the result.
-- - Ground: internal/warehouse (Calendar), internal/transport (Planner) and internal/route
--   (Planner), in the same way. Spacing proves what the bookings of slots keep, Route.Journeys
--   what plans promise.
-- - Clearance: internal/customs (Workflow), internal/approvals (Queue) and internal/aggregate
--   (Store, over the transition table of Domain). Their state is one map. Numbering runs histories
--   of customs cases.
-- - Traffic: internal/ratelimit (Limiter), internal/idempotency (Store) and the loop of
--   internal/retry (Do).
-- - Queries: internal/timeline, internal/reconciliation, internal/search and internal/filter,
--   functions on lists of records. Differences proves what Compare reports, with the keys that it
--   goes through in Keys, and Answers what a search returns.
-- - Documents: internal/manifest, internal/claims and internal/pricing. Weights proves what a
--   manifest is.
-- - Desk: internal/alerts, internal/tenant, internal/scan, internal/notification and
--   internal/priority, whose state is a map or two or a list, with internal/retention and
--   internal/expiry.
--
-- How the code is read:
-- - A Go method on a store runs under a mutex, so it is one step, and concurrent requests are
--   sequences of steps. A use case of the service is several steps in the code, between which
--   other requests may run; Service composes them without interruption, and Memory.Locking states
--   what the version checks do about interruptions.
-- - An int64 or int is an integer with arithmetic that wraps at 64 bits. A time is a number of
--   nanoseconds; only sums that stay in range are modelled.
-- - A map is a list of entries with lookup, insert and delete. The order of range is the order of
--   the list, and every list is covered by the theorems.
-- - An error is the sentinel that errors.Is finds in it; the texts of wrapped errors are dropped.
-- - sort.Slice may leave equal elements in any order; it is modelled by the stable sort.
-- - Of container/heap, the documented behaviour is used: Push adds an item, Pop takes out one that
--   no other is less than.
-- - SHA-256 with hex (memory's tokenHash and auth's HashToken) and bcrypt are parameters. ToLower
--   and ToUpper are modelled on ASCII letters.
-- - Every loop is a recursion on a list, and that of internal/retry one on the attempts that are
--   left, which the policy sets: there is no fuel.
-- - An SQL statement is read by its text and the constraints of the tables: it changes all of its
--   rows or none. The error of a driver that cannot run it is part of the database in Postgres and
--   a parameter of each run and turn in Migration. A column of type bigint or integer refuses what
--   does not fit, where an int64 wraps. What the driver and a column of type timestamptz, which
--   counts microseconds, make of an instant is part of the database too. What the SQL of a
--   migration does, and the order of texts, are parameters.
-- - The router of chi, the JSON decoder and the random source are parameters of Http: a route is a
--   value that holds the parameters of its path.
--
-- Not modelled: start-up (cmd/server), the connection to the database, logging, JSON encoding, and
-- the small packages that the manifest lists.
pub mod Base
pub mod Domain
pub mod Memory
pub mod Service
pub mod Postgres
pub mod Http
pub mod Ledgers
pub mod Ground
pub mod Clearance
pub mod Traffic
pub mod Queries
pub mod Documents
pub mod Desk
