-- ===== src/Lib.antt =====
-- The verification of the ticketing platform's core: checkout, inventory, payment and ballot, the
-- waiting room, the fixtures and tables of its competitions, the race-pack desk and the check-in:
-- the Go services under services/api.
--
-- Parts and files:
--   * Base: shared names. Natural numbers are the native ones; ℤ stands where the code subtracts.
--   * Store: the tables (Store/Rows, from services/api/internal/db/models.go), and transactions
--     (Store/Tx, the `ExecTx` of the repositories): functions from the tables to a value and new
--     tables, or to an error, which rolls back. Store/Post is the calculus of what a transaction
--     promises when it succeeds.
--   * Inventory (modules/inventory): the free slots of a category, `CheckAndLock`, `Reserve` and
--     `Release`.
--   * Orders (modules/orders): Orders/Checkout is `Service.Checkout`, Orders/Guest is
--     `GuestCheckout` and `ClaimOrder`, Orders/Changes is `Cancel` and `RefundOrder`,
--     Orders/Expiration is `ExpireOrders`; their queries are in Orders/Queries.
--   * Tickets (modules/tickets): the ticket of a paid order (issuer.go), and in Tickets/Qr the QR
--     tokens (qr/qr.go), over a codec that stands for base64, JSON and HMAC.
--   * Payments (modules/payments/processor.go): Payments/Processor is `ProcessRaw`, `Apply` and
--     what they call; Payments/Keeps says what such a run keeps.
--   * Ballot (modules/ballot): Ballot/Draw is the draw of draw.go and the rows that `RunDraw` records,
--     Ballot/Application is `OpenDraw`, `CloseDraw` and `Apply`.
--   * Access (modules/access/pool.go): the slots of pools, the grants on them, and their check at the
--     gate.
--   * Competitions (modules/competitions): Competitions/Scoring is the scoring of badminton matches
--     and the grouping of a peloton (scoring.go), Competitions/Standings the tables of a league and
--     Competitions/Ranking the ranks of a race (scoring.go), Competitions/Bracket the order of the
--     seeds and the single elimination bracket, Competitions/RoundRobin the round robin
--     (fixtures.go).
--   * Lifecycle (modules/lifecycle): the phases of the registration for a category, on tables of
--     their own (Lifecycle/Service is service.go and advancer.go).
--   * Queue (modules/queue, platform/queue): the waiting room. Queue/Tokens has the statements on its
--     tables, Queue/Cache its sorted sets in Redis, Queue/Service is service.go, release.go and
--     admission.go, Queue/Control is control.go and jobs.go, and Queue/Steps all of it as one
--     transition relation.
--   * Registration (modules/registration): the modes, the settings (service.go), and the gate of
--     checkout (gate.go), wired to the waiting room, the lifecycle and the grants.
--   * Racepack (modules/racepack): the desk. Racepack/Slots has counters and slots, Racepack/Pickup is
--     `ExecutePickup`, Racepack/Cases problem cases and proxies, Racepack/Idempotency the keys of
--     requests and Racepack/Handler `CreatePickup` with its key.
--   * Scanner (modules/scanner): Scanner/Service is the check-in and the verification of a scan, and
--     Scanner/Desk all operations of desk and scanner as one transition system, with what the other
--     modules do to users, orders and tickets as a step of its own.
--   * Capacity: the invariant that ties categories, orders and reservations together, and the
--     services as one transition relation (Capacity/Steps) on the tables.
--   * Tests: concrete tables, runs on them, and the theorems at them.
-- (modules is services/api/internal/modules.)
--
-- How the parts interact: checkout counts reservations and paid orders under the lock of the
-- category's row, inserts an order and a reservation and consumes the access grant, in one
-- transaction. A callback of a gateway claims its dedupe slot outside a transaction and then, in
-- one transaction, marks the payment, pays the order, completes the reservations and issues the
-- ticket. Cancellation and expiry release the reservations.
--
-- Modelling: an identifier, a time and an amount is a natural number (amounts have CHECK
-- constraints); sums of slots and prices stay far below the 63 bits of int64, so no wrap-around is
-- written out. A text is the native string. A status column is a data type. A query is a function
-- of the tables with the constraints it can break. A failure of the connection is not modelled,
-- and neither are audit, notifications and metrics, which write no table of the model. The
-- form validator, the gateways, the fee recorder, the random draws, the clock, SHA-256, math/rand
-- and the codec of the QR tokens are parameters; so is the gate in checkout, which Registration
-- models on its own. The retries for an order number are the five of the
-- code; the digits of a number are bounded by the number itself, and the halvings and doublings of
-- a bracket by its size, which is enough. Interleavings: transactions run one after another, and
-- Capacity/Interleaving adds what can commit between the two counts of a check, whose lock stops
-- other checkouts only.
--
-- Not modelled: the other modules of the service (waitlist, the codes of access,
-- results and the rest, and of competitions the badminton table, the lanes and the
-- service that stores them), HTTP handlers, wiring, and the web applications.
pub mod Base
pub mod Store
pub mod Inventory
pub mod Orders
pub mod Tickets
pub mod Payments
pub mod Access
pub mod Ballot
pub mod Competitions
pub mod Lifecycle
pub mod Queue
pub mod Registration
pub mod Racepack
pub mod Scanner
pub mod Capacity
pub mod Tests
