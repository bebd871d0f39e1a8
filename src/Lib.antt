-- ===== src/Lib.antt =====
-- The reservation service (mi-servicio) and the inventory service (inventario-service) of a hotel
-- booking system, two Go programs that talk over gRPC, each with a PostgreSQL database of its own.
--
-- The program. A client asks the reservation service for a reservation. `CreateReservation` runs a
-- saga: it validates the user with the user service, takes one unit of stock from the inventory
-- service, inserts the reservation, and leaves a notification to the background. A failure after the
-- stock was taken is compensated by a release, in three attempts. Each outgoing call goes through a
-- circuit breaker, each step is recorded in the tables of the saga, and events go to Kafka. The
-- inventory service changes a stock by one guarded UPDATE; a second, layered version of it does the
-- same in a transaction.
--
-- The files.
-- - Base: the Boolean tests, integers, texts and tables; Base/Environment: the database, the network
--   and the clock as functions of a number that grows with each call.
-- - Breaker (mi-servicio/circuitbreaker.go): the state machine and `Execute`; below it the invariant,
--   the count of failures, what a caller sees, and calls that overlap.
-- - Inventory (inventario-service): Events and Publisher (internal/events), Tables (the SQL of
--   main.go), Server (`UpdateStock` of main.go), Search (`SearchAvailableRooms` of main.go), Stock and
--   Contract (an abstract service of stocks, and the refinement), History and Accounts (sequences of
--   requests), Server/Messages (the event of each request), Metrics (the gauge and the counters),
--   Negative (negative quantities), Repository (internal/repository, internal/service) and Handler
--   (internal/transport/grpc) of the layered version.
-- - Reservation (mi-servicio): Events and Publisher (internal/events), Tables (the SQL of main.go),
--   Remote (the services that main.go calls, the inventory service as an interface with laws), Server
--   (the state, and `startSaga`, `recordSagaTransition`, `failSaga`, `publishReservationEvent`),
--   Compensation (`compensateInventory`), Create (`CreateReservation`, a function for each stage),
--   Queries (`GetReservation`, `ListReservations`), Background (the goroutines). Ledger, Calls and
--   Accounts hold what a run does to stocks and reservations, Walk the states that its saga goes
--   through, Lost what a lost reply leaves, Replay what a client sees after it, and Integration
--   fills the interface with the inventory server. Concurrent has requests that overlap: a stage for
--   each place of `CreateReservation` between two uses of what requests share, a scheduler, the proof
--   that one request alone is `CreateReservation` (Leading, Sequential), invariants over any
--   schedule, and a count of the stages that are taken (Ending). Metrics has the series that `init` makes.
-- - Startup (main.go of both, inventario-service/internal/config): the settings, the wait for the
--   database and the server that `main` builds; Seeding (`initializeDB` of the inventory service) and
--   Main (the three `main` functions up to the call of `Serve`).
--
-- How the code is read. A handler is a function from the server's state to its answer and the next
-- state. A failing call of the database or the network is either refused, with no effect, or
-- unacknowledged: it took effect and its reply is lost. Texts are compared whole; the limits of
-- VARCHAR columns show as refused statements. A stock is an INT that a statement refuses to leave; the
-- breaker's count of failures keeps the wrap-around of a 64-bit int. Amounts are in cents. Times are
-- numbers of nanoseconds. The loops with a bound are the compensation's three attempts and the fifteen
-- pings of the database; they are counted down, so that no fuel can run out. A request that runs alone
-- is taken twenty stages, and the proof shows that it ends within them.
--
-- Parameters. The replies of the user and the notification service, prices and `ILIKE` of PostgreSQL,
-- gorm's transactions and the order of its rows, the clock, the time at which the database stores a
-- reservation, random bytes and UUIDs, and the errors that `main` meets outside.
-- Where requests overlap, a stage is atomic: it uses the shared table or the inventory service once,
-- or a breaker once, and what else it does concerns its own saga, counters, or goroutines it starts.
-- No stock is moved but by the requests of the reservation service.
--
-- Not modelled: the metrics servers, tracing, listening and logs (input and output), the
-- code generated by protoc beyond its structs, and the services in other languages, the gateway and
-- the frontend.
pub mod Base
pub mod Breaker
pub mod Inventory
pub mod Reservation
pub mod Startup
