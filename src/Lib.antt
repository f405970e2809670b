-- ===== src/Lib.antt =====
-- A model of the payment service, of the driver service's dispatch of deliveries, and of the identifiers that the services share, with the theorems that make them correct.
--
-- The program's parts and their files here:
--   packages/go/snowflake/id.go: Snowflake. The generator's fields are a record; `next_id` takes the
--     readings of the clock as a list and consumes them, spinning where the source spins.
--     Snowflake/Layout reads the bit fields, Order puts identifiers in order, Clock says what a clock
--     must do.
--   services/payment-service/internal/domain: Payment/Currency (state.go), Payment/Money (money.go),
--     Payment/Domain (payment.go, errors.go), Payment/Refund (refund.go, attempt.go). A method of the
--     aggregate is a function to the aggregate after the call and its error. Domain/Invariant holds the
--     invariant on the money of a payment, Domain/Transitions sequences of calls.
--   packages/go/events/payment_events.go: Payment/Events.
--   services/payment-service/internal/adapters/postgres: Payment/Store. A statement is a function on
--     the tables, which are lists of rows; Store/Rows is about the conditional update. Statements are
--     calls on a state (Prelude/Action): Action/Runs composes calls whose outcome is known, Action/Gives
--     has the rules by which an invariant passes through composed calls, and Action/Contract those for
--     conditions that change from call to call.
--   services/payment-service/internal/application/services/payment_service.go: Payment/Service.
--     CreatePayment is `create_payment` in Service/Create; CapturePayment, AuthorizePayment and
--     CancelAuthorization are `capture_payment`, `authorize_payment` and `cancel_authorization` in
--     Service/Operations; CreateRefund is `create_refund` in Service/Refunds. Service/Env is what they
--     meet: the provider's answers, identifiers, the clock, statements that fail, and what other
--     processes do to the tables before each statement. Service/Validity, Side, Keeps and RefundKeeps
--     carry the invariant through the use cases; RefundEffect and RefundSettles follow a refund to the
--     row that it leaves; CaptureLimit follows a capture of too much, which the provider is asked for all the same.
--   services/payment-service/internal/adapters/webhook/handler.go: Payment/Webhook. `Handler.Handle` is
--     `handle`, behind the reading, the signature and the decoding, which are libraries';
--     `completePayment` is `complete_payment`. Webhook/Redelivery is about an event that comes again,
--     Webhook/Completion about payments that have ended.
--   services/driver-service/internal/domain/driver.go and assignment.go: Driver/Profile and
--     Driver/Assignment. A method is one step, since it holds the aggregate's mutex. dispatch.go:
--     Driver/Policy; Policy/Laws says what its ranking keeps, and Policy/Insertion has a sort to run it with.
--   services/driver-service/internal/adapters (mongodb, redis/lock_manager.go) and ports: Driver/Store,
--     over the collections of Driver/Collection. Driver/Env is what a call meets: the clock, failures,
--     and what other processes do to the store before each call on it.
--   services/driver-service/internal/application/services/dispatch_service.go: Driver/Dispatch, and its
--     FindAvailableDrivers Driver/Search, with Search/Fitting on its tests and Search/Laws on its result. A method has its Go name in snake case.
--   services/driver-service/internal/application/commands: Driver/Commands. ReserveDriverCommand is
--     `reserve_driver_command`, and so on; rate_driver.go and domain/review.go are Driver/Rating.
--   services/driver-service/internal/workers (assignment_expiry.go, reconciliation.go): Driver/Workers,
--     a tick of each.
--   services/driver-service/internal/adapters/kafka/delivery_consumer.go: Driver/Consumer.
--   Driver/Ledger is about the store that these share: a driver with an open assignment is BUSY and has
--     no second one. Ledger/Calls has the contracts of the single calls; Reserve, Freeing, Lookup,
--     Answers, Release, CommandsKeep, CommandsAnswer, Repair, Exclusive, Expiry, Sweep and Dispatching go through the
--     operations; Ledger/History puts them in any order, and Ledger/Guarantees says what a call
--     guarantees its caller.
--
-- Numbers: Go's int64 and int are integers with the wrap-around written out (Prelude/Int64); times are
-- counted by natural numbers; a float64 that is only stored is kept as its bits. Identifiers of the
-- generator are natural numbers in bit fields (Prelude/Bits). `spin` recurses on the readings of the
-- clock and `generate` on the number of identifiers, so nothing here runs on other fuel; that `next_id`
-- returns is a theorem on clocks that go on. The loops of the driver
-- service recurse on the rows, ids or candidates that they walk. Texts of currencies are read as lists of character codes
-- (Prelude/Text).
--
-- Not modelled: the entry points (HTTP, gRPC, GraphQL), the decoding of messages, configuration, metrics
-- and tracing, the SQL, Redis and MongoDB drivers, the payment provider, the user service and the
-- location store, whose answers are arguments, and the other services; neither are the workers of the
-- payment service, and the expiry of a lock at its time, which is what other
-- processes may do to the store. The theorems on the driver service's operations are on calls that no
-- other process disturbs, as the calls on one driver are while the lock holds; the writes to drivers that
-- the GraphQL resolvers make themselves (SuspendDriver, ActivateDriver) are outside of them.
mod Prelude
pub mod Payment
pub mod Snowflake
pub mod Driver
