-- ===== src/Lib.antt =====
-- The rules of a shop's back office: what a line of an order costs, which delivery rate applies,
-- how stock is reserved, corrected and deducted, and how an order and its delivery move from one
-- state to the next. The code is TypeScript (NestJS, Prisma over a SQL database).
--
-- How the parts interact. A checkout prices its lines (`calculateQuoteLine`, on the checked
-- arithmetic of `addMillimes`, `multiplyMillimes`, `calculateBasisPoints`), chooses a rate
-- (`selectBaseRate`, `selectSurchargeRate`) and allocates stock to the lines
-- (`allocateInventory`), which becomes reservations, which the worker lets expire. An
-- administrator then confirms the order, which deducts what is reserved, or cancels or rejects
-- it, which releases it, or moves a confirmed order on; each is one transaction that locks the
-- order, tests its version and state, and writes the order, its delivery, the stock, the history
-- and the notifications together. Stock corrections are requested by one administrator and
-- decided by another. The cash of an order is recorded, allocated to what a courier hands over,
-- and counted by another administrator; a difference is opened and resolved. What is to be told
-- to a customer goes into the outbox; the worker's instances claim its events under leases,
-- publish them to a queue and handle the jobs.
--
-- Files, and the code that each models:
--   Prelude: shared names, Boolean tests, lists, results, integers over the native naturals.
--   Table: rows, `findUnique`, `updateMany` and `$transaction` as the services use them.
--   Double: the doubles that the code adds, and Number.isSafeInteger.
--   Money: apps/api/src/common/money/money.ts (addMillimes as add_millimes, and so on); Sums compares
--     the double sums with the exact ones.
--   Cart: apps/api/src/cart/cart-policy.ts.
--   CashMath, CashStatus: apps/api/src/cash/cash-calculations.ts and cash-state-policy.ts.
--   Cash: apps/api/src/cash/admin-cash.service.ts; Collect has recordCollection, Remit
--     createRemittance and submitRemittance, Reconcile reconcileRemittance and
--     applyVerifiedAllocations, Resolve resolveDiscrepancy, Days any sequence of these calls; Recorded,
--     Replays, Sums, Allocations, Approvals, Accounts, Operations and Resolutions have the proofs.
--   Pricing, Pricing/Rates: apps/api/src/checkout/checkout-pricing.ts; calculateQuoteLine is
--     calculate_quote_line, chooseUnique is sort_ranked and then pick.
--   Allocation: allocateInventory of apps/api/src/checkout/checkout-order.helpers.ts; the inner loop
--     is serve_line, the outer one serve_lines, with the buckets passed along.
--   OrderStatus, OrderStatus/Delivery: apps/api/src/orders/order-state-machine.ts and
--     apps/api/src/delivery/delivery-transition-policy.ts.
--   Inventory: apps/api/src/inventory/admin-inventory.service.ts; Store has the tables, Adjustments
--     adjust and decideAdjustment, Transfers transfer; Calculations, Quantities, Ledger, Control,
--     Soundness, Transferred, Relocation and Relocated have the proofs.
--   Orders: apps/api/src/orders/admin-orders.service.ts; Reservations has lockActiveInventory and
--     assertReservationCoverage, Alerts createLowStockAlerts, Confirm confirm, Terminate cancel and
--     reject, Intake prepare and readyForPickup; Moves, Moved, Transitions, Deduction, Deducted, Taken,
--     Confirmation, Confirmed, Release, Freed and Released have the proofs.
--   Outbox: apps/worker/src. Contracts has parseEventPayload and exponentialRetryDelay, Repository
--     claimAvailable, markPublished and scheduleRetry, Publisher pollOnce, Expiry processTransaction
--     and expireReservations, Notifications and Deliveries processNotification, processMediaDeletion
--     and their transactions, Worker process. Actions makes the transactions the steps of a run, in
--     which the instances of the worker interleave; Refinement and Routes write each method as such
--     a run; Advances, Claims, Serves, Served, Finalized, Failed, Handled, Expired, Delivered and
--     Polled have the lemmas on each transaction and each poll, Holds, Leases, Traces, Attempts and
--     Progress those on runs and claims.
--   Examples: concrete runs.
--
-- How state is modelled. A table is a list of rows with the columns that decisions rest on;
-- `Stock`, `Shop`, the cash `Desk` and the worker's `Tables` are records of tables. The payload
-- that an event stores is what its schema reads of it; the queue, the providers and the buckets
-- of the worker are functions that give their answers. A transaction takes the tables to a
-- `Result`, an error being the rollback. The rows are locked with FOR UPDATE, so a transaction is
-- one step. What the code splits by statements is split into functions here where a proof needs
-- it: `check_confirm` has the checks of confirm, `consume_stock` its stock part. The time and the
-- identifiers that the database gives are arguments. Texts, audit rows, request metadata and the
-- response read back are left out.
--
-- Bounds. Functions are by structural recursion. Amounts are integers: a number of the code is a
-- double, exact up to 2^53 - 1 in size. Where money.ts and the cart add up a list, each step
-- rounds to the nearest double (Double); the search for the spacing of the doubles has 1024
-- doublings as fuel, which is past the greatest double. A product, or a sum of two, that is
-- tested with `Number.isSafeInteger` is exact where it passes, and a rounded one fails the test
-- as the exact one does. Identifiers are naturals, as the code only compares them, and
-- `localeCompare` is the order of the naturals. The SHA-256 digests of an idempotency key and of
-- a request are functions of the administrator, the collection and the key, and of the request.
--
-- Not modelled: the services of the checkout, the cart and the delivery, authentication, the
-- catalog, the start-up and the adapters of the worker and the web application, which are
-- queries, forms or services on these rules; contact attempts, lists and exports of the two
-- services above; the replay of a transfer by its idempotency key. The database itself is what
-- Table says of it.
pub mod Prelude
pub mod Double
pub mod Money
pub mod CashMath
pub mod Pricing
pub mod Outbox
pub mod OrderStatus
pub mod Cart
pub mod CashStatus
pub mod Cash
pub mod Allocation
pub mod Table
pub mod Inventory
pub mod Orders
pub mod Examples
