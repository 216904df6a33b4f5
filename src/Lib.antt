-- ===== src/Lib.antt =====
-- CodePop: the services behind a chain of drink stores, a Django project under server/. This library
-- models the service functions that change its database, and what they promise each other.
--
-- A service is a function from tables to a result and tables (`Call`, Db.antt and Base/Exec.antt):
-- `ok` with a value, or `err` with the exception. `@transaction.atomic` is `atomic`, which rolls back
-- on an exception; what runs outside of it keeps its writes. `Db` holds the tables of all the
-- services. A table is a list of rows under their keys (Base/Table.antt), a foreign key is the row it
-- points to, and line items stand inside their order or transfer.
--
-- The parts, by their files in server/apps:
--   users/permissions.py, users/models.py        Users.antt: roles, assignments, permissions
--   stores/models.py, supply_hubs/models.py      Stores.antt: regions, stores, hubs
--   inventory/services.py, inventory/models.py   Inventory.antt: balances, restock alerts, packs,
--     order reservations (Inventory/Reserve.antt), supplier orders, schedules and adjustments
--     (Inventory/Replenish.antt); the transfers of that file are in Transfers.antt
--   orders/services.py, orders/models.py         Orders.antt: pricing, creation, status transitions
--   payments/services.py, payments/models.py     Payments.antt: checkout, payment, refund, ledger
--   maintenance/services.py, maintenance/models.py   Maintenance.antt: policies and priorities of
--     machines (Maintenance/Priority.antt), repair assignments (Maintenance/Assignments.antt), status
--     events and policy checks (Maintenance/Escalation.antt), the work on a repair
--     (Maintenance/Repairs.antt)
--   sync/services.py, sync/models.py             Sync.antt: outbox events and audit logs, the
--     projections of receivers (Sync/Projections.antt), the processing of the outbox and of the
--     events of peers (Sync/Processing.antt) with the notifications that it sends
--     (Sync/Dispatch.antt), the pushes to peers (Sync/Peers.antt), resolved conflicts
--     (Sync/Resolution.antt)
--   notifications/services.py                    Notifications.antt: who is notified
--   ../core/exceptions.py                        Errors.antt: the exceptions
-- A definition has the name of its Python function, without a leading underscore. A payment calls
-- `transition_order_status`, whose first entry into the queue calls `reserve_order_inventory`; a
-- refund calls `reverse_order_inventory`; each of them ends in `create_outbox_event` and
-- `create_audit_log`. Inventory/Balance/Shelf.antt has the view that the theorems speak of: `shelf`,
-- what a store has of an item; `IsSound`, the constraints of the tables; `Moved`, a movement of stock.
-- A status event of a machine calls `ensure_repair_assignment`, and the policy checks and the work on
-- a repair record status events. Maintenance/Assignments/Rows.antt has `IsTidy`: keys are unique, and
-- a machine has one open assignment at most. A receiver of events has tables of its own (`Node`),
-- inside those of its node's outbox (`Station`). `Db.outbox` has the events that the services recorded,
-- and a `Station` also the rows taken in from peers; both are one table in the code, and the numbering
-- of new events counts both, so what is said of it is said of a node that has taken in none.
--
-- Conventions. Money and quantities are whole hundredths, as their columns hold them, in a signed
-- integer over the native naturals. Keys, codes and SKUs are naturals, since they are only compared.
-- What the code draws at random or reads from the clock, the keys of new rows, the answers of Stripe,
-- the membership of a SKU in the recipe catalogue and the distance of two places (floating point in
-- the code) are arguments. Loops run over lists; the twelve attempts at a code and the 24 lockers are
-- counted down, so nothing runs out of fuel. Events and logs stand newest first. In Maintenance.antt
-- and Sync/Peers.antt a date is a day and a time a second, priority scores are hundredths, `slug` is the
-- slug of a city, `fresh` the key of a new assignment, and `now` and `today` the clock of one call; of
-- a note only whether it is empty, blank or more is kept.
--
-- Not modelled: texts (names, notes, reasons, addresses) and JSON snapshots, which nothing here
-- depends on; tasks that are queued after a commit; locks, and the errors of a locked database;
-- requests, views, forms, templates and settings; the support, import, analytics
-- and assistant parts, and the notifications of imports; the delivery of notifications to devices.
pub mod Base
pub mod Stores
pub mod Users
pub mod Maintenance
pub mod Notifications
pub mod Errors
pub mod Inventory
pub mod Transfers
pub mod Orders
pub mod Payments
pub mod Sync
pub mod Db
pub mod Tests
