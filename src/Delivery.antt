-- ===== src/Delivery.antt =====
-- The stores of compilableworld_mcp that carry an action's receipt to its reader.
pub mod Reservation
pub mod Ledger
pub mod Outbox
pub mod Entry
pub mod Journal
