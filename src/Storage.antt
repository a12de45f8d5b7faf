-- ===== src/Storage.antt =====
-- services_storage/src: transactions (Transaction), the journaled storage (Journal), and the service
-- that puts a budget in front of it (Service).
pub mod Transaction
pub mod Journal
pub mod Service
