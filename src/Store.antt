-- ===== src/Store.antt =====
-- hub/internal/store: the tables of the hub's database.
pub mod Servers
