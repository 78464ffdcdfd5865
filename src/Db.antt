-- ===== src/Db.antt =====
-- The database as a value, and actions on it.
-- Rows (Db/Rows.antt) are those of apps/api/src/db/rows.ts and db/migrations.ts; a table is the
-- list of its rows in no particular order. An action gives its result beside the state, since what
-- was written before a handler threw stays written; `transaction` is better-sqlite3's, which undoes
-- all writes of its body when the body throws (Db/Action.antt).
pub mod Rows
pub mod Action
pub mod Laws
pub mod Ensures
pub mod Leaves
