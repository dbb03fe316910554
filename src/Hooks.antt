-- ===== src/Hooks.antt =====
-- web/src/hooks: the queries that the views read, and the mutations with the queries that they
-- invalidate. What the query library does with them is not modelled.
pub mod Queries
pub mod Mutations
pub mod Owned
pub mod Fresh
mod Tests
