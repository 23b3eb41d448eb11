-- ===== src/Queries.antt =====
-- The queries and the mutations of the screens: the `queries.ts` files under web/src/features and
-- web/src/features/review/setQueries.ts.
pub mod Keys
pub mod Requests
pub mod Effects
pub mod Laws
