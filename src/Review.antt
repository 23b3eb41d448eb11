-- ===== src/Review.antt =====
-- Reviewing: the due queue, web/src/features/review/ReviewPage.tsx, and one run of a saved set,
-- web/src/features/review/RunPage.tsx.
pub mod Deck
pub mod Run
