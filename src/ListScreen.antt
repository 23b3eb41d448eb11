-- ===== src/ListScreen.antt =====
-- The list screens: web/src/features/notes/NotesPage.tsx, whose shape CardsPage.tsx repeats.
pub mod Params
pub mod Toggles
pub mod Screen
pub mod Laws
pub mod Search
pub mod Settling
pub mod View
