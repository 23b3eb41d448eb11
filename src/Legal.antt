-- ===== src/Legal.antt =====
-- The two legal documents of web/src/features/legal: the marked-up line (Legal/Inline), and the copy
-- that is fetched on demand, web/src/i18n/legal/index.ts (Legal/Load).
pub mod Inline
pub mod Load
