-- ===== src/Auth.antt =====
-- Accounts in the browser: the modules below model web/src/features/auth.
pub mod Requests
pub mod Cache
pub mod SignOut
pub mod Cooldown
