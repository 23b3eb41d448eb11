-- ===== src/Examples.antt =====
-- The theorems at concrete inputs, by the part of the app.
mod Timers
mod Documents
mod Editors
mod Lists
mod Places
mod Browser
mod Forms
mod Days
mod Reviews
mod Caches
mod Shell
mod Screens
mod Dialogs
mod Tidying
