-- ===== src/Tests.antt =====
-- Runs of the code on concrete timers, locks and settings, and the theorems at concrete inputs.
mod Clock
mod Pool
mod Timers
mod Locks
mod Configuration
mod Slots
mod Sockets
mod Lists
mod Messages
mod Ciphers
mod Thread
mod Strings
