-- ===== src/Myinit.antt =====
-- The process supervisor (task3-myinit/myinit.c).
mod Config
mod Tokens
mod Entries
mod Files
mod Reading
mod RoundTrip
mod Loading
mod Children
mod Reaping
mod Main
mod Spawning
mod Full
mod Passes
mod Life
mod Descriptors
mod Daemon
mod Log
mod Exec
mod Inheriting
mod Detaching
mod Nap
mod Launch
mod Stopping
mod Tests
mod DaemonTests
