-- ===== src/Lock.antt =====
-- task2-lock/lockprog.c: a lock made of a file that only one process can create.
pub mod Pid
pub mod Calls
pub mod Worker
pub mod System
pub mod Owner
pub mod Frame
pub mod Exclusion
pub mod Clean
pub mod Release
pub mod Transfer
pub mod Start
mod Starting
mod Tests
