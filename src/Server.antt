-- ===== src/Server.antt =====
-- task4-brownian-bot/server.c: a server that adds the numbers of its clients to one sum.
pub mod Long
pub mod Lines
pub mod Split
pub mod Client
pub mod Chunks
pub mod Reading
pub mod Answers
pub mod Flush
pub mod Poll
pub mod Slots
pub mod Alignment
pub mod SetUp
mod Starting
pub mod Main
mod Closing
pub mod Whole
mod Ending
mod Shifting
mod Growing
mod Serving
mod Promised
mod Promises
mod Sessions
mod Bounds
mod Rounds
mod Tests
mod SessionTests
