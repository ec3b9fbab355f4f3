-- ===== src/BotClient.antt =====
-- task4-brownian-bot/client.c: a client that sends the lines of its input and prints the answers.
pub mod Address
pub mod Wire
pub mod Stream
pub mod Main
mod Sending
mod InputLines
mod Dialogue
mod Asking
mod Meeting
mod Tests
