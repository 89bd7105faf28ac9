-- ===== src/Conn.antt =====
-- libsql/internal/http/hranaV2/hranaV2.go: a connection and the pipeline requests it sends.
pub mod World
pub mod Version
pub mod Replies
pub mod Send
pub mod Chunks
pub mod Execute
pub mod Rows
pub mod Driver
pub mod Streams
pub mod Sessions
pub mod Trips
pub mod Scripts
pub mod Ends
pub mod Said
pub mod Brackets
pub mod Drops
pub mod Runs
pub mod Growth
pub mod Faults
pub mod Sums
pub mod Indexes
pub mod Answers
pub mod Messages
pub mod Ordinals
pub mod Prepared
mod Tests
mod ScriptTests
mod AnswerTests
mod MessageTests
