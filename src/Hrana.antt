-- ===== src/Hrana.antt =====
-- libsql/internal/hrana: the messages of the Hrana protocol. A nil pointer is `none`.
pub mod Value
pub mod Batch
pub mod Request
pub mod Json
pub mod Response
