-- ===== src/Storage.antt =====
-- src/storage/: the request log, its writer, and its queries.
pub mod Logging
pub mod Table
pub mod Writer
pub mod WriterLaws
pub mod Overtaken
pub mod Query
pub mod Stats
pub mod Groups
pub mod LastSecond
