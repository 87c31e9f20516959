-- ===== src/Release.antt =====
-- The release tool of internal/release: what is a version tag, what an archive may hold, which
-- source is built and when the files are published.
pub mod Tag
pub mod Archive
pub mod Outside
pub mod Source
pub mod Checks
pub mod Run
