-- ===== src/Filesystem/Progress.antt =====
-- Uploads from the first request to the blob that is served: when the operations of blobs_upload.go
-- succeed.
pub mod Paths
pub mod Commits
pub mod Sessions
pub mod Whole
mod Tests
