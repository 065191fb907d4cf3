-- ===== src/Filesystem.antt =====
-- internal/data/filesystem: the storage on disk. `Layout` names the paths; `Blobs`, `Uploads`,
-- `Manifests` and `Listings` hold the operations of blobs.go, blobs_upload.go, manifests.go and of
-- the files of listings; `Storage` is filesystem.go. The other modules are about these.
pub mod Layout
pub mod Blobs
pub mod Uploads
pub mod Manifests
pub mod Listings
pub mod Commits
pub mod Stored
pub mod Appends
pub mod Reads
pub mod Storage
pub mod Collects
pub mod Sound
pub mod Abstract
pub mod Progress
mod Tests
