-- ===== src/Garbage.antt =====
-- internal/cmd/garbage_collect/garbage_collect.go: mark the manifests and blobs that are reachable
-- from the roots, then plan the removal of the others and carry it out.
pub mod Mark
pub mod Sweep
mod Tests
