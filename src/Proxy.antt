-- ===== src/Proxy.antt =====
-- internal/data/proxy: a storage that fetches what it lacks from an upstream registry.
pub mod Challenge
pub mod Upstream
pub mod Storage
mod Tests
