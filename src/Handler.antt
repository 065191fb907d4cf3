-- ===== src/Handler.antt =====
-- internal/http/handler: the HTTP handlers, over a storage and the access rules of `Rbac`. `Access`
-- decides who may do what, `Tokens` hands out tokens, `Routes` is the table of routes; `Blobs`,
-- `Uploads`, `Posts`, `Manifests`, `Listings` and `Referrers` hold the handlers; `Served` runs them
-- over the file system storage, `Answers` reads a success back.
pub mod Access
pub mod Tokens
pub mod Routes
pub mod Reply
pub mod Blobs
pub mod Uploads
pub mod Posts
pub mod Manifests
pub mod Listings
pub mod Referrers
pub mod Refusals
pub mod Answers
pub mod Served
mod Tests
