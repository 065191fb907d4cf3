-- ===== src/Lib.antt =====
-- A model of simple-registry, an OCI container registry written in Go, and theorems about it.
--
-- The program. The mux of internal/http/handler looks a request up in its table of routes
-- (pkg/http/route) and runs a handler. The handler validates the path parameters
-- (pkg/registry/validator.go), asks the access control (pkg/rbac, internal/http/handler/token.go)
-- and calls the storage, an interface of internal/data with two implementations: the file system
-- (internal/data/filesystem) and a proxy that pulls through from an upstream registry
-- (internal/data/proxy) over another storage. The configuration (internal/config) comes from
-- options and from YAML manifests (pkg/yamlscheme). The garbage collector
-- (internal/cmd/garbage_collect) works on the storage alone.
--
-- The files.
--   Base        shared helpers: results and actions, lists, association lists, sorting, equality
--   Regex       regular expressions, with a matcher by derivatives (Go's regexp package)
--   Paths       path.Clean and filepath.Join on lists of components (Go's path/filepath package)
--   Disk        a file system as an association list from paths to nodes (Go's os package)
--   Validator   pkg/registry/validator.go
--   Oci         pkg/registry/oci.go
--   Digest      pkg/digest/digest.go
--   Uuid        pkg/uuid/uuid.go
--   MapSet      pkg/mapset/mapset.go
--   Rbac        pkg/rbac; Rbac/Verbs is verb.go
--   Yaml        pkg/yamlscheme/yamlscheme.go
--   Config      internal/config: config.go; Manifests (manifests.go), Directory (yaml.go)
--   Serve       internal/cmd/serve: from the flags to the configuration
--   Storage     internal/data/data.go: the interface as a record of actions
--   Filesystem  internal/data/filesystem: Blobs (blobs.go), Uploads (blobs_upload.go),
--               Manifests (manifests.go), Listings (the loops over directories of blobs.go,
--               manifests.go, tags.go, referrers.go; Walk is repositories.go), Storage
--               (filesystem.go), Layout (their paths), Sound (blobs have the hashes of their paths),
--               Abstract (the store of links and blobs that the disk implements),
--               Progress (uploads from the first request to the blob that is served),
--               Collects (collections of the garbage on this disk)
--   Proxy       internal/data/proxy: Challenge (auth.go), Upstream (internals.go,
--               auth.go, types.go), Storage (proxy.go, wrappers.go)
--   Garbage     internal/cmd/garbage_collect/garbage_collect.go: Mark and Sweep
--   Collector   internal/cmd/garbage_collect/cmd.go, and withoutProxy of garbage_collect.go
--   Http        pkg/http/http.go
--   Mux         pkg/http/route/route.go and the dispatch of internal/http/handler/handler.go
--   Handler     internal/http/handler: Access and Tokens (token.go, handler.go), Routes
--               (handler.go), Blobs (blobs.go), Uploads and Posts (blobs_upload.go), Manifests
--               (manifests.go), Listings (catalog.go, tags.go), Referrers (referrers.go);
--               Served runs them over the file system storage
--   Sample      a small storage for the examples
-- A child Laws, or one named for what it proves, holds theorems; a child Tests holds examples.
--
-- The correspondence. A Go method that changes state is an action: a function from the state to a
-- result and the next state, so that what was written before an error stays written. A run-time
-- panic is an error of its own that no handler catches. A string is the list of its bytes. A set or
-- a map is a list of its keys in the order of insertion, where Go's order is open. Times are
-- natural numbers. What is not of this repository is a parameter: the hashes, JSON, bcrypt, HMAC,
-- base64, the upstream's answers.
--
-- Fuel. markManifest recurses along references that may form a cycle; the set of seen digests ends
-- it. The model recurses on fuel, one unit for each manifest of a chain of references. The walk
-- over the repositories has one unit more than the deepest path of the disk has components.
--
-- Where the model is coarser than the program. A file has the time of its last write as its access
-- time, since a read leaves the disk as it is; a real file system may move the access time on a read
-- too. The open of a directory fails at once, where Go's fails at the first read. The garbage
-- collector goes through its roots and its plans in the order in which they were found, where Go's
-- maps have a random one. The verbs of a role are trimmed and raised as ASCII texts. The requests
-- that reach the table of routes are those that net/http has not redirected to a cleaner path.
--
-- Not modelled: the parsing of the command line, logging, the static pages, the headers of the
-- answers, and concurrency between requests.
pub mod Base
pub mod Regex
pub mod Paths
pub mod Disk
pub mod Oci
pub mod MapSet
pub mod Rbac
pub mod Uuid
pub mod Storage
mod Sample
pub mod Filesystem
pub mod Garbage
pub mod Http
pub mod Mux
pub mod Proxy
pub mod Handler
pub mod Validator
pub mod Yaml
pub mod Collector
pub mod Config
pub mod Serve
pub mod Digest
