-- ===== src/Filesystem/Abstract.antt =====
-- What the storage of blobs promises: each repository names some digests, and a digest stands for
-- some bytes, which all repositories share. `abstract` is what a disk means by that.
pub mod Apart
pub mod Refines
pub mod Commits
mod Tests
use simple_registry.Base.{
  ℕ, Bool, true, false, ◌&&◌, Option, none, some, [], ◌==◌, nat_eq, list_eq, Text, Result, ok, err,
  ◌≡◌, if◌then◌else◌, ltb, length,
}
use simple_registry.Digest.{parse}
use simple_registry.Disk.{Disk}
use simple_registry.Disk.Laws.{file_at}
use simple_registry.Paths.{FilePath}
use simple_registry.Validator.{is_name, is_digest}
use simple_registry.Filesystem.Layout.{layer_link, blob_path}

pub record Store : Type 0 where
  pub linked : Text → Text → Bool
  pub content : Text → Option Text

-- The operations of the store.
abbrev pub get : Text → Text → Store → Option Text
get repo digest s = if s.linked repo digest then s.content digest else none

abbrev pub unlink : Text → Text → Store → Store
unlink repo digest s = record s {
  linked = λ r x. if r == repo && x == digest then false else s.linked r x;
}

abbrev pub erase : Text → Store → Store
erase digest s = record s { content = λ x. if x == digest then none else s.content x }

abbrev pub commit : Text → Text → Text → Store → Store
commit repo digest bytes s = record {
  linked = λ r x. if r == repo && x == digest then true else s.linked r x;
  content = λ x. if x == digest then some bytes else s.content x;
}

-- The two stores mean the same for the names and the digests that the registry lets through.
abbrev pub Agrees : Store → Store → Type 0
Agrees s s' =
    (repo digest : Text)
    → is_name repo ≡ true
    → is_digest digest ≡ true
    → (s.linked repo digest ≡ s'.linked repo digest) × (s.content digest ≡ s'.content digest)

abbrev pub parts : Text → Text × Text
parts digest = elim (parse digest) [ ok p ↦ p | err e ↦ ([], []) ]

abbrev pub holds : Text → Option (Text × ℕ) → Bool
holds digest none = false
holds digest (some (c, t)) = c == digest

abbrev pub bytes : Option (Text × ℕ) → Option Text
bytes none = none
bytes (some (c, t)) = some c

-- A hash of fewer than two bytes names no blob.
abbrev pub blob_at_parts : FilePath → Disk → Text × Text → Option Text
blob_at_parts base d (algo, hash) =
    if ltb (length hash) 2 then none else bytes (file_at (blob_path base algo hash) d)

abbrev pub abstract : FilePath → Disk → Store
abstract base d = record {
  linked = λ repo digest.
      let (algo, hash) = parts digest in holds digest (file_at (layer_link base repo algo hash) d);
  content = λ digest. blob_at_parts base d (parts digest);
}

-- What a result serves.
abbrev pub served : Result (Text × ℕ) → Option Text
served (ok (c, n)) = some c
served (err e) = none
