-- ===== src/Filesystem/Sound.antt =====
-- The blobs of a disk have the hashes that their paths name: what that says, and which files cannot
-- break it.
pub mod Paths
pub mod Actions
pub mod Operations
pub mod Commits
pub mod Manifests
pub mod Collects
pub mod Reach
pub mod Tests
use simple_registry.Base.{
  ℕ, ◌≤◌, Bool, true, List, [], ◌∷◌, ◌++◌, Text, codes, Option, some, ok, ◌≡◌, All, length, take,
  ◌||◌, ◌&&◌, leb, inl, inr,
}
use simple_registry.Digest.{Algo, new_hasher}
use simple_registry.Disk.{Disk}
use simple_registry.Disk.Changes.{Changes}
use simple_registry.Disk.Laws.{file_at}
use simple_registry.Paths.{FilePath}
use simple_registry.Filesystem.Layout.{Library}

-- A lower-case hexadecimal digit.
abbrev pub is_hex : ℕ → Bool
is_hex c = (leb b'0' c && leb c b'9') || (leb b'a' c && leb c b'f')

-- What is known of a hash in hexadecimal: its digits, and that there are some.
pub record HexHashes (lib : Library) : Type 0 where
  pub digits : (algo : Algo) (t : Text) → All (λ c. is_hex c ≡ true) (lib.hash_as_string algo t)
  pub many : (algo : Algo) (t : Text) → 2 ≤ length (lib.hash_as_string algo t)

module _ (lib : Library) (base : FilePath) where
  -- A text may stand at a path: if it is that of a blob of a known algorithm, the text has the hash.
  pub record Fits (q : FilePath) (c : Text) : Type 0 where
    pub fits :
        (algo hash : Text) (hasher : Algo)
        → q ≡ base ++ codes "blobs" ∷ algo ∷ take 2 hash ∷ hash ∷ []
        → new_hasher algo ≡ ok hasher
        → lib.hash_as_string hasher c ≡ hash

  -- All files of the disk stand where they may.
  abbrev pub IsSound : Disk → Type 0
  IsSound d = (q : FilePath) (c : Text) (x : ℕ) → file_at q d ≡ some (c, x) → Fits q c

  pub IsSound-Changes : (d t : Disk) → IsSound d → Changes Fits d t → IsSound t
  IsSound-Changes d t sound h q c x f = elim (h q c x f) [ inl g ↦ sound q c x g | inr w ↦ w ]
