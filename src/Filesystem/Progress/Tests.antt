-- ===== src/Filesystem/Progress/Tests.antt =====
-- A whole upload to an empty disk.
use simple_registry.Base.{
  [], ◌∷◌, nat_eq, list_eq, list_beq, Text, codes, ok, ◌≡◌, refl, All, arith,
}
use simple_registry.Digest.{sha256, parse, split_first, check_parts, new_hasher}
use simple_registry.Disk.{Disk}
use simple_registry.Disk.Room.Writes.{HasRoom-empty}
use simple_registry.Paths.Plain.{IsPlain}
use simple_registry.Uuid.{stamp, to_string}
use simple_registry.Uuid.Laws.{IsByte, stamp-is_uuid}
use simple_registry.Validator.Digests.{is_uuid-IsPlain}
use simple_registry.Filesystem.Tests.{toy, valid_r, digest_ok}
use simple_registry.Filesystem.Progress.Paths.{
  data-off_session, start-off_session, blob-off_session, link-off_session,
}
use simple_registry.Filesystem.Progress.Whole.{upload_blob, upload_blob-Succeeds}

abbrev random_bytes : Text
random_bytes = 0 ∷ 1 ∷ 2 ∷ 3 ∷ 4 ∷ 5 ∷ 255 ∷ 7 ∷ 255 ∷ 9 ∷ 10 ∷ 11 ∷ 12 ∷ 13 ∷ 14 ∷ 255 ∷ []

abbrev empty_disk : Disk
empty_disk = record { nodes = []; now = 1; entropy = random_bytes ∷ [] }

are_bytes : All IsByte random_bytes
are_bytes = ground arith

session : Text
session = to_string (stamp random_bytes)

session-IsPlain : IsPlain session
unfolding session
session-IsPlain = is_uuid-IsPlain session (stamp-is_uuid random_bytes refl are_bytes)

algo-IsPlain : IsPlain (codes "sha256")
algo-IsPlain = ground arith

hash-IsPlain : IsPlain (codes "abc")
hash-IsPlain = ground arith

parts_abc : parse (codes "sha256:abc") ≡ ok (codes "sha256", codes "abc")
unfolding parse split_first check_parts list_beq
parts_abc = refl

known_sha256 : new_hasher (codes "sha256") ≡ ok sha256
unfolding new_hasher list_beq
known_sha256 = refl

upload_blob-Succeeds_example :
    (t : Disk) × (upload_blob toy [] (codes "r") (codes "sha256:abc") (codes "abc") empty_disk
      ≡ (ok (codes "abc", 3), t))
unfolding session
upload_blob-Succeeds_example =
    upload_blob-Succeeds toy [] empty_disk (codes "r") (codes "sha256:abc") (codes "abc")
      (codes "sha256") (codes "abc") random_bytes [] sha256 valid_r digest_ok parts_abc refl
      known_sha256 refl refl refl are_bytes
      (HasRoom-empty _ _ 1 (random_bytes ∷ []) (
        start-off_session [] (codes "r") valid_r session session-IsPlain (codes "sha256")
          (codes "abc") algo-IsPlain hash-IsPlain))
      (HasRoom-empty _ _ 1 (random_bytes ∷ []) (
        data-off_session [] (codes "r") valid_r session session-IsPlain (codes "sha256")
          (codes "abc") algo-IsPlain hash-IsPlain))
      (HasRoom-empty _ _ 1 (random_bytes ∷ []) (
        blob-off_session [] (codes "r") valid_r session session-IsPlain (codes "sha256")
          (codes "abc") algo-IsPlain hash-IsPlain))
      (HasRoom-empty _ _ 1 (random_bytes ∷ []) (
        link-off_session [] (codes "r") valid_r session session-IsPlain (codes "sha256")
          (codes "abc") algo-IsPlain hash-IsPlain))
