-- ===== src/Filesystem/Progress/Whole.antt =====
-- A whole upload: create a session, write the bytes, commit them, and get the blob.
use simple_registry.Base.{
  ℕ, true, false, none, List, ◌∷◌, nat_eq, list_eq, Text, codes, ok, Action, ◌>>=◌, ◌>>◌, ◌≡◌, ◌≢◌,
  refl, sym, ◌∙◌, subst, bind_of_ok, length, ltb, All,
}
use simple_registry.Digest.{Algo, parse, new_hasher}
use simple_registry.Disk.{Disk, is_under}
use simple_registry.Disk.Laws.{read_file_iff}
use simple_registry.Disk.Room.{HasRoom}
use simple_registry.Paths.{FilePath, dir_of}
use simple_registry.Paths.Plain.{IsPlain}
use simple_registry.Uuid.{stamp, to_string}
use simple_registry.Uuid.Laws.{IsByte, stamp-is_uuid}
use simple_registry.Validator.{is_name, is_digest, is_uuid}
use simple_registry.Validator.Digests.{is_digest-parse, is_uuid-IsPlain}
use simple_registry.Filesystem.Abstract.Apart.{is_under_refl}
use simple_registry.Filesystem.Blobs.{blobs_get}
use simple_registry.Filesystem.Layout.{Library, upload_file, upload_dir, layer_link, blob_path}
use simple_registry.Filesystem.Stored.{blobs_upload_commit-Stored}
use simple_registry.Filesystem.Uploads.{
  blobs_upload_create, blobs_upload_write, blobs_upload_commit,
}
use simple_registry.Filesystem.Progress.Commits.{blobs_upload_commit-Succeeds}
use simple_registry.Filesystem.Progress.Paths.{
  dir_of-data, dir_of-start, data-off_session, start-off_session, data-off_blob, blob-off_session,
  link-off_session, data-off_blob_dir, start-off_blob_dir, data-off_link_dir, start-off_link_dir,
  link-off_blob_dir, blob-off_link_dir, link-off_link_dir, blob-off_blob_dir,
}
use simple_registry.Filesystem.Progress.Sessions.{
  Holds, blobs_upload_create-Succeeds, blobs_upload_write-Succeeds,
}

-- The requests of a client that uploads a blob in one piece and gets it.
abbrev pub upload_blob : Library → FilePath → Text → Text → Text → Action Disk (Text × ℕ)
upload_blob lib base repo digest content = do
  uuid ← blobs_upload_create lib base repo
  blobs_upload_write lib base repo uuid content none
  blobs_upload_commit lib base repo uuid digest
  blobs_get base repo digest

ne_dir : (p q : FilePath) → is_under p q ≡ false → p ≢ q
ne_dir p q off e =
    let here : is_under p p ≡ false = subst (λ z. is_under p z ≡ false) (sym e) off in
    let own = is_under_refl p in cc

-- A session with the bytes of a valid digest is committed, and the blob is served.
commit-Serves :
    (lib : Library) (base : FilePath) (d t : Disk) (repo uuid digest content algo hash : Text)
    (hasher : Algo)
    → is_name repo ≡ true
    → is_uuid uuid ≡ true
    → is_digest digest ≡ true
    → parse digest ≡ ok (algo, hash)
    → IsPlain algo
    → IsPlain hash
    → ltb (length hash) 2 ≡ false
    → new_hasher algo ≡ ok hasher
    → lib.hash_as_string hasher content ≡ hash
    → HasRoom (blob_path base algo hash) d
    → HasRoom (layer_link base repo algo hash) d
    → Holds lib base repo uuid content d t
    → (t' : Disk) × ((blobs_upload_commit lib base repo uuid digest >> blobs_get base repo digest) t
        ≡ (ok (content, length content), t'))
commit-Serves lib base d t repo uuid digest content algo hash hasher valid id valid_d parts pa ph
      long known hashed room_b room_l h =
    let pu = is_uuid-IsPlain uuid id in
    let b = blob_path base algo hash in
    let off_b = blob-off_blob_dir base repo valid uuid pu algo hash pa ph in
    let room_b' =
      h.room b (blob-off_session base repo valid uuid pu algo hash pa ph)
        (start-off_blob_dir base repo valid uuid pu algo hash pa ph)
        (data-off_blob_dir base repo valid uuid pu algo hash pa ph) room_b in
    let room_l' =
      h.room (layer_link base repo algo hash)
        (link-off_session base repo valid uuid pu algo hash pa ph)
        (start-off_link_dir base repo valid uuid pu algo hash pa ph)
        (data-off_link_dir base repo valid uuid pu algo hash pa ph) room_l in
    let (t', committed) =
      blobs_upload_commit-Succeeds lib base repo uuid digest algo hash content hasher h.at t valid
        id parts long known hashed h.bytes (data-off_blob base repo valid uuid pu algo hash pa ph)
        off_b (ne_dir b (dir_of b) off_b)
        (blob-off_link_dir base repo valid uuid pu algo hash pa ph)
        (link-off_blob_dir base repo valid uuid pu algo hash pa ph)
        (link-off_link_dir base repo valid uuid pu algo hash pa ph) room_b' room_l' in
    let (c, _, read, got) =
      blobs_upload_commit-Stored lib base repo uuid digest t t' valid_d committed in
    let mine =
      (read_file_iff (upload_file base repo uuid (codes "data")) t content).1 (h.at, h.bytes) in
    let same : c ≡ content = cc in
    (
      t',
      bind_of_ok (blobs_upload_commit lib base repo uuid digest) (λ _. blobs_get base repo digest) t
            committed
          ∙ got
          ∙ (rw same refl),
    )

-- An upload in one piece gets through: for a valid repository, a valid digest of a known algorithm
-- that is the hash of the bytes, random bytes for the upload id, and room on the disk for the two
-- files of the session, for the blob and for the link, the session is created, written and
-- committed, and the blob is served with these bytes.
pub upload_blob-Succeeds :
    (lib : Library) (base : FilePath) (d : Disk) (repo digest content algo hash bytes : Text)
    (rest : List Text) (hasher : Algo)
    → is_name repo ≡ true
    → is_digest digest ≡ true
    → parse digest ≡ ok (algo, hash)
    → ltb (length hash) 2 ≡ false
    → new_hasher algo ≡ ok hasher
    → lib.hash_as_string hasher content ≡ hash
    → d.entropy ≡ bytes ∷ rest
    → length bytes ≡ 16
    → All IsByte bytes
    → HasRoom (upload_file base repo (to_string (stamp bytes)) (codes "startedat")) d
    → HasRoom (upload_file base repo (to_string (stamp bytes)) (codes "data")) d
    → HasRoom (blob_path base algo hash) d
    → HasRoom (layer_link base repo algo hash) d
    → (t : Disk) × (upload_blob lib base repo digest content d ≡ (ok (content, length content), t))
upload_blob-Succeeds lib base d repo digest content algo hash bytes rest hasher valid valid_d parts
      long known hashed random sixteen are_bytes room_a room_u room_b room_l =
    let uuid = to_string (stamp bytes) in
    let id = stamp-is_uuid bytes sixteen are_bytes in
    let pu = is_uuid-IsPlain uuid id in
    let (a, k, q, plain_a, plain_k) = is_digest-parse digest valid_d in
    let same_a : a ≡ algo = cc in
    let same_k : k ≡ hash = cc in
    let pa = subst IsPlain same_a plain_a in
    let ph = subst IsPlain same_k plain_k in
    let s = upload_dir base repo uuid in
    let start = upload_file base repo uuid (codes "startedat") in
    let data_file = upload_file base repo uuid (codes "data") in
    let dir_a = dir_of-start base repo valid uuid pu algo hash pa ph in
    let dir_u = dir_of-data base repo valid uuid pu algo hash pa ph in
    let off_a = start-off_session base repo valid uuid pu algo hash pa ph in
    let off_u = data-off_session base repo valid uuid pu algo hash pa ph in
    let ne_u = ne_dir data_file s off_u in
    let (t1, created, begun) =
      blobs_upload_create-Succeeds lib base repo uuid bytes rest d valid random refl dir_a dir_u
        off_a off_u (ne_dir start s off_a) ne_u room_a room_u in
    let (t2, written, held) =
      blobs_upload_write-Succeeds lib base repo uuid content d t1 valid id dir_u ne_u begun in
    let (t3, served) =
      commit-Serves lib base d t2 repo uuid digest content algo hash hasher valid id valid_d parts
        pa ph long known hashed room_b room_l held in
    let commits : Text → Action Disk (Text × ℕ) =
      λ id. blobs_upload_commit lib base repo id digest >> blobs_get base repo digest in
    (
      t3,
      bind_of_ok (blobs_upload_create lib base repo)
            (λ id. blobs_upload_write lib base repo id content none >> commits id) d created
          ∙ bind_of_ok (blobs_upload_write lib base repo uuid content none) (λ _. commits uuid) t1
              written
          ∙ served,
    )
