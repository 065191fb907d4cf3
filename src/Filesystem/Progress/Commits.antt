-- ===== src/Filesystem/Progress/Commits.antt =====
-- When a commit succeeds.
use simple_registry.Base.{
  ℕ, Bool, true, false, some, ◌==◌, nat_eq, list_eq, Text, codes, Error, ok, Action, lift, ◌>>=◌,
  ◌>>◌, ◌≡◌, ◌≢◌, refl, sym, ◌∙◌, ap, bind_of_ok, kept_bind, length, ltb, ==_refl, digest_mismatch,
  repo_invalid, uuid_invalid,
}
use simple_registry.Digest.{Algo, parse, new_hasher}
use simple_registry.Disk.{
  Disk, is_under, read_file, mkdir_all, remove, rename, remove_all, write_file,
}
use simple_registry.Disk.Laws.{file_at, mkdir_all-files, remove-other, read_file_iff}
use simple_registry.Disk.Room.{HasRoom}
use simple_registry.Disk.Room.Writes.{
  mkdir_all-Makes, write_file_ok, rename_ok, remove-other_dir, HasRoom-mkdir_all, HasRoom-remove,
  HasRoom-remove_all, HasRoom-rename,
}
use simple_registry.Paths.{FilePath, dir_of}
use simple_registry.Validator.{is_name, is_uuid}
use simple_registry.Filesystem.Blobs.{reads}
use simple_registry.Filesystem.Layout.{Library, upload_file, layer_link, blob_path}
use simple_registry.Filesystem.Uploads.{
  require, ignore, verify_upload, store_upload, write_link, blobs_upload_commit,
}

pub require-true : (b : Bool) (e : Error) (d : Disk) → b ≡ true → require b e d ≡ (ok tt, d)
require-true b e d h = rw h refl

module _ (lib : Library) (base : FilePath) where
  pub write_link-Succeeds :
      (p : FilePath) (digest : Text) (d : Disk)
      → is_under p (dir_of p) ≡ false
      → HasRoom p d
      → (t : Disk) × (write_link lib base p digest d ≡ (ok tt, t))
  unfolding write_link
  write_link-Succeeds p digest d off room =
      let t = (mkdir_all (dir_of p) d).1 in
      let (made, into) = mkdir_all-Makes (dir_of p) d room.above in
      let room' = HasRoom-mkdir_all p (dir_of p) d off room in
      (
        (write_file p digest t).1,
        bind_of_ok (mkdir_all (dir_of p)) (λ _. write_file p digest) d (λ i. (made i, t)) ∙ (λ i. (
          ap (λ z. z.0) (write_file_ok p digest t into room'.here) i,
          (write_file p digest t).1,
        )),
      )

  pub verify_upload-Passes :
      (repo uuid algo hash content : Text) (hasher : Algo) (d : Disk)
      → is_name repo ≡ true
      → is_uuid uuid ≡ true
      → read_file (upload_file base repo uuid (codes "data")) d ≡ ok content
      → new_hasher algo ≡ ok hasher
      → lib.hash_as_string hasher content ≡ hash
      → verify_upload lib base repo uuid algo hash d ≡ (ok tt, d)
  unfolding verify_upload
  verify_upload-Passes repo uuid algo hash content hasher d valid id at known hashed =
      let check : Text → Algo → Action Disk (Unit {0}) =
        λ c hasher. require (lib.hash_as_string hasher c == hash) digest_mismatch in
      let hashing : Text → Action Disk (Unit {0}) = λ c. lift (new_hasher algo) >>= check c in
      let reading : Action Disk (Unit {0}) =
        reads (upload_file base repo uuid (codes "data")) >>= hashing in
      let ids : Action Disk (Unit {0}) = require (is_uuid uuid) uuid_invalid >> reading in
      bind_of_ok (require (is_name repo) repo_invalid) (λ _. ids) d (require-true _ _ d valid)
      ∙ bind_of_ok (require (is_uuid uuid) uuid_invalid) (λ _. reading) d (require-true _ _ d id)
      ∙ bind_of_ok (reads (upload_file base repo uuid (codes "data"))) hashing d (λ i. (at i, d))
      ∙ bind_of_ok (lift (new_hasher algo)) (check content) d (λ i. (known i, d))
      ∙ require-true _ _ d (ap (λ z. z == hash) hashed ∙ ==_refl hash)

  -- The data of an upload move to the path of the blob.
  pub store_upload-Succeeds :
      (repo uuid algo hash content : Text) (x : ℕ) (d : Disk)
      → let u = upload_file base repo uuid (codes "data") in
        let b = blob_path base algo hash in
        file_at u d ≡ some (content, x)
        → u ≢ b
        → is_under b (dir_of b) ≡ false
        → b ≢ dir_of b
        → HasRoom b d
        → (store_upload lib base repo uuid algo hash d).0 ≡ ok tt
  unfolding store_upload remove_all
  store_upload-Succeeds repo uuid algo hash content x d at u_b off b_dir room =
      let u = upload_file base repo uuid (codes "data") in
      let b = blob_path base algo hash in
      let d1 = (mkdir_all (dir_of b) d).1 in
      let d2 = (remove b d1).1 in
      let d3 = (rename u b d2).1 in
      let (made, into) = mkdir_all-Makes (dir_of b) d room.above in
      let room1 = HasRoom-mkdir_all b (dir_of b) d off room in
      let room2 = HasRoom-remove b b d1 room1 in
      let at2 : file_at u d2 ≡ some (content, x) =
        remove-other b d1 u (λ e. u_b (sym e)) ∙ mkdir_all-files (dir_of b) d u ∙ at in
      let into2 = remove-other_dir b (dir_of b) d1 b_dir into in
      let moved = rename_ok u b content x d2 at2 into2 room2.here in
      ap (λ z. z.0)
        (bind_of_ok (mkdir_all (dir_of b))
            (λ _. ignore (remove b) >> (rename u b >> remove_all (dir_of u))) d (λ i. (made i, d1))
          ∙ bind_of_ok (rename u b) (λ _. remove_all (dir_of u)) d2 (λ i. (moved i, d3)))

  -- Whether it succeeds or not, it leaves the room for another file.
  pub store_upload-HasRoom :
      (repo uuid algo hash : Text) (p : FilePath) (d : Disk)
      → let b = blob_path base algo hash in
        is_under b (dir_of p) ≡ false
        → is_under p (dir_of b) ≡ false
        → HasRoom p d
        → HasRoom p (store_upload lib base repo uuid algo hash d).1
  unfolding store_upload
  store_upload-HasRoom repo uuid algo hash p d b_p p_b room =
      let u = upload_file base repo uuid (codes "data") in
      let b = blob_path base algo hash in
      let moved : Action Disk (Unit {0}) = rename u b >> remove_all (dir_of u) in
      let cleared : Action Disk (Unit {0}) = ignore (remove b) >> moved in
      kept_bind (HasRoom p) (mkdir_all (dir_of b)) (λ _. cleared) d
        (HasRoom-mkdir_all p (dir_of b) d p_b room)
        (λ _ r.
          kept_bind (HasRoom p) (ignore (remove b)) (λ _. moved) (mkdir_all (dir_of b) d).1
            (HasRoom-remove p b (mkdir_all (dir_of b) d).1 r)
            (λ _ r'.
              kept_bind (HasRoom p) (rename u b) (λ _. remove_all (dir_of u))
                (remove b (mkdir_all (dir_of b) d).1).1
                (HasRoom-rename p u b (remove b (mkdir_all (dir_of b) d).1).1 b_p r')
                (λ _ r''. HasRoom-remove_all p (dir_of u) _ r'')))

  -- A commit succeeds where the upload has the bytes of the digest and there is room for the blob and
  -- for the link.
  pub blobs_upload_commit-Succeeds :
      (repo uuid digest algo hash content : Text) (hasher : Algo) (x : ℕ) (d : Disk)
      → let u = upload_file base repo uuid (codes "data") in
        let b = blob_path base algo hash in
        let l = layer_link base repo algo hash in
        is_name repo ≡ true
        → is_uuid uuid ≡ true
        → parse digest ≡ ok (algo, hash)
        → ltb (length hash) 2 ≡ false
        → new_hasher algo ≡ ok hasher
        → lib.hash_as_string hasher content ≡ hash
        → file_at u d ≡ some (content, x)
        → u ≢ b
        → is_under b (dir_of b) ≡ false
        → b ≢ dir_of b
        → is_under b (dir_of l) ≡ false
        → is_under l (dir_of b) ≡ false
        → is_under l (dir_of l) ≡ false
        → HasRoom b d
        → HasRoom l d
        → (t : Disk) × (blobs_upload_commit lib base repo uuid digest d ≡ (ok tt, t))
  unfolding blobs_upload_commit
  blobs_upload_commit-Succeeds repo uuid digest algo hash content hasher x d valid id parts long
        known hashed at u_b off b_dir b_l l_b l_l room room_l =
      let u = upload_file base repo uuid (codes "data") in
      let b = blob_path base algo hash in
      let l = layer_link base repo algo hash in
      let t = (store_upload lib base repo uuid algo hash d).1 in
      let stored = store_upload-Succeeds repo uuid algo hash content x d at u_b off b_dir room in
      let room' = store_upload-HasRoom repo uuid algo hash l d b_l l_b room_l in
      let (t', linked) = write_link-Succeeds l digest t l_l room' in
      let checked =
        verify_upload-Passes repo uuid algo hash content hasher d valid id
          ((read_file_iff u d content).1 (x, at)) known hashed in
      (
        t',
        rw (parts, long)
            (bind_of_ok (verify_upload lib base repo uuid algo hash)
                (λ _. store_upload lib base repo uuid algo hash >> write_link lib base l digest) d
                checked
              ∙ bind_of_ok (store_upload lib base repo uuid algo hash)
                  (λ _. write_link lib base l digest) d (λ i. (stored i, t))
              ∙ linked),
      )
