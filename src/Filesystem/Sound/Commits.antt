-- ===== src/Filesystem/Sound/Commits.antt =====
-- No commit of an upload brings about a file that breaks a blob, whether it fails or not.
use simple_registry.Base.{
  true, nat_eq, list_eq, Text, codes, Result, ok, Action, raise, lift, ◌>>=◌, ◌>>◌, ◌≡◌, sym, ◌∙◌,
  subst, inl, inr, length, ltb, if◌then◌else◌, hash_short, digest_mismatch, repo_invalid,
  uuid_invalid, ◌==◌,
}
use simple_registry.Digest.{Algo, new_hasher, parse}
use simple_registry.Disk.{Disk, read_file, mkdir_all, remove_all, remove, rename}
use simple_registry.Disk.Changes.{
  Changes, Changes-refl, Changes-trans, Changes-bind, mkdir_all-Changes, remove_all-Changes,
  remove-Changes, rename-Changes,
}
use simple_registry.Disk.Laws.{read_file_iff}
use simple_registry.Paths.{FilePath, dir_of}
use simple_registry.Paths.Plain.{IsPlain}
use simple_registry.Validator.{is_name, is_uuid}
use simple_registry.Filesystem.Blobs.{reads}
use simple_registry.Filesystem.Commits.{hash_or_pass}
use simple_registry.Filesystem.Layout.{Library, upload_file, blob_path, layer_link}
use simple_registry.Filesystem.Stored.{layer_at}
use simple_registry.Filesystem.Uploads.{
  require, ignore, verify_upload, store_upload, write_link, blobs_upload_commit,
}
use simple_registry.Filesystem.Sound.{Fits, HexHashes}
use simple_registry.Filesystem.Sound.Paths.{
  hash-IsPlain, new_hasher-IsPlain, repositories-Fits, blob-Fits,
}
use simple_registry.Filesystem.Sound.Actions.{
  Always, Always-bind, Always-if, Always-require, Always-guard, write_link-Always,
}
use simple_registry.Filesystem.Sound.Operations.{Safely}

ok_text : {a b : Text} → ◌≡◌ {A = Result Text} (ok a) (ok b) → a ≡ b
ok_text h = cc

module _ (lib : Library) (base : FilePath) where
  -- A file that is read after a change that brings about no file was there before.
  read_before :
      (p : FilePath) (c : Text) (d t : Disk)
      → Changes (λ _ _. ⊥) d t
      → read_file p t ≡ ok c
      → read_file p d ≡ ok c
  read_before p c d t h r =
      let (x, f) = (read_file_iff p t c).0 r in
      elim (h p c x f) [ inl g ↦ (read_file_iff p d c).1 (x, g) | inr z ↦ absurd z ]

  store_upload-Changes :
      (repo uuid algo hash : Text) (d : Disk)
      → ((c : Text)
          → read_file (upload_file base repo uuid (codes "data")) d ≡ ok c
          → Fits lib base (blob_path base algo hash) c)
      → Changes (Fits lib base) d (store_upload lib base repo uuid algo hash d).1
  unfolding store_upload
  store_upload-Changes repo uuid algo hash d fine =
      let W = Fits lib base in
      let N : FilePath → Text → Type 0 = λ _ _. ⊥ in
      let u = upload_file base repo uuid (codes "data") in
      let b = blob_path base algo hash in
      let d1 = (mkdir_all (dir_of b) d).1 in
      let d2 = (remove b d1).1 in
      let before = λ (c : Text) (r : read_file u d2 ≡ ok c).
        read_before u c d d2
          (Changes-trans N d d1 d2 (mkdir_all-Changes N (dir_of b) d) (remove-Changes N b d1)) r in
      Changes-bind W (mkdir_all (dir_of b))
        (λ _. ignore (remove b) >> (rename u b >> remove_all (dir_of u))) d
        (mkdir_all-Changes W (dir_of b) d)
        (λ _ _.
          Changes-bind W (ignore (remove b)) (λ _. rename u b >> remove_all (dir_of u)) d1
            (remove-Changes W b d1)
            (λ _ _.
              Changes-bind W (rename u b) (λ _. remove_all (dir_of u)) d2
                (rename-Changes W u b d2 (λ c r. fine c (before c r)))
                (λ _ _. remove_all-Changes W (dir_of u) (rename u b d2).1)))

  -- Up to the comparison of the hashes nothing is written.
  verify_upload-Keeps :
      (repo uuid algo hash : Text) → Always (λ _ _. ⊥) (verify_upload lib base repo uuid algo hash)
  unfolding verify_upload
  verify_upload-Keeps repo uuid algo hash =
      let N : FilePath → Text → Type 0 = λ _ _. ⊥ in
      let check : Text → Algo → Action Disk (Unit {0}) =
        λ content hasher. require (lib.hash_as_string hasher content == hash) digest_mismatch in
      let hashing : Text → Action Disk (Unit {0}) =
        λ content. lift (new_hasher algo) >>= check content in
      let reading : Action Disk (Unit {0}) =
        reads (upload_file base repo uuid (codes "data")) >>= hashing in
      Always-guard N (is_name repo) repo_invalid (require (is_uuid uuid) uuid_invalid >> reading)
        (λ _. Always-guard N (is_uuid uuid) uuid_invalid reading (λ _.
          Always-bind N (reads (upload_file base repo uuid (codes "data"))) hashing
            (λ d. Changes-refl N d)
            (λ content.
              Always-bind N (lift (new_hasher algo)) (check content) (λ d. Changes-refl N d)
                (λ hasher.
                  Always-require N (lib.hash_as_string hasher content == hash) digest_mismatch))))

  Changes-nothing :
      (W : FilePath → Text → Type 0) (d t : Disk) → Changes (λ _ _. ⊥) d t → Changes W d t
  Changes-nothing W d t h q c x f = elim (h q c x f) [ inl g ↦ inl g | inr z ↦ absurd z ]

  module _ (hex : HexHashes lib) where
    verified-Fits :
        (repo uuid algo hash : Text) (d t : Disk)
        → verify_upload lib base repo uuid algo hash d ≡ (ok tt, t)
        → (is_name repo ≡ true)
          × IsPlain algo
          × IsPlain hash
          × ((c : Text)
              → read_file (upload_file base repo uuid (codes "data")) t ≡ ok c
              → Fits lib base (blob_path base algo hash) c)
    verified-Fits repo uuid algo hash d t h =
        let (valid, _, hasher, content, known, r, hashed, same) =
          hash_or_pass lib base repo uuid algo hash d t h in
        let plain_a = new_hasher-IsPlain algo hasher known in
        let plain_h = subst IsPlain hashed (hash-IsPlain lib hex hasher content) in
        (
          valid,
          plain_a,
          plain_h,
          λ c k.
              let e : ◌≡◌ {A = Result Text} (ok content) (ok c) =
                sym r
                ∙ subst (λ z. read_file (upload_file base repo uuid (codes "data")) z ≡ ok c) same
                    k in
              blob-Fits lib base algo hash c hasher plain_a plain_h known
                (subst (λ z. lib.hash_as_string hasher z ≡ hash) (ok_text e) hashed),
        )

    pub blobs_upload_commit-Safely :
        (repo uuid digest : Text) → Safely lib base (blobs_upload_commit lib base repo uuid digest)
    unfolding blobs_upload_commit
    blobs_upload_commit-Safely repo uuid digest =
        let W = Fits lib base in
        let store : Text → Text → Action Disk (Unit {0}) = λ algo hash.
          store_upload lib base repo uuid algo hash
          >> write_link lib base (layer_link base repo algo hash) digest in
        let commit : Text → Text → Action Disk (Unit {0}) =
          λ algo hash. verify_upload lib base repo uuid algo hash >> store algo hash in
        Always-bind W (lift (parse digest))
          (λ p. if ltb (length p.1) 2 then raise hash_short else commit p.0 p.1)
          (λ d. Changes-refl W d)
          (λ p.
            Always-if W (ltb (length p.1) 2) (raise hash_short) (commit p.0 p.1)
              (λ _ d. Changes-refl W d)
              (λ d.
                Changes-bind W (verify_upload lib base repo uuid p.0 p.1) (λ _. store p.0 p.1) d
                  (Changes-nothing W d _ (verify_upload-Keeps repo uuid p.0 p.1 d))
                  (λ u r.
                    let t = (verify_upload lib base repo uuid p.0 p.1 d).1 in
                    let (valid, plain_a, plain_h, fine) =
                      verified-Fits repo uuid p.0 p.1 d t (λ i. (r i, t)) in
                    Changes-bind W (store_upload lib base repo uuid p.0 p.1)
                      (λ _. write_link lib base (layer_link base repo p.0 p.1) digest) t
                      (store_upload-Changes repo uuid p.0 p.1 t fine)
                      (λ _ _.
                        write_link-Always W lib base (layer_link base repo p.0 p.1) digest
                          (repositories-Fits lib base (layer_link base repo p.0 p.1) digest _
                            (layer_at base repo valid p.0 p.1 plain_a plain_h))
                          _))))
