-- ===== src/Filesystem/Sound/Manifests.antt =====
-- No operation of manifests brings about a file that breaks a blob, whether it fails or not.
use simple_registry.Base.{
  ℕ, true, Option, none, some, [], ◌∷◌, ◌++◌, nat_eq, list_eq, Text, codes, Result, ok, err, Action,
  pure, lift, ◌>>=◌, ◌>>◌, ◌≡◌, All, inl, inr, Bool-cases, Option-cases, arith, if◌then◌else◌,
  repo_invalid, panic,
}
use simple_registry.Digest.{sha256, parse}
use simple_registry.Disk.{Disk, write_file, mkdir_all, remove_all}
use simple_registry.Disk.Changes.{
  Changes-refl, Changes-same, Changes-trans, mkdir_all-Changes, remove_all-Changes,
  write_file-Changes,
}
use simple_registry.Oci.{ImageManifest, DescriptorManifest}
use simple_registry.Paths.{FilePath}
use simple_registry.Paths.Plain.{IsPlain}
use simple_registry.Validator.{is_name, is_tag}
use simple_registry.Validator.Digests.{is_tag-IsPlain}
use simple_registry.Filesystem.Blobs.{stats}
use simple_registry.Filesystem.Layout.{Library}
use simple_registry.Filesystem.Manifests.{
  manifest_algo, tag_link, referrer_dir, referrer_link, index_subject, index_referrer, manifest_put,
  manifest_get, drop_referrer, delete_revision, manifest_delete, tag_dir, revision_dir,
  revision_link, update_tag, on_manifest, drop_decoded, drop_subject, delete_tag, parse_or_invalid,
}
use simple_registry.Filesystem.Reads.{reads-Keeps}
use simple_registry.Filesystem.Uploads.{
  ignore, blobs_upload_create, blobs_upload_write, write_link, blobs_upload_commit,
}
use simple_registry.Filesystem.Sound.{Fits, HexHashes}
use simple_registry.Filesystem.Sound.Paths.{
  hash-IsPlain, manifests-Fits, referrer-Fits, calm-IsPlain, hash-IsCalm, digest-IsCalm, IsCalm,
}
use simple_registry.Filesystem.Sound.Actions.{
  Always-bind, Always-if, Always-guard, remove_at-Always, write_link-Always, ignore-Always,
}
use simple_registry.Filesystem.Sound.Operations.{
  Safely, blobs_upload_create-Safely, blobs_upload_write-Safely,
}
use simple_registry.Filesystem.Sound.Commits.{blobs_upload_commit-Safely}

module _ (lib : Library) (base : FilePath) where
  drop_decoded-Safely :
      (repo reference : Text) (m : Option ImageManifest)
      → Safely lib base (drop_decoded lib base repo reference m)
  drop_decoded-Safely repo reference none = λ d. Changes-refl (Fits lib base) d
  drop_decoded-Safely repo reference (some m) = drop_subject-Safely m.subject
    where
      drop_subject-Safely :
          (s : Option DescriptorManifest) → Safely lib base (drop_subject lib base repo reference s)
      drop_subject-Safely none = λ d. Changes-refl (Fits lib base) d
      drop_subject-Safely (some s) = λ d. remove_all-Changes (Fits lib base) _ d

  on_manifest-Safely :
      (repo reference : Text) (r : Result (Text × ℕ × Text))
      → Safely lib base (on_manifest lib base repo reference r)
  on_manifest-Safely repo reference (ok r) =
      drop_decoded-Safely repo reference (lib.decode_image_manifest r.0)
  on_manifest-Safely repo reference (err panic) = λ d. Changes-refl (Fits lib base) d
  on_manifest-Safely repo reference (err _) = λ d. Changes-refl (Fits lib base) d

  drop_referrer-Safely :
      (repo reference : Text) → Safely lib base (drop_referrer lib base repo reference)
  unfolding drop_referrer
  drop_referrer-Safely repo reference d =
      let d' = (manifest_get lib base repo reference d).1 in
      Changes-trans (Fits lib base) d d' _
        (Changes-same (Fits lib base) d d' ((reads-Keeps lib base repo [] [] reference).3 d))
        (on_manifest-Safely repo reference (manifest_get lib base repo reference d).0 d')

  delete_revision-Safely :
      (repo reference : Text) → Safely lib base (delete_revision lib base repo reference)
  unfolding delete_revision
  delete_revision-Safely repo reference =
      let W = Fits lib base in
      let delete : Text × Text → Action Disk (Unit {0}) = λ p.
        stats (revision_dir lib base repo p.0 p.1)
        >> remove_all (revision_dir lib base repo p.0 p.1) in
      Always-bind W (lift (parse_or_invalid lib base reference)) delete (λ d. Changes-refl W d)
        (λ p. remove_at-Always W (revision_dir lib base repo p.0 p.1))

  pub manifest_delete-Safely :
      (repo reference : Text) → Safely lib base (manifest_delete lib base repo reference)
  unfolding manifest_delete
  manifest_delete-Safely repo reference =
      let W = Fits lib base in
      let revision : Action Disk (Unit {0}) =
        drop_referrer lib base repo reference >> delete_revision lib base repo reference in
      let delete : Action Disk (Unit {0}) =
        if is_tag reference then delete_tag lib base repo reference else revision in
      Always-guard W (is_name repo) repo_invalid delete (λ _.
        Always-if W (is_tag reference) (delete_tag lib base repo reference) revision
          (λ _. remove_at-Always W (tag_dir lib base repo reference))
          (Always-bind W (drop_referrer lib base repo reference)
            (λ _. delete_revision lib base repo reference) (drop_referrer-Safely repo reference)
            (λ _. delete_revision-Safely repo reference)))

  module _ (hex : HexHashes lib) where
    index_subject-Safely :
        (repo hash subject : Text)
        → All IsCalm hash
        → Safely lib base (index_subject lib base repo (manifest_algo ++ b':' ∷ hash) subject)
    unfolding index_subject
    index_subject-Safely repo hash subject calm =
        let W = Fits lib base in
        let referrer = manifest_algo ++ b':' ∷ hash in
        let write : Text → Text → Action Disk (Unit {0}) = λ algo h.
          mkdir_all (referrer_dir lib base repo algo h referrer)
          >> write_file (referrer_link lib base repo algo h referrer) subject in
        let plain : IsPlain referrer = calm-IsPlain referrer (λ e. cc) (digest-IsCalm hash calm) in
        Always-bind W (lift (parse subject)) (λ p. write p.0 p.1) (λ d. Changes-refl W d)
          (λ p.
            Always-bind W (mkdir_all (referrer_dir lib base repo p.0 p.1 referrer))
              (λ _. write_file (referrer_link lib base repo p.0 p.1 referrer) subject)
              (mkdir_all-Changes W (referrer_dir lib base repo p.0 p.1 referrer))
              (λ _ d.
                write_file-Changes W (referrer_link lib base repo p.0 p.1 referrer) subject d
                  (referrer-Fits lib base repo p.0 p.1 referrer subject plain (λ e. cc))))

    index_referrer-Safely :
        (repo hash content : Text)
        → All IsCalm hash
        → Safely lib base (index_referrer lib base repo (manifest_algo ++ b':' ∷ hash) content)
    unfolding index_referrer
    index_referrer-Safely repo hash content calm =
        elim (Option-cases (lib.decode_image_manifest content)) [
          | inl e ↦ rw (e, index_referrer) (λ d. Changes-refl (Fits lib base) d)
          | inr (m, e) ↦ elim (Option-cases m.subject) [
            | inl f ↦ rw (e, f, index_referrer) (λ d. Changes-refl (Fits lib base) d)
            | inr (subject, f) ↦
                rw (e, f, index_referrer) (index_subject-Safely repo hash subject.digest calm)
          ]
        ]

    update_tag-Safely :
        (repo reference digest : Text)
        → is_name repo ≡ true
        → Safely lib base (update_tag lib base repo reference digest (is_tag reference))
    update_tag-Safely repo reference digest valid = elim (Bool-cases (is_tag reference)) [
      | inl t ↦ rw t (
          write_link-Always (Fits lib base) lib base (tag_link lib base repo reference) digest (
            manifests-Fits lib base repo digest
              (codes "tags" ∷ reference ∷ codes "current" ∷ codes "link" ∷ []) valid
              (ground arith, ((is_tag-IsPlain reference t).0, (ground arith, (ground arith, tt))))))
      | inr f ↦ rw f (λ d. Changes-refl (Fits lib base) d)
    ]

    pub manifest_put-Safely :
        (repo reference content : Text)
        → Safely lib base (manifest_put lib base repo reference content)
    unfolding manifest_put
    manifest_put-Safely repo reference content =
        let W = Fits lib base in
        let hash = lib.hash_as_string sha256 content in
        let digest = manifest_algo ++ b':' ∷ hash in
        let plain = hash-IsPlain lib hex sha256 content in
        let index : Action Disk Text =
          ignore (index_referrer lib base repo digest content) >> pure digest in
        let tag : Action Disk Text =
          update_tag lib base repo reference digest (is_tag reference) >> index in
        let link : Action Disk Text =
          write_link lib base (revision_link lib base repo manifest_algo hash) digest >> tag in
        let commit : Text → Action Disk Text =
          λ uuid. blobs_upload_commit lib base repo uuid digest >> link in
        let write : Text → Action Disk Text =
          λ uuid. blobs_upload_write lib base repo uuid content none >> commit uuid in
        Always-guard W (is_name repo) repo_invalid (blobs_upload_create lib base repo >>= write)
          (λ valid.
            Always-bind W (blobs_upload_create lib base repo) write
              (blobs_upload_create-Safely lib base repo)
              (λ uuid.
                Always-bind W (blobs_upload_write lib base repo uuid content none)
                  (λ _. commit uuid) (blobs_upload_write-Safely lib base repo uuid content none)
                  (λ _.
                    Always-bind W (blobs_upload_commit lib base repo uuid digest) (λ _. link)
                      (blobs_upload_commit-Safely lib base hex repo uuid digest)
                      (λ _.
                        Always-bind W
                          (write_link lib base (revision_link lib base repo manifest_algo hash)
                            digest)
                          (λ _. tag)
                          (write_link-Always W lib base
                            (revision_link lib base repo manifest_algo hash) digest
                            (manifests-Fits lib base repo digest
                              (codes "revisions" ∷ manifest_algo ∷ hash ∷ codes "link" ∷ []) valid
                              (ground arith, (ground arith, (plain, (ground arith, tt))))))
                          (λ _.
                            Always-bind W
                              (update_tag lib base repo reference digest (is_tag reference))
                              (λ _. index) (update_tag-Safely repo reference digest valid)
                              (λ _.
                                Always-bind W (ignore (index_referrer lib base repo digest content))
                                  (λ _. pure digest)
                                  (ignore-Always W (index_referrer lib base repo digest content) (
                                    index_referrer-Safely repo hash content
                                      (hash-IsCalm lib hex sha256 content)))
                                  (λ _ d. Changes-refl W d)))))))
