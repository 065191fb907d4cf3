-- ===== src/Filesystem/Sound/Reach.antt =====
-- The disks that any sequence of operations reaches, and what they serve.
use simple_registry.Base.{
  ℕ, Bool, true, Option, List, [], ◌∷◌, nat_eq, list_eq, Text, ok, pure, ◌≡◌, sym, ◌∙◌, ap, subst,
  inl, inr, Bool-cases, bind_ok, length, ltb,
}
use simple_registry.Digest.{Algo, new_hasher, parse}
use simple_registry.Disk.{Disk, read_file, find}
use simple_registry.Disk.Changes.{Changes}
use simple_registry.Disk.Laws.{file_at, read_file_iff}
use simple_registry.Paths.{FilePath}
use simple_registry.Validator.{is_digest}
use simple_registry.Validator.Digests.{is_digest-parse}
use simple_registry.Filesystem.Blobs.{reads, check_link, open_blob, blobs_get, blobs_delete}
use simple_registry.Filesystem.Commits.{lift_result}
use simple_registry.Filesystem.Layout.{Library, blob_path}
use simple_registry.Filesystem.Manifests.{manifest_put, manifest_delete}
use simple_registry.Filesystem.Reads.{check_link-Keeps}
use simple_registry.Filesystem.Stored.{blob_at}
use simple_registry.Filesystem.Uploads.{
  blobs_upload_create, blobs_upload_cancel, blobs_upload_write, blobs_upload_commit,
}
use simple_registry.Filesystem.Sound.Collects.{garbage_collect-Safely}
use simple_registry.Filesystem.Storage.{filesystem_storage}
use simple_registry.Garbage.Mark.{Decoders}
use simple_registry.Garbage.Sweep.{garbage_collect}
use simple_registry.Filesystem.Sound.{Fits, IsSound, IsSound-Changes, HexHashes}
use simple_registry.Filesystem.Sound.Operations.{
  blobs_delete-Safely, blobs_upload_cancel-Safely, blobs_upload_write-Safely,
  blobs_upload_create-Safely,
}
use simple_registry.Filesystem.Sound.Commits.{blobs_upload_commit-Safely}
use simple_registry.Filesystem.Sound.Manifests.{manifest_put-Safely, manifest_delete-Safely}

module _ (lib : Library) (base : FilePath) where
  -- One operation or one collection of the garbage, with the disk after it, whether it fails or
  -- not; or the clock and the random source go on.
  pub data Step : Disk → Disk → Type 0 where
    created : (repo : Text) (d : Disk) → Step d (blobs_upload_create lib base repo d).1
    cancelled : (repo uuid : Text) (d : Disk) → Step d (blobs_upload_cancel lib base repo uuid d).1
    written :
        (repo uuid new : Text) (start : Option ℕ) (d : Disk)
        → Step d (blobs_upload_write lib base repo uuid new start d).1
    committed :
        (repo uuid digest : Text) (d : Disk)
        → Step d (blobs_upload_commit lib base repo uuid digest d).1
    blob_deleted : (repo digest : Text) (d : Disk) → Step d (blobs_delete base repo digest d).1
    manifest_stored :
        (repo reference content : Text) (d : Disk)
        → Step d (manifest_put lib base repo reference content d).1
    manifest_deleted :
        (repo reference : Text) (d : Disk) → Step d (manifest_delete lib base repo reference d).1
    collected :
        (decoders : Decoders) (fuel age : ℕ) (dry_run untagged : Bool) (d : Disk)
        → Step d
            (garbage_collect
              (filesystem_storage lib base)
              decoders
              fuel
              d.now
              dry_run
              age
              untagged
              d).1
    time_passes :
        (now : ℕ) (entropy : List Text) (d : Disk)
        → Step d (record { nodes = d.nodes; now = now; entropy = entropy })

  pub data Reaches (d : Disk) : Disk → Type 0 where
    at_once : Reaches d d
    then_step : {t u : Disk} → Reaches d t → Step t u → Reaches d u

  same_nodes :
      (d : Disk) (now : ℕ) (entropy : List Text)
      → Changes (Fits lib base) d (record { nodes = d.nodes; now = now; entropy = entropy })
  unfolding file_at find
  same_nodes d now entropy [] c x h = inl h
  same_nodes d now entropy (y ∷ q) c x h = inl h

  Step-Changes : HexHashes lib → {d t : Disk} → Step d t → Changes (Fits lib base) d t
  Step-Changes hex (created repo d) = blobs_upload_create-Safely lib base repo d
  Step-Changes hex (cancelled repo uuid d) = blobs_upload_cancel-Safely lib base repo uuid d
  Step-Changes hex (written repo uuid new start d) =
      blobs_upload_write-Safely lib base repo uuid new start d
  Step-Changes hex (committed repo uuid digest d) =
      blobs_upload_commit-Safely lib base hex repo uuid digest d
  Step-Changes hex (blob_deleted repo digest d) = blobs_delete-Safely lib base repo digest d
  Step-Changes hex (manifest_stored repo reference content d) =
      manifest_put-Safely lib base hex repo reference content d
  Step-Changes hex (manifest_deleted repo reference d) =
      manifest_delete-Safely lib base repo reference d
  Step-Changes hex (collected decoders fuel age dry_run untagged d) =
      garbage_collect-Safely lib base decoders fuel d.now age dry_run untagged d
  Step-Changes hex (time_passes now entropy d) = same_nodes d now entropy

  -- On a disk that any operations and collections of the garbage reach from a sound one, whether
  -- they fail or not and whatever their arguments are, every file at the path of a blob of a known
  -- algorithm has the hash that the path names.
  pub Reaches-IsSound :
      {d t : Disk} → HexHashes lib → IsSound lib base d → Reaches d t → IsSound lib base t
  Reaches-IsSound hex sound at_once = sound
  Reaches-IsSound hex sound (then_step {t} {u} r s) =
      IsSound-Changes lib base t u (Reaches-IsSound hex sound r) (Step-Changes hex s)

  open_blob-content :
      (algo hash content : Text) (size : ℕ) (t u : Disk)
      → open_blob base algo hash t ≡ (ok (content, size), u)
      → read_file (blob_path base algo hash) t ≡ ok content
  unfolding open_blob
  open_blob-content algo hash content size t u h =
      let (c, v, x, y) = bind_ok (reads (blob_path base algo hash)) (λ c. pure (c, length c)) t h in
      let e : c ≡ content = cc in
      let (r, _) = lift_result (read_file (blob_path base algo hash) t) t v x in
      subst (λ z. read_file (blob_path base algo hash) t ≡ ok z) e r

  blobs_get-content :
      (repo digest algo hash content : Text) (size : ℕ) (t u : Disk)
      → parse digest ≡ ok (algo, hash)
      → blobs_get base repo digest t ≡ (ok (content, size), u)
      → read_file (blob_path base algo hash) t ≡ ok content
  unfolding blobs_get
  blobs_get-content repo digest algo hash content size t u parts h =
      elim (Bool-cases (ltb (length hash) 2)) [
        | inl short ↦ absurd (cc (rw (parts, short) at h))
        | inr long ↦
            let (_, v, x, y) =
              bind_ok (check_link base repo digest algo hash) (λ _. open_blob base algo hash) t
                (rw (parts, long) at h) in
            let same : v ≡ t =
              sym (ap (λ z. z.1) x) ∙ check_link-Keeps lib base repo digest algo hash t in
            subst (λ z. read_file (blob_path base algo hash) z ≡ ok content) same
              (open_blob-content algo hash content size v u y)
      ]

  -- Every blob that `BlobsGet` serves for a valid digest, on a disk that any operations and
  -- collections of the garbage reach from a sound one, has the hash that the digest names, if its algorithm is known.
  pub blobs_get-Authentic :
      (d t u : Disk) (repo digest content : Text) (size : ℕ)
      → HexHashes lib
      → IsSound lib base d
      → Reaches d t
      → is_digest digest ≡ true
      → blobs_get base repo digest t ≡ (ok (content, size), u)
      → (algo : Text) × (hash : Text) × (parse digest ≡ ok (algo, hash))
        × ((hasher : Algo) → new_hasher algo ≡ ok hasher → lib.hash_as_string hasher content ≡ hash)
  blobs_get-Authentic d t u repo digest content size hex sound reach valid h =
      let (algo, hash, parts, plain_a, plain_h) = is_digest-parse digest valid in
      let r = blobs_get-content repo digest algo hash content size t u parts h in
      let (x, f) = (read_file_iff (blob_path base algo hash) t content).0 r in
      let w = Reaches-IsSound hex sound reach (blob_path base algo hash) content x f in
      (
        algo,
        hash,
        parts,
        λ hasher k. w.fits algo hash hasher (blob_at base algo hash plain_a plain_h) k,
      )
