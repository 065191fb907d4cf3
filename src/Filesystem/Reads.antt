-- ===== src/Filesystem/Reads.antt =====
-- The reading operations leave the disk as it is.
use simple_registry.Base.{
  ℕ, Bool, true, false, [], ◌∷◌, ◌++◌, ◌==◌, nat_eq, list_eq, Text, codes, Error, Action, pure,
  raise, lift, ◌>>=◌, ◌>>◌, ◌≡◌, refl, ◌∙◌, inl, inr, Result-cases, if◌then◌else◌, ltb, length,
  hash_short, digest_mismatch, panic, repo_invalid, uuid_invalid, link_mismatch,
}
use simple_registry.Digest.{parse}
use simple_registry.Disk.{Disk}
use simple_registry.Paths.{FilePath}
use simple_registry.Validator.{is_name, is_uuid, is_tag}
use simple_registry.Filesystem.Layout.{Library, blob_path, layer_link, upload_file}
use simple_registry.Filesystem.Blobs.{
  reads, stats, check_link, open_blob, blobs_get, blob_last_access, atime_of,
}
use simple_registry.Filesystem.Uploads.{require, blobs_upload_size, size_of}
use simple_registry.Filesystem.Manifests.{
  resolve_tag, resolve_reference, manifest_get, manifest_last_access, tag_link,
}

-- The action leaves the disk as it is, whether it fails or not.
abbrev pub Keeps : {A : Type 0} → Action Disk A → Type 0
Keeps m = (d : Disk) → (m d).1 ≡ d

pub Keeps-bind :
    {A B : Type 0} (m : Action Disk A) (f : A → Action Disk B)
    → Keeps m
    → ((a : A) → Keeps (f a))
    → Keeps (m >>= f)
Keeps-bind m f h k d = elim (Result-cases (m d).0) [
  | inl (e, r) ↦ rw (r, ◌>>=◌) (h d)
  | inr (a, r) ↦ rw (r, ◌>>=◌) (k a (m d).1 ∙ h d)
]

Keeps-if :
    {A : Type 0} (b : Bool) (m n : Action Disk A) → Keeps m → Keeps n → Keeps (if b then m else n)
Keeps-if true m n h k = h
Keeps-if false m n h k = k

Keeps-require : (b : Bool) (e : Error) → Keeps (require b e)
Keeps-require true e d = refl
Keeps-require false e d = refl

module _ (lib : Library) (base : FilePath) where
  open_blob-Keeps : (algo hash : Text) → Keeps (open_blob base algo hash)
  unfolding open_blob
  open_blob-Keeps algo hash =
      Keeps-bind (reads (blob_path base algo hash)) (λ c. pure (c, length c)) (λ d. refl)
        (λ c d. refl)

  pub check_link-Keeps :
      (repo digest algo hash : Text) → Keeps (check_link base repo digest algo hash)
  unfolding check_link
  check_link-Keeps [] digest algo hash = λ d. refl
  check_link-Keeps (c ∷ repo) digest algo hash =
      Keeps-bind (reads (layer_link base (c ∷ repo) algo hash))
        (λ link. if link == digest then pure tt else raise link_mismatch) (λ d. refl)
        (λ link. Keeps-if (link == digest) (pure tt) (raise link_mismatch) (λ d. refl) (λ d. refl))

  blobs_get-Keeps : (repo digest : Text) → Keeps (blobs_get base repo digest)
  unfolding blobs_get
  blobs_get-Keeps repo digest =
      let read : Text → Text → Action Disk (Text × ℕ) =
        λ algo hash. check_link base repo digest algo hash >> open_blob base algo hash in
      Keeps-bind (lift (parse digest))
        (λ p. if ltb (length p.1) 2 then raise hash_short else read p.0 p.1) (λ d. refl)
        (λ p.
          Keeps-if (ltb (length p.1) 2) (raise hash_short) (read p.0 p.1) (λ d. refl)
            (Keeps-bind (check_link base repo digest p.0 p.1) (λ _. open_blob base p.0 p.1)
              (check_link-Keeps repo digest p.0 p.1) (λ _. open_blob-Keeps p.0 p.1)))

  blob_last_access-Keeps : (digest : Text) → Keeps (blob_last_access base digest)
  unfolding blob_last_access
  blob_last_access-Keeps digest =
      let read : Text → Text → Action Disk ℕ =
        λ algo hash. stats (blob_path base algo hash) >>= λ node. lift (atime_of base node) in
      Keeps-bind (lift (parse digest))
        (λ p. if ltb (length p.1) 2 then raise digest_mismatch else read p.0 p.1) (λ d. refl)
        (λ p.
          Keeps-if (ltb (length p.1) 2) (raise digest_mismatch) (read p.0 p.1) (λ d. refl)
            (Keeps-bind (stats (blob_path base p.0 p.1)) (λ node. lift (atime_of base node))
              (λ d. refl) (λ n d. refl)))

  blobs_upload_size-Keeps : (repo uuid : Text) → Keeps (blobs_upload_size lib base repo uuid)
  unfolding blobs_upload_size
  blobs_upload_size-Keeps repo uuid =
      let read : Action Disk ℕ = stats (upload_file base repo uuid (codes "data")) >>= λ node.
      pure (size_of lib base node) in
      Keeps-bind (require (is_name repo) repo_invalid)
        (λ _. require (is_uuid uuid) uuid_invalid >> read)
        (Keeps-require (is_name repo) repo_invalid)
        (λ _.
          Keeps-bind (require (is_uuid uuid) uuid_invalid) (λ _. read)
            (Keeps-require (is_uuid uuid) uuid_invalid)
            (λ _.
              Keeps-bind (stats (upload_file base repo uuid (codes "data")))
                (λ node. pure (size_of lib base node)) (λ d. refl) (λ n d. refl)))

  resolve_reference-Keeps :
      (repo reference : Text) → Keeps (resolve_reference lib base repo reference)
  unfolding resolve_reference
  resolve_reference-Keeps repo reference = elim (Result-cases (parse reference)) [
    | inr (p, r) ↦ rw (r, resolve_reference) (λ d. refl)
    | inl (e, r) ↦
        rw (r, resolve_reference)
          (Keeps-if (is_tag reference) (resolve_tag lib base repo reference) (pure ([], []))
            (Keeps-bind (reads (tag_link lib base repo reference)) (λ link. lift (parse link))
              (λ d. refl) (λ l d. refl))
            (λ d. refl))
  ]

  manifest_get-Keeps : (repo reference : Text) → Keeps (manifest_get lib base repo reference)
  unfolding manifest_get
  manifest_get-Keeps repo reference =
      let read : Text → Text → Action Disk (Text × ℕ × Text) =
        λ algo hash. open_blob base algo hash >>= λ c. pure (c.0, c.1, algo ++ b':' ∷ hash) in
      let after : Text × Text → Action Disk (Text × ℕ × Text) =
        λ p. if ltb (length p.1) 2 then raise panic else read p.0 p.1 in
      Keeps-bind (require (is_name repo) repo_invalid)
        (λ _. resolve_reference lib base repo reference >>= after)
        (Keeps-require (is_name repo) repo_invalid)
        (λ _.
          Keeps-bind (resolve_reference lib base repo reference) after
            (resolve_reference-Keeps repo reference)
            (λ p.
              Keeps-if (ltb (length p.1) 2) (raise panic) (read p.0 p.1) (λ d. refl)
                (Keeps-bind (open_blob base p.0 p.1) (λ c. pure (c.0, c.1, p.0 ++ b':' ∷ p.1))
                  (open_blob-Keeps p.0 p.1) (λ c d. refl))))

  -- `BlobsGet`, `BlobLastAccess`, `BlobsUploadSize`, `ManifestGet` and `ManifestLastAccess` leave the
  -- disk as it is, whether they fail or not.
  pub reads-Keeps :
      (repo digest uuid reference : Text)
      → Keeps (blobs_get base repo digest)
        × Keeps (blob_last_access base digest)
        × Keeps (blobs_upload_size lib base repo uuid)
        × Keeps (manifest_get lib base repo reference)
        × Keeps (manifest_last_access lib base digest)
  unfolding manifest_last_access
  reads-Keeps repo digest uuid reference = (
    blobs_get-Keeps repo digest,
    blob_last_access-Keeps digest,
    blobs_upload_size-Keeps repo uuid,
    manifest_get-Keeps repo reference,
    blob_last_access-Keeps digest,
  )
