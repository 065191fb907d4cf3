-- ===== src/Filesystem/Stored.antt =====
-- A committed upload can be read back.
use simple_registry.Base.{
  ℕ, true, false, some, [], ◌∷◌, ◌++◌, ◌==◌, nat_eq, list_eq, list_beq, Text, codes, ok, pure,
  raise, ◌>>◌, ◌≡◌, ◌≢◌, refl, sym, ◌∙◌, ap, subst, inl, inr, bind_ok, bind_of_ok, link_mismatch,
  Bool-cases, if◌then◌else◌, length, ltb, take, arith, ==_refl,
}
use simple_registry.Digest.{parse}
use simple_registry.Disk.{
  Disk, read_file, mkdir_all, remove, remove_all, rename, write_file, is_under, place,
}
use simple_registry.Disk.Laws.{
  file_at, mkdir_all-files, place-other, place_self, remove_all-files, remove-other, rename_self,
  read_file_iff,
}
use simple_registry.Paths.{FilePath, split_slash, dir_of}
use simple_registry.Paths.Plain.{IsPlain}
use simple_registry.Validator.{is_name, is_digest}
use simple_registry.Validator.Digests.{is_digest-parse, is_uuid-IsPlain}
use simple_registry.Filesystem.Blobs.{reads, open_blob, check_link, blobs_get}
use simple_registry.Filesystem.Layout.{Library, upload_file, layer_link, blob_path}
use simple_registry.Filesystem.Layout.Apart.{
  join_plain, join_repo, head_of_append, is_under-dir_of, IsPlain-take,
}
use simple_registry.Filesystem.Commits.{Verified, blobs_upload_commit-Verified, hash_or_pass}
use simple_registry.Filesystem.Uploads.{
  ignore, verify_upload, store_upload, write_link, blobs_upload_commit,
}

module _ (base : FilePath) (repo : Text) (valid : is_name repo ≡ true) where
  pub upload_at :
      (uuid : Text)
      → IsPlain uuid
      → upload_file base repo uuid (codes "data")
        ≡ base
          ++ codes "repositories"
            ∷ (split_slash repo ++ codes "_uploads" ∷ uuid ∷ codes "data" ∷ [])
  unfolding upload_file
  upload_at uuid h =
      join_repo base (codes "repositories") repo _ (ground arith) valid
        (ground arith, (h, (ground arith, tt)))

  pub layer_at :
      (algo hash : Text)
      → IsPlain algo
      → IsPlain hash
      → layer_link base repo algo hash
        ≡ base
          ++ codes "repositories"
            ∷ (split_slash repo ++ codes "_layers" ∷ algo ∷ hash ∷ codes "link" ∷ [])
  unfolding layer_link
  layer_at algo hash h k =
      join_repo base (codes "repositories") repo _ (ground arith) valid
        (ground arith, (h, (k, (ground arith, tt))))

pub blob_at :
    (base : FilePath) (algo hash : Text)
    → IsPlain algo
    → IsPlain hash
    → blob_path base algo hash ≡ base ++ codes "blobs" ∷ algo ∷ take 2 hash ∷ hash ∷ []
unfolding blob_path
blob_at base algo hash h k = join_plain base _ (ground arith, (h, (IsPlain-take 1 hash k, (k, tt))))

apart : (codes "repositories" == codes "blobs") ≡ false
unfolding list_beq
apart = refl

append-ne_nil : (p : FilePath) (x : Text) (q : FilePath) → p ++ x ∷ q ≢ []
append-ne_nil [] x q h = cc
append-ne_nil (y ∷ p) x q h = cc

pub repositories-ne_blobs :
    (base p q u v : FilePath)
    → u ≡ base ++ codes "repositories" ∷ p
    → v ≡ base ++ codes "blobs" ∷ q
    → u ≢ v
repositories-ne_blobs base p q u v e f h =
    let same : codes "repositories" ≡ codes "blobs" = head_of_append base p q _ _ (sym e ∙ h ∙ f) in
    cc

-- `writeLink` sets its file and no other.
pub write_link-files :
    (lib : Library) (base p : FilePath) (digest : Text) (d t : Disk)
    → write_link lib base p digest d ≡ (ok tt, t)
    → ((x : ℕ) × (file_at p t ≡ some (digest, x)))
      × ((q : FilePath) → p ≢ q → file_at q t ≡ file_at q d)
unfolding write_link write_file
write_link-files lib base p digest d t h =
    let (_, d1, x1, y1) = bind_ok (mkdir_all (dir_of p)) (λ _. write_file p digest) d h in
    let made : (mkdir_all (dir_of p) d).1 ≡ d1 = ap (λ z. z.1) x1 in
    let written : (place p digest d1.now d1).1 ≡ t = ap (λ z. z.1) y1 in
    (
      (
        d1.now,
        subst (λ z. file_at p z ≡ some (digest, d1.now)) written
            (place_self p digest d1.now d1 (ap (λ z. z.0) y1)),
      ),
      λ q ne.
          subst (λ z. file_at q z ≡ file_at q d1) written (place-other p digest d1.now d1 q ne)
          ∙ subst (λ z. file_at q z ≡ file_at q d) made (mkdir_all-files (dir_of p) d q),
    )

module _ (lib : Library) (base : FilePath) (repo uuid algo hash : Text) where
  -- The data of the upload end up at the path of the blob.
  pub store_upload-files :
      (d t : Disk)
      → upload_file base repo uuid (codes "data") ≢ blob_path base algo hash
      → is_under (dir_of (upload_file base repo uuid (codes "data"))) (blob_path base algo hash)
        ≡ false
      → store_upload lib base repo uuid algo hash d ≡ (ok tt, t)
      → (c : Text) × (x : ℕ) × (read_file (upload_file base repo uuid (codes "data")) d ≡ ok c)
        × (file_at (blob_path base algo hash) t ≡ some (c, x))
  unfolding store_upload
  store_upload-files d t ne away h =
      let u = upload_file base repo uuid (codes "data") in
      let b = blob_path base algo hash in
      let (_, d1, x1, y1) =
        bind_ok (mkdir_all (dir_of b))
          (λ _. ignore (remove b) >> (rename u b >> remove_all (dir_of u))) d h in
      let (_, d2, x2, y2) =
        bind_ok (ignore (remove b)) (λ _. rename u b >> remove_all (dir_of u)) d1 y1 in
      let (_, d3, x3, y3) = bind_ok (rename u b) (λ _. remove_all (dir_of u)) d2 y2 in
      let (c, x, r, moved) = rename_self u b d2 ne (ap (λ z. z.0) x3) in
      let (t0, at_u) = (read_file_iff u d2 c).0 r in
      let same2 : file_at u d2 ≡ file_at u d1 =
        subst (λ z. file_at u z ≡ file_at u d1) (ap (λ z. z.1) x2)
          (remove-other b d1 u (λ e. ne (sym e))) in
      let same1 : file_at u d1 ≡ file_at u d =
        subst (λ z. file_at u z ≡ file_at u d) (ap (λ z. z.1) x1)
          (mkdir_all-files (dir_of b) d u) in
      let there : file_at b d3 ≡ some (c, x) =
        subst (λ z. file_at b z ≡ some (c, x)) (ap (λ z. z.1) x3) moved in
      let kept : file_at b (remove_all (dir_of u) d3).1 ≡ file_at b d3 =
        remove_all-files (dir_of u) d3 b ∙ (rw away refl) in
      (
        c,
        x,
        (read_file_iff u d c).1 (t0, sym same1 ∙ sym same2 ∙ at_u),
        subst (λ z. file_at b z ≡ some (c, x)) (ap (λ z. z.1) y3) (kept ∙ there),
      )

pub check_link_ok :
    (base : FilePath) (repo digest algo hash : Text) (t : Disk)
    → read_file (layer_link base repo algo hash) t ≡ ok digest
    → check_link base repo digest algo hash t ≡ (ok tt, t)
unfolding check_link
check_link_ok base [] digest algo hash t h = refl
check_link_ok base (c ∷ repo) digest algo hash t h =
    bind_of_ok (reads (layer_link base (c ∷ repo) algo hash))
      (λ link. if link == digest then pure tt else raise link_mismatch) t (λ i. (h i, t))
    ∙ (rw (==_refl digest) refl)

blobs_get_found :
    (base : FilePath) (repo digest algo hash content : Text) (t : Disk)
    → parse digest ≡ ok (algo, hash)
    → ltb (length hash) 2 ≡ false
    → read_file (layer_link base repo algo hash) t ≡ ok digest
    → read_file (blob_path base algo hash) t ≡ ok content
    → blobs_get base repo digest t ≡ (ok (content, length content), t)
unfolding blobs_get open_blob
blobs_get_found base repo digest algo hash content t parts long link blob =
    rw (parts, long)
      (bind_of_ok (check_link base repo digest algo hash) (λ _. open_blob base algo hash) t
          (check_link_ok base repo digest algo hash t link)
        ∙ bind_of_ok (reads (blob_path base algo hash)) (λ c. pure (c, length c)) t
            (λ i. (blob i, t)))

-- A commit that succeeds, of a digest with plain parts, leaves the bytes of the upload at the path of
-- the blob, and the digest in the link.
pub blobs_upload_commit-files :
    (lib : Library) (base : FilePath) (repo uuid digest algo hash : Text) (d t : Disk)
    → parse digest ≡ ok (algo, hash)
    → IsPlain algo
    → IsPlain hash
    → blobs_upload_commit lib base repo uuid digest d ≡ (ok tt, t)
    → (c : Text) × (x y : ℕ) × (ltb (length hash) 2 ≡ false)
      × (read_file (upload_file base repo uuid (codes "data")) d ≡ ok c)
      × (file_at (blob_path base algo hash) t ≡ some (c, x))
      × (file_at (layer_link base repo algo hash) t ≡ some (digest, y))
unfolding blobs_upload_commit
blobs_upload_commit-files lib base repo uuid digest a k d t q plain_a plain_k h =
    let v = blobs_upload_commit-Verified lib base repo uuid digest d t h in
    let u = upload_file base repo uuid (codes "data") in
    let b = blob_path base a k in
    let l = layer_link base repo a k in
    let eu = upload_at base repo v.valid.0 uuid (is_uuid-IsPlain uuid v.valid.1) in
    let eb = blob_at base a k plain_a plain_k in
    let el = layer_at base repo v.valid.0 a k plain_a plain_k in
    let u_b = repositories-ne_blobs base _ _ u b eu eb in
    let l_b = repositories-ne_blobs base _ _ l b el eb in
    let away : is_under (dir_of u) b ≡ false =
      rw (eu, eb)
        (is_under-dir_of base (split_slash repo ++ codes "_uploads" ∷ uuid ∷ codes "data" ∷ [])
          (a ∷ take 2 k ∷ k ∷ []) (codes "repositories") (codes "blobs")
          (append-ne_nil (split_slash repo) (codes "_uploads") (uuid ∷ codes "data" ∷ [])) apart) in
    elim (Bool-cases (ltb (length k) 2)) [
      | inl short ↦ absurd (cc (rw (q, short) at h))
      | inr long ↦
          let (_, d1, x1, y1) =
            bind_ok (verify_upload lib base repo uuid a k)
              (λ _. store_upload lib base repo uuid a k >> write_link lib base l digest) d
              (rw (q, long) at h) in
          let (_, d2, x2, y2) =
            bind_ok (store_upload lib base repo uuid a k) (λ _. write_link lib base l digest) d1
              y1 in
          let (_, _, _, _, _, _, _, same) = hash_or_pass lib base repo uuid a k d d1 x1 in
          let (c, x, r, at_b) = store_upload-files lib base repo uuid a k d1 d2 u_b away x2 in
          let ((y, at_l), others) = write_link-files lib base l digest d2 t y2 in
          (c, x, y, long, subst (λ z. read_file u z ≡ ok c) same r, others b l_b ∙ at_b, at_l)
    ]

-- After a commit of a valid digest that succeeds, the repository and the upload id were valid, the
-- algorithm of the digest is known, and `BlobsGet` of the repository and the digest yields the bytes
-- that the upload held before, which have the hash that the digest names.
pub blobs_upload_commit-Stored :
    (lib : Library) (base : FilePath) (repo uuid digest : Text) (d t : Disk)
    → is_digest digest ≡ true
    → blobs_upload_commit lib base repo uuid digest d ≡ (ok tt, t)
    → (content : Text) × Verified lib base repo uuid digest d
      × (read_file (upload_file base repo uuid (codes "data")) d ≡ ok content)
      × (blobs_get base repo digest t ≡ (ok (content, length content), t))
blobs_upload_commit-Stored lib base repo uuid digest d t valid h =
    let (a, k, q, plain_a, plain_k) = is_digest-parse digest valid in
    let (c, x, y, long, held, at_b, at_l) =
      blobs_upload_commit-files lib base repo uuid digest a k d t q plain_a plain_k h in
    (
      c,
      blobs_upload_commit-Verified lib base repo uuid digest d t h,
      held,
      blobs_get_found base repo digest a k c t q long
          ((read_file_iff (layer_link base repo a k) t digest).1 (y, at_l))
          ((read_file_iff (blob_path base a k) t c).1 (x, at_b)),
    )
