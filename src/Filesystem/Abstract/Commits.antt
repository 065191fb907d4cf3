-- ===== src/Filesystem/Abstract/Commits.antt =====
-- A commit of an upload on a disk is one of the abstract store.
use simple_registry.Base.{
  true, false, none, some, nat_eq, list_eq, Text, codes, ok, ◌>>◌, ◌≡◌, ◌≢◌, refl, sym, ◌∙◌, ap,
  subst, inl, inr, Bool-cases, bind_ok, length, ltb, if◌then◌else◌, ==-cases,
}
use simple_registry.Digest.{parse}
use simple_registry.Disk.{Disk, read_file, remove_all, remove, rename, mkdir_all, is_under}
use simple_registry.Disk.Laws.{
  file_at, remove_all-files, remove-other, rename-other, mkdir_all-files,
}
use simple_registry.Paths.{FilePath, dir_of}
use simple_registry.Paths.Plain.{IsPlain}
use simple_registry.Validator.{is_name, is_digest}
use simple_registry.Validator.Digests.{is_digest-parse, is_uuid-IsPlain}
use simple_registry.Filesystem.Commits.{hash_or_pass}
use simple_registry.Filesystem.Layout.{Library, layer_link, blob_path, upload_file}
use simple_registry.Filesystem.Stored.{
  blob_at, layer_at, upload_at, repositories-ne_blobs, store_upload-files, write_link-files,
}
use simple_registry.Filesystem.Uploads.{
  ignore, verify_upload, store_upload, write_link, blobs_upload_commit,
}
use simple_registry.Filesystem.Abstract.{commit, Agrees, holds, bytes, abstract}
use simple_registry.Filesystem.Abstract.Apart.{
  layer_link-apart, upload-apart, blob-apart, is_under_refl, upload-off_blobs, under_dir_of,
}
use simple_registry.Filesystem.Abstract.Refines.{
  abstract_of_parts, same_parts, same_or_not, digest_of_parts, holds_self,
}

module _ (lib : Library) (base : FilePath) (repo uuid algo hash : Text) where
  -- What a stored upload leaves alone.
  store_upload-other :
      (d t : Disk) (q : FilePath)
      → blob_path base algo hash ≢ q
      → upload_file base repo uuid (codes "data") ≢ q
      → is_under (dir_of (upload_file base repo uuid (codes "data"))) q ≡ false
      → store_upload lib base repo uuid algo hash d ≡ (ok tt, t)
      → file_at q t ≡ file_at q d
  unfolding store_upload
  store_upload-other d t q nb nu away h =
      let u = upload_file base repo uuid (codes "data") in
      let b = blob_path base algo hash in
      let (_, d1, x1, y1) =
        bind_ok (mkdir_all (dir_of b))
          (λ _. ignore (remove b) >> (rename u b >> remove_all (dir_of u))) d h in
      let (_, d2, x2, y2) =
        bind_ok (ignore (remove b)) (λ _. rename u b >> remove_all (dir_of u)) d1 y1 in
      let (_, d3, x3, y3) = bind_ok (rename u b) (λ _. remove_all (dir_of u)) d2 y2 in
      sym (ap (λ z. file_at q z.1) y3)
      ∙ remove_all-files (dir_of u) d3 q
      ∙ (rw away refl)
      ∙ sym (ap (λ z. file_at q z.1) x3)
      ∙ rename-other u b d2 q nu nb
      ∙ sym (ap (λ z. file_at q z.1) x2)
      ∙ remove-other b d1 q nb
      ∙ sym (ap (λ z. file_at q z.1) x1)
      ∙ mkdir_all-files (dir_of b) d q

-- The bytes of the upload, and every file after the commit but those of the upload itself.
record Committed (base : FilePath) (repo uuid digest a k : Text) (d t : Disk) : Type 0 where
  content : Text
  uploaded : read_file (upload_file base repo uuid (codes "data")) d ≡ ok content
  valid : is_name repo ≡ true
  plain : IsPlain uuid
  long : ltb (length k) 2 ≡ false
  at_blob : bytes (file_at (blob_path base a k) t) ≡ some content
  at_link : holds digest (file_at (layer_link base repo a k) t) ≡ true
  others :
      (q : FilePath)
      → blob_path base a k ≢ q
      → layer_link base repo a k ≢ q
      → is_under (dir_of (upload_file base repo uuid (codes "data"))) q ≡ false
      → file_at q t ≡ file_at q d

blobs_upload_commit-Committed :
    (lib : Library) (base : FilePath) (repo uuid digest a k : Text) (d t : Disk)
    → parse digest ≡ ok (a, k)
    → IsPlain a
    → IsPlain k
    → blobs_upload_commit lib base repo uuid digest d ≡ (ok tt, t)
    → Committed base repo uuid digest a k d t
unfolding blobs_upload_commit
blobs_upload_commit-Committed lib base repo uuid digest a k d t q pa pk h =
    elim (Bool-cases (ltb (length k) 2)) [
      | inl short ↦ absurd (cc (rw (q, short) at h))
      | inr long ↦
          let u = upload_file base repo uuid (codes "data") in
          let b = blob_path base a k in
          let l = layer_link base repo a k in
          let (_, d1, x1, y1) =
            bind_ok (verify_upload lib base repo uuid a k)
              (λ _. store_upload lib base repo uuid a k >> write_link lib base l digest) d
              (rw (q, long) at h) in
          let (_, d2, x2, y2) =
            bind_ok (store_upload lib base repo uuid a k) (λ _. write_link lib base l digest) d1
              y1 in
          let (valid, id, _, _, _, _, _, same) = hash_or_pass lib base repo uuid a k d d1 x1 in
          let pu = is_uuid-IsPlain uuid id in
          let eu = upload_at base repo valid uuid pu in
          let eb = blob_at base a k pa pk in
          let el = layer_at base repo valid a k pa pk in
          let u_b = repositories-ne_blobs base _ _ u b eu eb in
          let l_b = repositories-ne_blobs base _ _ l b el eb in
          let (c, x, r, at_b) =
            store_upload-files lib base repo uuid a k d1 d2 u_b
              (upload-off_blobs base repo valid uuid pu a k pa pk) x2 in
          let ((y, at_l), others) = write_link-files lib base l digest d2 t y2 in
          record {
            content = c;
            uploaded = subst (λ z. read_file u z ≡ ok c) same r;
            valid = valid;
            plain = pu;
            long = long;
            at_blob = ap bytes (others b l_b ∙ at_b);
            at_link = ap (holds digest) at_l ∙ holds_self digest y;
            others = λ p nb nl away.
                others p nl
                ∙ store_upload-other lib base repo uuid a k d1 d2 p nb
                    (λ e. under_dir_of base repo valid uuid pu p e away) away x2
                ∙ ap (file_at p) same;
          }
    ]

-- A commit of an upload that succeeds links the digest to the repository and gives it the bytes of
-- the upload; it changes nothing else of what any repository has.
pub blobs_upload_commit-Refines :
    (lib : Library) (base : FilePath) (repo uuid digest : Text) (d t : Disk)
    → is_digest digest ≡ true
    → blobs_upload_commit lib base repo uuid digest d ≡ (ok tt, t)
    → (content : Text) × (read_file (upload_file base repo uuid (codes "data")) d ≡ ok content)
      × Agrees (abstract base t) (commit repo digest content (abstract base d))
blobs_upload_commit-Refines lib base repo uuid digest d t fine h =
    let (a, k, q, pa, pk) = is_digest-parse digest fine in
    let done = blobs_upload_commit-Committed lib base repo uuid digest a k d t q pa pk h in
    let apart = λ (x b l : Text) (p : parse x ≡ ok (b, l)) (e : (a ≡ b) × (k ≡ l)).
      digest_of_parts x digest a k (p ∙ (λ i. ok (sym e.0 i, sym e.1 i))) q in
    (
      done.content,
      done.uploaded,
      λ r x vr vx.
          let (b, l, p, pb, pl) = is_digest-parse x vx in
          let (l_t, c_t) = abstract_of_parts base t r x b l p in
          let (l_d, c_d) = abstract_of_parts base d r x b l p in
          let link = layer_link base r b l in
          let blob = blob_path base b l in
          (
            elim (same_or_not r repo x digest) [
              | inl (er, ex, y) ↦
                  let (eb, el) = same_parts x digest b l a k ex p q in
                  rw y (
                    l_t
                    ∙ (λ i. holds (ex i) (file_at (layer_link base (er i) (eb i) (el i)) t))
                    ∙ done.at_link)
              | inr (ne, n) ↦ rw n (
                  l_t
                  ∙ ap (holds x) (
                      done.others link
                        (λ z.
                          repositories-ne_blobs base _ _ link (blob_path base a k)
                            (layer_at base r vr b l pb pl) (blob_at base a k pa pk) (sym z))
                        (λ z.
                          let (er, ea, ek) =
                            layer_link-apart base repo r done.valid vr a k b l pa pk pb pl z in
                          ne (sym er, apart x b l p (ea, ek)))
                        (upload-apart base repo r done.valid vr uuid b l done.plain pb pl))
                  ∙ sym l_d)
            ],
            elim (==-cases x digest) [
              | inl (y, ex) ↦
                  let (eb, el) = same_parts x digest b l a k ex p q in
                  rw y (
                    c_t
                    ∙ (λ i.
                        if ltb (length (el i)) 2
                        then none
                        else bytes (file_at (blob_path base (eb i) (el i)) t))
                    ∙ (rw done.long done.at_blob))
              | inr (n, ne) ↦ rw n (
                  c_t
                  ∙ ap (λ f. if ltb (length l) 2 then none else bytes f)
                      (done.others blob
                        (λ z. ne (
                          apart x b l p (
                            blob-apart base a k b l pa pk pb pl
                              (sym (ap (is_under _) z) ∙ is_under_refl _))))
                        (repositories-ne_blobs base _ _ (layer_link base repo a k) blob
                          (layer_at base repo done.valid a k pa pk) (blob_at base b l pb pl))
                        (upload-off_blobs base repo done.valid uuid done.plain b l pb pl))
                  ∙ sym c_d)
            ],
          ),
    )
