-- ===== src/Filesystem/Commits.antt =====
-- What a commit of an upload demands, and the panic of a short hash.
use simple_registry.Base.{
  Bool, true, false, ◌==◌, nat_eq, list_eq, Text, codes, Error, Result, ok, err, Action, lift,
  ◌>>=◌, ◌>>◌, ◌≡◌, refl, sym, ◌∙◌, subst, inl, inr, bind_ok, Result-cases, Bool-cases, length, ltb,
  ◌<◌, arith, ==_eq, digest_mismatch, panic, repo_invalid, uuid_invalid,
}
use simple_registry.Digest.{parse, new_hasher, Algo}
use simple_registry.Disk.{Disk, read_file}
use simple_registry.Paths.{FilePath}
use simple_registry.Validator.{is_name, is_uuid}
use simple_registry.Filesystem.Blobs.{reads}
use simple_registry.Filesystem.Layout.{Library, upload_file, layer_link}
use simple_registry.Filesystem.Uploads.{
  require, verify_upload, store_upload, write_link, blobs_upload_commit,
}
use simple_registry.Filesystem.Manifests.{manifest_get, resolve_reference}

pub require_ok :
    (b : Bool) (e : Error) (d t : Disk) {u : Unit {0}}
    → require b e d ≡ (ok u, t)
    → (b ≡ true) × (t ≡ d)
require_ok true e d t h = let q : t ≡ d = cc in (refl, q)
require_ok false e d t h = cc

pub lift_result :
    {A : Type 0} (r : Result A) (d t : Disk) {a : A}
    → ◌≡◌ {A = Result A × Disk} (r, d) (ok a, t)
    → (r ≡ ok a) × (t ≡ d)
lift_result r d t h = ((λ i. (h i).0), λ i. (sym h i).1)

module _ (lib : Library) (base : FilePath) where
  -- The bytes of an upload session have the hash that a digest names.
  pub record Verified (repo uuid digest : Text) (d : Disk) : Type 0 where
    pub algo : Text
    pub hash : Text
    pub hasher : Algo
    pub content : Text
    pub parts : parse digest ≡ ok (algo, hash)
    pub known : new_hasher algo ≡ ok hasher
    pub uploaded : read_file (upload_file base repo uuid (codes "data")) d ≡ ok content
    pub hashed : lib.hash_as_string hasher content ≡ hash
    pub valid : (is_name repo ≡ true) × (is_uuid uuid ≡ true)

  pub hash_or_pass :
      (repo uuid algo hash : Text) (d t : Disk) {u : Unit {0}}
      → verify_upload lib base repo uuid algo hash d ≡ (ok u, t)
      → (is_name repo ≡ true)
        × (is_uuid uuid ≡ true)
        × (hasher : Algo) × (content : Text) × (new_hasher algo ≡ ok hasher)
        × (read_file (upload_file base repo uuid (codes "data")) d ≡ ok content)
        × (lib.hash_as_string hasher content ≡ hash)
        × (t ≡ d)
  unfolding verify_upload
  hash_or_pass repo uuid algo hash d t h =
      let check : Text → Algo → Action Disk (Unit {0}) =
        λ content hasher. require (lib.hash_as_string hasher content == hash) digest_mismatch in
      let hashing : Text → Action Disk (Unit {0}) =
        λ content. lift (new_hasher algo) >>= check content in
      let reading : Action Disk (Unit {0}) =
        reads (upload_file base repo uuid (codes "data")) >>= hashing in
      let ids : Action Disk (Unit {0}) = require (is_uuid uuid) uuid_invalid >> reading in
      let (_, d1, x1, y1) = bind_ok (require (is_name repo) repo_invalid) (λ _. ids) d h in
      let (n, e1) = require_ok (is_name repo) repo_invalid d d1 x1 in
      let (_, d2, x2, y2) = bind_ok (require (is_uuid uuid) uuid_invalid) (λ _. reading) d1 y1 in
      let (i, e2) = require_ok (is_uuid uuid) uuid_invalid d1 d2 x2 in
      let (content, d3, x3, y3) =
        bind_ok (reads (upload_file base repo uuid (codes "data"))) hashing d2 y2 in
      let (c, e3) =
        lift_result (read_file (upload_file base repo uuid (codes "data")) d2) d2 d3 x3 in
      let (hasher, d4, x4, y4) = bind_ok (lift (new_hasher algo)) (check content) d3 y3 in
      let (k, e4) = lift_result (new_hasher algo) d3 d4 x4 in
      let (q, e5) =
        require_ok (lib.hash_as_string hasher content == hash) digest_mismatch d4 t y4 in
      (
        n,
        i,
        hasher,
        content,
        k,
        subst (λ z. read_file (upload_file base repo uuid (codes "data")) z ≡ ok content) (e2 ∙ e1)
            c,
        ==_eq q,
        e5 ∙ e4 ∙ e3 ∙ e2 ∙ e1,
      )

  -- A commit succeeds only for a valid repository and upload id, a digest of a known algorithm, and
  -- an upload whose bytes have the hash that the digest names.
  pub blobs_upload_commit-Verified :
      (repo uuid digest : Text) (d t : Disk)
      → blobs_upload_commit lib base repo uuid digest d ≡ (ok tt, t)
      → Verified repo uuid digest d
  unfolding blobs_upload_commit
  blobs_upload_commit-Verified repo uuid digest d t h = elim (Result-cases (parse digest)) [
    | inl (e, r) ↦ absurd (cc)
    | inr ((algo, hash), r) ↦ elim (Bool-cases (ltb (length hash) 2)) [
      | inl short ↦ absurd (cc (rw (r, short) at h))
      | inr long ↦
          let (_, d1, x1, y1) =
            bind_ok (verify_upload lib base repo uuid algo hash)
              (λ _.
                store_upload lib base repo uuid algo hash
                >> write_link lib base (layer_link base repo algo hash) digest)
              d (rw (r, long) at h) in
          let (n, i, hasher, content, k, c, q, _) = hash_or_pass repo uuid algo hash d d1 x1 in
          record {
            algo = algo;
            hash = hash;
            hasher = hasher;
            content = content;
            parts = r;
            known = k;
            uploaded = c;
            hashed = q;
            valid = (n, i);
          }
    ]
  ]

  -- A digest whose hash is shorter than two bytes makes `ManifestGet` of a valid repository panic.
  pub manifest_get_short :
      (repo reference algo hash : Text) (d : Disk)
      → is_name repo ≡ true
      → parse reference ≡ ok (algo, hash)
      → length hash < 2
      → manifest_get lib base repo reference d ≡ (err panic, d)
  unfolding manifest_get resolve_reference
  manifest_get_short repo reference algo hash d valid parts short =
      let e : ltb (length hash) 2 ≡ true = ground arith in
      rw (valid, resolve_reference, parts, e) refl
