-- ===== src/Handler/Served.antt =====
-- A blob that a single POST uploads to the file system storage, and a GET of it.
pub mod Manifests
pub mod Sessions
pub mod Chunks
mod Tests
use simple_registry.Base.{
  ℕ, Bool, true, false, not, Option, none, some, [], ◌∷◌, ◌==◌, ◌&&◌, nat_eq, list_eq, Text, codes,
  Error, Result, ok, err, Action, panic, ◌≡◌, refl, sym, ◌∙◌, ap, subst, inl, inr, Bool-cases,
  Result-cases, length, if◌then◌else◌, arith,
}
use simple_registry.Disk.{Disk, read_file}
use simple_registry.Handler.Access.{Server}
use simple_registry.Handler.Answers.{other_status, passed, settle-or_500}
use simple_registry.Handler.Blobs.{blobs_get}
use simple_registry.Handler.Posts.{
  blobs_uploads_post, post_case, post_single, after_single_commit, single_write,
}
use simple_registry.Handler.Reply.{
  Request, Response, answer, refusal, challenge_request, settle, allowed, name_invalid,
  digest_wrong, bytes,
}
use simple_registry.Handler.Refusals.{IsRefusal, challenge_request-IsRefusal}
use simple_registry.Handler.Uploads.{or_500, is_set, is_mismatch}
use simple_registry.Paths.{FilePath}
use simple_registry.Storage.{DataStorage}
use simple_registry.Validator.{is_name, is_digest}
use simple_registry.Filesystem.Appends.{blobs_upload_write-append, ok_injective}
use simple_registry.Filesystem.Layout.{Library, upload_file}
use simple_registry.Filesystem.Manifests.Stored.{blobs_upload_create-Empty}
use simple_registry.Filesystem.Storage.{filesystem_storage}
use simple_registry.Filesystem.Stored.{blobs_upload_commit-Stored}

module _ {S : Type 0} (a : Response) (t : S) (created : a.status ≡ 201) where
  failed_commit :
      {A : Type 0} (mismatch : Bool) (x : Result A × S)
      → (¬ (
          settle
            (λ dropped s. (ok (if mismatch then refusal 400 digest_wrong else answer 500), s))
            x
          ≡ (ok a, t)))
  failed_commit true (ok v, s) h =
      other_status a t created (omega arith) (refusal 400 digest_wrong) s 400 refl
        (λ e. ground arith) h
  failed_commit false (ok v, s) h =
      other_status a t created (omega arith) (answer 500) s 500 refl (λ e. ground arith) h
  failed_commit m (err panic, s) h = cc
  failed_commit true (err _, s) h =
      other_status a t created (omega arith) (refusal 400 digest_wrong) s 400 refl
        (λ e. ground arith) h
  failed_commit false (err _, s) h =
      other_status a t created (omega arith) (answer 500) s 500 refl (λ e. ground arith) h

  -- Where the answer is 201, the commit has succeeded, and no call followed it.
  settle-after_single_commit :
      (m : Server) (ds : DataStorage S) (repo uuid digest : Text) (x : Result (Unit {0}) × S)
      → settle (after_single_commit m ds repo uuid digest) x ≡ (ok a, t)
      → ◌≡◌ {A = Result (Unit {0}) × S} x (ok tt, t)
  settle-after_single_commit m ds repo uuid digest (ok tt, s) h =
      let e : s ≡ t = ap (λ z. z.1) h in λ i. (ok tt, e i)
  settle-after_single_commit m ds repo uuid digest (err panic, s) h = absurd cc
  settle-after_single_commit m ds repo uuid digest (err e, s) h =
      absurd (failed_commit (is_mismatch e) (ds.blobs_upload_cancel repo uuid s) h)

pub ok_unit : (r : Result (Unit {0})) (v : Unit {0}) → r ≡ ok v → r ≡ ok tt
ok_unit r tt h = h

module _ (m : Server) (lib : Library) (base : FilePath) where
  abbrev ds : DataStorage Disk
  ds = filesystem_storage lib base

  -- A blob that is uploaded at once is stored.
  post_single-Stored :
      (repo digest body : Text) (d t : Disk) (a : Response)
      → is_digest digest ≡ true
      → post_single m ds repo digest body d ≡ (ok a, t)
      → a.status ≡ 201
      → ds.blobs_get repo digest t ≡ (ok (body, length body), t)
  unfolding post_single
  post_single-Stored repo digest body d t a valid h created =
      let x = ds.blobs_upload_create repo d in
      let (uuid, made, h1) =
        settle-or_500 a t created (omega arith) (single_write m ds repo digest body) x h in
      let y = ds.blobs_upload_write repo uuid body (some 0) x.1 in
      let commit : Unit {0} → Action Disk Response = λ u t.
        settle (after_single_commit m ds repo uuid digest)
          (ds.blobs_upload_commit repo uuid digest t) in
      let (v, wrote, h2) = settle-or_500 a t created (omega arith) commit y h1 in
      let committed =
        settle-after_single_commit a t created m ds repo uuid digest
          (ds.blobs_upload_commit repo uuid digest y.1) h2 in
      let empty = blobs_upload_create-Empty lib base repo uuid d x.1 (λ i. (made i, x.1)) in
      let (held, _) =
        blobs_upload_write-append lib base repo uuid [] body (some 0) x.1 y.1 empty (inr refl)
          (λ i. (ok_unit y.0 v wrote i, y.1)) in
      let (c, _, read, got) =
        blobs_upload_commit-Stored lib base repo uuid digest y.1 t valid committed in
      let same : c ≡ body = ok_injective (sym read ∙ held) in got ∙ (rw same refl)

  -- What a POST that is answered by 201, with a digest and without a mount, has passed and done.
  post-Created :
      (p : Request) (digest : Text) (d t : Disk) (a : Response)
      → blobs_uploads_post m ds p d ≡ (ok a, t)
      → a.status ≡ 201
      → p.query_mount ≡ []
      → p.query_digest ≡ some digest
      → (is_name p.name ≡ true)
        × (is_digest digest ≡ true)
        × (post_single m ds p.name digest p.body d ≡ (ok a, t))
  unfolding blobs_uploads_post post_case
  post-Created p digest d t a h created no_mount asked =
      let check = passed a t created (omega arith) in
      let single = post_single m ds p.name digest p.body d in
      let (named, h1) = check (not (is_name p.name)) (refusal 400 name_invalid) d _ (inl refl) h in
      let (_, h2) =
        check (not (allowed m p (codes "blobs") p.name (codes "POST"))) (challenge_request p) d _
          (challenge_request-IsRefusal p) h1 in
      let (_, h3) =
        check (is_set p.query_mount && not (is_digest p.query_mount)) (refusal 400 digest_wrong) d _
          (inl refl) h2 in
      let (_, h4) =
        check (is_set p.query_from && not (is_name p.query_from)) (refusal 400 name_invalid) d _
          (inl refl) h3 in
      let (valid, h5) =
        check (not (is_digest digest)) (refusal 400 digest_wrong) d single (inl refl)
          (rw (no_mount, asked, post_case) at h4) in
      (ground arith, ground arith, h5)

  -- A blob that a single POST uploads to the file system storage, which is answered by 201, is what
  -- a GET of it by a client with the permission is answered with in the state that the POST left:
  -- 200, the digest, and the bytes of the POST.
  pub blobs_uploads_post-Served :
      (p g : Request) (digest : Text) (d t : Disk) (a : Response)
      → blobs_uploads_post m ds p d ≡ (ok a, t)
      → a.status ≡ 201
      → p.query_mount ≡ []
      → p.query_digest ≡ some digest
      → g.name ≡ p.name
      → g.digest ≡ digest
      → allowed m g (codes "blobs") p.name (codes "GET") ≡ true
      → blobs_get m ds g t
        ≡ (ok (record (answer 200) { docker_content_digest = digest; content = bytes p.body }), t)
  unfolding blobs_get
  blobs_uploads_post-Served p g digest d t a h created no_mount asked same_name same_digest may =
      let (named, valid, done) = post-Created p digest d t a h created no_mount asked in
      let got = post_single-Stored p.name digest p.body d t a valid done created in
      rw (blobs_get, same_name, same_digest, named, valid, may, got) refl
