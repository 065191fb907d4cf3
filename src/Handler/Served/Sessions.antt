-- ===== src/Handler/Served/Sessions.antt =====
-- A PUT that commits an upload session of the file system storage, and a GET of the blob.
mod Tests
use simple_registry.Base.{
  ℕ, Bool, true, false, not, Option, none, some, [], ◌∷◌, ◌++◌, ◌==◌, ◌&&◌, nat_eq, list_eq, Text,
  codes, Error, Result, ok, err, Action, panic, ◌≡◌, refl, sym, ◌∙◌, ap, subst, ◌⊎◌, inl, inr,
  Bool-cases, length, append-nil, if◌then◌else◌, arith,
}
use simple_registry.Disk.{Disk, read_file}
use simple_registry.Handler.Access.{Server}
use simple_registry.Handler.Blobs.{blobs_get}
use simple_registry.Handler.Refusals.{challenge_request-IsRefusal}
use simple_registry.Handler.Reply.{
  Request, Response, answer, refusal, challenge_request, settle, allowed, name_invalid,
  blob_upload_invalid, blob_upload_unknown, digest_wrong, bytes,
}
use simple_registry.Handler.Answers.{other_status, passed}
use simple_registry.Handler.Uploads.{
  octet_stream, is_set, is_mismatch, range_start, get_or_empty, put_committed, put_commit,
  put_written, put_session, blobs_uploads_put,
}
use simple_registry.Garbage.Mark.{is_not_exist}
use simple_registry.Http.{parse_request_content_range}
use simple_registry.Paths.{FilePath}
use simple_registry.Storage.{DataStorage}
use simple_registry.Validator.{is_name, is_digest, is_uuid}
use simple_registry.Filesystem.Appends.{blobs_upload_write-append, ok_injective}
use simple_registry.Filesystem.Layout.{Library, upload_file}
use simple_registry.Filesystem.Storage.{filesystem_storage}
use simple_registry.Filesystem.Stored.{blobs_upload_commit-Stored}

module _ {S : Type 0} (m : Server) (ds : DataStorage S) (a : Response) (t : S)
    (created : a.status ≡ 201) where
  failed_commit :
      (missing mismatch : Bool) (s : S)
      → (¬ (
          ◌≡◌ {A = Result Response × S}
            (
              ok (
                  if missing
                  then refusal 404 blob_upload_unknown
                  else if mismatch
                  then refusal 400 digest_wrong
                  else answer 500),
              s,
            )
            (ok a, t)))
  failed_commit true mismatch s h =
      other_status a t created (omega arith) (refusal 404 blob_upload_unknown) s 404 refl
        (λ e. ground arith) h
  failed_commit false true s h =
      other_status a t created (omega arith) (refusal 400 digest_wrong) s 400 refl
        (λ e. ground arith) h
  failed_commit false false s h =
      other_status a t created (omega arith) (answer 500) s 500 refl (λ e. ground arith) h

  settle-put_committed :
      (p : Request) (digest : Text) (x : Result (Unit {0}) × S)
      → settle (put_committed m ds p digest) x ≡ (ok a, t)
      → ◌≡◌ {A = Result (Unit {0}) × S} x (ok tt, t)
  settle-put_committed p digest (ok tt, s) h = let e : s ≡ t = ap (λ z. z.1) h in λ i. (ok tt, e i)
  settle-put_committed p digest (err panic, s) h = absurd cc
  settle-put_committed p digest (err e, s) h =
      absurd (failed_commit (is_not_exist e) (is_mismatch e) s h)

  settle-put_written :
      (p : Request) (digest : Text) (x : Result (Unit {0}) × S)
      → settle (put_written m ds p digest) x ≡ (ok a, t)
      → (x.0 ≡ ok tt) × (put_commit m ds p digest x.1 ≡ (ok a, t))
  settle-put_written p digest (ok tt, s) h = (refl, h)
  settle-put_written p digest (err panic, s) h = absurd cc
  settle-put_written p digest (err e, s) h = absurd (failed_commit (is_not_exist e) false s h)

-- Whether a PUT carries bytes of the blob, and which.
abbrev pub has_bytes : Request → Bool
has_bytes p = p.content_type == octet_stream && is_set p.content_length

abbrev pub carried : Request → Text
carried p = if has_bytes p then p.body else []

module _ (m : Server) (lib : Library) (base : FilePath) where
  abbrev ds : DataStorage Disk
  ds = filesystem_storage lib base

  put_commit-Stored :
      (p : Request) (digest content : Text) (d t : Disk) (a : Response)
      → is_digest digest ≡ true
      → a.status ≡ 201
      → read_file (upload_file base p.name p.uuid (codes "data")) d ≡ ok content
      → put_commit m ds p digest d ≡ (ok a, t)
      → ds.blobs_get p.name digest t ≡ (ok (content, length content), t)
  unfolding put_commit
  put_commit-Stored p digest content d t a valid created held h =
      let x = ds.blobs_upload_commit p.name p.uuid digest d in
      let committed = settle-put_committed m ds a t created p digest x h in
      let (c, _, read, got) =
        blobs_upload_commit-Stored lib base p.name p.uuid digest d t valid committed in
      let same : c ≡ content = ok_injective (sym read ∙ held) in got ∙ (rw same refl)

  put_session-Stored :
      (p : Request) (digest old : Text) (start : Option ℕ) (d t : Disk) (a : Response)
      → range_start m ds (parse_request_content_range p.content_range) ≡ start
      → is_digest digest ≡ true
      → a.status ≡ 201
      → read_file (upload_file base p.name p.uuid (codes "data")) d ≡ ok old
      → (start ≡ none) ⊎ (start ≡ some (length old))
      → put_session m ds p digest d ≡ (ok a, t)
      → ds.blobs_get p.name digest t ≡ (ok (old ++ carried p, length (old ++ carried p)), t)
  unfolding put_session
  put_session-Stored p digest old start d t a named valid created held at_end h =
      elim (Bool-cases (has_bytes p)) [
        | inr f ↦
            let got =
              put_commit-Stored p digest old d t a valid created held (rw (f, put_session) at h) in
            rw (f, append-nil old) got
        | inl s ↦
            let x =
              ds.blobs_upload_write p.name p.uuid p.body
                (range_start m ds (parse_request_content_range p.content_range)) d in
            let (wrote, h1) =
              settle-put_written m ds a t created p digest x (rw (s, put_session) at h) in
            let (written, _) =
              blobs_upload_write-append lib base p.name p.uuid old p.body
                (range_start m ds (parse_request_content_range p.content_range)) d x.1 held
                (subst (λ z. (z ≡ none) ⊎ (z ≡ some (length old))) (sym named) at_end)
                (λ i. (wrote i, x.1)) in
            let got = put_commit-Stored p digest (old ++ p.body) x.1 t a valid created written h1 in
            rw s got
      ]

  -- What a PUT that is answered by 201 has passed and done.
  put-Created :
      (p : Request) (digest : Text) (d t : Disk) (a : Response)
      → blobs_uploads_put m ds p d ≡ (ok a, t)
      → a.status ≡ 201
      → p.query_digest ≡ some digest
      → (is_name p.name ≡ true)
        × (is_digest digest ≡ true)
        × (put_session m ds p digest d ≡ (ok a, t))
  unfolding blobs_uploads_put
  put-Created p digest d t a h created asked =
      let check = passed a t created (omega arith) in
      let asked_for = get_or_empty m ds p.query_digest in
      let named_digest : asked_for ≡ digest = rw asked refl in
      let (named, h1) = check (not (is_name p.name)) (refusal 400 name_invalid) d _ (inl refl) h in
      let (_, h2) =
        check (not (is_uuid p.uuid)) (refusal 400 blob_upload_invalid) d _ (inl refl) h1 in
      let (valid, h3) =
        check (not (is_digest asked_for)) (refusal 400 digest_wrong) d _ (inl refl) h2 in
      let (_, h4) =
        check (not (allowed m p (codes "blobs") p.name (codes "PUT"))) (challenge_request p) d
          (put_session m ds p asked_for d) (challenge_request-IsRefusal p) h3 in
      let fine : is_digest asked_for ≡ true = ground arith in
      (
        ground arith,
        subst (λ z. is_digest z ≡ true) named_digest fine,
        subst (λ z. put_session m ds p z d ≡ (ok a, t)) named_digest h4,
      )

  -- A PUT that commits an upload session of the file system storage and is answered by 201, with no
  -- start of its bytes or one at the end of what the session held, makes the blob what a GET of it by
  -- a client with the permission is answered with in the state that the PUT left: 200, the digest,
  -- and what the session held followed by the bytes of the PUT.
  pub blobs_uploads_put-Served :
      (p g : Request) (digest old : Text) (d t : Disk) (a : Response)
      → blobs_uploads_put m ds p d ≡ (ok a, t)
      → a.status ≡ 201
      → p.query_digest ≡ some digest
      → read_file (upload_file base p.name p.uuid (codes "data")) d ≡ ok old
      → (range_start m ds (parse_request_content_range p.content_range) ≡ none)
        ⊎ (range_start m ds (parse_request_content_range p.content_range) ≡ some (length old))
      → g.name ≡ p.name
      → g.digest ≡ digest
      → allowed m g (codes "blobs") p.name (codes "GET") ≡ true
      → blobs_get m ds g t ≡ (
        ok (record (answer 200) {
          docker_content_digest = digest;
          content = bytes (old ++ carried p);
        }),
        t,
      )
  unfolding blobs_get
  blobs_uploads_put-Served p g digest old d t a h created asked held at_end same_name same_digest
        may =
      let (named, valid, done) = put-Created p digest d t a h created asked in
      let got =
        put_session-Stored p digest old
          (range_start m ds (parse_request_content_range p.content_range)) d t a refl valid created
          held at_end done in
      rw (blobs_get, same_name, same_digest, named, valid, may, got) refl
