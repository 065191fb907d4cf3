-- ===== src/Handler/Served/Chunks.antt =====
-- A PATCH of an upload session of the file system storage.
mod Tests
use simple_registry.Base.{
  ℕ, Bool, true, false, not, ◌<◌, Option, none, some, [], ◌∷◌, ◌++◌, ◌==◌, nat_eq, list_eq, Text,
  codes, Error, Result, ok, err, Action, panic, pure, ◌>>=◌, ◌>>◌, ◌≡◌, ◌≢◌, refl, sym, ◌∙◌, ap,
  subst, ◌⊎◌, inl, inr, ==_eq, Option-cases, Bool-cases, bind_ok, length, if◌then◌else◌, arith,
  repo_invalid, uuid_invalid,
}
use simple_registry.Disk.{Disk, Node, file, dir, stat, read_file}
use simple_registry.Disk.Laws.{file_at}
use simple_registry.Handler.Access.{Server}
use simple_registry.Handler.Answers.{other_status, passed, settle-or_500}
use simple_registry.Handler.Refusals.{challenge_request-IsRefusal}
use simple_registry.Handler.Reply.{
  Request, Response, answer, refusal, challenge_request, settle, allowed, name_invalid,
  blob_upload_invalid, blob_upload_unknown, size_invalid,
}
use simple_registry.Handler.Served.{ok_unit}
use simple_registry.Handler.Uploads.{
  or_500, octet_stream, range_start, out_of_range, session_state, patch_write, patch_sized,
  session_checks, blobs_uploads_patch,
}
use simple_registry.Garbage.Mark.{is_not_exist}
use simple_registry.Http.{parse_request_content_range}
use simple_registry.Paths.{FilePath}
use simple_registry.Storage.{DataStorage}
use simple_registry.Validator.{is_name, is_uuid}
use simple_registry.Filesystem.Appends.{blobs_upload_write-append}
use simple_registry.Filesystem.Blobs.{stats}
use simple_registry.Filesystem.Commits.{require_ok, lift_result}
use simple_registry.Filesystem.Layout.{Library, upload_file}
use simple_registry.Filesystem.Reads.{reads-Keeps}
use simple_registry.Filesystem.Storage.{filesystem_storage}
use simple_registry.Filesystem.Uploads.{require, size_of, blobs_upload_size}

ranges : {b a : Response} → ◌≡◌ {A = Result Response} (ok b) (ok a) → b.range_size ≡ a.range_size
ranges {b} {a} h = let e : b ≡ a = cc in ap (λ z. z.range_size) e

ok_length : {c old : Text} → ◌≡◌ {A = Result Text} (ok c) (ok old) → length c ≡ length old
ok_length {c} {old} h = let e : c ≡ old = cc in ap length e

size_of_read :
    (lib : Library) (base p : FilePath) (node : Node) (old : Text) (d : Disk)
    → stat p d ≡ ok node
    → read_file p d ≡ ok old
    → size_of lib base node ≡ length old
unfolding read_file
size_of_read lib base p (file c t) old d s h = ok_length (rw (s, read_file) at h)
size_of_read lib base p dir old d s h = absurd (cc (rw (s, read_file) at h))

module _ (m : Server) (lib : Library) (base : FilePath) where
  abbrev ds : DataStorage Disk
  ds = filesystem_storage lib base

  -- The size that the storage reports is that of what the session holds.
  blobs_upload_size-length :
      (repo uuid old : Text) (n : ℕ) (d t : Disk)
      → read_file (upload_file base repo uuid (codes "data")) d ≡ ok old
      → blobs_upload_size lib base repo uuid d ≡ (ok n, t)
      → n ≡ length old
  unfolding blobs_upload_size
  blobs_upload_size-length repo uuid old n d t held h =
      let p = upload_file base repo uuid (codes "data") in
      let sized : Node → Action Disk ℕ = λ node. pure (size_of lib base node) in
      let (_, d1, x1, y1) =
        bind_ok (require (is_name repo) repo_invalid)
          (λ _. require (is_uuid uuid) uuid_invalid >> (stats p >>= sized)) d h in
      let (_, e1) = require_ok (is_name repo) repo_invalid d d1 x1 in
      let (_, d2, x2, y2) =
        bind_ok (require (is_uuid uuid) uuid_invalid) (λ _. stats p >>= sized) d1 y1 in
      let (_, e2) = require_ok (is_uuid uuid) uuid_invalid d1 d2 x2 in
      let (node, d3, x3, y3) = bind_ok (stats p) sized d2 y2 in
      let (there, _) = lift_result (stat p d2) d2 d3 x3 in
      let here : stat p d ≡ ok node = subst (λ z. stat p z ≡ ok node) (e2 ∙ e1) there in
      let size : size_of lib base node ≡ n = cc in
      sym size ∙ size_of_read lib base p node old d here held

  -- What a PATCH that is answered by 202 has passed and done.
  patch-Accepted :
      (p : Request) (d t : Disk) (a : Response)
      → blobs_uploads_patch m ds p d ≡ (ok a, t)
      → a.status ≡ 202
      → settle
          (patch_sized m ds p (range_start m ds (parse_request_content_range p.content_range)))
          (ds.blobs_upload_size p.name p.uuid d)
        ≡ (ok a, t)
  unfolding blobs_uploads_patch
  patch-Accepted p d t a h accepted =
      let check = passed a t accepted (omega arith) in
      let k : Action Disk Response = λ s.
        settle (patch_sized m ds p (range_start m ds (parse_request_content_range p.content_range)))
          (ds.blobs_upload_size p.name p.uuid s) in
      let (_, h1) =
        check (not (p.content_type == octet_stream)) (refusal 400 blob_upload_invalid) d
          (session_checks m ds (codes "PATCH") p k d) (inl refl) h in
      let (_, h2) = check (not (is_name p.name)) (refusal 400 name_invalid) d _ (inl refl) h1 in
      let (_, h3) =
        check (not (is_uuid p.uuid)) (refusal 400 blob_upload_invalid) d _ (inl refl) h2 in
      let (_, h4) =
        check (not (allowed m p (codes "blobs") p.name (codes "PATCH"))) (challenge_request p) d
          (k d) (challenge_request-IsRefusal p) h3 in
      h4

  at_end :
      (start : Option ℕ) (n : ℕ)
      → out_of_range m ds start n ≡ false
      → (start ≡ none) ⊎ (start ≡ some n)
  at_end none n h = inl refl
  at_end (some start) n h = let t : (start == n) ≡ true = ground arith in inr (ap some (==_eq t))

  -- A session whose size is not the start of the range is refused.
  settle-patch_sized :
      (p : Request) (start : Option ℕ) (x : Result ℕ × Disk) (t : Disk) (a : Response)
      → a.status ≡ 202
      → settle (patch_sized m ds p start) x ≡ (ok a, t)
      → (n : ℕ) × (x.0 ≡ ok n)
        × ((start ≡ none) ⊎ (start ≡ some n))
        × (patch_write m ds p start x.1 ≡ (ok a, t))
  settle-patch_sized p start (ok n, s) t a accepted h =
      elim (Bool-cases (out_of_range m ds start n)) [
        | inl out ↦ absurd (
            other_status a t accepted (omega arith) (refusal 416 size_invalid) s 416 refl
              (λ e. ground arith) (rw out at h))
        | inr fits ↦ (n, refl, at_end start n fits, rw fits at h)
      ]
  settle-patch_sized p start (err panic, s) t a accepted h = absurd cc
  settle-patch_sized p start (err e, s) t a accepted h = absurd (unknown (is_not_exist e) h)
    where
      unknown :
          (b : Bool)
          → (¬ (
              ◌≡◌ {A = Result Response × Disk}
                (ok (if b then refusal 404 blob_upload_unknown else answer 500), s)
                (ok a, t)))
      unknown true h =
          other_status a t accepted (omega arith) (refusal 404 blob_upload_unknown) s 404 refl
            (λ e. ground arith) h
      unknown false h =
          other_status a t accepted (omega arith) (answer 500) s 500 refl (λ e. ground arith) h

  -- The bytes of a PATCH of an upload session of the file system storage that is answered by 202 are
  -- put behind what the session held, whatever range it names; the answer has the size that the
  -- session has then, and no other file changes.
  pub blobs_uploads_patch-append :
      (p : Request) (old : Text) (d t : Disk) (a : Response)
      → blobs_uploads_patch m ds p d ≡ (ok a, t)
      → a.status ≡ 202
      → read_file (upload_file base p.name p.uuid (codes "data")) d ≡ ok old
      → (read_file (upload_file base p.name p.uuid (codes "data")) t ≡ ok (old ++ p.body))
        × (a.range_size ≡ some (length (old ++ p.body)))
        × ((q : FilePath)
            → upload_file base p.name p.uuid (codes "data") ≢ q
            → file_at q t ≡ file_at q d)
  blobs_uploads_patch-append p old d t a h accepted held =
      let start = range_start m ds (parse_request_content_range p.content_range) in
      let file = upload_file base p.name p.uuid (codes "data") in
      let x = ds.blobs_upload_size p.name p.uuid d in
      let (n, sized, fits, h1) =
        settle-patch_sized p start x t a accepted (patch-Accepted p d t a h accepted) in
      let is_n = blobs_upload_size-length p.name p.uuid old n d x.1 held (λ i. (sized i, x.1)) in
      let kept : x.1 ≡ d = (reads-Keeps lib base p.name [] p.uuid []).2 d in
      let y = ds.blobs_upload_write p.name p.uuid p.body start x.1 in
      let report : Unit {0} → Action Disk Response =
        λ u s. settle (or_500 (session_state m ds 202 p)) (ds.blobs_upload_size p.name p.uuid s) in
      let (u, wrote, h2) = settle-or_500 a t accepted (omega arith) report y h1 in
      let z = ds.blobs_upload_size p.name p.uuid y.1 in
      let (k, measured, h3) =
        settle-or_500 a t accepted (omega arith) (session_state m ds 202 p) z h2 in
      let before : read_file file x.1 ≡ ok old =
        subst (λ s. read_file file s ≡ ok old) (sym kept) held in
      let (now, others) =
        blobs_upload_write-append lib base p.name p.uuid old p.body start x.1 y.1 before
          (subst (λ l. (start ≡ none) ⊎ (start ≡ some l)) is_n fits)
          (λ i. (ok_unit y.0 u wrote i, y.1)) in
      let last : y.1 ≡ t =
        sym ((reads-Keeps lib base p.name [] p.uuid []).2 y.1) ∙ ap (λ w. w.1) h3 in
      let is_k =
        blobs_upload_size-length p.name p.uuid (old ++ p.body) k y.1 z.1 now
          (λ i. (measured i, z.1)) in
      let reported : some k ≡ a.range_size = ranges (ap (λ w. w.0) h3) in
      (
        subst (λ s. read_file file s ≡ ok (old ++ p.body)) last now,
        sym reported ∙ ap some is_k,
        λ q ne. subst (λ s. file_at q s ≡ file_at q d) last (others q ne ∙ ap (file_at q) kept),
      )
