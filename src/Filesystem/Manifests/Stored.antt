-- ===== src/Filesystem/Manifests/Stored.antt =====
-- A manifest that is put can be got, by its digest and by its tag.
use simple_registry.Base.{
  In-append_right, ℕ, true, false, none, some, [], ◌∷◌, ◌++◌, nat_eq, list_eq, Text, codes, Result,
  ok, Action, pure, raise, lift, gets, ◌>>=◌, ◌>>◌, ◌≡◌, ◌≢◌, refl, sym, ◌∙◌, ap, subst, inl, inr,
  bind_ok, bind_of_ok, In, panic, repo_invalid, Result-cases, length, ltb, if◌then◌else◌, arith,
}
use simple_registry.Digest.{sha256, parse}
use simple_registry.Digest.Laws.{parse_iff}
use simple_registry.Disk.{Disk, read_file, mkdir_all, write_file, place}
use simple_registry.Disk.Laws.{file_at, place_self, read_file_iff}
use simple_registry.Paths.{FilePath}
use simple_registry.Uuid.{must_new, to_string}
use simple_registry.Validator.{is_name, is_tag}
use simple_registry.Validator.Digests.{is_tag-IsPlain}
use simple_registry.Filesystem.Progress.Commits.{require-true}
use simple_registry.Filesystem.Blobs.{reads, open_blob}
use simple_registry.Filesystem.Commits.{require_ok}
use simple_registry.Filesystem.Appends.{blobs_upload_write-append}
use simple_registry.Filesystem.Layout.{Library, upload_dir, upload_file, blob_path}
use simple_registry.Filesystem.Sound.{HexHashes}
use simple_registry.Filesystem.Sound.Paths.{long_ne_nil, hash-IsPlain}
use simple_registry.Filesystem.Stored.{blobs_upload_commit-files}
use simple_registry.Filesystem.Manifests.{
  manifest_algo, tag_link, manifest_put, manifest_get, resolve_reference,
}
use simple_registry.Filesystem.Uploads.{
  require, blobs_upload_create, blobs_upload_write, blobs_upload_commit,
}
use simple_registry.Filesystem.Manifests.Links.{ok_text, links_put, links_put-files}
use simple_registry.Filesystem.Manifests.Apart.{
  tag_link-off_blob, referrer_link-off_blob, referrer_link-off_tag, revision_link-off_blob,
}

own_parts :
    (hash : Text) → hash ≢ [] → parse (manifest_algo ++ b':' ∷ hash) ≡ ok (manifest_algo, hash)
own_parts hash ne =
    (parse_iff (manifest_algo ++ b':' ∷ hash) manifest_algo hash).1
      (refl, ground arith, λ e. cc, ne)

module _ (lib : Library) (base : FilePath) where
  -- The last step of the creation of a session leaves it empty.
  last_step-Empty :
      (repo id uuid : Text) (d t : Disk)
      → ◌≡◌ {A = Result Text × Disk}
          ((write_file (upload_file base repo id (codes "data")) [] >> pure id) d)
          (ok uuid, t)
      → read_file (upload_file base repo uuid (codes "data")) t ≡ ok []
  unfolding write_file
  last_step-Empty repo id uuid d t h =
      let file = upload_file base repo id (codes "data") in
      let (u, v, x, y) = bind_ok (write_file file []) (λ _. pure id) d h in
      let named : id ≡ uuid = ok_text (ap (λ z. z.0) y) in
      let same : v ≡ t = ap (λ z. z.1) y in
      let there : file_at file (place file [] d.now d).1 ≡ some ([], d.now) =
        place_self file [] d.now d (ap (λ z. z.0) x) in
      let after : (place file [] d.now d).1 ≡ t = ap (λ z. z.1) x ∙ same in
      (read_file_iff (upload_file base repo uuid (codes "data")) t []).1 (
        d.now,
        subst (λ z. file_at (upload_file base repo z (codes "data")) t ≡ some ([], d.now)) named
            (subst (λ z. file_at file z ≡ some ([], d.now)) after there),
      )

  -- A session that is created is empty.
  pub blobs_upload_create-Empty :
      (repo uuid : Text) (d t : Disk)
      → blobs_upload_create lib base repo d ≡ (ok uuid, t)
      → read_file (upload_file base repo uuid (codes "data")) t ≡ ok []
  unfolding blobs_upload_create
  blobs_upload_create-Empty repo uuid d t h =
      let file : Text → Text → FilePath = λ id. upload_file base repo id in
      let last : Text → Action Disk Text =
        λ id. write_file (file id (codes "data")) [] >> pure id in
      let timed : Text → ℕ → Action Disk Text =
        λ id now. write_file (file id (codes "startedat")) (lib.format_time now) >> last id in
      let begun : Text → Action Disk Text =
        λ id. mkdir_all (upload_dir base repo id) >> (gets (λ z. z.now) >>= timed id) in
      let (_, d1, _, y1) =
        bind_ok (require (is_name repo) repo_invalid) (λ _. must_new >>= (λ b. begun (to_string b)))
          d h in
      let (b, d2, _, y2) = bind_ok must_new (λ b. begun (to_string b)) d1 y1 in
      let (_, d3, _, y3) =
        bind_ok (mkdir_all (upload_dir base repo (to_string b)))
          (λ _. gets (λ z. z.now) >>= timed (to_string b)) d2 y2 in
      let (now, d4, _, y4) = bind_ok (gets (λ z. z.now)) (timed (to_string b)) d3 y3 in
      let (_, d5, _, y5) =
        bind_ok (write_file (file (to_string b) (codes "startedat")) (lib.format_time now))
          (λ _. last (to_string b)) d4 y4 in
      last_step-Empty repo (to_string b) uuid d5 t y5

  -- What the blob and the links hold is what `ManifestGet` finds.
  found_by_parts :
      (repo reference hash content : Text) (x : ℕ) (t : Disk)
      → is_name repo ≡ true
      → resolve_reference lib base repo reference t ≡ (ok (manifest_algo, hash), t)
      → ltb (length hash) 2 ≡ false
      → file_at (blob_path base manifest_algo hash) t ≡ some (content, x)
      → manifest_get lib base repo reference t
        ≡ (ok (content, length content, manifest_algo ++ b':' ∷ hash), t)
  unfolding manifest_get open_blob
  found_by_parts repo reference hash content x t valid resolved long at =
      let b = blob_path base manifest_algo hash in
      let answer : Text × Text → Text × ℕ → Action Disk (Text × ℕ × Text) =
        λ p c. pure (c.0, c.1, p.0 ++ b':' ∷ p.1) in
      let opened : Text × Text → Action Disk (Text × ℕ × Text) =
        λ p. if ltb (length p.1) 2 then raise panic else (open_blob base p.0 p.1 >>= answer p) in
      let read = (read_file_iff b t content).1 (x, at) in
      bind_of_ok (require (is_name repo) repo_invalid)
        (λ _. resolve_reference lib base repo reference >>= opened) t (require-true _ _ t valid)
      ∙ bind_of_ok (resolve_reference lib base repo reference) opened t resolved
      ∙ (rw long (
          bind_of_ok (open_blob base manifest_algo hash) (answer (manifest_algo, hash)) t
            (bind_of_ok (reads b) (λ c. pure (c, length c)) t (λ i. (read i, t)))))

  -- A manifest's digest stands for itself.
  resolve_digest :
      (repo hash : Text) (t : Disk)
      → parse (manifest_algo ++ b':' ∷ hash) ≡ ok (manifest_algo, hash)
      → resolve_reference lib base repo (manifest_algo ++ b':' ∷ hash) t
        ≡ (ok (manifest_algo, hash), t)
  unfolding resolve_reference
  resolve_digest repo hash t parts = rw (resolve_reference, parts) refl

  -- A tag stands for the digest in its link.
  resolve_by_tag :
      (repo tag hash : Text) (x : ℕ) (t : Disk)
      → is_tag tag ≡ true
      → parse (manifest_algo ++ b':' ∷ hash) ≡ ok (manifest_algo, hash)
      → file_at (tag_link lib base repo tag) t ≡ some (manifest_algo ++ b':' ∷ hash, x)
      → resolve_reference lib base repo tag t ≡ (ok (manifest_algo, hash), t)
  unfolding resolve_reference
  resolve_by_tag repo tag hash x t valid parts at = elim (Result-cases (parse tag)) [
    | inr ((a, h), r) ↦
        let (e, _, _, _) = (parse_iff tag a h).0 r in
        absurd (
          (is_tag-IsPlain tag valid).1
            (subst (In b':') (sym e) (In-append_right b':' a (b':' ∷ h) (inl refl))))
    | inl (e, r) ↦
        let read =
          (read_file_iff (tag_link lib base repo tag) t (manifest_algo ++ b':' ∷ hash)).1 (x, at) in
        rw (resolve_reference, r, valid)
          (bind_of_ok (reads (tag_link lib base repo tag)) (λ link. lift (parse link)) t
              (λ i. (read i, t))
            ∙ (λ i. (parts i, t)))
  ]

  -- A manifest whose put succeeds is got back, byte for byte, by the digest that came back and, if
  -- the reference is a tag, by the tag, whatever the subject of the manifest is, if the hashes are
  -- two or more hexadecimal digits.
  pub manifest_put-Stored :
      (repo reference content digest : Text) (d t : Disk)
      → HexHashes lib
      → manifest_put lib base repo reference content d ≡ (ok digest, t)
      → (manifest_get lib base repo digest t ≡ (ok (content, length content, digest), t))
        × (is_tag reference ≡ true
            → manifest_get lib base repo reference t ≡ (ok (content, length content, digest), t))
  unfolding manifest_put
  manifest_put-Stored repo reference content digest d t hex h =
      let hash = lib.hash_as_string sha256 content in
      let own = manifest_algo ++ b':' ∷ hash in
      let commits : Text → Action Disk Text = λ uuid.
        blobs_upload_commit lib base repo uuid own >> links_put lib base repo reference content in
      let writes : Text → Action Disk Text =
        λ uuid. blobs_upload_write lib base repo uuid content none >> commits uuid in
      let (_, d0, x0, y0) =
        bind_ok (require (is_name repo) repo_invalid)
          (λ _. blobs_upload_create lib base repo >>= writes) d h in
      let (valid, _) = require_ok (is_name repo) repo_invalid d d0 x0 in
      let (uuid, d1, x1, y1) = bind_ok (blobs_upload_create lib base repo) writes d0 y0 in
      let (_, d2, x2, y2) =
        bind_ok (blobs_upload_write lib base repo uuid content none) (λ _. commits uuid) d1 y1 in
      let (_, d3, x3, y3) =
        bind_ok (blobs_upload_commit lib base repo uuid own)
          (λ _. links_put lib base repo reference content) d2 y2 in
      let empty = blobs_upload_create-Empty repo uuid d0 d1 x1 in
      let (written, _) =
        blobs_upload_write-append lib base repo uuid [] content none d1 d2 empty (inl refl) x2 in
      let long = hex.many sha256 content in
      let parts = own_parts hash (long_ne_nil hash long) in
      let (c, x, _, two, held, at_b, _) =
        blobs_upload_commit-files lib base repo uuid own manifest_algo hash d2 d3 parts
          (ground arith) (hash-IsPlain lib hex sha256 content) x3 in
      let same : c ≡ content = ok_text (sym held ∙ written) in
      let b = blob_path base manifest_algo hash in
      let (named, kept, tagged) =
        links_put-files lib base repo reference content digest b d3 t
          (revision_link-off_blob lib base hex repo reference content valid)
          (tag_link-off_blob lib base hex repo reference content)
          (referrer_link-off_blob lib base hex repo reference content)
          (referrer_link-off_tag lib base hex repo reference content) y3 in
      let at_t : file_at b t ≡ some (content, x) = kept ∙ at_b ∙ ap (λ z. some (z, x)) same in
      rw named (
        found_by_parts repo own hash content x t valid (resolve_digest repo hash t parts) two at_t,
        λ is.
            let (y, link) = tagged is in
            found_by_parts repo reference hash content x t valid
              (resolve_by_tag repo reference hash y t is parts link) two at_t,
      )
