-- ===== src/Filesystem/Sound/Operations.antt =====
-- No operation of blobs and uploads brings about a file that breaks a blob, whether it fails or
-- not; the commits are in Commits.
use simple_registry.Base.{
  ℕ, Option, List, [], ◌∷◌, nat_eq, list_eq, Text, codes, Action, pure, raise, lift, gets, ◌>>=◌,
  ◌>>◌, inl, arith, length, ltb, if◌then◌else◌, hash_short, repo_invalid, uuid_invalid,
}
use simple_registry.Digest.{parse}
use simple_registry.Disk.{Disk, Node, write_file, mkdir_all, remove_all, find}
use simple_registry.Disk.Changes.{Changes, Changes-refl, mkdir_all-Changes, write_file-Changes}
use simple_registry.Disk.Laws.{file_at}
use simple_registry.Paths.{FilePath}
use simple_registry.Paths.Plain.{IsPlain}
use simple_registry.Uuid
use simple_registry.Validator.{is_name, is_uuid}
use simple_registry.Validator.Digests.{is_uuid-IsPlain}
use simple_registry.Filesystem.Blobs.{reads, stats, blobs_delete, doomed}
use simple_registry.Filesystem.Layout.{Library, upload_dir, upload_file}
use simple_registry.Filesystem.Uploads.{
  require, splice, blobs_upload_create, blobs_upload_cancel, blobs_upload_write,
}
use simple_registry.Filesystem.Sound.{Fits}
use simple_registry.Filesystem.Sound.Paths.{to_string-IsPlain, upload-Fits}
use simple_registry.Filesystem.Sound.Actions.{
  Always, Always-bind, Always-if, Always-guard, remove_at-Always,
}

must_new-Changes :
    (W : FilePath → Text → Type 0) (nodes : List (FilePath × Node)) (now : ℕ) (entropy : List Text)
    → let d : Disk = record { nodes = nodes; now = now; entropy = entropy } in
      Changes W d (Uuid.must_new d).1
unfolding Uuid.must_new Uuid.new file_at find
must_new-Changes W nodes now [] q c x h = inl h
must_new-Changes W nodes now (b ∷ rest) [] c x h = inl h
must_new-Changes W nodes now (b ∷ rest) (y ∷ q) c x h = inl h

module _ (lib : Library) (base : FilePath) where
  abbrev pub Safely : {A : Type 0} → Action Disk A → Type 0
  Safely = Always (Fits lib base)

  pub blobs_delete-Safely : (repo digest : Text) → Safely (blobs_delete base repo digest)
  unfolding blobs_delete
  blobs_delete-Safely repo digest =
      let W = Fits lib base in
      let delete : Text × Text → Action Disk (Unit {0}) =
        λ p. stats (doomed base repo p.0 p.1) >> remove_all (doomed base repo p.0 p.1) in
      Always-bind W (lift (parse digest))
        (λ p. if ltb (length p.1) 2 then raise hash_short else delete p) (λ d. Changes-refl W d)
        (λ p.
          Always-if W (ltb (length p.1) 2) (raise hash_short) (delete p) (λ _ d. Changes-refl W d)
            (remove_at-Always W (doomed base repo p.0 p.1)))

  pub blobs_upload_cancel-Safely :
      (repo uuid : Text) → Safely (blobs_upload_cancel lib base repo uuid)
  unfolding blobs_upload_cancel
  blobs_upload_cancel-Safely repo uuid =
      let W = Fits lib base in
      let delete : Action Disk (Unit {0}) =
        stats (upload_dir base repo uuid) >> remove_all (upload_dir base repo uuid) in
      Always-guard W (is_name repo) repo_invalid (require (is_uuid uuid) uuid_invalid >> delete)
        (λ _.
          Always-guard W (is_uuid uuid) uuid_invalid delete
            (λ _. remove_at-Always W (upload_dir base repo uuid)))

  pub blobs_upload_write-Safely :
      (repo uuid new : Text) (start : Option ℕ)
      → Safely (blobs_upload_write lib base repo uuid new start)
  unfolding blobs_upload_write
  blobs_upload_write-Safely repo uuid new start =
      let W = Fits lib base in
      let u = upload_file base repo uuid (codes "data") in
      let write : Text → Action Disk (Unit {0}) = λ old. write_file u (splice old new start) in
      Always-guard W (is_name repo) repo_invalid
        (require (is_uuid uuid) uuid_invalid >> (reads u >>= write))
        (λ valid. Always-guard W (is_uuid uuid) uuid_invalid (reads u >>= write) (λ v.
          Always-bind W (reads u) write (λ d. Changes-refl W d)
            (λ old d. write_file-Changes W u (splice old new start) d (
              upload-Fits lib base repo uuid (codes "data") (splice old new start) valid
                (is_uuid-IsPlain uuid v) (ground arith)))))

  must_new-Safely : Safely Uuid.must_new
  must_new-Safely d = must_new-Changes (Fits lib base) d.nodes d.now d.entropy

  pub blobs_upload_create-Safely : (repo : Text) → Safely (blobs_upload_create lib base repo)
  unfolding blobs_upload_create
  blobs_upload_create-Safely repo =
      let W = Fits lib base in
      let file : Text → Text → FilePath =
        λ bytes name. upload_file base repo (Uuid.to_string bytes) name in
      let second : Text → Action Disk Text =
        λ bytes. write_file (file bytes (codes "data")) [] >> pure (Uuid.to_string bytes) in
      let first : Text → ℕ → Action Disk Text = λ bytes now.
        write_file (file bytes (codes "startedat")) (lib.format_time now) >> second bytes in
      let timed : Text → Action Disk Text = λ bytes. gets (λ d. d.now) >>= first bytes in
      let made : Text → Action Disk Text =
        λ bytes. mkdir_all (upload_dir base repo (Uuid.to_string bytes)) >> timed bytes in
      Always-guard W (is_name repo) repo_invalid (Uuid.must_new >>= made) (λ valid.
        let fine = λ (bytes name c : Text) (k : IsPlain name).
          upload-Fits lib base repo (Uuid.to_string bytes) name c valid (to_string-IsPlain bytes)
            k in
        Always-bind W Uuid.must_new made must_new-Safely (λ bytes.
          Always-bind W (mkdir_all (upload_dir base repo (Uuid.to_string bytes))) (λ _. timed bytes)
            (mkdir_all-Changes W (upload_dir base repo (Uuid.to_string bytes)))
            (λ _.
              Always-bind W (gets (λ d. d.now)) (first bytes) (λ d. Changes-refl W d)
                (λ now.
                  Always-bind W (write_file (file bytes (codes "startedat")) (lib.format_time now))
                    (λ _. second bytes)
                    (λ d.
                      write_file-Changes W (file bytes (codes "startedat")) (lib.format_time now) d
                        (fine bytes (codes "startedat") (lib.format_time now) (ground arith)))
                    (λ _.
                      Always-bind W (write_file (file bytes (codes "data")) [])
                        (λ _. pure (Uuid.to_string bytes))
                        (λ d.
                          write_file-Changes W (file bytes (codes "data")) [] d
                            (fine bytes (codes "data") [] (ground arith)))
                        (λ _ d. Changes-refl W d))))))
