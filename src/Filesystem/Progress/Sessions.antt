-- ===== src/Filesystem/Progress/Sessions.antt =====
-- When a session is created and written to.
use simple_registry.Base.{
  ℕ, true, false, none, some, List, [], ◌∷◌, nat_eq, list_eq, Text, codes, ok, Action, pure, gets,
  ◌>>=◌, ◌>>◌, ◌≡◌, ◌≢◌, refl, sym, ◌∙◌, ap, subst, bind_of_ok, repo_invalid, uuid_invalid,
}
use simple_registry.Disk.{Disk, file, dir, find, is_under, mkdir_all, write_file, place}
use simple_registry.Disk.Laws.{file_at, place_self, read_file_iff}
use simple_registry.Disk.Room.{HasRoom, find-set_node_ne}
use simple_registry.Disk.Room.Writes.{
  mkdir_all-Makes, write_file_ok, HasRoom-mkdir_all, HasRoom-write_file, HasRoom-nodes,
}
use simple_registry.Paths.{FilePath, dir_of}
use simple_registry.Uuid.{must_new, new, stamp, to_string}
use simple_registry.Validator.{is_name, is_uuid}
use simple_registry.Filesystem.Blobs.{reads}
use simple_registry.Filesystem.Layout.{Library, upload_dir, upload_file}
use simple_registry.Filesystem.Uploads.{require, splice, blobs_upload_create, blobs_upload_write}
use simple_registry.Filesystem.Progress.Commits.{require-true}

must_new_some :
    (bytes : Text) (rest : List Text) (d : Disk)
    → d.entropy ≡ bytes ∷ rest
    → must_new d ≡ (ok (stamp bytes), record { nodes = d.nodes; now = d.now; entropy = rest })
unfolding must_new new
must_new_some bytes rest d h =
    let after : Disk = record { nodes = d.nodes; now = d.now; entropy = rest } in
    subst
      (λ l.
        must_new (record { nodes = d.nodes; now = d.now; entropy = l }) ≡ (ok (stamp bytes), after))
      (sym h) refl

-- A file written into a directory that is there.
pub write_file-Writes :
    (p q : FilePath) (c : Text) (d : Disk)
    → dir_of p ≡ q
    → p ≢ q
    → find q d ≡ some dir
    → find p d ≢ some dir
    → ((write_file p c d).0 ≡ ok tt)
      × (find q (write_file p c d).1 ≡ some dir)
      × (file_at p (write_file p c d).1 ≡ some (c, d.now))
unfolding write_file
write_file-Writes p q c d at ne into free =
    let done = write_file_ok p c d (subst (λ z. find z d ≡ some dir) (sym at) into) free in
    let ok_here : (place p c d.now d).0 ≡ ok tt = ap (λ z. z.0) done in
    (
      ok_here,
      ap (λ z. find q z.1) done ∙ find-set_node_ne p q (file c d.now) d ne ∙ into,
      place_self p c d.now d ok_here,
    )

module _ (lib : Library) (base : FilePath) (repo uuid : Text) where
  -- The session holds these bytes, and the files outside it have the room that they had.
  pub record Holds (content : Text) (d t : Disk) : Type 0 where
    pub session : find (upload_dir base repo uuid) t ≡ some dir
    pub at : ℕ
    pub bytes : file_at (upload_file base repo uuid (codes "data")) t ≡ some (content, at)
    pub room :
        (p : FilePath)
        → is_under p (upload_dir base repo uuid) ≡ false
        → is_under (upload_file base repo uuid (codes "startedat")) (dir_of p) ≡ false
        → is_under (upload_file base repo uuid (codes "data")) (dir_of p) ≡ false
        → HasRoom p d
        → HasRoom p t

  pub blobs_upload_create-Succeeds :
      (bytes : Text) (rest : List Text) (d : Disk)
      → let a = upload_file base repo uuid (codes "startedat") in
        let u = upload_file base repo uuid (codes "data") in
        let s = upload_dir base repo uuid in
        is_name repo ≡ true
        → d.entropy ≡ bytes ∷ rest
        → to_string (stamp bytes) ≡ uuid
        → dir_of a ≡ s
        → dir_of u ≡ s
        → is_under a s ≡ false
        → is_under u s ≡ false
        → a ≢ s
        → u ≢ s
        → HasRoom a d
        → HasRoom u d
        → (t : Disk) × (blobs_upload_create lib base repo d ≡ (ok uuid, t)) × Holds [] d t
  unfolding blobs_upload_create
  blobs_upload_create-Succeeds bytes rest d valid random named dir_a dir_u off_a off_u ne_a ne_u
        room_a room_u =
      let a = upload_file base repo uuid (codes "startedat") in
      let u = upload_file base repo uuid (codes "data") in
      let s = upload_dir base repo uuid in
      let d0 : Disk = record { nodes = d.nodes; now = d.now; entropy = rest } in
      let d1 = (mkdir_all s d0).1 in
      let time = lib.format_time d1.now in
      let d2 = (write_file a time d1).1 in
      let d3 = (write_file u [] d2).1 in
      let a0 = HasRoom-nodes a d d.now rest room_a in
      let u0 = HasRoom-nodes u d d.now rest room_u in
      let (made, there) =
        mkdir_all-Makes s d0
          (λ q c x under. a0.above q c x (subst (λ z. is_under q z ≡ true) (sym dir_a) under)) in
      let a1 = HasRoom-mkdir_all a s d0 off_a a0 in
      let u1 = HasRoom-mkdir_all u s d0 off_u u0 in
      let (wrote, there2, _) = write_file-Writes a s time d1 dir_a ne_a there a1.here in
      let u2 =
        HasRoom-write_file u a time d1 (subst (λ z. is_under a z ≡ false) (sym dir_u) off_a) u1 in
      let (wrote', there3, held) = write_file-Writes u s [] d2 dir_u ne_u there2 u2.here in
      let finish : Text → Action Disk Text =
        λ id. write_file (upload_file base repo id (codes "data")) [] >> pure id in
      let timed : Text → ℕ → Action Disk Text = λ id now.
        write_file (upload_file base repo id (codes "startedat")) (lib.format_time now)
        >> finish id in
      let begun : Text → Action Disk Text =
        λ id. mkdir_all (upload_dir base repo id) >> (gets (λ z. z.now) >>= timed id) in
      (
        d3,
        bind_of_ok (require (is_name repo) repo_invalid)
              (λ _. must_new >>= (λ b. begun (to_string b))) d (require-true _ _ d valid)
            ∙ bind_of_ok must_new (λ b. begun (to_string b)) d (must_new_some bytes rest d random)
            ∙ ap (λ id. begun id d0) named
            ∙ bind_of_ok (mkdir_all s) (λ _. gets (λ z. z.now) >>= timed uuid) d0
                (λ i. (made i, d1))
            ∙ bind_of_ok (write_file a time) (λ _. finish uuid) d1 (λ i. (wrote i, d2))
            ∙ bind_of_ok (write_file u []) (λ _. pure uuid) d2 (λ i. (wrote' i, d3)),
        record {
          session = there3;
          at = d2.now;
          bytes = held;
          room = λ p off off_a' off_u' r. HasRoom-write_file p u [] d2 off_u' (
              HasRoom-write_file p a time d1 off_a'
                (HasRoom-mkdir_all p s d0 off (HasRoom-nodes p d d.now rest r)));
        },
      )

  -- What is written to the end of an empty session is what it holds.
  pub blobs_upload_write-Succeeds :
      (content : Text) (d t : Disk)
      → let u = upload_file base repo uuid (codes "data") in
        let s = upload_dir base repo uuid in
        is_name repo ≡ true
        → is_uuid uuid ≡ true
        → dir_of u ≡ s
        → u ≢ s
        → Holds [] d t
        → (t' : Disk) × (blobs_upload_write lib base repo uuid content none t ≡ (ok tt, t'))
          × Holds content d t'
  unfolding blobs_upload_write splice file_at
  blobs_upload_write-Succeeds content d t valid id dir_u ne h =
      let u = upload_file base repo uuid (codes "data") in
      let s = upload_dir base repo uuid in
      let t' = (write_file u content t).1 in
      let free : find u t ≢ some dir = λ e. (let k = h.bytes in cc (rw e at k)) in
      let (wrote, there, held) = write_file-Writes u s content t dir_u ne h.session free in
      let writing : Text → Action Disk (Unit {0}) = λ old. write_file u (splice old content none) in
      let reading : Action Disk (Unit {0}) = reads u >>= writing in
      let old = (read_file_iff u t []).1 (h.at, h.bytes) in
      (
        t',
        bind_of_ok (require (is_name repo) repo_invalid)
              (λ _. require (is_uuid uuid) uuid_invalid >> reading) t (require-true _ _ t valid)
            ∙ bind_of_ok (require (is_uuid uuid) uuid_invalid) (λ _. reading) t
                (require-true _ _ t id)
            ∙ bind_of_ok (reads u) writing t (λ i. (old i, t))
            ∙ (λ i. (wrote i, t')),
        record {
          session = there;
          at = t.now;
          bytes = held;
          room = λ p off off_a off_u r.
              HasRoom-write_file p u content t off_u (h.room p off off_a off_u r);
        },
      )
