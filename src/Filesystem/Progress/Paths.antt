-- ===== src/Filesystem/Progress/Paths.antt =====
-- The files of an upload and their directories are not in each other's way.
use simple_registry.Base.{
  true, false, [], ◌∷◌, ◌++◌, nat_eq, list_eq, list_beq, Text, codes, ◌≡◌, ◌≢◌, refl, sym, ◌∙◌, ap,
  ap₂, append_assoc, ==_refl, take, arith,
}
use simple_registry.Disk.{is_under}
use simple_registry.Paths.{FilePath, split_slash, dir_of}
use simple_registry.Paths.Plain.{IsPlain}
use simple_registry.Validator.{is_name}
use simple_registry.Filesystem.Layout.{layer_link, blob_path, upload_file, upload_dir}
use simple_registry.Filesystem.Layout.Apart.{join_repo, is_under_append, is_under_other}
use simple_registry.Filesystem.Stored.{repositories-ne_blobs, blob_at, layer_at, upload_at}

dir_of-append_any :
    (p : FilePath) (x : Text) (q : FilePath) → dir_of (p ++ x ∷ q) ≡ p ++ dir_of (x ∷ q)
unfolding dir_of
dir_of-append_any [] x q = refl
dir_of-append_any (a ∷ []) x q = refl
dir_of-append_any (a ∷ b ∷ p) x q = ap (λ l. a ∷ l) (dir_of-append_any (b ∷ p) x q)

module _ (base : FilePath) (repo : Text) (valid : is_name repo ≡ true) (uuid : Text)
    (pu : IsPlain uuid) (algo hash : Text) (pa : IsPlain algo) (ph : IsPlain hash) where
  in_repo : FilePath → FilePath
  in_repo p = base ++ codes "repositories" ∷ (split_slash repo ++ p)

  in_blobs : FilePath → FilePath
  in_blobs p = base ++ codes "blobs" ∷ p

  abbrev pub data_path : FilePath
  data_path = upload_file base repo uuid (codes "data")

  abbrev pub start_path : FilePath
  start_path = upload_file base repo uuid (codes "startedat")

  abbrev pub session_dir : FilePath
  session_dir = upload_dir base repo uuid

  abbrev pub blob : FilePath
  blob = blob_path base algo hash

  abbrev pub link : FilePath
  link = layer_link base repo algo hash

  data_at : data_path ≡ in_repo (codes "_uploads" ∷ uuid ∷ codes "data" ∷ [])
  unfolding in_repo
  data_at = upload_at base repo valid uuid pu

  start_at : start_path ≡ in_repo (codes "_uploads" ∷ uuid ∷ codes "startedat" ∷ [])
  unfolding in_repo upload_file
  start_at =
      join_repo base (codes "repositories") repo _ (ground arith) valid
        (ground arith, (pu, (ground arith, tt)))

  session_at : session_dir ≡ in_repo (codes "_uploads" ∷ uuid ∷ [])
  unfolding in_repo upload_dir
  session_at =
      join_repo base (codes "repositories") repo _ (ground arith) valid (ground arith, (pu, tt))

  link_at : link ≡ in_repo (codes "_layers" ∷ algo ∷ hash ∷ codes "link" ∷ [])
  unfolding in_repo
  link_at = layer_at base repo valid algo hash pa ph

  at_blob : blob ≡ in_blobs (algo ∷ take 2 hash ∷ hash ∷ [])
  unfolding in_blobs
  at_blob = blob_at base algo hash pa ph

  dir_of-in_repo : (x : Text) (p : FilePath) → dir_of (in_repo (x ∷ p)) ≡ in_repo (dir_of (x ∷ p))
  unfolding in_repo
  dir_of-in_repo x p =
      ap dir_of (sym (append_assoc base (codes "repositories" ∷ split_slash repo) (x ∷ p)))
      ∙ dir_of-append_any (base ++ codes "repositories" ∷ split_slash repo) x p
      ∙ append_assoc base (codes "repositories" ∷ split_slash repo) (dir_of (x ∷ p))

  is_under-in_repo : (p q : FilePath) → is_under (in_repo p) (in_repo q) ≡ is_under p q
  unfolding in_repo
  is_under-in_repo p q =
      is_under_append base (codes "repositories" ∷ (split_slash repo ++ p))
        (codes "repositories" ∷ (split_slash repo ++ q))
      ∙ is_under_append (codes "repositories" ∷ split_slash repo) p q

  repo-off_blobs : (p q : FilePath) → is_under (in_repo p) (in_blobs q) ≡ false
  unfolding in_repo in_blobs list_beq
  repo-off_blobs p q = is_under_other base _ q (codes "repositories") (codes "blobs") refl

  blobs-off_repo : (p q : FilePath) → is_under (in_blobs p) (in_repo q) ≡ false
  unfolding in_repo in_blobs list_beq
  blobs-off_repo p q = is_under_other base p _ (codes "blobs") (codes "repositories") refl

  -- The directories of the files.
  pub dir_of-data : dir_of data_path ≡ session_dir
  unfolding dir_of
  dir_of-data = ap dir_of data_at ∙ dir_of-in_repo _ _ ∙ sym session_at

  pub dir_of-start : dir_of start_path ≡ session_dir
  unfolding dir_of
  dir_of-start = ap dir_of start_at ∙ dir_of-in_repo _ _ ∙ sym session_at

  dir_of-link : dir_of link ≡ in_repo (codes "_layers" ∷ algo ∷ hash ∷ [])
  unfolding dir_of
  dir_of-link = ap dir_of link_at ∙ dir_of-in_repo _ _

  dir_of-blob : dir_of blob ≡ in_blobs (algo ∷ take 2 hash ∷ [])
  unfolding dir_of in_blobs
  dir_of-blob = ap dir_of at_blob ∙ dir_of-append_any base (codes "blobs") _

  -- What lies where.
  pub data-off_session : is_under data_path session_dir ≡ false
  unfolding is_under list_beq
  data-off_session =
      ap₂ is_under data_at session_at ∙ is_under-in_repo _ _ ∙ (rw (==_refl uuid) refl)

  pub start-off_session : is_under start_path session_dir ≡ false
  unfolding is_under list_beq
  start-off_session =
      ap₂ is_under start_at session_at ∙ is_under-in_repo _ _ ∙ (rw (==_refl uuid) refl)

  pub start-off_data : start_path ≢ data_path
  unfolding is_under list_beq
  start-off_data e =
      let other : is_under start_path data_path ≡ false =
        ap₂ is_under start_at data_at ∙ is_under-in_repo _ _ ∙ (rw (==_refl uuid) refl) in
      let same : is_under data_path data_path ≡ true =
        ap₂ is_under data_at data_at ∙ is_under-in_repo _ _ ∙ (rw (==_refl uuid) refl) in
      let other' : is_under data_path data_path ≡ false =
        ap (λ z. is_under z data_path) (sym e) ∙ other in
      cc

  pub data-off_blob : data_path ≢ blob
  unfolding in_repo in_blobs
  data-off_blob = repositories-ne_blobs base _ _ data_path blob data_at at_blob

  pub blob-off_session : is_under blob session_dir ≡ false
  blob-off_session = ap₂ is_under at_blob session_at ∙ blobs-off_repo _ _

  pub link-off_session : is_under link session_dir ≡ false
  unfolding is_under list_beq
  link-off_session = ap₂ is_under link_at session_at ∙ is_under-in_repo _ _

  pub data-off_blob_dir : is_under data_path (dir_of blob) ≡ false
  data-off_blob_dir = ap₂ is_under data_at dir_of-blob ∙ repo-off_blobs _ _

  pub start-off_blob_dir : is_under start_path (dir_of blob) ≡ false
  start-off_blob_dir = ap₂ is_under start_at dir_of-blob ∙ repo-off_blobs _ _

  pub data-off_link_dir : is_under data_path (dir_of link) ≡ false
  unfolding is_under list_beq
  data-off_link_dir = ap₂ is_under data_at dir_of-link ∙ is_under-in_repo _ _

  pub start-off_link_dir : is_under start_path (dir_of link) ≡ false
  unfolding is_under list_beq
  start-off_link_dir = ap₂ is_under start_at dir_of-link ∙ is_under-in_repo _ _

  pub link-off_blob_dir : is_under link (dir_of blob) ≡ false
  link-off_blob_dir = ap₂ is_under link_at dir_of-blob ∙ repo-off_blobs _ _

  pub blob-off_link_dir : is_under blob (dir_of link) ≡ false
  blob-off_link_dir = ap₂ is_under at_blob dir_of-link ∙ blobs-off_repo _ _

  pub link-off_link_dir : is_under link (dir_of link) ≡ false
  unfolding is_under list_beq
  link-off_link_dir =
      ap₂ is_under link_at dir_of-link
      ∙ is_under-in_repo _ _
      ∙ (rw (==_refl algo, ==_refl hash) refl)

  pub blob-off_blob_dir : is_under blob (dir_of blob) ≡ false
  unfolding is_under in_blobs
  blob-off_blob_dir =
      ap₂ is_under at_blob dir_of-blob
      ∙ is_under_append base (codes "blobs" ∷ algo ∷ take 2 hash ∷ hash ∷ [])
          (codes "blobs" ∷ algo ∷ take 2 hash ∷ [])
      ∙ (rw (==_refl (codes "blobs"), ==_refl algo, ==_refl (take 2 hash)) refl)
