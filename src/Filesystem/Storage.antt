-- ===== src/Filesystem/Storage.antt =====
-- internal/data/filesystem/filesystem.go: `FilesystemDataStorage` as a `DataStorage`, with the
-- operations of the other files as its methods.
mod Tests
use simple_registry.Base.{ℕ, Bool, [], ◌≡◌, refl, ok}
use simple_registry.Disk.{Disk, mkdir_all}
use simple_registry.Paths.{FilePath}
use simple_registry.Storage.{DataStorage}
use simple_registry.Filesystem.Layout.{Library}
use simple_registry.Filesystem.Blobs.{blobs_get, blobs_delete, blob_last_access}
use simple_registry.Filesystem.Uploads.{
  blobs_upload_create, blobs_upload_cancel, blobs_upload_write, blobs_upload_commit,
  blobs_upload_size,
}
use simple_registry.Filesystem.Manifests.{
  manifest_put, manifest_get, manifest_delete, manifest_last_access,
}
use simple_registry.Filesystem.Listings.{blobs_list, manifests_list, tags_list, referrers_get}
use simple_registry.Filesystem.Listings.Walk.{repositories_list}
use simple_registry.Filesystem.Reads.{Keeps, reads-Keeps}
use simple_registry.Garbage.Mark.{Decoders}
use simple_registry.Garbage.Sweep.{Report, garbage_collect}
use simple_registry.Garbage.Sweep.Cover.{ReadsOnly, Safe, garbage_collect-Safe}

-- `NewFilesystemDataStorage` makes the directory of the storage and panics where it cannot.
abbrev pub filesystem_storage : Library → FilePath → DataStorage Disk
filesystem_storage lib base = record {
  blobs_get = blobs_get base;
  blobs_delete = blobs_delete base;
  blobs_list = blobs_list base;
  blob_last_access = blob_last_access base;
  blobs_upload_create = blobs_upload_create lib base;
  blobs_upload_cancel = blobs_upload_cancel lib base;
  blobs_upload_write = blobs_upload_write lib base;
  blobs_upload_commit = blobs_upload_commit lib base;
  blobs_upload_size = blobs_upload_size lib base;
  manifest_put = manifest_put lib base;
  manifest_get = manifest_get lib base;
  manifest_delete = manifest_delete lib base;
  manifests_list = manifests_list base;
  manifest_last_access = manifest_last_access lib base;
  tags_list = tags_list base;
  repositories_list = repositories_list base;
  referrers_get = referrers_get base;
}

module _ (lib : Library) (base : FilePath) (decoders : Decoders) where
  storage-ReadsOnly : ReadsOnly decoders (filesystem_storage lib base)
  storage-ReadsOnly = record {
    get_same = λ repo r. (reads-Keeps lib base repo [] [] r).3;
    refs_same = λ repo r d. refl;
  }

  -- A collection of the garbage of the file system storage that succeeds marks every root and all
  -- that a marked manifest refers to, and plans to delete no marked manifest, no marked blob and no
  -- blob of a marked manifest.
  pub disk_collect-Safe :
      (fuel now age : ℕ) (dry_run delete_untagged : Bool) (s t : Disk) (report : Report)
      → garbage_collect
          (filesystem_storage lib base)
          decoders
          fuel
          now
          dry_run
          age
          delete_untagged
          s
        ≡ (ok report, t)
      → Safe decoders (filesystem_storage lib base) delete_untagged s report
  disk_collect-Safe fuel now age dry_run delete_untagged s t report h =
      garbage_collect-Safe decoders (filesystem_storage lib base) fuel now age dry_run
        delete_untagged s t report storage-ReadsOnly h
