-- ===== src/Handler/Served/Chunks/Tests.antt =====
-- A PATCH of a session by an anonymous user who may do so.
use simple_registry.Base.{
  none, some, [], nat_eq, list_eq, list_beq, codes, ok, ◌≡◌, ◌≢◌, refl, any, first, contains,
  lookup, put,
}
use simple_registry.Digest.{split_first}
use simple_registry.Disk.{Disk, find, stat, is_blocked, read_file, place, write_file}
use simple_registry.Disk.Laws.{file_at}
use simple_registry.Http.{parse_request_content_range}
use simple_registry.Paths.{FilePath, join, split_slash, clean_from, resolve, dir_of}
use simple_registry.Regex.{match_string}
use simple_registry.Validator.{is_name, is_uuid}
use simple_registry.Filesystem.Layout.{upload_file}
use simple_registry.Filesystem.Storage.{filesystem_storage}
use simple_registry.Filesystem.Uploads.{blobs_upload_size, blobs_upload_write, splice}
use simple_registry.Handler.Access.{is_basic, is_bearer, is_request_allowed}
use simple_registry.Handler.Reply.{Request, Response, answer}
use simple_registry.Handler.Served.Chunks.{blobs_uploads_patch-append}
use simple_registry.Handler.Served.Tests.{open_server, posted, toy, session, begun}
use simple_registry.Handler.Uploads.{octet_stream, blobs_uploads_patch}
use simple_registry.Rbac.{
  is_anonymous_user_enabled, is_allowed, user_allowed, binding_matches, role_matches,
  subject_matches,
}

abbrev chunk : Request
chunk = record posted {
  uuid = session;
  query_digest = none;
  content_type = octet_stream;
  body = codes "de";
}

abbrev accepted : Response
accepted = record (answer 202) {
  location = codes "/v2/r/blobs/uploads/00000000-0000-0000-0000-000000000000";
  range_size = some 5;
}

abbrev longer : Disk
longer = (blobs_uploads_patch open_server (filesystem_storage toy []) chunk begun).1

patch_accepted :
    (blobs_uploads_patch open_server (filesystem_storage toy []) chunk begun).0 ≡ ok accepted
unfolding blobs_uploads_patch parse_request_content_range split_first is_request_allowed is_basic
    is_bearer is_anonymous_user_enabled is_allowed user_allowed binding_matches role_matches
    subject_matches first contains put any is_blocked place write_file upload_file blobs_upload_size
    blobs_upload_write splice clean_from dir_of resolve split_slash is_uuid is_name match_string
    list_beq lookup find stat read_file join
patch_accepted = refl

held : read_file (upload_file [] (codes "r") session (codes "data")) begun ≡ ok (codes "abc")
unfolding upload_file join split_slash clean_from resolve read_file stat find is_blocked lookup
    list_beq
held = refl

blobs_uploads_patch-append_example :
    (read_file (upload_file [] (codes "r") session (codes "data")) longer ≡ ok (codes "abcde"))
    × (accepted.range_size ≡ some 5)
    × ((q : FilePath)
        → upload_file [] (codes "r") session (codes "data") ≢ q
        → file_at q longer ≡ file_at q begun)
blobs_uploads_patch-append_example =
    blobs_uploads_patch-append open_server toy [] chunk (codes "abc") begun longer accepted
      (λ i. (patch_accepted i, longer)) refl held
