-- ===== src/Handler/Served/Sessions/Tests.antt =====
-- A PUT that carries the last bytes of a session, by an anonymous user who may do so, and a GET.
use simple_registry.Base.{
  true, none, some, [], inl, nat_eq, list_eq, list_beq, codes, ok, ◌≡◌, refl, any, first, contains,
  lookup, put, without,
}
use simple_registry.Digest.{parse, split_first, check_parts, new_hasher}
use simple_registry.Disk.{
  Disk, find, stat, is_blocked, read_file, place, write_file, mkdir_from, mkdir_all, remove_all,
  remove, rename, is_under,
}
use simple_registry.Http.{parse_request_content_range}
use simple_registry.Paths.{join, split_slash, clean_from, resolve, dir_of, push_head}
use simple_registry.Regex.{match_string}
use simple_registry.Validator.{is_name, is_uuid, is_digest}
use simple_registry.Filesystem.Layout.{upload_dir, upload_file, blob_path, layer_link}
use simple_registry.Filesystem.Storage.{filesystem_storage}
use simple_registry.Filesystem.Uploads.{
  blobs_upload_write, splice, verify_upload, store_upload, write_link, blobs_upload_commit,
}
use simple_registry.Handler.Access.{is_basic, is_bearer, is_request_allowed}
use simple_registry.Handler.Blobs.{blobs_get}
use simple_registry.Handler.Reply.{Request, Response, answer, allowed, bytes}
use simple_registry.Handler.Served.Sessions.{blobs_uploads_put-Served}
use simple_registry.Handler.Served.Tests.{open_server, posted, toy, session, begun}
use simple_registry.Handler.Uploads.{
  octet_stream, range_start, blobs_uploads_put, put_session, put_commit,
}
use simple_registry.Rbac.{
  is_anonymous_user_enabled, is_allowed, user_allowed, binding_matches, role_matches,
  subject_matches,
}

abbrev last : Request
last = record posted {
  uuid = session;
  query_digest = some (codes "sha256:abcde");
  content_type = octet_stream;
  content_length = codes "2";
  body = codes "de";
}

abbrev wanted : Request
wanted = record posted { digest = codes "sha256:abcde"; query_digest = none; body = [] }

abbrev created : Response
created = record (answer 201) {
  location = codes "/v2/r/blobs/sha256:abcde";
  docker_content_digest = codes "sha256:abcde";
}

abbrev filled : Disk
filled = (blobs_uploads_put open_server (filesystem_storage toy []) last begun).1

put_created : (blobs_uploads_put open_server (filesystem_storage toy []) last begun).0 ≡ ok created
unfolding blobs_uploads_put put_session put_commit parse_request_content_range is_request_allowed
    is_basic is_bearer is_anonymous_user_enabled is_allowed user_allowed binding_matches
    role_matches subject_matches first contains is_digest mkdir_all put without any check_parts
    new_hasher split_first is_blocked is_under mkdir_from place remove remove_all rename write_file
    layer_link upload_dir upload_file blobs_upload_commit blobs_upload_write splice store_upload
    verify_upload write_link clean_from dir_of push_head resolve split_slash is_uuid is_name
    match_string list_beq lookup find stat read_file blob_path join parse
put_created = refl

held : read_file (upload_file [] (codes "r") session (codes "data")) begun ≡ ok (codes "abc")
unfolding upload_file join split_slash clean_from resolve read_file stat find is_blocked lookup
    list_beq
held = refl

no_range :
    range_start open_server (filesystem_storage toy []) (parse_request_content_range []) ≡ none
unfolding parse_request_content_range split_first
no_range = refl

may_read : allowed open_server wanted (codes "blobs") (codes "r") (codes "GET") ≡ true
unfolding is_request_allowed is_basic is_bearer is_anonymous_user_enabled is_allowed user_allowed
    binding_matches role_matches subject_matches first any contains match_string list_beq
may_read = refl

blobs_uploads_put-Served_example :
    blobs_get open_server (filesystem_storage toy []) wanted filled ≡ (
      ok (record (answer 200) {
        docker_content_digest = codes "sha256:abcde";
        content = bytes (codes "abcde");
      }),
      filled,
    )
unfolding list_beq
blobs_uploads_put-Served_example =
    blobs_uploads_put-Served open_server toy [] last wanted (codes "sha256:abcde") (codes "abc")
      begun filled created (λ i. (put_created i, filled)) refl refl held (inl no_range) refl refl
      may_read
