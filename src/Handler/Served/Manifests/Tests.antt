-- ===== src/Handler/Served/Manifests/Tests.antt =====
-- A PUT of a manifest under a tag by an anonymous user who may do so, and a GET of the tag.
use simple_registry.Base.{
  true, none, some, [], inr, nat_eq, list_eq, list_beq, codes, ok, ◌≡◌, refl, any, first, contains,
  lookup, put, without,
}
use simple_registry.Digest.{parse, split_first, check_parts, new_hasher}
use simple_registry.Disk.{
  Disk, find, stat, is_blocked, read_file, place, write_file, mkdir_from, mkdir_all, remove_all,
  remove, rename, is_under,
}
use simple_registry.Oci.{ImageManifest}
use simple_registry.Paths.{join, split_slash, clean_from, resolve, dir_of, push_head}
use simple_registry.Regex.{match_string}
use simple_registry.Uuid
use simple_registry.Uuid.{hex_char}
use simple_registry.Validator.{is_name, is_uuid, is_digest, is_tag}
use simple_registry.Filesystem.Blobs.{open_blob}
use simple_registry.Filesystem.Layout.{
  Library, upload_dir, upload_file, blob_path, layer_link, manifests_path,
}
use simple_registry.Filesystem.Manifests.{
  manifest_put, manifest_get, index_referrer, resolve_reference,
}
use simple_registry.Filesystem.Sound.{HexHashes}
use simple_registry.Filesystem.Sound.Tests.{toy_hex, toy-HexHashes}
use simple_registry.Filesystem.Storage.{filesystem_storage}
use simple_registry.Filesystem.Uploads.{
  blobs_upload_create, blobs_upload_write, splice, verify_upload, store_upload, write_link,
  blobs_upload_commit,
}
use simple_registry.Handler.Access.{is_basic, is_bearer, is_request_allowed}
use simple_registry.Handler.Manifests.{rbac_repo, manifest_checks, manifests_get, manifests_put}
use simple_registry.Handler.Reply.{Request, Response, answer, allowed, bytes}
use simple_registry.Handler.Served.Manifests.{manifests_put-Served}
use simple_registry.Handler.Served.Tests.{open_server, posted, empty_disk}
use simple_registry.Rbac.{
  is_anonymous_user_enabled, is_allowed, user_allowed, binding_matches, role_matches,
  subject_matches,
}

abbrev bare_image : ImageManifest
bare_image = record {
  media_type = [];
  config = record { media_type = []; digest = []; size = 0 };
  layers = [];
  subject = none;
}

abbrev image_library : Library
image_library = record toy_hex { decode_first_image = λ t. some bare_image }

image-HexHashes : HexHashes image_library
image-HexHashes = record { digits = toy-HexHashes.digits; many = toy-HexHashes.many }

abbrev tagged : Request
tagged = record posted { reference = codes "v1"; query_digest = none; body = codes "{}" }

abbrev wanted : Request
wanted = record tagged { body = [] }

abbrev created : Response
created = record (answer 201) {
  location = codes "/v2/r/manifests/sha256:00bd";
  docker_content_digest = codes "sha256:00bd";
}

abbrev filled : Disk
filled =
    (manifests_put open_server image_library (filesystem_storage image_library []) tagged
      empty_disk).1

put_created :
    (manifests_put open_server image_library
      (filesystem_storage image_library [])
      tagged
      empty_disk).0
    ≡ ok created
unfolding manifests_put manifest_checks rbac_repo is_request_allowed is_basic is_bearer
    is_anonymous_user_enabled is_allowed user_allowed binding_matches role_matches subject_matches
    first contains is_digest manifest_put manifest_get resolve_reference open_blob index_referrer
    manifests_path is_tag mkdir_all put without any check_parts new_hasher split_first is_blocked
    is_under mkdir_from place remove remove_all rename write_file layer_link upload_dir upload_file
    blobs_upload_commit blobs_upload_write splice store_upload verify_upload write_link clean_from
    dir_of push_head resolve split_slash Uuid.hex hex_char Uuid.set_variant Uuid.set_version
    Uuid.stamp Uuid.to_string is_uuid is_name match_string list_beq lookup find stat read_file
    blob_path join parse blobs_upload_create Uuid.must_new Uuid.new
put_created = refl

is_v1 : is_tag (codes "v1") ≡ true
unfolding is_tag match_string any
is_v1 = refl

scope_v1 : rbac_repo (codes "r") (codes "v1") ≡ some (codes "r:v1")
unfolding rbac_repo is_digest is_tag match_string any
scope_v1 = refl

may_read : allowed open_server wanted (codes "manifests") (codes "r:v1") (codes "GET") ≡ true
unfolding is_request_allowed is_basic is_bearer is_anonymous_user_enabled is_allowed user_allowed
    binding_matches role_matches subject_matches first any contains match_string list_beq
may_read = refl

manifests_put-Served_example :
    manifests_get open_server image_library (filesystem_storage image_library []) wanted filled ≡ (
      ok (record (answer 200) {
        docker_content_digest = codes "sha256:00bd";
        content = bytes (codes "{}");
      }),
      filled,
    )
manifests_put-Served_example =
    manifests_put-Served open_server image_library [] tagged wanted (codes "r:v1") empty_disk filled
      created image-HexHashes (λ i. (put_created i, filled)) refl refl (inr (refl, is_v1)) scope_v1
      may_read
