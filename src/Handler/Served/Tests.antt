-- ===== src/Handler/Served/Tests.antt =====
-- A POST of a blob by an anonymous user who may do so, and a GET of it.
use simple_registry.Base.{
  Text, true, false, none, some, [], ◌∷◌, nat_eq, list_eq, list_beq, codes, ok, ◌≡◌, refl, any,
  first, contains, lookup, put, without,
}
use simple_registry.Digest.{parse, split_first, check_parts, new_hasher}
use simple_registry.Disk.{
  file, dir, Disk, find, stat, is_blocked, read_file, place, write_file, mkdir_from, mkdir_all,
  remove_all, remove, rename, is_under,
}
use simple_registry.Paths.{join, split_slash, clean_from, resolve, dir_of, push_head}
use simple_registry.Regex.{match_string}
use simple_registry.Uuid
use simple_registry.Uuid.{hex_char, to_string, stamp}
use simple_registry.Validator.{is_name, is_uuid, is_digest}
use simple_registry.Filesystem.Layout.{Library, upload_dir, upload_file, blob_path, layer_link}
use simple_registry.Filesystem.Storage.{filesystem_storage}
use simple_registry.Filesystem.Uploads.{
  blobs_upload_create, blobs_upload_write, splice, verify_upload, store_upload, write_link,
  blobs_upload_commit,
}
use simple_registry.Handler.Access.{Crypto, Server, is_basic, is_bearer, is_request_allowed}
use simple_registry.Handler.Blobs.{blobs_get}
use simple_registry.Handler.Posts.{blobs_uploads_post, post_case, post_single}
use simple_registry.Handler.Reply.{Request, Response, answer, allowed, bytes}
use simple_registry.Handler.Served.{blobs_uploads_post-Served}
use simple_registry.Rbac.{
  Engine, is_anonymous_user_enabled, is_allowed, user_allowed, binding_matches, role_matches,
  subject_matches, anonymous_username,
}

abbrev open_rules : Engine
open_rules = record {
  tokens = [];
  users = record { name = anonymous_username; password_hash = []; groups = [] } ∷ [];
  roles =
      record {
        name = codes "all";
        resources = codes "blobs" ∷ codes "manifests" ∷ [];
        verbs = codes "GET" ∷ codes "POST" ∷ codes "PUT" ∷ codes "PATCH" ∷ [];
      }
      ∷ [];
  role_bindings =
      record {
        name = codes "open";
        subjects = record { kind = codes "User"; name = anonymous_username } ∷ [];
        role_name = codes "all";
        scopes = (λ scope. true) ∷ [];
      }
      ∷ [];
}

abbrev no_crypto : Crypto
no_crypto = record {
  basic_auth = λ a. none;
  sign = λ t. [];
  decode_claims = λ p. none;
  encode_payload = λ u s n. [];
  compare_password = λ h p. false;
}

abbrev pub open_server : Server
open_server = record { rbac = open_rules; crypto = no_crypto; token_timeout = 100 }

abbrev pub toy : Library
toy = record {
  hash_as_string = λ a t. t;
  decode_image_manifest = λ t. none;
  decode_first_image = λ t. none;
  format_time = λ n. [];
}

abbrev pub empty_disk : Disk
empty_disk = record {
  nodes = [];
  now = 1;
  entropy = (0 ∷ 1 ∷ 2 ∷ 3 ∷ 4 ∷ 5 ∷ 255 ∷ 7 ∷ 255 ∷ 9 ∷ 10 ∷ 11 ∷ 12 ∷ 13 ∷ 14 ∷ 255 ∷ []) ∷ [];
}

abbrev pub session : Text
session = codes "00000000-0000-0000-0000-000000000000"

abbrev pub begun : Disk
begun = record {
  nodes =
      (codes "repositories" ∷ [], dir)
      ∷ (codes "repositories" ∷ codes "r" ∷ [], dir)
      ∷ (codes "repositories" ∷ codes "r" ∷ codes "_uploads" ∷ [], dir)
      ∷ (codes "repositories" ∷ codes "r" ∷ codes "_uploads" ∷ session ∷ [], dir)
      ∷ (
        codes "repositories" ∷ codes "r" ∷ codes "_uploads" ∷ session ∷ codes "data" ∷ [],
        file (codes "abc") 0,
      )
      ∷ [];
  now = 1;
  entropy = [];
}

abbrev pub posted : Request
posted = record {
  authorization = [];
  now = 7;
  name = codes "r";
  digest = [];
  uuid = [];
  reference = [];
  query_mount = [];
  query_from = [];
  query_digest = some (codes "sha256:abc");
  query_last = [];
  query_n = [];
  content_type = [];
  content_length = [];
  content_range = [];
  body = codes "abc";
}

abbrev pub wanted : Request
wanted = record posted { digest = codes "sha256:abc"; query_digest = none; body = [] }

abbrev created : Response
created = record (answer 201) { location = codes "/v2/r/blobs/sha256:abc" }

abbrev filled : Disk
filled = (blobs_uploads_post open_server (filesystem_storage toy []) posted empty_disk).1

post_created :
    (blobs_uploads_post open_server (filesystem_storage toy []) posted empty_disk).0 ≡ ok created
unfolding blobs_uploads_post post_case post_single is_request_allowed is_basic is_bearer
    is_anonymous_user_enabled is_allowed user_allowed binding_matches role_matches subject_matches
    first contains is_digest mkdir_all put without any check_parts new_hasher split_first is_blocked
    is_under mkdir_from place remove remove_all rename write_file layer_link upload_dir upload_file
    blobs_upload_commit blobs_upload_write splice store_upload verify_upload write_link clean_from
    dir_of push_head resolve split_slash Uuid.hex hex_char Uuid.set_variant Uuid.set_version
    Uuid.stamp Uuid.to_string is_uuid is_name match_string list_beq lookup find stat read_file
    blob_path join parse blobs_upload_create Uuid.must_new Uuid.new
post_created = refl

may_read : allowed open_server wanted (codes "blobs") (codes "r") (codes "GET") ≡ true
unfolding is_request_allowed is_basic is_bearer is_anonymous_user_enabled is_allowed user_allowed
    binding_matches role_matches subject_matches first any contains match_string list_beq
may_read = refl

blobs_uploads_post-Served_example :
    blobs_get open_server (filesystem_storage toy []) wanted filled ≡ (
      ok (record (answer 200) {
        docker_content_digest = codes "sha256:abc";
        content = bytes (codes "abc");
      }),
      filled,
    )
blobs_uploads_post-Served_example =
    blobs_uploads_post-Served open_server toy [] posted wanted (codes "sha256:abc") empty_disk
      filled created (λ i. (post_created i, filled)) refl refl refl refl refl may_read
