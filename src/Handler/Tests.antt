-- ===== src/Handler/Tests.antt =====
-- Requests without credentials to a server that knows no user.
use simple_registry.Base.{false, none, some, [], nat_eq, list_eq, codes, ◌≡◌, refl, any}
use simple_registry.Handler.Access.{Crypto, Server, is_basic, is_bearer, is_request_allowed}
use simple_registry.Handler.Blobs.{blobs_get, blobs_delete}
use simple_registry.Handler.Manifests.{rbac_repo, manifests_get, manifests_put, manifests_delete}
use simple_registry.Handler.Posts.{blobs_uploads_post}
use simple_registry.Handler.Uploads.{
  blobs_uploads_get, blobs_uploads_patch, blobs_uploads_put, blobs_uploads_delete,
}
use simple_registry.Handler.Refusals.{
  IsRefused, IsForbidden, blob_handlers-IsRefused, manifest_handlers-IsRefused,
}
use simple_registry.Handler.Reply.{Request, allowed}
use simple_registry.Filesystem.Layout.{Library}
use simple_registry.Rbac.{Engine, is_anonymous_user_enabled}
use simple_registry.Regex.{match_string}
use simple_registry.Sample.{sample}

abbrev no_users : Engine
no_users = record { tokens = []; users = []; roles = []; role_bindings = [] }

abbrev sample_crypto : Crypto
sample_crypto = record {
  basic_auth = λ a. none;
  sign = λ t. codes "s";
  decode_claims = λ p. some (record { sub = some (codes "ann"); iat = some 5 });
  encode_payload = λ u s n. codes "p";
  compare_password = λ h p. false;
}

abbrev sample_server : Server
sample_server = record { rbac = no_users; crypto = sample_crypto; token_timeout = 100 }

abbrev sample_request : Request
sample_request = record {
  authorization = [];
  now = 7;
  name = codes "r";
  digest = codes "sha256:ab";
  uuid = [];
  reference = codes "t";
  query_mount = [];
  query_from = [];
  query_digest = none;
  query_last = [];
  query_n = [];
  content_type = [];
  content_length = [];
  content_range = [];
  body = [];
}

abbrev sample_library : Library
sample_library = record {
  hash_as_string = λ a t. codes "ab";
  decode_image_manifest = λ t. none;
  decode_first_image = λ t. none;
  format_time = λ n. [];
}

blob_handlers-IsRefused_example :
    (allowed sample_server sample_request (codes "blobs") (codes "r") (codes "GET") ≡ false
      → IsRefused (blobs_get sample_server sample sample_request []) [])
    × (allowed sample_server sample_request (codes "blobs") (codes "r") (codes "DELETE") ≡ false
        → IsRefused (blobs_delete sample_server sample sample_request []) []
          × IsRefused (blobs_uploads_delete sample_server sample sample_request []) [])
    × (allowed sample_server sample_request (codes "blobs") (codes "r") (codes "POST") ≡ false
        → IsRefused (blobs_uploads_post sample_server sample sample_request []) []
          × IsRefused (blobs_uploads_get sample_server sample sample_request []) [])
    × (allowed sample_server sample_request (codes "blobs") (codes "r") (codes "PATCH") ≡ false
        → IsRefused (blobs_uploads_patch sample_server sample sample_request []) [])
    × (allowed sample_server sample_request (codes "blobs") (codes "r") (codes "PUT") ≡ false
        → IsRefused (blobs_uploads_put sample_server sample sample_request []) [])
blob_handlers-IsRefused_example = blob_handlers-IsRefused sample_server sample sample_request []

anyone_refused :
    allowed sample_server sample_request (codes "blobs") (codes "r") (codes "DELETE") ≡ false
unfolding is_request_allowed is_basic is_bearer is_anonymous_user_enabled any match_string
anyone_refused = refl

manifest_handlers-IsRefused_example :
    (IsForbidden sample_server sample sample_request []
        (codes "GET")
        (rbac_repo (codes "r") (codes "t"))
      → IsRefused (manifests_get sample_server sample_library sample sample_request []) [])
    × (IsForbidden sample_server sample sample_request []
          (codes "PUT")
          (rbac_repo (codes "r") (codes "t"))
        → IsRefused (manifests_put sample_server sample_library sample sample_request []) [])
    × (IsForbidden sample_server sample sample_request []
          (codes "DELETE")
          (rbac_repo (codes "r") (codes "t"))
        → IsRefused (manifests_delete sample_server sample_library sample sample_request []) [])
manifest_handlers-IsRefused_example =
    manifest_handlers-IsRefused sample_server sample sample_request [] sample_library
