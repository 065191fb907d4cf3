-- ===== src/Sample.antt =====
-- Data for the examples: a storage with one repository, in which the tag `t` names an image with a
-- configuration and a layer, and with a blob `x` that nothing names. Its state is a log of the digests
-- that calls have committed or deleted, and a blob can be read once it is in the log.
use simple_registry.Base.{
  ℕ, false, none, some, List, [], ◌∷◌, ◌++◌, ◌==◌, nat_eq, list_eq, Text, codes, Result, ok, err,
  pure, raise, not_exist, if◌then◌else◌, contains,
}
use simple_registry.Rbac.{Engine}
use simple_registry.Storage.{DataStorage}
use simple_registry.Oci.{DescriptorManifest, media_type_oci_image_manifest}
use simple_registry.Garbage.Mark.{Decoders}

abbrev pub Log : Type 0
Log = List Text

abbrev pub image_text : Text
image_text = codes "image"

abbrev sample_manifest : Text → Result (Text × ℕ × Text)
sample_manifest r =
    if r == codes "t"
    then ok (image_text, 5, codes "m")
    else if r == codes "m"
    then ok (image_text, 5, codes "m")
    else err not_exist

abbrev pub sample : DataStorage Log
sample = record {
  blobs_get = λ r d s. (if contains s d then ok (d, 1) else err not_exist, s);
  blobs_delete = λ r d s. (ok tt, s ++ d ∷ []);
  blobs_list = pure (codes "m" ∷ codes "c" ∷ codes "l" ∷ codes "x" ∷ []);
  blob_last_access = λ d. pure 3;
  blobs_upload_create = λ r. pure (codes "u");
  blobs_upload_cancel = λ r u. pure tt;
  blobs_upload_write = λ r u c n. pure tt;
  blobs_upload_commit = λ r u d s. (ok tt, s ++ d ∷ []);
  blobs_upload_size = λ r u. pure 0;
  manifest_put = λ r f c. pure (codes "m");
  manifest_get = λ r f s. (sample_manifest f, s);
  manifest_delete = λ r d s. (ok tt, s ++ d ∷ []);
  manifests_list = λ r. pure (codes "m" ∷ []);
  manifest_last_access = λ d. pure 3;
  tags_list = λ r. pure (codes "t" ∷ []);
  repositories_list = pure (codes "r" ∷ []);
  referrers_get = λ r d. raise not_exist;
}

abbrev descriptor : Text → DescriptorManifest
descriptor d = record { media_type = []; digest = d; size = 1 }

abbrev pub sample_decoders : Decoders
sample_decoders = record {
  decode_raw = λ p. some (record {
    has_signatures = false;
    has_history = false;
    media_type = media_type_oci_image_manifest;
  });
  decode_image = λ p. some (record {
    media_type = media_type_oci_image_manifest;
    config = descriptor (codes "c");
    layers = descriptor (codes "l") ∷ [];
    subject = none;
  });
  decode_index = λ p. none;
  decode_docker_v1 = λ p. none;
}

-- A user whose group may read the repository `library`.
abbrev pub sample_engine : Engine
sample_engine = record {
  tokens = [];
  users = record { name = codes "ann"; password_hash = []; groups = codes "dev" ∷ [] } ∷ [];
  roles =
      record { name = codes "reader"; resources = codes "*" ∷ []; verbs = codes "GET" ∷ [] } ∷ [];
  role_bindings =
      record {
        name = codes "b";
        subjects = record { kind = codes "Group"; name = codes "dev" } ∷ [];
        role_name = codes "reader";
        scopes = (λ s. s == codes "library") ∷ [];
      }
      ∷ [];
}
