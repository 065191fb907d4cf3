-- ===== src/Garbage/Mark.antt =====
-- `markManifest` and the functions that it calls. The recursion goes from a manifest to those that
-- an index lists and to its referrers; it takes fuel, since a digest that has been seen ends it.
pub mod References
pub mod Closure
pub mod Fuel
use simple_registry.Base.{
  ℕ, zero, suc, Bool, true, false, ◌||◌, Option, none, some, List, [], ◌∷◌, ◌++◌, map, ◌==◌, nat_eq,
  list_eq, Text, codes, Error, Result, ok, err, Action, pure, raise, lift, ◌>>=◌, ◌>>◌, not_exist,
  digest_invalid, json_error, unsupported_media_type, out_of_fuel, contains, if◌then◌else◌,
}
use simple_registry.MapSet.{add_one, add}
use simple_registry.Oci.{
  DescriptorManifest, ImageManifest, ImageIndexManifest, DockerManifestV1,
  media_type_oci_image_manifest, media_type_docker_image_manifest_v1,
  media_type_docker_image_manifest, media_type_oci_image_index, media_type_docker_manifest_list,
}
use simple_registry.Storage.{DataStorage}

-- `errors.Is(err, fs.ErrNotExist)`.
abbrev pub is_not_exist : Error → Bool
is_not_exist not_exist = true
is_not_exist (digest_invalid e) = is_not_exist e
is_not_exist _ = false

-- What the collector reads of a manifest decoded into a map.
pub record RawManifest : Type 0 where
  pub has_signatures : Bool
  pub has_history : Bool
  -- Empty where it is missing or no string.
  pub media_type : Text

-- `json.Unmarshal` into each of the types; nothing where it returns an error.
pub record Decoders : Type 0 where
  pub decode_raw : Text → Option RawManifest
  pub decode_image : Text → Option ImageManifest
  pub decode_index : Text → Option ImageIndexManifest
  pub decode_docker_v1 : Text → Option DockerManifestV1

pub record Marks : Type 0 where
  pub manifests : List Text
  pub blobs : List Text

pub data Kind : Type 0 where
  image index docker_v1 unsupported : Kind

-- The `switch` on the media type.
unfoldable pub kind_of : Text → Kind
kind_of t =
    if t == media_type_oci_image_manifest || t == media_type_docker_image_manifest
    then image
    else if t == media_type_oci_image_index || t == media_type_docker_manifest_list
    then index
    else if t == media_type_docker_image_manifest_v1
    then docker_v1
    else unsupported

-- Signatures or a history make a manifest one of Docker's first version.
unfoldable pub raw_kind : RawManifest → Kind
raw_kind raw = kind_of (
    if raw.has_signatures || raw.has_history
    then media_type_docker_image_manifest_v1
    else raw.media_type)

abbrev pub nonempty : List Text → List Text
nonempty [] = []
nonempty ([] ∷ ts) = nonempty ts
nonempty ((c ∷ t) ∷ ts) = (c ∷ t) ∷ nonempty ts

abbrev pub digests_of : List DescriptorManifest → List Text
digests_of = map (λ m. m.digest)

-- `markImageManifest`: the configuration, if it is named, and the layers.
abbrev pub image_blobs : ImageManifest → List Text
image_blobs m = nonempty (m.config.digest ∷ []) ++ digests_of m.layers

-- `markDockerV1Manifest`.
abbrev pub docker_v1_blobs : DockerManifestV1 → List Text
docker_v1_blobs m = nonempty m.fs_layers

abbrev pub add_blobs : List Text → Marks → Marks
add_blobs bs m = record m { blobs = add m.blobs bs }

abbrev pub or_json_error {ℓ} : {A : Type ℓ} → Option A → Result A
or_json_error none = err json_error
or_json_error (some a) = ok a

-- A missing directory of referrers is no error, any other failure is one.
abbrev pub list_or_none : Result (List Text) → Result (List Text)
list_or_none (ok l) = ok l
list_or_none (err e) = if is_not_exist e then ok [] else err e

module _ {S : Type 0} (lib : Decoders) (ds : DataStorage S) where
  -- A mark of one digest in some repository: what the recursion passes down.
  abbrev pub Visit : Type 0
  Visit = Text → Marks → Action S Marks

  -- A loop over digests, which stops at the first error.
  unfoldable pub mark_each : Visit → List Text → Marks → Action S Marks
  mark_each visit [] m = pure m
  mark_each visit (d ∷ ds') m = do m' ← visit d m; mark_each visit ds' m'

  unfoldable pub mark_kind : Visit → Kind → Text → Marks → Action S Marks
  mark_kind visit image payload m = do
    manifest ← lift (or_json_error (lib.decode_image payload))
    pure (add_blobs (image_blobs manifest) m)
  mark_kind visit index payload m = do
    manifest ← lift (or_json_error (lib.decode_index payload))
    mark_each visit (digests_of manifest.manifests) m
  mark_kind visit docker_v1 payload m = do
    manifest ← lift (or_json_error (lib.decode_docker_v1 payload))
    pure (add_blobs (docker_v1_blobs manifest) m)
  mark_kind visit unsupported payload m = raise unsupported_media_type

  -- `markManifestByReferrers`.
  unfoldable pub mark_referrers : Visit → Text → Text → Marks → Action S Marks
  mark_referrers visit repo digest m s =
      let (r, s') = ds.referrers_get repo digest s in
      (lift (list_or_none r) >>= λ refs. mark_each visit refs m) s'

  -- The body of `markManifest` once the manifest has been read.
  unfoldable pub mark_payload : Visit → Text → Text → Text → Marks → Action S Marks
  mark_payload visit repo digest payload m = do
    raw ← lift (or_json_error (lib.decode_raw payload))
    m' ← mark_kind visit (raw_kind raw) payload m
    mark_referrers visit repo digest m'

  -- A manifest that is not there may belong to a proxy: it is passed over.
  unfoldable pub on_read : Visit → Text → Text → Marks → Result (Text × ℕ × Text) → Action S Marks
  on_read visit repo digest m (ok (payload, _, _)) = mark_payload visit repo digest payload m
  on_read visit repo digest m (err e) = if is_not_exist e then pure m else raise e

  unfoldable pub mark_unseen : Visit → Text → Text → Marks → Action S Marks
  mark_unseen visit repo digest m s =
      let (r, s') = ds.manifest_get repo digest s in
      on_read visit repo digest (record m { manifests = add_one digest m.manifests }) r s'

  -- `markManifest`.
  unfoldable pub mark_manifest : ℕ → Text → Text → Marks → Action S Marks
  mark_manifest zero repo digest m s = (err out_of_fuel, s)
  mark_manifest (suc fuel) repo digest m s =
      if contains m.manifests digest
      then (ok m, s)
      else mark_unseen (mark_manifest fuel repo) repo digest m s
