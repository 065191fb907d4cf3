-- ===== src/Garbage/Mark/References.antt =====
-- What a manifest refers to, as functions of a state of the storage, and sets of marks that grow.
use simple_registry.Base.{
  ℕ, Option, none, some, List, [], ◌++◌, nat_eq, list_eq, Text, In, Result, ok, err,
}
use simple_registry.Oci.{ImageManifest, ImageIndexManifest, DockerManifestV1}
use simple_registry.Storage.{DataStorage}
use simple_registry.Garbage.Mark.{
  RawManifest, Decoders, Marks, Kind, image, index, docker_v1, raw_kind, digests_of, image_blobs,
  docker_v1_blobs,
}

-- What a manifest refers to, read off its payload by its kind.
abbrev pub index_children : Option ImageIndexManifest → List Text
index_children none = []
index_children (some m) = digests_of m.manifests

abbrev pub blobs_of_image : Option ImageManifest → List Text
blobs_of_image none = []
blobs_of_image (some m) = image_blobs m

abbrev pub blobs_of_docker_v1 : Option DockerManifestV1 → List Text
blobs_of_docker_v1 none = []
blobs_of_docker_v1 (some m) = docker_v1_blobs m

module _ (lib : Decoders) where
  abbrev pub children_by_kind : Kind → Text → List Text
  children_by_kind index payload = index_children (lib.decode_index payload)
  children_by_kind _ payload = []

  abbrev pub blobs_by_kind : Kind → Text → List Text
  blobs_by_kind image payload = blobs_of_image (lib.decode_image payload)
  blobs_by_kind docker_v1 payload = blobs_of_docker_v1 (lib.decode_docker_v1 payload)
  blobs_by_kind _ payload = []

  abbrev pub children_of_raw : Option RawManifest → Text → List Text
  children_of_raw none payload = []
  children_of_raw (some raw) payload = children_by_kind (raw_kind raw) payload

  abbrev pub blobs_of_raw : Option RawManifest → Text → List Text
  blobs_of_raw none payload = []
  blobs_of_raw (some raw) payload = blobs_by_kind (raw_kind raw) payload

abbrev pub payload_of : Result (Text × ℕ × Text) → Option Text
payload_of (ok (p, _, _)) = some p
payload_of (err e) = none

abbrev pub list_of : Result (List Text) → List Text
list_of (ok l) = l
list_of (err e) = []

-- A storage whose reads leave it as it is, seen at one state.
module _ {S : Type 0} (lib : Decoders) (ds : DataStorage S) (s : S) where
  abbrev pub children_at : Text → Text → Option Text → List Text
  children_at repo digest none = []
  children_at repo digest (some p) =
      children_of_raw lib (lib.decode_raw p) p ++ list_of (ds.referrers_get repo digest s).0

  abbrev pub blobs_at : Option Text → List Text
  blobs_at none = []
  blobs_at (some p) = blobs_of_raw lib (lib.decode_raw p) p

  -- The manifests that one refers to (as an index, or by its referrers), and its blobs.
  abbrev pub children : Text → Text → List Text
  children repo digest = children_at repo digest (payload_of (ds.manifest_get repo digest s).0)

  abbrev pub blobs : Text → Text → List Text
  blobs repo digest = blobs_at (payload_of (ds.manifest_get repo digest s).0)

abbrev pub Included : List Text → List Text → Type 0
Included xs ys = (y : Text) → In y xs → In y ys

pub record Grows (m n : Marks) : Type 0 where
  pub manifests : Included m.manifests n.manifests
  pub blobs : Included m.blobs n.blobs

pub Grows-refl : (m : Marks) → Grows m m
Grows-refl m = record { manifests = λ y h. h; blobs = λ y h. h }

pub Grows-trans : {l m n : Marks} → Grows l m → Grows m n → Grows l n
Grows-trans g h = record {
  manifests = λ y k. h.manifests y (g.manifests y k);
  blobs = λ y k. h.blobs y (g.blobs y k);
}
