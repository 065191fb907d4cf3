-- ===== src/Oci.antt =====
-- pkg/registry/oci.go: media types and the fields of manifests that the registry reads or writes.
-- Fields that no code of the registry looks at (urls, platform, annotations of a manifest and the
-- like) are left out.
use simple_registry.Base.{ℕ, Option, List, Text, codes}

abbrev pub media_type_oci_image_manifest : Text
media_type_oci_image_manifest = codes "application/vnd.oci.image.manifest.v1+json"

abbrev pub media_type_docker_image_manifest_v1 : Text
media_type_docker_image_manifest_v1 = codes "application/vnd.docker.distribution.manifest.v1+json"

abbrev pub media_type_docker_image_manifest : Text
media_type_docker_image_manifest = codes "application/vnd.docker.distribution.manifest.v2+json"

abbrev pub media_type_oci_image_index : Text
media_type_oci_image_index = codes "application/vnd.oci.image.index.v1+json"

abbrev pub media_type_docker_manifest_list : Text
media_type_docker_manifest_list = codes "application/vnd.docker.distribution.manifest.list.v2+json"

pub record DescriptorManifest : Type 0 where
  pub media_type : Text
  pub digest : Text
  pub size : ℕ

pub record ImageIndexManifest : Type 0 where
  pub schema_version : ℕ
  pub media_type : Text
  pub manifests : List DescriptorManifest

-- `Subject` is a pointer: nothing where the field is missing.
pub record ImageManifest : Type 0 where
  pub media_type : Text
  pub config : DescriptorManifest
  pub layers : List DescriptorManifest
  pub subject : Option DescriptorManifest

-- The `blobSum` of each of the `fsLayers`.
pub record DockerManifestV1 : Type 0 where
  pub fs_layers : List Text
