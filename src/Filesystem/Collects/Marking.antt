-- ===== src/Filesystem/Collects/Marking.antt =====
-- The marking of a collection leaves the disk as it is.
use simple_registry.Base.{
  ℕ, zero, suc, List, [], ◌∷◌, nat_eq, list_eq, Text, Result, ok, err, Action, pure, lift, ◌>>=◌,
  refl, ◌∙◌, inl, inr, Bool-cases, contains,
}
use simple_registry.Disk.{Disk}
use simple_registry.MapSet.{add_one}
use simple_registry.Paths.{FilePath}
use simple_registry.Storage.{DataStorage}
use simple_registry.Filesystem.Layout.{Library}
use simple_registry.Filesystem.Reads.{Keeps, Keeps-bind, reads-Keeps}
use simple_registry.Filesystem.Storage.{filesystem_storage}
use simple_registry.Garbage.Mark.{
  Decoders, Marks, Kind, image, index, docker_v1, unsupported, is_not_exist, mark_each, mark_kind,
  mark_referrers, mark_payload, on_read, mark_unseen, mark_manifest, or_json_error, list_or_none,
  raw_kind, RawManifest, digests_of, add_blobs, image_blobs, docker_v1_blobs, Visit,
}
use simple_registry.Garbage.Sweep.{ManifestRef, mark_roots}
use simple_registry.Filesystem.Collects.{each-Keeps}

module _ (lib : Library) (base : FilePath) (decoders : Decoders) where
  abbrev ds : DataStorage Disk
  ds = filesystem_storage lib base

  mark_each-Keeps :
      (visit : Visit decoders ds)
      → ((x : Text) (m : Marks) → Keeps (visit x m))
      → (l : List Text) (m : Marks) → Keeps (mark_each decoders ds visit l m)
  unfolding mark_each
  mark_each-Keeps visit h [] m = λ d. refl
  mark_each-Keeps visit h (x ∷ l) m =
      Keeps-bind (visit x m) (mark_each decoders ds visit l) (h x m)
        (λ m'. mark_each-Keeps visit h l m')

  module _ (visit : Visit decoders ds) (safe : (x : Text) (m : Marks) → Keeps (visit x m)) where
    mark_kind-Keeps :
        (kind : Kind) (payload : Text) (m : Marks)
        → Keeps (mark_kind decoders ds visit kind payload m)
    unfolding mark_kind
    mark_kind-Keeps image payload m =
        Keeps-bind (lift (or_json_error (decoders.decode_image payload)))
          (λ a. pure (add_blobs (image_blobs a) m)) (λ d. refl) (λ a d. refl)
    mark_kind-Keeps index payload m =
        Keeps-bind (lift (or_json_error (decoders.decode_index payload)))
          (λ a. mark_each decoders ds visit (digests_of a.manifests) m) (λ d. refl)
          (λ a. mark_each-Keeps visit safe (digests_of a.manifests) m)
    mark_kind-Keeps docker_v1 payload m =
        Keeps-bind (lift (or_json_error (decoders.decode_docker_v1 payload)))
          (λ a. pure (add_blobs (docker_v1_blobs a) m)) (λ d. refl) (λ a d. refl)
    mark_kind-Keeps unsupported payload m = λ d. refl

    mark_referrers-Keeps :
        (repo digest : Text) (m : Marks) → Keeps (mark_referrers decoders ds visit repo digest m)
    unfolding mark_referrers
    mark_referrers-Keeps repo digest m d =
        Keeps-bind (lift (list_or_none (ds.referrers_get repo digest d).0))
          (λ refs. mark_each decoders ds visit refs m) (λ d. refl)
          (λ refs. mark_each-Keeps visit safe refs m) d

    mark_payload-Keeps :
        (repo digest payload : Text) (m : Marks)
        → Keeps (mark_payload decoders ds visit repo digest payload m)
    unfolding mark_payload
    mark_payload-Keeps repo digest payload m =
        let mark : RawManifest → Action Disk Marks =
          λ raw. mark_kind decoders ds visit (raw_kind raw) payload m in
        Keeps-bind (lift (or_json_error (decoders.decode_raw payload)))
          (λ raw. mark raw >>= mark_referrers decoders ds visit repo digest) (λ d. refl)
          (λ raw.
            Keeps-bind (mark raw) (mark_referrers decoders ds visit repo digest)
              (mark_kind-Keeps (raw_kind raw) payload m) (mark_referrers-Keeps repo digest))

    on_read-Keeps :
        (repo digest : Text) (m : Marks) (r : Result (Text × ℕ × Text))
        → Keeps (on_read decoders ds visit repo digest m r)
    unfolding on_read
    on_read-Keeps repo digest m (ok a) = mark_payload-Keeps repo digest a.0 m
    on_read-Keeps repo digest m (err e) = elim (Bool-cases (is_not_exist e)) [
      | inl t ↦ rw t (λ d. refl)
      | inr f ↦ rw f (λ d. refl)
    ]

    mark_unseen-Keeps :
        (repo digest : Text) (m : Marks) → Keeps (mark_unseen decoders ds visit repo digest m)
    unfolding mark_unseen
    mark_unseen-Keeps repo digest m d =
        let d' = (ds.manifest_get repo digest d).1 in
        on_read-Keeps repo digest (record m { manifests = add_one digest m.manifests })
          (ds.manifest_get repo digest d).0 d'
        ∙ (reads-Keeps lib base repo [] [] digest).3 d

  mark_manifest-Keeps :
      (fuel : ℕ) (repo digest : Text) (m : Marks)
      → Keeps (mark_manifest decoders ds fuel repo digest m)
  unfolding mark_manifest
  mark_manifest-Keeps zero repo digest m = λ d. refl
  mark_manifest-Keeps (suc fuel) repo digest m = elim (Bool-cases (contains m.manifests digest)) [
    | inl t ↦ rw (t, mark_manifest) (λ d. refl)
    | inr f ↦
        rw (f, mark_manifest)
          (mark_unseen-Keeps (mark_manifest decoders ds fuel repo) (mark_manifest-Keeps fuel repo)
            repo digest m)
  ]

  pub mark_roots-Keeps :
      (fuel : ℕ) (roots : List ManifestRef) (m : Marks)
      → Keeps (mark_roots ds decoders fuel roots m)
  unfolding mark_roots
  mark_roots-Keeps fuel roots m =
      each-Keeps lib base decoders (λ ref. mark_manifest decoders ds fuel ref.0 ref.1)
        (λ ref. mark_manifest-Keeps fuel ref.0 ref.1) roots m
