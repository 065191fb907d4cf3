-- ===== src/Filesystem/Collects.antt =====
-- The search for the roots and the planning of a collection leave the disk as it is.
pub mod Marking
pub mod Deletes
pub mod Planned
pub mod Blobs
mod Tests
use simple_registry.Base.{
  ℕ, zero, suc, Bool, true, false, List, [], ◌∷◌, nat_eq, list_eq, Text, Result, ok, err, Action,
  pure, lift, ◌>>=◌, ◌>>◌, ◌≡◌, refl, ◌∙◌, inl, inr, Result-cases, Bool-cases, contains,
  if◌then◌else◌,
}
use simple_registry.Disk.{Disk}
use simple_registry.Disk.Changes.{Changes-refl, Changes-same, Changes-trans}
use simple_registry.MapSet.{add_one}
use simple_registry.Paths.{FilePath}
use simple_registry.Storage.{DataStorage}
use simple_registry.Filesystem.Layout.{Library}
use simple_registry.Filesystem.Reads.{Keeps, Keeps-bind, reads-Keeps}
use simple_registry.Filesystem.Storage.{filesystem_storage}
use simple_registry.Filesystem.Sound.{Fits}
use simple_registry.Filesystem.Sound.Actions.{Always, Always-bind, Always-if}
use simple_registry.Filesystem.Sound.Operations.{blobs_delete-Safely}
use simple_registry.Filesystem.Sound.Manifests.{manifest_delete-Safely}
use simple_registry.Garbage.Mark.{
  Decoders, Marks, Kind, image, index, docker_v1, unsupported, is_not_exist, mark_each, mark_kind,
  mark_referrers, mark_payload, on_read, mark_unseen, mark_manifest, or_json_error, list_or_none,
  raw_kind, RawManifest, digests_of, add_blobs, image_blobs, docker_v1_blobs, Visit,
}
use simple_registry.Garbage.Sweep.{
  ManifestRef, Report, each, root_of_tag, roots_of_repo, collect_root_manifests, mark_roots,
  plan_manifest, plan_repo, plan_sweep_manifests, plan_blob, plan_sweep_blobs, delete_manifest,
  delete_blob, sweep, garbage_collect,
}

module _ (lib : Library) (base : FilePath) (decoders : Decoders) where
  abbrev ds : DataStorage Disk
  ds = filesystem_storage lib base

  pub each-Keeps :
      {A B : Type 0} (f : A → B → Action Disk B)
      → ((a : A) (b : B) → Keeps (f a b))
      → (l : List A) (b : B) → Keeps (each f l b)
  unfolding each
  each-Keeps f h [] b = λ d. refl
  each-Keeps f h (a ∷ rest) b =
      Keeps-bind (f a b) (each f rest) (h a b) (λ b'. each-Keeps f h rest b')

  -- An action whose state is that of a reading call.
  after_get :
      {A : Type 0} (repo r : Text) (m : Action Disk A)
      → ((d : Disk) → (m d).1 ≡ (ds.manifest_get repo r d).1)
      → Keeps m
  after_get repo r m h d = h d ∙ (reads-Keeps lib base repo [] [] r).3 d

  root_of_tag-Keeps :
      (repo tag : Text) (roots : List ManifestRef) → Keeps (root_of_tag ds repo tag roots)
  unfolding root_of_tag
  root_of_tag-Keeps repo tag roots = after_get repo tag (root_of_tag ds repo tag roots) (λ d.
      elim (Result-cases (ds.manifest_get repo tag d).0) [
        | inr (a, r) ↦ rw (r, root_of_tag) refl
        | inl (e, r) ↦ elim (Bool-cases (is_not_exist e)) [
          | inl t ↦ rw (r, t, root_of_tag) refl
          | inr f ↦ rw (r, f, root_of_tag) refl
        ]
      ])

  roots_of_repo-Keeps :
      (untagged : Bool) (repo : Text) (roots : List ManifestRef)
      → Keeps (roots_of_repo ds untagged repo roots)
  unfolding roots_of_repo
  roots_of_repo-Keeps false repo roots = λ d. refl
  roots_of_repo-Keeps true repo roots =
      Keeps-bind (ds.tags_list repo) (λ tags. each (root_of_tag ds repo) tags roots) (λ d. refl)
        (λ tags. each-Keeps (root_of_tag ds repo) (root_of_tag-Keeps repo) tags roots)

  pub plan_manifest-Keeps :
      (seen : List Text) (now age : ℕ) (repo digest : Text) (plan : List ManifestRef)
      → Keeps (plan_manifest ds seen now age repo digest plan)
  unfolding plan_manifest
  plan_manifest-Keeps seen now age repo digest plan d =
      let kept = (reads-Keeps lib base [] digest [] []).4 d in
      elim (Result-cases (ds.manifest_last_access digest d).0) [
        | inr (t, r) ↦ (rw (r, plan_manifest) refl) ∙ kept
        | inl (e, r) ↦ elim (Bool-cases (is_not_exist e)) [
          | inl y ↦ (rw (r, y, plan_manifest) refl) ∙ kept
          | inr n ↦ (rw (r, n, plan_manifest) refl) ∙ kept
        ]
      ]

  pub plan_blob-Keeps :
      (m : Marks) (now age : ℕ) (blob : Text) (plan : List Text)
      → Keeps (plan_blob ds m now age blob plan)
  unfolding plan_blob
  plan_blob-Keeps m now age blob plan d =
      let kept = (reads-Keeps lib base [] blob [] []).1 d in
      elim (Result-cases (ds.blob_last_access blob d).0) [
        | inr (t, r) ↦ (rw (r, plan_blob) refl) ∙ kept
        | inl (e, r) ↦ elim (Bool-cases (is_not_exist e)) [
          | inl y ↦ (rw (r, y, plan_blob) refl) ∙ kept
          | inr n ↦ (rw (r, n, plan_blob) refl) ∙ kept
        ]
      ]

  pub collect_root_manifests-Keeps : (untagged : Bool) → Keeps (collect_root_manifests ds untagged)
  unfolding collect_root_manifests
  collect_root_manifests-Keeps untagged =
      Keeps-bind ds.repositories_list (λ repos. each (roots_of_repo ds untagged) repos [])
        (λ d. refl)
        (λ repos. each-Keeps (roots_of_repo ds untagged) (roots_of_repo-Keeps untagged) repos [])

  pub plan_repo-Keeps :
      (seen : List Text) (now age : ℕ) (repo : Text) (plan : List ManifestRef)
      → Keeps (plan_repo ds seen now age repo plan)
  unfolding plan_repo
  plan_repo-Keeps seen now age repo plan =
      Keeps-bind (ds.manifests_list repo)
        (λ digests. each (plan_manifest ds seen now age repo) digests plan) (λ d. refl)
        (λ digests.
          each-Keeps (plan_manifest ds seen now age repo) (plan_manifest-Keeps seen now age repo)
            digests plan)

  pub plan_sweep_manifests-Keeps :
      (seen : List Text) (now age : ℕ) → Keeps (plan_sweep_manifests ds seen now age)
  unfolding plan_sweep_manifests
  plan_sweep_manifests-Keeps seen now age =
      Keeps-bind ds.repositories_list (λ repos. each (plan_repo ds seen now age) repos [])
        (λ d. refl)
        (λ repos. each-Keeps (plan_repo ds seen now age) (plan_repo-Keeps seen now age) repos [])

  pub plan_sweep_blobs-Keeps : (m : Marks) (now age : ℕ) → Keeps (plan_sweep_blobs ds m now age)
  unfolding plan_sweep_blobs
  plan_sweep_blobs-Keeps m now age =
      Keeps-bind ds.blobs_list (λ blobs. each (plan_blob ds m now age) blobs []) (λ d. refl)
        (λ blobs. each-Keeps (plan_blob ds m now age) (plan_blob-Keeps m now age) blobs [])
