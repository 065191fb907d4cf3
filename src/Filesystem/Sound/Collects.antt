-- ===== src/Filesystem/Sound/Collects.antt =====
-- A collection of the garbage brings about no file that breaks a blob, whether it fails or not.
use simple_registry.Base.{
  ℕ, Bool, List, [], ◌∷◌, nat_eq, list_eq, Text, Action, pure, ◌>>=◌, ◌>>◌, if◌then◌else◌,
}
use simple_registry.Disk.{Disk}
use simple_registry.Disk.Changes.{Changes-refl, Changes-same}
use simple_registry.Paths.{FilePath}
use simple_registry.Storage.{DataStorage}
use simple_registry.Filesystem.Layout.{Library}
use simple_registry.Filesystem.Storage.{filesystem_storage}
use simple_registry.Filesystem.Sound.{Fits}
use simple_registry.Filesystem.Sound.Actions.{Always, Always-bind, Always-if}
use simple_registry.Filesystem.Sound.Operations.{blobs_delete-Safely}
use simple_registry.Filesystem.Sound.Manifests.{manifest_delete-Safely}
use simple_registry.Garbage.Mark.{Decoders, Marks}
use simple_registry.Garbage.Sweep.{
  ManifestRef, Report, each, collect_root_manifests, mark_roots, plan_sweep_manifests,
  plan_sweep_blobs, delete_manifest, delete_blob, sweep, garbage_collect,
}
use simple_registry.Filesystem.Collects.Marking.{mark_roots-Keeps}
use simple_registry.Filesystem.Collects.{
  collect_root_manifests-Keeps, plan_sweep_manifests-Keeps, plan_sweep_blobs-Keeps,
}

module _ (lib : Library) (base : FilePath) (decoders : Decoders) where
  abbrev W : FilePath → Text → Type 0
  W = Fits lib base

  abbrev ds : DataStorage Disk
  ds = filesystem_storage lib base

  abbrev Safely : {A : Type 0} → Action Disk A → Type 0
  Safely = Always W

  each-Safely :
      {A B : Type 0} (f : A → B → Action Disk B)
      → ((a : A) (b : B) → Safely (f a b))
      → (l : List A) (b : B) → Safely (each f l b)
  unfolding each
  each-Safely f h [] b = λ d. Changes-refl W d
  each-Safely f h (a ∷ rest) b =
      Always-bind W (f a b) (each f rest) (h a b) (λ b'. each-Safely f h rest b')

  delete_manifest-Safely : (ref : ManifestRef) (u : Unit {0}) → Safely (delete_manifest ds ref u)
  unfolding delete_manifest
  delete_manifest-Safely ref u d = manifest_delete-Safely lib base ref.0 ref.1 d

  delete_blob-Safely : (blob : Text) (u : Unit {0}) → Safely (delete_blob ds blob u)
  unfolding delete_blob
  delete_blob-Safely blob u d = blobs_delete-Safely lib base [] blob d

  sweep-Safely :
      (manifests : List ManifestRef) (blobs : List Text) → Safely (sweep ds manifests blobs)
  unfolding sweep
  sweep-Safely manifests blobs =
      Always-bind W (each (delete_manifest ds) manifests tt) (λ _. each (delete_blob ds) blobs tt)
        (each-Safely (delete_manifest ds) delete_manifest-Safely manifests tt)
        (λ _. each-Safely (delete_blob ds) delete_blob-Safely blobs tt)

  pub garbage_collect-Safely :
      (fuel now age : ℕ) (dry_run untagged : Bool)
      → Safely (garbage_collect ds decoders fuel now dry_run age untagged)
  unfolding garbage_collect
  garbage_collect-Safely fuel now age dry_run untagged =
      let empty : Marks = record { manifests = []; blobs = [] } in
      let done : Marks → List ManifestRef → List Text → Action Disk Report =
        λ m ps bs. pure (record { blobs_to_delete = bs; manifests_to_delete = ps; marks = m }) in
      let swept : Marks → List ManifestRef → List Text → Action Disk Report =
        λ m ps bs. (if dry_run then pure tt else sweep ds ps bs) >> done m ps bs in
      let plan_blobs : Marks → List ManifestRef → Action Disk Report =
        λ m ps. plan_sweep_blobs ds m now age >>= swept m ps in
      let plan : Marks → Action Disk Report =
        λ m. plan_sweep_manifests ds m.manifests now age >>= plan_blobs m in
      Always-bind W (collect_root_manifests ds untagged)
        (λ roots. mark_roots ds decoders fuel roots empty >>= plan)
        (λ d. Changes-same W d _ (collect_root_manifests-Keeps lib base decoders untagged d))
        (λ roots.
          Always-bind W (mark_roots ds decoders fuel roots empty) plan
            (λ d. Changes-same W d _ (mark_roots-Keeps lib base decoders fuel roots empty d))
            (λ m.
              Always-bind W (plan_sweep_manifests ds m.manifests now age) (plan_blobs m)
                (λ d.
                  Changes-same W d _
                    (plan_sweep_manifests-Keeps lib base decoders m.manifests now age d))
                (λ ps.
                  Always-bind W (plan_sweep_blobs ds m now age) (swept m ps)
                    (λ d. Changes-same W d _ (plan_sweep_blobs-Keeps lib base decoders m now age d))
                    (λ bs.
                      Always-bind W (if dry_run then pure tt else sweep ds ps bs)
                        (λ _. done m ps bs)
                        (Always-if W dry_run (pure tt) (sweep ds ps bs) (λ _ d. Changes-refl W d)
                          (sweep-Safely ps bs))
                        (λ _ d. Changes-refl W d)))))
