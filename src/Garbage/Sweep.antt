-- ===== src/Garbage/Sweep.antt =====
-- The roots, the plans and `GarbageCollect` itself.
pub mod Steps
pub mod Safety
pub mod Cover
use simple_registry.Base.{
  ℕ, Bool, true, false, not, ◌&&◌, ◌-◌, Option, none, some, List, [], ◌∷◌, ◌++◌, map, ◌==◌, nat_eq,
  list_eq, pair_eq, Text, Error, Result, ok, err, Action, pure, raise, lift, ◌>>=◌, ◌>>◌, contains,
  if◌then◌else◌, ltb,
}
use simple_registry.MapSet.{add_one}
use simple_registry.Storage.{DataStorage}
use simple_registry.Garbage.Mark.{Decoders, Marks, mark_manifest, is_not_exist}

-- `ManifestRef`: a repository and a digest.
abbrev pub ManifestRef : Type 0
ManifestRef = Text × Text

pub record Report : Type 0 where
  pub blobs_to_delete : List Text
  pub manifests_to_delete : List ManifestRef
  pub marks : Marks

-- A loop whose body may fail and extends a collection.
unfoldable pub each {ℓ} :
    {S A : Type 0} {B : Type ℓ} → (A → B → Action S B) → List A → B → Action S B
each f [] b = pure b
each f (a ∷ rest) b = do b' ← f a b; each f rest b'

-- `time.Since(t) > lastAccess` at the time `now`.
abbrev pub is_stale : ℕ → ℕ → ℕ → Bool
is_stale now last_access t = ltb last_access (now - t)

-- A deletion of what is gone already is no error.
abbrev tolerate : Result (Unit {0}) → Result (Unit {0})
tolerate (ok u) = ok u
tolerate (err e) = if is_not_exist e then ok tt else err e

module _ {S : Type 0} (ds : DataStorage S) where
  -- A tag whose manifest is missing is passed over.
  unfoldable pub root_of_tag : Text → Text → List ManifestRef → Action S (List ManifestRef)
  root_of_tag repo tag roots s =
      let (r, s') = ds.manifest_get repo tag s in
      elim r [
        | ok (_, _, digest) ↦ (ok (roots ++ (repo, digest) ∷ []), s')
        | err e ↦ if is_not_exist e then (ok roots, s') else (err e, s')
      ]

  unfoldable pub roots_of_repo : Bool → Text → List ManifestRef → Action S (List ManifestRef)
  roots_of_repo false repo roots = do
    digests ← ds.manifests_list repo
    pure (roots ++ map (λ d. (repo, d)) digests)
  roots_of_repo true repo roots = do tags ← ds.tags_list repo; each (root_of_tag repo) tags roots

  -- `collectRootManifests`: every manifest, or those that a tag names. The Go map from repositories
  -- to digests is the list of its pairs.
  unfoldable pub collect_root_manifests : Bool → Action S (List ManifestRef)
  collect_root_manifests delete_untagged = do
    repos ← ds.repositories_list
    each (roots_of_repo delete_untagged) repos []

  -- The loops over the roots in `GarbageCollect`.
  unfoldable pub mark_roots : Decoders → ℕ → List ManifestRef → Marks → Action S Marks
  mark_roots lib fuel roots m = each (λ ref. mark_manifest lib ds fuel ref.0 ref.1) roots m

  unfoldable pub plan_manifest :
      List Text → ℕ → ℕ → Text → Text → List ManifestRef → Action S (List ManifestRef)
  plan_manifest seen now last_access repo digest plan s =
      let (r, s') = ds.manifest_last_access digest s in
      elim r [
        | ok t ↦ (
          ok (
              if is_stale now last_access t && not (contains seen digest)
              then add_one (repo, digest) plan
              else plan),
          s',
        )
        | err e ↦ if is_not_exist e then (ok plan, s') else (err e, s')
      ]

  unfoldable pub plan_repo :
      List Text → ℕ → ℕ → Text → List ManifestRef → Action S (List ManifestRef)
  plan_repo seen now last_access repo plan = do
    digests ← ds.manifests_list repo
    each (plan_manifest seen now last_access repo) digests plan

  -- `planSweepManifests`.
  unfoldable pub plan_sweep_manifests : List Text → ℕ → ℕ → Action S (List ManifestRef)
  plan_sweep_manifests seen now last_access = do
    repos ← ds.repositories_list
    each (plan_repo seen now last_access) repos []

  unfoldable pub plan_blob : Marks → ℕ → ℕ → Text → List Text → Action S (List Text)
  plan_blob m now last_access blob plan s =
      let (r, s') = ds.blob_last_access blob s in
      elim r [
        | ok t ↦ (
          ok (
              if is_stale now last_access t
                && not (contains m.blobs blob)
                && not (contains m.manifests blob)
              then add_one blob plan
              else plan),
          s',
        )
        | err e ↦ if is_not_exist e then (ok plan, s') else (err e, s')
      ]

  -- `planSweepBlobs`.
  unfoldable pub plan_sweep_blobs : Marks → ℕ → ℕ → Action S (List Text)
  plan_sweep_blobs m now last_access = do
    blobs ← ds.blobs_list
    each (plan_blob m now last_access) blobs []

  unfoldable pub delete_manifest : ManifestRef → Unit {0} → Action S (Unit {0})
  delete_manifest ref u s = let (r, s') = ds.manifest_delete ref.0 ref.1 s in (tolerate r, s')

  unfoldable pub delete_blob : Text → Unit {0} → Action S (Unit {0})
  delete_blob blob u s = let (r, s') = ds.blobs_delete [] blob s in (tolerate r, s')

  unfoldable pub sweep : List ManifestRef → List Text → Action S (Unit {0})
  sweep manifests blobs = do each delete_manifest manifests tt; each delete_blob blobs tt

  -- `GarbageCollect`, of a storage that is no proxy, at the time `now`.
  unfoldable pub garbage_collect : Decoders → ℕ → ℕ → Bool → ℕ → Bool → Action S Report
  garbage_collect lib fuel now dry_run last_access delete_untagged = do
    roots ← collect_root_manifests delete_untagged
    marks ← mark_roots lib fuel roots (record { manifests = []; blobs = [] })
    manifests ← plan_sweep_manifests marks.manifests now last_access
    blobs ← plan_sweep_blobs marks now last_access
    if dry_run then pure tt else sweep manifests blobs
    pure (record { blobs_to_delete = blobs; manifests_to_delete = manifests; marks = marks })
