-- ===== src/Filesystem/Collects/Planned.antt =====
-- What the plans of a collection on disk hold: valid names and digests.
use simple_registry.Base.{
  ℕ, true, List, [], nat_eq, list_eq, pair_eq, Text, Result, ok, ◌≡◌, sym, ◌∙◌, ap, subst, inl, inr,
  In, bind_ok,
}
use simple_registry.Disk.{Disk}
use simple_registry.Paths.{FilePath}
use simple_registry.Storage.{DataStorage}
use simple_registry.Validator.{is_name, is_digest}
use simple_registry.Filesystem.Layout.{Library}
use simple_registry.Filesystem.Listings.{blob_digests, manifest_digests}
use simple_registry.Filesystem.Listings.Walk.{repositories_of}
use simple_registry.Filesystem.Storage.{filesystem_storage}
use simple_registry.Filesystem.Collects.{plan_repo-Keeps}
use simple_registry.Garbage.Mark.{Decoders, Marks}
use simple_registry.Garbage.Sweep.{
  ManifestRef, each, plan_manifest, plan_repo, plan_sweep_manifests, plan_blob, plan_sweep_blobs,
}
use simple_registry.Garbage.Sweep.Safety.{each-keeps, plan_blob-Adds, plan_manifest-Adds}

pub ok_list : {a b : List Text} → ◌≡◌ {A = Result (List Text)} (ok a) (ok b) → a ≡ b
ok_list h = cc

-- What the directories of the storage are named by: valid names and digests.
pub record IsTidy (base : FilePath) (d : Disk) : Type 0 where
  pub blobs : (x : Text) → In x (blob_digests base d) → is_digest x ≡ true
  pub repositories :
      (repos : List Text)
      → repositories_of base d ≡ ok repos
      → (repo : Text) → In repo repos
      → is_name repo ≡ true
  pub manifests :
      (repos : List Text)
      → repositories_of base d ≡ ok repos
      → (repo : Text) → In repo repos
      → (x : Text) → In x (manifest_digests base d repo)
      → is_digest x ≡ true

unfoldable pub AllDigests : List Text → Type 0
AllDigests plan = (x : Text) → In x plan → is_digest x ≡ true

unfoldable pub AllRefs : List ManifestRef → Type 0
AllRefs plan = (ref : ManifestRef) → In ref plan → (is_name ref.0 ≡ true) × (is_digest ref.1 ≡ true)

module _ (lib : Library) (base : FilePath) (decoders : Decoders) (d : Disk)
    (tidy : IsTidy base d) where
  abbrev ds : DataStorage Disk
  ds = filesystem_storage lib base

  pub planned_blobs :
      (m : Marks) (now age : ℕ) (out : List Text) (t : Disk)
      → plan_sweep_blobs ds m now age d ≡ (ok out, t)
      → AllDigests out
  unfolding plan_sweep_blobs AllDigests
  planned_blobs m now age out t h =
      let (l, u, x, y) = bind_ok ds.blobs_list (λ l. each (plan_blob ds m now age) l []) d h in
      let listed : blob_digests base d ≡ l = ok_list (ap (λ z. z.0) x) in
      each-keeps (plan_blob ds m now age) (λ plan _. AllDigests plan) l
        (λ blob i plan plan' s s' step all z j.
          elim (plan_blob-Adds ds m now age blob plan plan' s s' step z j) [
            | inl old ↦ all z old
            | inr e ↦ tidy.blobs z (subst (In z) (sym listed) (subst (λ w. In w l) (sym e) i))
          ])
        [] out u t y (λ z j. absurd j)

  planned_repo :
      (seen : List Text) (now age : ℕ) (repo : Text) (plan out : List ManifestRef) (s t : Disk)
      → is_name repo ≡ true
      → AllDigests (manifest_digests base d repo)
      → plan_repo ds seen now age repo plan s ≡ (ok out, t)
      → (s ≡ d) × AllRefs plan
      → (t ≡ d) × AllRefs out
  unfolding plan_repo AllRefs AllDigests
  planned_repo seen now age repo plan out s t name valid h (same, all) =
      let (l, u, x, y) =
        bind_ok (ds.manifests_list repo) (λ l. each (plan_manifest ds seen now age repo) l plan) s
          h in
      let listed : manifest_digests base s repo ≡ l = ok_list (ap (λ z. z.0) x) in
      let fine : (z : Text) → In z l → is_digest z ≡ true = λ z i.
        valid z
          (subst (λ w. In z (manifest_digests base w repo)) same (subst (In z) (sym listed) i)) in
      (
        sym (ap (λ z. z.1) h) ∙ plan_repo-Keeps lib base decoders seen now age repo plan s ∙ same,
        each-keeps (plan_manifest ds seen now age repo) (λ p _. AllRefs p) l
            (λ digest i p p' v v' step old ref j.
              elim (plan_manifest-Adds ds seen now age repo digest p p' v v' step ref j) [
                | inl k ↦ old ref k
                | inr e ↦
                    subst (λ r. (is_name r.0 ≡ true) × (is_digest r.1 ≡ true)) (sym e)
                      (name, fine digest i)
              ])
            plan out u t y all,
      )

  none_planned : AllRefs []
  unfolding AllRefs
  none_planned ref j = absurd j

  pub planned_manifests :
      (seen : List Text) (now age : ℕ) (out : List ManifestRef) (t : Disk)
      → plan_sweep_manifests ds seen now age d ≡ (ok out, t)
      → AllRefs out
  unfolding plan_sweep_manifests AllDigests
  planned_manifests seen now age out t h =
      let (repos, u, x, y) =
        bind_ok ds.repositories_list (λ l. each (plan_repo ds seen now age) l []) d h in
      let listed = ap (λ z. z.0) x in
      let same : u ≡ d = sym (ap (λ z. z.1) x) in
      (each-keeps (plan_repo ds seen now age) (λ p s. (s ≡ d) × AllRefs p) repos
        (λ repo i p p' s s' step k.
          planned_repo seen now age repo p p' s s' (tidy.repositories repos listed repo i)
            (tidy.manifests repos listed repo i) step k)
        [] out u t y (same, none_planned)).1
