-- ===== src/Filesystem/Collects/Blobs.antt =====
-- The files of the marked blobs after a collection on disk.
use simple_registry.Base.{
  ℕ, Bool, true, List, [], nat_eq, list_eq, pair_eq, Text, Result, ok, Action, pure, ◌≡◌, refl, sym,
  ◌∙◌, ap, subst, ◌⊎◌, inl, inr, In, bind_ok, Bool-cases, if◌then◌else◌,
}
use simple_registry.Digest.{parse}
use simple_registry.Digest.Laws.{parse_iff}
use simple_registry.Disk.{Disk}
use simple_registry.Disk.Laws.{file_at}
use simple_registry.Paths.{FilePath}
use simple_registry.Storage.{DataStorage}
use simple_registry.Validator.{is_digest}
use simple_registry.Validator.Digests.{is_digest-parse_apart}
use simple_registry.Filesystem.Layout.{Library, blob_path}
use simple_registry.Filesystem.Storage.{filesystem_storage, disk_collect-Safe}
use simple_registry.Filesystem.Collects.Marking.{mark_roots-Keeps}
use simple_registry.Filesystem.Collects.{
  collect_root_manifests-Keeps, plan_sweep_manifests-Keeps, plan_sweep_blobs-Keeps,
}
use simple_registry.Filesystem.Collects.Deletes.{NoColons, blobs_delete-Has, manifest_delete-Has}
use simple_registry.Garbage.Mark.{Decoders}
use simple_registry.Garbage.Sweep.{
  ManifestRef, Report, each, plan_sweep_manifests, plan_sweep_blobs, delete_manifest, delete_blob,
  sweep, garbage_collect, collect_root_manifests, mark_roots,
}
use simple_registry.Garbage.Sweep.Steps.{garbage_collect-Steps}
use simple_registry.Garbage.Sweep.Safety.{each-keeps}
use simple_registry.Filesystem.Collects.Planned.{
  IsTidy, AllDigests, AllRefs, planned_blobs, planned_manifests,
}

module _ (lib : Library) (base : FilePath) (decoders : Decoders) (d : Disk)
    (tidy : IsTidy base d) where
  abbrev ds : DataStorage Disk
  ds = filesystem_storage lib base

  -- The deletions leave the file of a valid digest that is not among them.
  swept :
      (digest algo hash : Text) (ps : List ManifestRef) (bs : List Text) (t : Disk)
      → NoColons base
      → is_digest digest ≡ true
      → parse digest ≡ ok (algo, hash)
      → AllRefs ps
      → AllDigests bs
      → (¬ In digest bs)
      → sweep ds ps bs d ≡ (ok tt, t)
      → file_at (blob_path base algo hash) t ≡ file_at (blob_path base algo hash) d
  unfolding sweep AllRefs AllDigests delete_blob delete_manifest
  swept digest algo hash ps bs t clear valid parts refs digests out h =
      let (a, k, p, pa, pk, ck) = is_digest-parse_apart digest valid in
      let (_, ca, _, _) = (parse_iff digest a k).0 p in
      let same : ◌≡◌ {A = Result (Text × Text)} (ok (a, k)) (ok (algo, hash)) = sym p ∙ parts in
      let ea : a ≡ algo = cc in
      let ek : k ≡ hash = cc in
      let b = blob_path base a k in
      let f = file_at b d in
      let (_, u, x, y) =
        bind_ok (each (delete_manifest ds) ps tt) (λ _. each (delete_blob ds) bs tt) d h in
      let first =
        each-keeps (delete_manifest ds) (λ _ s. file_at b s ≡ f) ps
          (λ ref i _ _ s s' step has.
            subst (λ z. file_at b z ≡ f) (ap (λ z. z.1) step)
              (manifest_delete-Has lib base clear a k pa pk ca ck f ref.0 ref.1 s (refs ref i).0
                (refs ref i).1 has))
          tt tt d u x refl in
      let last =
        each-keeps (delete_blob ds) (λ _ s. file_at b s ≡ f) bs
          (λ other i _ _ s s' step has.
            subst (λ z. file_at b z ≡ f) (ap (λ z. z.1) step)
              (blobs_delete-Has lib base clear a k pa pk ca ck f digest other s p (digests other i)
                (λ e. out (subst (λ w. In w bs) e i)) has))
          tt tt u t y first in
      subst (λ z. file_at (blob_path base z hash) t ≡ file_at (blob_path base z hash) d) ea
        (subst (λ z. file_at (blob_path base a z) t ≡ file_at (blob_path base a z) d) ek last)

  -- What was read left the disk as it is.
  at_start :
      {A : Type 0} (m : Action Disk A) (r : Result A) (s t : Disk)
      → ((z : Disk) → (m z).1 ≡ z)
      → s ≡ d
      → m s ≡ (r, t)
      → (m d ≡ (r, t)) × (t ≡ d)
  at_start m r s t keeps same h =
      let e : m d ≡ (r, t) = subst (λ z. m z ≡ (r, t)) same h in
      (e, sym (ap (λ z. z.1) e) ∙ keeps d)

  module _ (dry_run : Bool) (digest algo hash : Text) (clear : NoColons base)
      (valid : is_digest digest ≡ true) (parts : parse digest ≡ ok (algo, hash)) where
    finish-Keeps :
        (ps : List ManifestRef) (bs : List Text) (t : Disk)
        → AllRefs ps
        → AllDigests bs
        → (¬ In digest bs)
        → (if dry_run then pure tt else sweep ds ps bs) d ≡ (ok tt, t)
        → file_at (blob_path base algo hash) t ≡ file_at (blob_path base algo hash) d
    finish-Keeps ps bs t refs digests out h = elim (Bool-cases dry_run) [
      | inl dry ↦
          let same : d ≡ t = ap (λ z. z.1) (rw dry at h) in
          ap (file_at (blob_path base algo hash)) (sym same)
      | inr wet ↦ swept digest algo hash ps bs t clear valid parts refs digests out (rw wet at h)
    ]

    collected-Keeps :
        (fuel now age : ℕ) (untagged : Bool) (t : Disk) (report : Report)
        → garbage_collect ds decoders fuel now dry_run age untagged d ≡ (ok report, t)
        → (¬ In digest report.blobs_to_delete)
        → file_at (blob_path base algo hash) t ≡ file_at (blob_path base algo hash) d
    collected-Keeps fuel now age untagged t report h out =
        let k = garbage_collect-Steps ds decoders fuel now age dry_run untagged d t report h in
        let m = report.marks in
        let ps = report.manifests_to_delete in
        let bs = report.blobs_to_delete in
        let (_, e1) =
          at_start (collect_root_manifests ds untagged) (ok k.roots) d k.rooted
            (collect_root_manifests-Keeps lib base decoders untagged) refl k.roots_step in
        let (_, e2) =
          at_start (mark_roots ds decoders fuel k.roots (record { manifests = []; blobs = [] }))
            (ok m) k.rooted k.marked
            (mark_roots-Keeps lib base decoders fuel k.roots
              (record { manifests = []; blobs = [] }))
            e1 k.marks_step in
        let (p2, e3) =
          at_start (plan_sweep_manifests ds m.manifests now age) (ok ps) k.marked k.planned
            (plan_sweep_manifests-Keeps lib base decoders m.manifests now age) e2
            k.manifests_step in
        let (p3, e4) =
          at_start (plan_sweep_blobs ds m now age) (ok bs) k.planned k.ready
            (plan_sweep_blobs-Keeps lib base decoders m now age) e3 k.blobs_step in
        finish-Keeps ps bs t
          (planned_manifests lib base decoders d tidy m.manifests now age ps k.planned p2)
          (planned_blobs lib base decoders d tidy m now age bs k.ready p3) out
          (subst (λ z. (if dry_run then pure tt else sweep ds ps bs) z ≡ (ok tt, t)) e4
            k.sweep_step)

    -- A collection of the garbage on disk that succeeds leaves the file of every marked digest as it
    -- was, of a blob or of a manifest, whatever the subjects of the deleted manifests are: for a
    -- valid digest, on a disk whose directories have valid names, with a path to the data that has
    -- no colon.
    pub garbage_collect-Keeps :
        (fuel now age : ℕ) (untagged : Bool) (t : Disk) (report : Report)
        → garbage_collect ds decoders fuel now dry_run age untagged d ≡ (ok report, t)
        → In digest report.marks.blobs ⊎ In digest report.marks.manifests
        → file_at (blob_path base algo hash) t ≡ file_at (blob_path base algo hash) d
    garbage_collect-Keeps fuel now age untagged t report h marked =
        let safe = disk_collect-Safe lib base decoders fuel now age dry_run untagged d t report h in
        collected-Keeps fuel now age untagged t report h (λ i.
          let (no_blob, no_manifest) = safe.keeps_blobs digest i in
          elim marked [ inl j ↦ no_blob j | inr j ↦ no_manifest j ])
