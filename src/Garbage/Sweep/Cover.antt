-- ===== src/Garbage/Sweep/Cover.antt =====
-- What a whole collection marks, and what it may delete.
use simple_registry.Base.{
  ℕ, Bool, List, [], ◌∷◌, nat_eq, list_eq, pair_eq, Text, ok, ◌≡◌, refl, sym, subst, ◌⊎◌, inl, inr,
  In, bind_ok,
}
use simple_registry.Storage.{DataStorage}
use simple_registry.Garbage.Mark.{Decoders, Marks, mark_manifest}
use simple_registry.Garbage.Mark.References.{Grows, Grows-refl, Grows-trans}
use simple_registry.Garbage.Mark.Closure.{IsClosed, IsClosed-Grows, mark_manifest-Visited}
use simple_registry.Garbage.Sweep.{
  ManifestRef, Report, each, mark_roots, garbage_collect, collect_root_manifests,
}
use simple_registry.Garbage.Sweep.Steps.{garbage_collect-Steps}
use simple_registry.Garbage.Sweep.Safety.{
  AvoidsMarked, AvoidsBlobs, plan_sweep_manifests-AvoidsMarked, plan_sweep_blobs-AvoidsBlobs,
}

module _ {S : Type 0} (lib : Decoders) (ds : DataStorage S) where
  -- A marked manifest is closed as seen from the repository of some root.
  abbrev pub ClosedFor : S → List ManifestRef → Marks → Text → Type 0
  ClosedFor s roots m x = (ref : ManifestRef) × In ref roots × IsClosed lib ds s ref.0 m x

  pub record Covers (s : S) (roots : List ManifestRef) (m : Marks) : Type 0 where
    pub marked : (ref : ManifestRef) → In ref roots → In ref.1 m.manifests
    pub closed : (x : Text) → In x m.manifests → ClosedFor s roots m x

  -- Reads of manifests and of referrers that leave the storage as it is.
  pub record ReadsOnly : Type 0 where
    pub get_same : (repo r : Text) (s : S) → (ds.manifest_get repo r s).1 ≡ s
    pub refs_same : (repo r : Text) (s : S) → (ds.referrers_get repo r s).1 ≡ s

  record MarkedBy (s : S) (roots : List ManifestRef) (m n : Marks) (t : S) : Type 0 where
    same : t ≡ s
    grows : Grows m n
    marked : (ref : ManifestRef) → In ref roots → In ref.1 n.manifests
    closed : (x : Text) → In x n.manifests → In x m.manifests ⊎ ClosedFor s roots n x

  mark_roots-MarkedBy :
      (fuel : ℕ) (roots : List ManifestRef) (m n : Marks) (s t : S)
      → ReadsOnly
      → mark_roots ds lib fuel roots m s ≡ (ok n, t)
      → MarkedBy s roots m n t
  unfolding mark_roots each
  mark_roots-MarkedBy fuel [] m n s t reads h =
      let e : n ≡ m = cc in
      let q : t ≡ s = cc in
      record {
        same = q;
        grows = subst (Grows m) (sym e) (Grows-refl m);
        marked = λ ref i. absurd i;
        closed = λ x i. inl (subst (λ k. In x k.manifests) e i);
      }
  mark_roots-MarkedBy fuel ((repo, d) ∷ roots) m n s t reads h =
      let (m', u, x, y) =
        bind_ok (mark_manifest lib ds fuel repo d m) (λ k. mark_roots ds lib fuel roots k) s h in
      let v =
        mark_manifest-Visited lib ds s repo (λ r. reads.get_same repo r s)
          (λ r. reads.refs_same repo r s) fuel d m m' u x in
      let rest =
        mark_roots-MarkedBy fuel roots m' n s t reads
          (subst (λ z. mark_roots ds lib fuel roots m' z ≡ (ok n, t)) v.same y) in
      record {
        same = rest.same;
        grows = Grows-trans v.extends.grows rest.grows;
        marked = λ ref i. elim i [
          | inl e ↦ subst (λ z. In z.1 n.manifests) (sym e) (rest.grows.manifests d v.marked)
          | inr j ↦ rest.marked ref j
        ];
        closed = λ z i. elim (rest.closed z i) [
          | inr (ref, j, c) ↦ inr (ref, inr j, c)
          | inl j ↦ elim (v.extends.closed z j) [
            | inl old ↦ inl old
            | inr c ↦ inr ((repo, d), inl refl, IsClosed-Grows lib ds s repo z rest.grows c)
          ]
        ];
      }

  -- What a collection that succeeds guarantees.
  pub record Safe (delete_untagged : Bool) (s : S) (report : Report) : Type 0 where
    pub roots : List ManifestRef
    pub start : S
    pub collected : collect_root_manifests ds delete_untagged s ≡ (ok roots, start)
    pub covered : Covers start roots report.marks
    pub keeps_manifests : AvoidsMarked ds report.marks.manifests report.manifests_to_delete
    pub keeps_blobs : AvoidsBlobs ds report.marks report.blobs_to_delete

  pub garbage_collect-Safe :
      (fuel now age : ℕ) (dry_run delete_untagged : Bool) (s t : S) (report : Report)
      → ReadsOnly
      → garbage_collect ds lib fuel now dry_run age delete_untagged s ≡ (ok report, t)
      → Safe delete_untagged s report
  garbage_collect-Safe fuel now age dry_run delete_untagged s t report reads h =
      let k = garbage_collect-Steps ds lib fuel now age dry_run delete_untagged s t report h in
      let by =
        mark_roots-MarkedBy fuel k.roots (record { manifests = []; blobs = [] }) report.marks
          k.rooted k.marked reads k.marks_step in
      record {
        roots = k.roots;
        start = k.rooted;
        collected = k.roots_step;
        covered = record {
          marked = by.marked;
          closed = λ z i. elim (by.closed z i) [ inl none_yet ↦ absurd none_yet | inr c ↦ c ];
        };
        keeps_manifests =
            plan_sweep_manifests-AvoidsMarked ds report.marks.manifests now age
              report.manifests_to_delete k.marked k.planned k.manifests_step;
        keeps_blobs =
            plan_sweep_blobs-AvoidsBlobs ds report.marks now age report.blobs_to_delete k.planned
              k.ready k.blobs_step;
      }
