-- ===== src/Garbage/Sweep/Steps.antt =====
-- The steps of a collection that succeeds.
use simple_registry.Base.{
  ℕ, Bool, List, [], Text, ok, Action, pure, ◌>>=◌, ◌>>◌, if◌then◌else◌, ◌≡◌, subst, bind_ok,
}
use simple_registry.Storage.{DataStorage}
use simple_registry.Garbage.Mark.{Decoders, Marks}
use simple_registry.Garbage.Sweep.{
  ManifestRef, Report, mark_roots, plan_sweep_manifests, plan_sweep_blobs, sweep, garbage_collect,
  collect_root_manifests,
}

module _ {S : Type 0} (ds : DataStorage S) (decoders : Decoders) (fuel now age : ℕ)
    (dry_run untagged : Bool) where
  -- What each step yields, and the states between them.
  pub record Steps (s t : S) (report : Report) : Type 0 where
    pub roots : List ManifestRef
    pub rooted : S
    pub marked : S
    pub planned : S
    pub ready : S
    pub roots_step : collect_root_manifests ds untagged s ≡ (ok roots, rooted)
    pub marks_step :
        mark_roots ds decoders fuel roots (record { manifests = []; blobs = [] }) rooted
        ≡ (ok report.marks, marked)
    pub manifests_step :
        plan_sweep_manifests ds report.marks.manifests now age marked
        ≡ (ok report.manifests_to_delete, planned)
    pub blobs_step :
        plan_sweep_blobs ds report.marks now age planned ≡ (ok report.blobs_to_delete, ready)
    pub sweep_step :
        (if dry_run then pure tt else sweep ds report.manifests_to_delete report.blobs_to_delete)
          ready
        ≡ (ok tt, t)

  pub garbage_collect-Steps :
      (s t : S) (report : Report)
      → garbage_collect ds decoders fuel now dry_run age untagged s ≡ (ok report, t)
      → Steps s t report
  unfolding garbage_collect
  garbage_collect-Steps s t report h =
      let done : Marks → List ManifestRef → List Text → Action S Report =
        λ m ps bs. pure (record { blobs_to_delete = bs; manifests_to_delete = ps; marks = m }) in
      let swept : Marks → List ManifestRef → List Text → Action S Report =
        λ m ps bs. (if dry_run then pure tt else sweep ds ps bs) >> done m ps bs in
      let plan_blobs : Marks → List ManifestRef → Action S Report =
        λ m ps. plan_sweep_blobs ds m now age >>= swept m ps in
      let plan : Marks → Action S Report =
        λ m. plan_sweep_manifests ds m.manifests now age >>= plan_blobs m in
      let empty : Marks = record { manifests = []; blobs = [] } in
      let (roots, u, x, y) =
        bind_ok (collect_root_manifests ds untagged)
          (λ roots. mark_roots ds decoders fuel roots empty >>= plan) s h in
      let (m, v, x', y') = bind_ok (mark_roots ds decoders fuel roots empty) plan u y in
      let (ps, w, x2, y2) =
        bind_ok (plan_sweep_manifests ds m.manifests now age) (plan_blobs m) v y' in
      let (bs, w', x3, y3) = bind_ok (plan_sweep_blobs ds m now age) (swept m ps) w y2 in
      let (_, w4, x4, y4) =
        bind_ok (if dry_run then pure tt else sweep ds ps bs) (λ _. done m ps bs) w' y3 in
      of_parts m ps bs roots u v w w' w4 x x' x2 x3 x4 y4
    where
      of_parts :
          (m : Marks) (ps : List ManifestRef) (bs : List Text) (roots : List ManifestRef)
          (u v w r x : S)
          → collect_root_manifests ds untagged s ≡ (ok roots, u)
          → mark_roots ds decoders fuel roots (record { manifests = []; blobs = [] }) u ≡ (ok m, v)
          → plan_sweep_manifests ds m.manifests now age v ≡ (ok ps, w)
          → plan_sweep_blobs ds m now age w ≡ (ok bs, r)
          → (if dry_run then pure tt else sweep ds ps bs) r ≡ (ok tt, x)
          → pure (record { blobs_to_delete = bs; manifests_to_delete = ps; marks = m }) x
            ≡ (ok report, t)
          → Steps s t report
      of_parts m ps bs roots u v w r x a b c e f g =
          let made : Report = record {
            blobs_to_delete = bs;
            manifests_to_delete = ps;
            marks = m;
          } in
          let same : made ≡ report = cc in
          let last : x ≡ t = cc in
          subst (λ z. Steps s z report) last
            (subst (Steps s x) same (record {
              roots = roots;
              rooted = u;
              marked = v;
              planned = w;
              ready = r;
              roots_step = a;
              marks_step = b;
              manifests_step = c;
              blobs_step = e;
              sweep_step = f;
            }))
