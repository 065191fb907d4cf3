-- ===== src/Garbage/Sweep/Safety.antt =====
-- What the plans of a collection leave alone.
use simple_registry.Base.{
  ℕ, false, not, ◌&&◌, List, [], ◌∷◌, nat_eq, list_eq, pair_eq, Text, ok, Action, contains, ◌≡◌,
  refl, sym, subst, ◌⊎◌, inl, inr, In, bind_ok, Result-cases, Bool-cases, not_In_of_contains, arith,
}
use simple_registry.MapSet.{add_one}
use simple_registry.MapSet.Laws.{In-add_one_iff}
use simple_registry.Storage.{DataStorage}
use simple_registry.Garbage.Mark.{Marks, is_not_exist}
use simple_registry.Garbage.Sweep.{
  ManifestRef, each, is_stale, plan_manifest, plan_repo, plan_sweep_manifests, plan_blob,
  plan_sweep_blobs,
}

-- A loop keeps what its body keeps, for the elements of the list.
pub each-keeps {ℓ} :
    {S A B : Type 0} (f : A → B → Action S B) (P : B → S → Type ℓ) (l : List A)
    → ((a : A) → In a l → (b c : B) (s t : S) → f a b s ≡ (ok c, t) → P b s → P c t)
    → (b c : B) (s t : S) → each f l b s ≡ (ok c, t)
    → P b s
    → P c t
unfolding each
each-keeps f P [] k b c s t h p =
    let e : c ≡ b = cc in let q : t ≡ s = cc in subst (P c) (sym q) (subst (λ z. P z s) (sym e) p)
each-keeps f P (a ∷ l) k b c s t h p =
    let (b', u, x, y) = bind_ok (f a b) (each f l) s h in
    each-keeps f P l (λ a' i. k a' (inr i)) b' c u t y (k a (inl refl) b b' s u x p)

module _ {S : Type 0} (ds : DataStorage S) where
  -- No manifest of a plan is marked.
  abbrev pub AvoidsMarked : List Text → List ManifestRef → Type 0
  AvoidsMarked seen plan = (ref : ManifestRef) → In ref plan → ¬ In ref.1 seen

  plan_manifest-AvoidsMarked :
      (seen : List Text) (now age : ℕ) (repo digest : Text) (plan out : List ManifestRef) (s t : S)
      → plan_manifest ds seen now age repo digest plan s ≡ (ok out, t)
      → AvoidsMarked seen plan
      → AvoidsMarked seen out
  unfolding plan_manifest
  plan_manifest-AvoidsMarked seen now age repo digest plan out s t h p =
      elim (Result-cases (ds.manifest_last_access digest s).0) [
        | inl (e, r) ↦ elim (Bool-cases (is_not_exist e)) [
          | inl y ↦
              let q : out ≡ plan = cc (rw (r, y, plan_manifest) at h) in
              subst (AvoidsMarked seen) (sym q) p
          | inr n ↦ absurd (cc (rw (r, n, plan_manifest) at h))
        ]
        | inr (x, r) ↦ elim (Bool-cases (is_stale now age x && not (contains seen digest))) [
          | inr n ↦
              let q : out ≡ plan = cc (rw (r, n, plan_manifest) at h) in
              subst (AvoidsMarked seen) (sym q) p
          | inl y ↦
              let q : out ≡ add_one (repo, digest) plan = cc (rw (r, y, plan_manifest) at h) in
              let unseen : contains seen digest ≡ false = ground arith in
              subst (AvoidsMarked seen) (sym q) (λ ref i.
                elim ((In-add_one_iff ref (repo, digest) plan).0 i) [
                  | inl old ↦ p ref old
                  | inr new ↦
                      subst (λ z. ¬ In z.1 seen) (sym new) (not_In_of_contains seen digest unseen)
                ])
        ]
      ]

  plan_repo-AvoidsMarked :
      (seen : List Text) (now age : ℕ) (repo : Text) (plan out : List ManifestRef) (s t : S)
      → plan_repo ds seen now age repo plan s ≡ (ok out, t)
      → AvoidsMarked seen plan
      → AvoidsMarked seen out
  unfolding plan_repo
  plan_repo-AvoidsMarked seen now age repo plan out s t h p =
      let (l, u, x, y) =
        bind_ok (ds.manifests_list repo) (λ l. each (plan_manifest ds seen now age repo) l plan) s
          h in
      each-keeps (plan_manifest ds seen now age repo) (λ b _. AvoidsMarked seen b) l
        (λ a _ b c. plan_manifest-AvoidsMarked seen now age repo a b c) plan out u t y p

  pub plan_sweep_manifests-AvoidsMarked :
      (seen : List Text) (now age : ℕ) (out : List ManifestRef) (s t : S)
      → plan_sweep_manifests ds seen now age s ≡ (ok out, t)
      → AvoidsMarked seen out
  unfolding plan_sweep_manifests
  plan_sweep_manifests-AvoidsMarked seen now age out s t h =
      let (l, u, x, y) =
        bind_ok ds.repositories_list (λ l. each (plan_repo ds seen now age) l []) s h in
      each-keeps (plan_repo ds seen now age) (λ b _. AvoidsMarked seen b) l
        (λ a _ b c. plan_repo-AvoidsMarked seen now age a b c) [] out u t y (λ ref i. absurd i)

  abbrev pub AvoidsBlobs : Marks → List Text → Type 0
  AvoidsBlobs m plan = (d : Text) → In d plan → (¬ In d m.blobs) × (¬ In d m.manifests)

  plan_blob-AvoidsBlobs :
      (m : Marks) (now age : ℕ) (blob : Text) (plan out : List Text) (s t : S)
      → plan_blob ds m now age blob plan s ≡ (ok out, t)
      → AvoidsBlobs m plan
      → AvoidsBlobs m out
  unfolding plan_blob
  plan_blob-AvoidsBlobs m now age blob plan out s t h p =
      elim (Result-cases (ds.blob_last_access blob s).0) [
        | inl (e, r) ↦ elim (Bool-cases (is_not_exist e)) [
          | inl y ↦
              let q : out ≡ plan = cc (rw (r, y, plan_blob) at h) in subst (AvoidsBlobs m) (sym q) p
          | inr n ↦ absurd (cc (rw (r, n, plan_blob) at h))
        ]
        | inr (x, r) ↦
            elim (Bool-cases (
              is_stale now age x
              && not (contains m.blobs blob)
              && not (contains m.manifests blob))) [
                | inr n ↦
                    let q : out ≡ plan = cc (rw (r, n, plan_blob) at h) in
                    subst (AvoidsBlobs m) (sym q) p
                | inl y ↦
                    let q : out ≡ add_one blob plan = cc (rw (r, y, plan_blob) at h) in
                    let no_manifest : contains m.manifests blob ≡ false = ground arith in
                    let no_blob : contains m.blobs blob ≡ false = ground arith in
                    subst (AvoidsBlobs m) (sym q) (λ d i. elim ((In-add_one_iff d blob plan).0 i) [
                      | inl old ↦ p d old
                      | inr new ↦
                          subst (λ z. (¬ In z m.blobs) × (¬ In z m.manifests)) (sym new)
                            (
                              not_In_of_contains m.blobs blob no_blob,
                              not_In_of_contains m.manifests blob no_manifest,
                            )
                    ])
              ]
      ]

  pub plan_sweep_blobs-AvoidsBlobs :
      (m : Marks) (now age : ℕ) (out : List Text) (s t : S)
      → plan_sweep_blobs ds m now age s ≡ (ok out, t)
      → AvoidsBlobs m out
  unfolding plan_sweep_blobs
  plan_sweep_blobs-AvoidsBlobs m now age out s t h =
      let (l, u, x, y) = bind_ok ds.blobs_list (λ l. each (plan_blob ds m now age) l []) s h in
      each-keeps (plan_blob ds m now age) (λ b _. AvoidsBlobs m b) l
        (λ a _ b c. plan_blob-AvoidsBlobs m now age a b c) [] out u t y (λ d i. absurd i)

  -- A plan has only what was listed: one step adds its own element at most.
  pub plan_blob-Adds :
      (m : Marks) (now age : ℕ) (blob : Text) (plan out : List Text) (s t : S)
      → plan_blob ds m now age blob plan s ≡ (ok out, t)
      → (x : Text) → In x out
      → In x plan ⊎ (x ≡ blob)
  unfolding plan_blob
  plan_blob-Adds m now age blob plan out s t h x i =
      elim (Result-cases (ds.blob_last_access blob s).0) [
        | inl (e, r) ↦ elim (Bool-cases (is_not_exist e)) [
          | inl y ↦ let q : out ≡ plan = cc (rw (r, y, plan_blob) at h) in inl (subst (In x) q i)
          | inr n ↦ absurd (cc (rw (r, n, plan_blob) at h))
        ]
        | inr (a, r) ↦
            elim (Bool-cases (
              is_stale now age a
              && not (contains m.blobs blob)
              && not (contains m.manifests blob))) [
                | inr n ↦
                    let q : out ≡ plan = cc (rw (r, n, plan_blob) at h) in inl (subst (In x) q i)
                | inl y ↦
                    let q : out ≡ add_one blob plan = cc (rw (r, y, plan_blob) at h) in
                    (In-add_one_iff x blob plan).0 (subst (In x) q i)
              ]
      ]

  pub plan_manifest-Adds :
      (seen : List Text) (now age : ℕ) (repo digest : Text) (plan out : List ManifestRef) (s t : S)
      → plan_manifest ds seen now age repo digest plan s ≡ (ok out, t)
      → (ref : ManifestRef) → In ref out
      → In ref plan ⊎ (ref ≡ (repo, digest))
  unfolding plan_manifest
  plan_manifest-Adds seen now age repo digest plan out s t h ref i =
      elim (Result-cases (ds.manifest_last_access digest s).0) [
        | inl (e, r) ↦ elim (Bool-cases (is_not_exist e)) [
          | inl y ↦
              let q : out ≡ plan = cc (rw (r, y, plan_manifest) at h) in inl (subst (In ref) q i)
          | inr n ↦ absurd (cc (rw (r, n, plan_manifest) at h))
        ]
        | inr (x, r) ↦ elim (Bool-cases (is_stale now age x && not (contains seen digest))) [
          | inr n ↦
              let q : out ≡ plan = cc (rw (r, n, plan_manifest) at h) in inl (subst (In ref) q i)
          | inl y ↦
              let q : out ≡ add_one (repo, digest) plan = cc (rw (r, y, plan_manifest) at h) in
              (In-add_one_iff ref (repo, digest) plan).0 (subst (In ref) q i)
        ]
      ]
