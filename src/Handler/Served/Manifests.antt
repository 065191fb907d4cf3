-- ===== src/Handler/Served/Manifests.antt =====
-- A manifest that a PUT stores in the file system storage, and a GET of it.
mod Tests
use simple_registry.Base.{
  ℕ, Bool, true, false, not, Option, none, some, [], ◌∷◌, ◌++◌, nat_eq, list_eq, Text, codes, Error,
  Result, ok, err, Action, panic, ◌≡◌, refl, sym, ◌∙◌, ap, subst, ◌⊎◌, inl, inr, Option-cases,
  length, if◌then◌else◌, arith,
}
use simple_registry.Disk.{Disk}
use simple_registry.Handler.Access.{Server}
use simple_registry.Handler.Manifests.{
  rbac_repo, is_bad_request, permitted, manifest_checks, manifests_get, manifests_put, put_answer,
  reread, stored,
}
use simple_registry.Handler.Refusals.{challenge_request-IsRefusal}
use simple_registry.Handler.Reply.{
  Request, Response, answer, challenge_request, settle, allowed, bytes,
}
use simple_registry.Handler.Answers.{other_status, passed}
use simple_registry.Garbage.Mark.{is_not_exist}
use simple_registry.Oci.{ImageManifest}
use simple_registry.Paths.{FilePath}
use simple_registry.Storage.{DataStorage}
use simple_registry.Validator.{is_name, is_tag}
use simple_registry.Filesystem.Layout.{Library}
use simple_registry.Filesystem.Manifests.Stored.{manifest_put-Stored}
use simple_registry.Filesystem.Reads.{reads-Keeps}
use simple_registry.Filesystem.Sound.{HexHashes}
use simple_registry.Filesystem.Storage.{filesystem_storage}

module _ {S : Type 0} (m : Server) (lib : Library) (ds : DataStorage S) (a : Response) (t : S)
    (created : a.status ≡ 201) where
  failed :
      (b : Bool) (n : ℕ) (s : S)
      → (¬ (n ≡ 201))
      → (¬ (◌≡◌ {A = Result Response × S} (ok (if b then answer n else answer 500), s) (ok a, t)))
  failed true n s ne h = other_status a t created (omega arith) (answer n) s n refl ne h
  failed false n s ne h =
      other_status a t created (omega arith) (answer 500) s 500 refl (λ e. ground arith) h

  -- Where the answer is 201, the manifest has been stored.
  settle-stored :
      (p : Request) (x : Result Text × S)
      → settle (stored m lib ds p) x ≡ (ok a, t)
      → (digest : Text) × (x.0 ≡ ok digest)
        × (settle (reread m lib ds p.name digest) (ds.manifest_get p.name p.reference x.1)
            ≡ (ok a, t))
  settle-stored p (ok digest, s) h = (digest, refl, h)
  settle-stored p (err panic, s) h = absurd cc
  settle-stored p (err e, s) h = absurd (failed (is_bad_request e) 400 s (λ e. ground arith) h)

  put_answered :
      (repo digest : Text) (o : Option ImageManifest) (s : S)
      → ◌≡◌ {A = Result Response × S} (ok (put_answer m lib ds repo digest o), s) (ok a, t)
      → (digest ≡ a.docker_content_digest) × (s ≡ t)
  put_answered repo digest none s h =
      absurd (other_status a t created (omega arith) (answer 500) s 500 refl (λ e. ground arith) h)
  put_answered repo digest (some manifest) s h =
      let same : put_answer m lib ds repo digest (some manifest) ≡ a = cc in
      (ap (λ z. z.docker_content_digest) same, ap (λ z. z.1) h)

  -- The manifest has been read again, and its digest is that of the answer.
  settle-reread :
      (repo digest : Text) (x : Result (Text × ℕ × Text) × S)
      → settle (reread m lib ds repo digest) x ≡ (ok a, t)
      → (digest ≡ a.docker_content_digest) × (x.1 ≡ t)
  settle-reread repo digest (ok (c, n, q), s) h =
      put_answered repo digest (lib.decode_first_image c) s h
  settle-reread repo digest (err panic, s) h = absurd cc
  settle-reread repo digest (err e, s) h =
      absurd (failed (is_not_exist e) 404 s (λ e. ground arith) h)

  -- Where the answer is 201, the checks have not refused.
  manifest_checks-passed :
      (verb : Text) (p : Request) (k : Action S Response) (s : S)
      → manifest_checks m lib ds verb p k s ≡ (ok a, t)
      → (is_name p.name ≡ true) × (k s ≡ (ok a, t))
  unfolding manifest_checks
  manifest_checks-passed verb p k s h =
      let (named, h1) =
        passed a t created (omega arith) (not (is_name p.name)) (answer 400) s
          (permitted m lib ds p verb (rbac_repo p.name p.reference) k s) (inl refl) h in
      elim (Option-cases (rbac_repo p.name p.reference)) [
        | inl e ↦ absurd (
            other_status a t created (omega arith) (answer 400) s 400 refl (λ e. ground arith)
              (rw e at h1))
        | inr (scope, e) ↦
            let (_, h2) =
              passed a t created (omega arith) (not (allowed m p (codes "manifests") scope verb))
                (challenge_request p) s (k s) (challenge_request-IsRefusal p) (rw e at h1) in
            (ground arith, h2)
      ]

module _ (m : Server) (lib : Library) (base : FilePath) where
  abbrev ds : DataStorage Disk
  ds = filesystem_storage lib base

  -- What a PUT that is answered by 201 has done.
  manifests_put-Created :
      (p : Request) (d t : Disk) (a : Response)
      → manifests_put m lib ds p d ≡ (ok a, t)
      → a.status ≡ 201
      → (is_name p.name ≡ true)
        × (ds.manifest_put p.name p.reference p.body d ≡ (ok a.docker_content_digest, t))
  unfolding manifests_put
  manifests_put-Created p d t a h created =
      let put : Action Disk Response =
        λ s. settle (stored m lib ds p) (ds.manifest_put p.name p.reference p.body s) in
      let (named, h1) = manifest_checks-passed m lib ds a t created (codes "PUT") p put d h in
      let x = ds.manifest_put p.name p.reference p.body d in
      let (digest, done, h2) = settle-stored m lib ds a t created p x h1 in
      let (same, kept) =
        settle-reread m lib ds a t created p.name digest (ds.manifest_get p.name p.reference x.1)
          h2 in
      let last : x.1 ≡ t = sym ((reads-Keeps lib base p.name [] [] p.reference).3 x.1) ∙ kept in
      (named, λ i. ((done ∙ ap ok same) i, last i))

  -- What the handler of GET answers for a manifest that is there.
  manifests_get-Found :
      (g : Request) (digest content scope : Text) (t : Disk)
      → is_name g.name ≡ true
      → rbac_repo g.name g.reference ≡ some scope
      → allowed m g (codes "manifests") scope (codes "GET") ≡ true
      → ds.manifest_get g.name g.reference t ≡ (ok (content, length content, digest), t)
      → manifests_get m lib ds g t
        ≡ (ok (record (answer 200) { docker_content_digest = digest; content = bytes content }), t)
  unfolding manifests_get manifest_checks
  manifests_get-Found g digest content scope t named seen may got =
      rw (manifests_get, manifest_checks, named, seen, may, got) refl

  -- A manifest that a PUT stores in the file system storage, which is answered by 201, is what a GET
  -- of it by a client with the permission is answered with in the state that the PUT left, by the
  -- digest of the answer or by the reference of the PUT if that is a tag: 200, the digest, and the
  -- bytes of the PUT, if the hashes are two or more hexadecimal digits.
  pub manifests_put-Served :
      (p g : Request) (scope : Text) (d t : Disk) (a : Response)
      → HexHashes lib
      → manifests_put m lib ds p d ≡ (ok a, t)
      → a.status ≡ 201
      → g.name ≡ p.name
      → (g.reference ≡ a.docker_content_digest)
        ⊎ ((g.reference ≡ p.reference) × (is_tag p.reference ≡ true))
      → rbac_repo g.name g.reference ≡ some scope
      → allowed m g (codes "manifests") scope (codes "GET") ≡ true
      → manifests_get m lib ds g t ≡ (
        ok (record (answer 200) {
          docker_content_digest = a.docker_content_digest;
          content = bytes p.body;
        }),
        t,
      )
  manifests_put-Served p g scope d t a hex h created same_name asked seen may =
      let (named, done) = manifests_put-Created p d t a h created in
      let digest = a.docker_content_digest in
      let (by_digest, by_tag) =
        manifest_put-Stored lib base p.name p.reference p.body digest d t hex done in
      let valid = subst (λ z. is_name z ≡ true) (sym same_name) named in
      let there : Text → Type 0 =
        λ r. ds.manifest_get g.name r t ≡ (ok (p.body, length p.body, digest), t) in
      manifests_get-Found g digest p.body scope t valid seen may (elim asked [
        | inl e ↦ subst there (sym e) (rw same_name by_digest)
        | inr (e, tagged) ↦ subst there (sym e) (rw same_name (by_tag tagged))
      ])
