-- ===== src/Filesystem/Abstract/Refines.antt =====
-- The storage of blobs on a disk implements the abstract store.
use simple_registry.Base.{
  ℕ, Bool, true, false, ◌&&◌, Option, none, some, [], ◌∷◌, ◌==◌, nat_eq, list_eq, Text, Result, ok,
  err, Action, ◌>>=◌, ◌>>◌, ◌≡◌, ◌≢◌, ◌⊎◌, refl, sym, ◌∙◌, ap, inl, inr, Result-cases, Bool-cases,
  Option-cases, bind_ok, bind_of_ok, Error, ==_eq, length, ltb, if◌then◌else◌, link_mismatch,
  ==-cases, ==_refl,
}
use simple_registry.Digest.{parse}
use simple_registry.Digest.Laws.{parse_iff}
use simple_registry.Disk.{Disk, read_file, stat, remove_all, is_under}
use simple_registry.Disk.Laws.{file_at, read_file_iff, remove_all-files}
use simple_registry.Paths.{FilePath, split_slash}
use simple_registry.Validator.{is_name, is_digest}
use simple_registry.Validator.Digests.{is_digest-parse}
use simple_registry.Validator.Names.{is_name-IsPlain}
use simple_registry.Filesystem.Blobs.{stats, check_link, open_blob, blobs_get, blobs_delete, doomed}
use simple_registry.Filesystem.Commits.{lift_result}
use simple_registry.Filesystem.Layout.{layer_dir, layer_link, blob_path}
use simple_registry.Filesystem.Stored.{check_link_ok}
use simple_registry.Filesystem.Abstract.{
  get, unlink, erase, Agrees, parts, holds, bytes, blob_at_parts, abstract, served,
}
use simple_registry.Filesystem.Abstract.Apart.{
  layer_dir-apart, layer_link-own, layer_dir-off_blobs, blob-off_links, blob-apart, is_under_refl,
}

-- A digest is made of its parts.
pub digest_of_parts : (x y a k : Text) → parse x ≡ ok (a, k) → parse y ≡ ok (a, k) → x ≡ y
digest_of_parts x y a k h j = ((parse_iff x a k).0 h).0 ∙ sym ((parse_iff y a k).0 j).0

read_of_none : (p : FilePath) (d : Disk) → file_at p d ≡ none → (c : Text) → read_file p d ≢ ok c
read_of_none p d e c h = let (t, f) = (read_file_iff p d c).0 h in cc

-- `check_link` and `open_blob` in terms of the files.
served-open_blob :
    (base : FilePath) (algo hash : Text) (d : Disk)
    → served (open_blob base algo hash d).0 ≡ bytes (file_at (blob_path base algo hash) d)
unfolding open_blob
served-open_blob base algo hash d = elim (Option-cases (file_at (blob_path base algo hash) d)) [
  | inl n ↦ elim (Result-cases (read_file (blob_path base algo hash) d)) [
    | inl (e, r) ↦ rw (n, r, open_blob, ◌>>=◌) refl
    | inr (c, r) ↦ absurd (read_of_none (blob_path base algo hash) d n c r)
  ]
  | inr ((c, t), f) ↦
      rw (f, (read_file_iff (blob_path base algo hash) d c).1 (t, f), open_blob, ◌>>=◌) refl
]

no_empty : is_name [] ≢ true
unfolding split_slash
no_empty h = (is_name-IsPlain [] h).0

pub holds_self : (digest : Text) (t : ℕ) → holds digest (some (digest, t)) ≡ true
holds_self digest t = ==_refl digest

holds-some :
    (digest : Text) (f : Option (Text × ℕ))
    → holds digest f ≡ true
    → (t : ℕ) × (f ≡ some (digest, t))
holds-some digest none h = cc
holds-some digest (some (c, t)) h = (t, ap (λ z. some (z, t)) (==_eq h))

-- A link that does not hold the digest is refused.
check_link_refused :
    (base : FilePath) (repo digest algo hash : Text) (d : Disk)
    → is_name repo ≡ true
    → holds digest (file_at (layer_link base repo algo hash) d) ≡ false
    → (e : Error) × (t : Disk) × (check_link base repo digest algo hash d ≡ (err e, t))
unfolding check_link
check_link_refused base [] digest algo hash d valid h = absurd (no_empty valid)
check_link_refused base (c ∷ repo) digest algo hash d valid h =
    let link = layer_link base (c ∷ repo) algo hash in
    elim (Result-cases (read_file link d)) [
      | inl (e, r) ↦ (e, d, rw (r, check_link, ◌>>=◌) refl)
      | inr (l, r) ↦
          let (t, f) = (read_file_iff link d l).0 r in
          let other : (l == digest) ≡ false = rw f at h in
          (link_mismatch, d, rw (r, other, check_link, ◌>>=◌) refl)
    ]

-- What a bind does with a result.
abbrev onward : Action Disk (Text × ℕ) → Result (Unit {0}) × Disk → Result (Text × ℕ) × Disk
onward m (r, t) = elim r [ ok a ↦ m t | err e ↦ (err e, t) ]

holds-check_link :
    (base : FilePath) (repo digest algo hash : Text) (d : Disk) (m : Action Disk (Text × ℕ))
    → is_name repo ≡ true
    → served ((check_link base repo digest algo hash >> m) d).0
      ≡ (if holds digest (file_at (layer_link base repo algo hash) d) then served (m d).0 else none)
holds-check_link base repo digest algo hash d m valid =
    let link = layer_link base repo algo hash in
    elim (Bool-cases (holds digest (file_at link d))) [
      | inl y ↦
          let (t, f) = holds-some digest (file_at link d) y in
          let passes =
            check_link_ok base repo digest algo hash d ((read_file_iff link d digest).1 (t, f)) in
          rw y (
            ap (λ z. served z.0)
              (bind_of_ok (check_link base repo digest algo hash) (λ _. m) d passes))
      | inr n ↦
          let (e, t, fails) = check_link_refused base repo digest algo hash d valid n in
          rw n (ap (λ z. served (onward m z).0) fails)
    ]

parts_ok : (digest a k : Text) → parse digest ≡ ok (a, k) → parts digest ≡ (a, k)
parts_ok digest a k q = ap (λ r. elim r [ ok p ↦ p | err e ↦ ([], []) ]) q

pub abstract_of_parts :
    (base : FilePath) (d : Disk) (repo digest a k : Text)
    → parse digest ≡ ok (a, k)
    → ((abstract base d).linked repo digest ≡ holds digest (file_at (layer_link base repo a k) d))
      × ((abstract base d).content digest
          ≡ (if ltb (length k) 2 then none else bytes (file_at (blob_path base a k) d)))
abstract_of_parts base d repo digest a k q =
    let e = parts_ok digest a k q in
    (
      ap (λ p. holds digest (file_at (layer_link base repo p.0 p.1) d)) e,
      ap (blob_at_parts base d) e,
    )

if_none : (b : Bool) → ◌≡◌ {A = Option Text} (if b then none else none) none
if_none true = refl
if_none false = refl

module _ (base : FilePath) (d : Disk) where
  -- What `BlobsGet` of a repository serves is what the abstract store has there.
  pub blobs_get-Refines :
      (repo digest : Text)
      → is_name repo ≡ true
      → is_digest digest ≡ true
      → served (blobs_get base repo digest d).0 ≡ get repo digest (abstract base d)
  unfolding blobs_get
  blobs_get-Refines repo digest valid fine =
      let (a, k, q, _, _) = is_digest-parse digest fine in
      let (l, c) = abstract_of_parts base d repo digest a k q in
      let link = holds digest (file_at (layer_link base repo a k) d) in
      elim (Bool-cases (ltb (length k) 2)) [
        | inl short ↦ rw (l, c, q, short) (sym (if_none link))
        | inr long ↦
            rw (l, c, q, long)
              (holds-check_link base repo digest a k d (open_blob base a k) valid
                ∙ ap (λ z. if link then z else none) (served-open_blob base a k d))
      ]

-- The files that `BlobsDelete` leaves.
delete-files :
    (base : FilePath) (repo digest a k : Text) (d t : Disk)
    → parse digest ≡ ok (a, k)
    → blobs_delete base repo digest d ≡ (ok tt, t)
    → (ltb (length k) 2 ≡ false)
      × ((q : FilePath)
          → file_at q t ≡ (if is_under (doomed base repo a k) q then none else file_at q d))
unfolding blobs_delete
delete-files base repo digest a k d t q h = elim (Bool-cases (ltb (length k) 2)) [
  | inl short ↦ absurd (cc (rw (q, short) at h))
  | inr long ↦
      let p = doomed base repo a k in
      let (n, u, x, y) = bind_ok (stats p) (λ _. remove_all p) d (rw (q, long) at h) in
      let (_, same) = lift_result (stat p d) d u x in
      let e : (remove_all p d).1 ≡ t = ap (λ z. (remove_all p z).1) (sym same) ∙ ap (λ z. z.1) y in
      (long, λ r. sym (ap (file_at r) e) ∙ remove_all-files p d r)
]

pub same_parts :
    (x y b l a k : Text) → x ≡ y → parse x ≡ ok (b, l) → parse y ≡ ok (a, k) → (b ≡ a) × (l ≡ k)
same_parts x y b l a k e p q =
    let both = sym (parts_ok x b l p) ∙ ap parts e ∙ parts_ok y a k q in
    (ap (λ z. z.0) both, ap (λ z. z.1) both)

pub not_true : {b : Bool} → b ≢ true → b ≡ false
not_true {b = true} h = absurd (h refl)
not_true {b = false} h = refl

-- A test and the equation that it decides.
pub same_or_not :
    (r repo x digest : Text)
    → ((r ≡ repo) × (x ≡ digest) × ((r == repo && x == digest) ≡ true))
      ⊎ ((¬ ((r ≡ repo) × (x ≡ digest))) × ((r == repo && x == digest) ≡ false))
same_or_not r repo x digest = elim (==-cases r repo) [
  | inl (t, e) ↦ elim (==-cases x digest) [
    | inl (u, f) ↦ inl (e, f, rw (t, u) refl)
    | inr (u, f) ↦ inr (λ z. f z.1, rw (t, u) refl)
  ]
  | inr (t, e) ↦ inr (λ z. e z.0, rw t refl)
]

module _ (base : FilePath) (d t : Disk) (digest : Text) (fine : is_digest digest ≡ true) where
  -- `BlobsDelete` with a repository, where it succeeds, unlinks the digest from it: every other
  -- repository, and every other digest, keeps what it has.
  pub blobs_delete-Unlinks :
      (repo : Text)
      → is_name repo ≡ true
      → blobs_delete base repo digest d ≡ (ok tt, t)
      → Agrees (abstract base t) (unlink repo digest (abstract base d))
  unfolding doomed
  blobs_delete-Unlinks [] valid h r x vr vx = absurd (no_empty valid)
  blobs_delete-Unlinks (c ∷ repo) valid h r x vr vx =
      let (a, k, q, pa, pk) = is_digest-parse digest fine in
      let (b, l, p, pb, pl) = is_digest-parse x vx in
      let (_, files) = delete-files base (c ∷ repo) digest a k d t q h in
      let (l_t, c_t) = abstract_of_parts base t r x b l p in
      let (l_d, c_d) = abstract_of_parts base d r x b l p in
      let dir = layer_dir base (c ∷ repo) a k in
      let kept : file_at (blob_path base b l) t ≡ file_at (blob_path base b l) d =
        files (blob_path base b l)
        ∙ (rw (layer_dir-off_blobs base (c ∷ repo) valid a k pa pk b l pb pl) refl) in
      (
        l_t
            ∙ ap (holds x) (files (layer_link base r b l))
            ∙ (elim (same_or_not r (c ∷ repo) x digest) [
              | inl (er, ex, y) ↦
                  let (eb, el) = same_parts x digest b l a k ex p q in
                  let u : is_under dir (layer_link base r b l) ≡ true =
                    (λ i. is_under dir (layer_link base (er i) (eb i) (el i)))
                    ∙ layer_link-own base (c ∷ repo) valid a k pa pk in
                  rw (y, u) refl
              | inr (ne, n) ↦
                  let u : is_under dir (layer_link base r b l) ≡ false = not_true (λ z.
                    let (er, ea, ek) =
                      layer_dir-apart base (c ∷ repo) r valid vr a k b l pa pk pb pl z in
                    ne (
                      sym er,
                      digest_of_parts x digest a k (p ∙ (λ i. ok (sym ea i, sym ek i))) q,
                    )) in
                  rw (n, u) (sym l_d)
            ]),
        c_t ∙ ap (λ f. if ltb (length l) 2 then none else bytes f) kept ∙ sym c_d,
      )

  -- `BlobsDelete` without a repository, where it succeeds, erases the bytes of the digest, and
  -- nothing else.
  pub blobs_delete-Erases :
      blobs_delete base [] digest d ≡ (ok tt, t)
      → Agrees (abstract base t) (erase digest (abstract base d))
  unfolding doomed
  blobs_delete-Erases h r x vr vx =
      let (a, k, q, pa, pk) = is_digest-parse digest fine in
      let (b, l, p, pb, pl) = is_digest-parse x vx in
      let (long, files) = delete-files base [] digest a k d t q h in
      let (l_t, c_t) = abstract_of_parts base t r x b l p in
      let (l_d, c_d) = abstract_of_parts base d r x b l p in
      let blob = blob_path base a k in
      let kept : file_at (layer_link base r b l) t ≡ file_at (layer_link base r b l) d =
        files (layer_link base r b l) ∙ (rw (blob-off_links base r vr b l pb pl a k pa pk) refl) in
      (
        l_t ∙ ap (holds x) kept ∙ sym l_d,
        c_t
            ∙ ap (λ f. if ltb (length l) 2 then none else bytes f) (files (blob_path base b l))
            ∙ (elim (==-cases x digest) [
              | inl (y, ex) ↦
                  let (eb, el) = same_parts x digest b l a k ex p q in
                  let u : is_under blob (blob_path base b l) ≡ true =
                    (λ i. is_under blob (blob_path base (eb i) (el i))) ∙ is_under_refl blob in
                  rw (y, u) (if_none (ltb (length l) 2))
              | inr (n, ne) ↦
                  let u : is_under blob (blob_path base b l) ≡ false = not_true (λ z.
                    let (ea, ek) = blob-apart base a k b l pa pk pb pl z in
                    ne (digest_of_parts x digest a k (p ∙ (λ i. ok (sym ea i, sym ek i))) q)) in
                  rw (n, u) (sym c_d)
            ]),
      )
