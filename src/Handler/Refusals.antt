-- ===== src/Handler/Refusals.antt =====
-- What a request without permission can do: nothing.
use simple_registry.Base.{
  Bool, true, false, not, Option, none, some, [], ◌==◌, nat_eq, list_eq, Text, codes, Result, ok,
  Action, ◌≡◌, refl, ◌⊎◌, inl, inr, Bool-cases, if◌then◌else◌,
}
use simple_registry.Filesystem.Layout.{Library}
use simple_registry.Handler.Access.{Server}
use simple_registry.Handler.Blobs.{blobs_get, blobs_delete}
use simple_registry.Handler.Manifests.{
  rbac_repo, manifest_checks, manifests_get, manifests_put, manifests_delete, permitted,
}
use simple_registry.Handler.Posts.{blobs_uploads_post}
use simple_registry.Handler.Uploads.{
  octet_stream, session_checks, blobs_uploads_get, blobs_uploads_patch, blobs_uploads_put,
  blobs_uploads_delete, get_or_empty,
}
use simple_registry.Handler.Reply.{
  Request, Response, answer, refusal, challenge_request, allowed, name_invalid, blob_upload_invalid,
  digest_wrong,
}
use simple_registry.Storage.{DataStorage}
use simple_registry.Validator.{is_name, is_digest, is_uuid}

abbrev pub IsRefusal : Response → Type 0
IsRefusal a = (a.status ≡ 400) ⊎ ((a.status ≡ 401) ⊎ (a.status ≡ 403))

-- The answer is a refusal, and the state is the one that the request found.
abbrev pub IsRefused : {S : Type 0} → Result Response × S → S → Type 0
IsRefused {S} res s = (a : Response) × (◌≡◌ {A = Result Response × S} res (ok a, s)) × IsRefusal a

pub challenge_request-IsRefusal : (r : Request) → IsRefusal (challenge_request r)
unfolding challenge_request
challenge_request-IsRefusal r = elim (Bool-cases (r.authorization == [])) [
  | inl t ↦ rw t (inr (inl refl))
  | inr f ↦ rw f (inr (inr refl))
]

module _ {S : Type 0} (s : S) where
  -- A check that refuses, or else goes on to a refusal.
  check-IsRefused :
      (b : Bool) (a : Response) (k : Result Response × S)
      → IsRefusal a
      → IsRefused k s
      → IsRefused (if not b then (ok a, s) else k) s
  check-IsRefused true a k h later = later
  check-IsRefused false a k h later = (a, refl, h)

  deny-IsRefused :
      (b : Bool) (r : Request) (k : Result Response × S)
      → b ≡ false
      → IsRefused (if not b then (ok (challenge_request r), s) else k) s
  deny-IsRefused true r k h = cc
  deny-IsRefused false r k h = (challenge_request r, refl, challenge_request-IsRefusal r)

module _ {S : Type 0} (m : Server) (ds : DataStorage S) (r : Request) (s : S) where
  blobs_get-IsRefused :
      allowed m r (codes "blobs") r.name (codes "GET") ≡ false → IsRefused (blobs_get m ds r s) s
  unfolding blobs_get
  blobs_get-IsRefused h =
      check-IsRefused s (is_name r.name) (answer 400) _ (inl refl) (
        check-IsRefused s (is_digest r.digest) (answer 400) _ (inl refl) (deny-IsRefused s _ r _ h))

  blobs_delete-IsRefused :
      allowed m r (codes "blobs") r.name (codes "DELETE") ≡ false
      → IsRefused (blobs_delete m ds r s) s
  unfolding blobs_delete
  blobs_delete-IsRefused h =
      check-IsRefused s (is_name r.name) (answer 400) _ (inl refl) (
        check-IsRefused s (is_digest r.digest) (answer 400) _ (inl refl) (deny-IsRefused s _ r _ h))

  session_checks-IsRefused :
      (verb : Text) (k : Result Response × S)
      → allowed m r (codes "blobs") r.name verb ≡ false
      → IsRefused (session_checks m ds verb r (λ _. k) s) s
  session_checks-IsRefused verb k h =
      check-IsRefused s (is_name r.name) (refusal 400 name_invalid) _ (inl refl) (
        check-IsRefused s (is_uuid r.uuid) (refusal 400 blob_upload_invalid) _ (inl refl)
          (deny-IsRefused s _ r _ h))

  post-IsRefused :
      allowed m r (codes "blobs") r.name (codes "POST") ≡ false
      → IsRefused (blobs_uploads_post m ds r s) s
  unfolding blobs_uploads_post
  post-IsRefused h =
      check-IsRefused s (is_name r.name) (refusal 400 name_invalid) _ (inl refl)
        (deny-IsRefused s _ r _ h)

  patch-IsRefused :
      allowed m r (codes "blobs") r.name (codes "PATCH") ≡ false
      → IsRefused (blobs_uploads_patch m ds r s) s
  unfolding blobs_uploads_patch
  patch-IsRefused h =
      check-IsRefused s (r.content_type == octet_stream) (refusal 400 blob_upload_invalid) _
        (inl refl) (session_checks-IsRefused (codes "PATCH") _ h)

  put-IsRefused :
      allowed m r (codes "blobs") r.name (codes "PUT") ≡ false
      → IsRefused (blobs_uploads_put m ds r s) s
  unfolding blobs_uploads_put
  put-IsRefused h = check-IsRefused s (is_name r.name) (refusal 400 name_invalid) _ (inl refl) (
      check-IsRefused s (is_uuid r.uuid) (refusal 400 blob_upload_invalid) _ (inl refl) (
        check-IsRefused s (is_digest (get_or_empty m ds r.query_digest)) (refusal 400 digest_wrong)
          _ (inl refl) (deny-IsRefused s _ r _ h)))

  -- Each handler of blobs and uploads refuses a request that lacks the permission that it checks on
  -- the blobs of the repository, which is that for its method, but that for POST where GET asks for
  -- the state of an upload: it answers 400, 401 or 403 and leaves the storage as it is.
  pub blob_handlers-IsRefused :
      (allowed m r (codes "blobs") r.name (codes "GET") ≡ false → IsRefused (blobs_get m ds r s) s)
      × (allowed m r (codes "blobs") r.name (codes "DELETE") ≡ false
          → IsRefused (blobs_delete m ds r s) s × IsRefused (blobs_uploads_delete m ds r s) s)
      × (allowed m r (codes "blobs") r.name (codes "POST") ≡ false
          → IsRefused (blobs_uploads_post m ds r s) s × IsRefused (blobs_uploads_get m ds r s) s)
      × (allowed m r (codes "blobs") r.name (codes "PATCH") ≡ false
          → IsRefused (blobs_uploads_patch m ds r s) s)
      × (allowed m r (codes "blobs") r.name (codes "PUT") ≡ false
          → IsRefused (blobs_uploads_put m ds r s) s)
  unfolding blobs_uploads_get blobs_uploads_delete
  blob_handlers-IsRefused = (
    blobs_get-IsRefused,
    λ h. (blobs_delete-IsRefused h, session_checks-IsRefused (codes "DELETE") _ h),
    λ h. (post-IsRefused h, session_checks-IsRefused (codes "POST") _ h),
    patch-IsRefused,
    put-IsRefused,
  )

  -- The scope that the access rules see for a reference is not permitted to the verb.
  abbrev pub IsForbidden : Text → Option Text → Type 0
  IsForbidden verb none = Unit
  IsForbidden verb (some scope) = allowed m r (codes "manifests") scope verb ≡ false

  permitted-IsRefused :
      (lib : Library) (verb : Text) (scope : Option Text) (k : Action S Response)
      → IsForbidden verb scope
      → IsRefused (permitted m lib ds r verb scope k s) s
  permitted-IsRefused lib verb none k h = (answer 400, refl, inl refl)
  permitted-IsRefused lib verb (some scope) k h = deny-IsRefused s _ r _ h

  manifest_checks-IsRefused :
      (lib : Library) (verb : Text) (k : Action S Response)
      → IsForbidden verb (rbac_repo r.name r.reference)
      → IsRefused (manifest_checks m lib ds verb r k s) s
  unfolding manifest_checks
  manifest_checks-IsRefused lib verb k h =
      check-IsRefused s (is_name r.name) (answer 400) _ (inl refl)
        (permitted-IsRefused lib verb (rbac_repo r.name r.reference) k h)

  -- Each handler of manifests refuses a request whose reference has a scope that is forbidden to
  -- its method, or none: it answers 400, 401 or 403 and leaves the storage as it is.
  pub manifest_handlers-IsRefused :
      (lib : Library)
      → (IsForbidden (codes "GET") (rbac_repo r.name r.reference)
          → IsRefused (manifests_get m lib ds r s) s)
        × (IsForbidden (codes "PUT") (rbac_repo r.name r.reference)
            → IsRefused (manifests_put m lib ds r s) s)
        × (IsForbidden (codes "DELETE") (rbac_repo r.name r.reference)
            → IsRefused (manifests_delete m lib ds r s) s)
  unfolding manifests_get manifests_put manifests_delete
  manifest_handlers-IsRefused lib = (
    manifest_checks-IsRefused lib (codes "GET") _,
    manifest_checks-IsRefused lib (codes "PUT") _,
    manifest_checks-IsRefused lib (codes "DELETE") _,
  )
