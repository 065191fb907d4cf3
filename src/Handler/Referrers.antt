-- ===== src/Handler/Referrers.antt =====
-- internal/http/handler/referrers.go. Of a manifest the handler decodes what the filter reads and the
-- media type of its descriptor; annotations are left out. The answer lists the descriptors.
pub mod Listed
mod Tests
use simple_registry.Base.{
  ℕ, Bool, true, false, not, Option, none, some, List, [], ◌∷◌, ◌++◌, ◌==◌, nat_eq, list_eq, Text,
  codes, Error, Result, ok, err, Action, pure, panic, if◌then◌else◌,
}
use simple_registry.Garbage.Mark.{is_not_exist}
use simple_registry.Handler.Access.{Server}
use simple_registry.Handler.Reply.{Request, challenge_request, allowed}
use simple_registry.Oci.{DescriptorManifest, media_type_oci_image_manifest}
use simple_registry.Storage.{DataStorage}
use simple_registry.Validator.{is_name, is_digest}

-- The pointers of the source are options; `config` is the media type of the configuration.
pub record GenericManifest : Type 0 where
  pub media_type : Text
  pub artifact_type : Option Text
  pub config : Option Text

abbrev config_differs : Text → Option Text → Bool
config_differs filter none = true
config_differs filter (some t) = not (t == filter)

abbrev type_differs : Text → GenericManifest → Option Text → Bool
type_differs filter m (some t) = not (t == filter)
type_differs filter m none =
    if not (m.media_type == media_type_oci_image_manifest)
    then true
    else config_differs filter m.config

-- `isSkipableManifest`.
unfoldable pub is_skipable : Text → GenericManifest → Bool
is_skipable filter m = if filter == [] then false else type_differs filter m m.artifact_type

-- `json.Decode` of a blob; nothing where it returns an error.
abbrev pub DecodeGeneric : Type 0
DecodeGeneric = Text → Option GenericManifest

-- What the handler sends: a bare status, a challenge, or the list with status 200.
pub data Reply : Type 0 where
  bare : ℕ → Reply
  challenged : Reply
  listed : List DescriptorManifest → Reply

abbrev none_if_missing : Result (List Text) → Result (List Text)
none_if_missing (ok l) = ok l
none_if_missing (err e) = if is_not_exist e then ok [] else err e

abbrev pub described :
    Text → Text → ℕ → Option GenericManifest → List DescriptorManifest → List DescriptorManifest
described filter ref size none found = found
described filter ref size (some m) found =
    if not (is_skipable filter m)
    then found ++ record { media_type = m.media_type; digest = ref; size = size } ∷ []
    else found

module _ {S : Type 0} (m : Server) (decode : DecodeGeneric) (ds : DataStorage S) where
  -- The loop over the referrers; a blob that cannot be read ends it.
  unfoldable pub describe_each :
      Text → Text → List Text → List DescriptorManifest → Action S (List DescriptorManifest)
  describe_each repo filter [] found s = (ok found, s)
  describe_each repo filter (ref ∷ refs) found s =
      let (r, s') = ds.blobs_get repo ref s in
      elim r [
        | ok (content, size) ↦
            describe_each repo filter refs (described filter ref size (decode content) found) s'
        | err e ↦ (err e, s')
      ]

  -- A panic goes on, any other error is 500.
  abbrev to_reply : Result (List DescriptorManifest) × S → Result Reply × S
  to_reply (ok l, s) = (ok (listed l), s)
  to_reply (err panic, s) = (err panic, s)
  to_reply (err e, s) = (ok (bare 500), s)

  abbrev on_referrers : Text → Text → Result (List Text) → S → Result Reply × S
  on_referrers repo filter (ok l) s = to_reply (describe_each repo filter l [] s)
  on_referrers repo filter (err panic) s = (err panic, s)
  on_referrers repo filter (err e) s = (ok (bare 500), s)

  -- `ReferrersGet`, with the query value `artifactType`.
  unfoldable pub referrers_get : Request → Text → Action S Reply
  referrers_get r filter s =
      if not (is_name r.name)
      then (ok (bare 400), s)
      else if not (is_digest r.digest)
      then (ok (bare 400), s)
      else if not (allowed m r (codes "manifests") r.name (codes "GET"))
      then (ok challenged, s)
      else let (l, s') = ds.referrers_get r.name r.digest s in
        on_referrers r.name filter (none_if_missing l) s'
