-- ===== src/Handler/Referrers/Tests.antt =====
-- One referrer of the sample storage, with the artifact type that is asked for.
use simple_registry.Base.{
  ◌↔◌, none, some, [], ◌∷◌, ◌==◌, nat_eq, list_eq, list_beq, any, contains, codes, ok, ◌≡◌, refl,
  ◌⊎◌, In,
}
use simple_registry.Oci.{DescriptorManifest}
use simple_registry.Sample.{sample, sample_engine}
use simple_registry.Handler.Access.{Server}
use simple_registry.Handler.Referrers.{DecodeGeneric, is_skipable, describe_each}
use simple_registry.Handler.Referrers.Listed.{Describes, describe_each-Describes_iff}

abbrev any_server : Server
any_server = record {
  rbac = sample_engine;
  crypto = record {
    basic_auth = λ a. none;
    sign = λ t. t;
    decode_claims = λ p. none;
    encode_payload = λ u s n. u;
    compare_password = λ h p. h == p;
  };
  token_timeout = 1;
}

abbrev sbom : DecodeGeneric
sbom t =
    some (record { media_type = codes "m"; artifact_type = some (codes "sbom"); config = none })

abbrev listed_one : DescriptorManifest
listed_one = record { media_type = codes "m"; digest = codes "d"; size = 1 }

one_listed :
    describe_each any_server sbom sample
      (codes "r")
      (codes "sbom")
      (codes "d" ∷ [])
      []
      (codes "d" ∷ [])
    ≡ (ok (listed_one ∷ []), codes "d" ∷ [])
unfolding describe_each is_skipable any contains list_beq
one_listed = refl

other_type_skipped :
    describe_each any_server sbom sample
      (codes "r")
      (codes "sig")
      (codes "d" ∷ [])
      []
      (codes "d" ∷ [])
    ≡ (ok [], codes "d" ∷ [])
unfolding describe_each is_skipable any contains list_beq
other_type_skipped = refl

describe_each-Describes_iff_example : In listed_one (listed_one ∷ []) ↔ (
    In listed_one []
    ⊎ Describes any_server sbom sample
        (codes "r")
        (codes "sbom")
        (codes "d" ∷ [])
        (codes "d" ∷ [])
        listed_one)
describe_each-Describes_iff_example =
    describe_each-Describes_iff any_server sbom sample (codes "r") (codes "sbom") (codes "d" ∷ [])
      [] (listed_one ∷ []) listed_one (codes "d" ∷ []) (codes "d" ∷ []) one_listed
