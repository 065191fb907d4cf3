-- ===== src/Validator/Tests.antt =====
-- Valid and invalid names, tags, digests and upload ids.
use simple_registry.Base.{true, false, All, codes, ◌≡◌, refl, nat_eq, list_eq, any}
use simple_registry.Regex.{match_string}
use simple_registry.Paths.{split_slash}
use simple_registry.Paths.Plain.{IsPlain}
use simple_registry.Validator.{is_name, is_tag, is_digest}
use simple_registry.Validator.Names.{is_name-IsPlain}

name_valid : is_name (codes "ab/c-d") ≡ true
unfolding is_name match_string any
name_valid = refl

dots_invalid : is_name (codes "ab/../c") ≡ false
unfolding is_name match_string any
dots_invalid = refl

tag_valid : is_tag (codes "v1.0") ≡ true
unfolding is_tag match_string any
tag_valid = refl

digest_valid : is_digest (codes "sha256:ab") ≡ true
unfolding is_digest match_string any
digest_valid = refl

is_name-IsPlain_example : All IsPlain (split_slash (codes "ab/c-d"))
is_name-IsPlain_example = is_name-IsPlain (codes "ab/c-d") name_valid
