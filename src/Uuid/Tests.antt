-- ===== src/Uuid/Tests.antt =====
-- The upload id of a fixed block of random bytes.
use simple_registry.Base.{true, [], ◌∷◌, Text, ◌≡◌, refl, All, arith}
use simple_registry.Uuid.{stamp, to_string}
use simple_registry.Uuid.Laws.{IsByte, stamp-is_uuid}
use simple_registry.Validator.{is_uuid}

abbrev block : Text
block = 0 ∷ 1 ∷ 2 ∷ 3 ∷ 4 ∷ 5 ∷ 255 ∷ 7 ∷ 255 ∷ 9 ∷ 10 ∷ 11 ∷ 12 ∷ 13 ∷ 14 ∷ 255 ∷ []

block-IsByte : All IsByte block
block-IsByte = ground arith

stamp-is_uuid_example : is_uuid (to_string (stamp block)) ≡ true
stamp-is_uuid_example = stamp-is_uuid block refl block-IsByte
