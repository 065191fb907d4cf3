-- ===== src/Yaml/Tests.antt =====
-- Two documents of one registered type, and a document of none.
use simple_registry.Base.{
  [], ◌∷◌, ◌↔◌, ◌≡◌, refl, nat_eq, list_eq, pair_beq, list_beq, Text, codes, Result, ok, err,
  wrapped, lookup,
}
use simple_registry.Yaml.{CommonManifest, Registry, new_object, decode_one, decode_all}
use simple_registry.Yaml.Laws.{Objects, decode_all_iff}

abbrev notes : Registry Text Text
notes = ((codes "v1", codes "Note"), λ raw. ok raw) ∷ []

abbrev all_notes : Text → Result CommonManifest
all_notes raw = ok (codes "v1", codes "Note")

decode_all_iff_example :
    (decode_all notes all_notes (ok (codes "a") ∷ ok (codes "b") ∷ [])
      ≡ ok (codes "a" ∷ codes "b" ∷ []))
    ↔ Objects notes all_notes (ok (codes "a") ∷ ok (codes "b") ∷ []) (codes "a" ∷ codes "b" ∷ [])
decode_all_iff_example =
    decode_all_iff notes all_notes (ok (codes "a") ∷ ok (codes "b") ∷ [])
      (codes "a" ∷ codes "b" ∷ [])

unregistered :
    decode_all notes (λ raw. ok (codes "v2", codes "Note")) (ok (codes "a") ∷ []) ≡ err wrapped
unfolding decode_all decode_one new_object lookup pair_beq list_beq
unregistered = refl
