-- ===== src/Yaml.antt =====
-- pkg/yamlscheme/yamlscheme.go: objects of registered types, decoded from the documents of a stream.
-- The YAML library is third-party code: `Raw` is a document as it gives it, `header` and the decoders
-- of the registry are its second pass over one.
pub mod Laws
mod Tests
use simple_registry.Base.{
  Bool, true, false, ◌||◌, Option, none, some, List, [], ◌∷◌, ◌++◌, ◌==◌, nat_eq, list_eq, pair_eq,
  Text, Error, Result, ok, err, panic, wrapped, lookup, if◌then◌else◌,
}

-- `CommonManifest`: the version and the kind.
abbrev pub CommonManifest : Type 0
CommonManifest = Text × Text

-- The map from versions and kinds to what decodes them.
abbrev pub Registry : Type 0 → Type 0 → Type 0
Registry Raw A = List (CommonManifest × (Raw → Result A))

abbrev pub prepend : {A : Type 0} → Result A → Result (List A) → Result (List A)
prepend (err e) r = err e
prepend (ok a) (err e) = err e
prepend (ok a) (ok l) = ok (a ∷ l)

module _ {Raw A : Type 0} where
  -- `Register` panics on a second type of one version and kind.
  unfoldable pub register :
      CommonManifest → (Raw → Result A) → Registry Raw A → Result (Registry Raw A)
  register key decode registry = elim (lookup key registry) [
    | none ↦ ok (registry ++ (key, decode) ∷ [])
    | some other ↦ err panic
  ]

  -- `newObject`, with the decoding into the object.
  unfoldable pub new_object : Registry Raw A → CommonManifest → Raw → Result A
  new_object registry key raw = elim (lookup key registry) [
    | none ↦ err wrapped
    | some decode ↦ decode raw
  ]

  abbrev pub decode_known : Registry Raw A → CommonManifest → Raw → Result A
  decode_known registry (version, kind) raw =
      if version == [] || kind == [] then err wrapped else new_object registry (version, kind) raw

  abbrev pub decode_header : Registry Raw A → Result CommonManifest → Raw → Result A
  decode_header registry (err e) raw = err e
  decode_header registry (ok key) raw = decode_known registry key raw

  -- The body of the loop of `DecodeAll`.
  unfoldable pub decode_one : Registry Raw A → (Raw → Result CommonManifest) → Result Raw → Result A
  decode_one registry header (err e) = err e
  decode_one registry header (ok raw) = decode_header registry (header raw) raw

  -- `DecodeAll` over the documents that the decoder gives up to the end of the stream.
  unfoldable pub decode_all :
      Registry Raw A → (Raw → Result CommonManifest) → List (Result Raw) → Result (List A)
  decode_all registry header [] = ok []
  decode_all registry header (raw ∷ rest) =
      prepend (decode_one registry header raw) (decode_all registry header rest)
