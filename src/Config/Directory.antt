-- ===== src/Config/Directory.antt =====
-- internal/config/yaml.go: the manifests of the YAML files of a directory, and the registrations of
-- manifests.go.
use simple_registry.Base.{
  ℕ, ◌+◌, Bool, ◌||◌, ◌&&◌, List, [], ◌∷◌, ◌++◌, map, ◌==◌, nat_eq, list_eq, Text, codes, Result,
  ok, err, if◌then◌else◌, leb,
}
use simple_registry.Rbac.{Token, User, Role, Subject}
use simple_registry.Yaml.{CommonManifest, Registry, register, decode_all}
use simple_registry.Config.Manifests.{
  Manifest, token_manifest, user_manifest, role_manifest, binding_manifest, pull_through_manifest,
  configuration_manifest, PullThrough, Configuration,
}

abbrev pub api_version : Text
api_version = codes "simple-registry.jlsalvador.online/v1beta1"

-- The YAML library's decoding of a document into each of the types.
pub record ManifestDecoders (Raw : Type 0) : Type 0 where
  pub token : Raw → Result Token
  pub user : Raw → Result User
  pub role : Raw → Result Role
  pub binding : Raw → Result (Text × List Subject × Text × List Text)
  pub pull_through : Raw → Result PullThrough
  pub configuration : Raw → Result Configuration

abbrev pub as_manifest : {A : Type 0} → (A → Manifest) → Result A → Result Manifest
as_manifest f (ok a) = ok (f a)
as_manifest f (err e) = err e

module _ {Raw : Type 0} (decoders : ManifestDecoders Raw) where
  -- The calls of `init`, in their order.
  abbrev pub registrations : List (CommonManifest × (Raw → Result Manifest))
  registrations =
      ((api_version, codes "Token"), λ raw. as_manifest token_manifest (decoders.token raw))
      ∷ ((api_version, codes "User"), λ raw. as_manifest user_manifest (decoders.user raw))
      ∷ ((api_version, codes "Role"), λ raw. as_manifest role_manifest (decoders.role raw))
      ∷ (
        (api_version, codes "RoleBinding"),
        λ raw. as_manifest (λ b. binding_manifest b.0 b.1 b.2 b.3) (decoders.binding raw),
      )
      ∷ (
        (api_version, codes "PullThroughCache"),
        λ raw. as_manifest pull_through_manifest (decoders.pull_through raw),
      )
      ∷ (
        (api_version, codes "Configuration"),
        λ raw. as_manifest configuration_manifest (decoders.configuration raw),
      )
      ∷ []

abbrev pub register_all :
    {Raw : Type 0}
    → List (CommonManifest × (Raw → Result Manifest))
    → Registry Raw Manifest
    → Result (Registry Raw Manifest)
register_all [] registry = ok registry
register_all ((key, decode) ∷ more) registry = elim (register key decode registry) [
  | err e ↦ err e
  | ok registry' ↦ register_all more registry'
]

-- `strings.ToLower` on the letters that the extensions are compared with.
abbrev pub to_lower : ℕ → ℕ
to_lower c = if leb b'A' c && leb c b'Z' then c + 32 else c

-- `filepath.Ext` of a name without a slash: from the last dot on.
unfoldable pub extension : Text → Text
extension [] = []
extension (c ∷ s) = let rest = extension s in if rest == [] && c == b'.' then c ∷ s else rest

unfoldable pub is_yaml : Text → Bool
is_yaml name =
    let ext = map to_lower (extension name) in ext == codes ".yaml" || ext == codes ".yml"

-- The system's files and the YAML library's stream of documents.
pub record Files (Raw : Type 0) : Type 0 where
  -- `os.ReadDir`: names, and whether they are directories.
  pub entries : Text → Result (List (Text × Bool))
  -- `os.Open` of a name in a directory, with the bytes that reading it gives.
  pub open_file : Text → Text → Result Text
  pub documents : Text → List (Result Raw)
  -- The version and the kind of a document.
  pub header : Raw → Result CommonManifest

module _ {Raw : Type 0} (files : Files Raw) (registry : Registry Raw Manifest) where
  abbrev decode_opened : Result Text → Result (List Manifest)
  decode_opened (err e) = ok []
  decode_opened (ok content) = decode_all registry files.header (files.documents content)

  -- What an entry adds: a directory, another extension or a file that cannot be opened add nothing.
  unfoldable pub parse_entry : Text → Text × Bool → Result (List Manifest)
  parse_entry dir (name, is_dir) =
      if is_dir
      then ok []
      else if is_yaml name
      then decode_opened (files.open_file dir name)
      else ok []

  abbrev pub append_ok : Result (List Manifest) → Result (List Manifest) → Result (List Manifest)
  append_ok (err e) r = err e
  append_ok (ok l) (err e) = err e
  append_ok (ok l) (ok k) = ok (l ++ k)

  unfoldable pub parse_entries : Text → List (Text × Bool) → Result (List Manifest)
  parse_entries dir [] = ok []
  parse_entries dir (entry ∷ rest) = append_ok (parse_entry dir entry) (parse_entries dir rest)

  abbrev entries_or_none : Text → Result (List (Text × Bool)) → Result (List Manifest)
  entries_or_none dir (err e) = ok []
  entries_or_none dir (ok l) = parse_entries dir l

  -- `parseYamlDir`: a directory that cannot be read has no manifests.
  unfoldable pub parse_yaml_dir : Text → Result (List Manifest)
  parse_yaml_dir dir = entries_or_none dir (files.entries dir)
