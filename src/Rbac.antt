-- ===== src/Rbac.antt =====
-- pkg/rbac: users, roles, bindings and the decision whether a request is allowed. A compiled
-- expression of a binding's scopes is the test that its `MatchString` makes; bcrypt's comparison is
-- a parameter.
pub mod Verbs
pub mod Laws
mod Tests
use simple_registry.Base.{
  ℕ, Bool, true, false, not, Option, none, some, List, [], ◌∷◌, ◌&&◌, ◌||◌, ◌==◌, nat_eq, list_eq,
  Text, codes, any, first, keep, contains, ltb, if◌then◌else◌,
}

pub record Token : Type 0 where
  pub name : Text
  pub value : Text
  pub expires_at : ℕ
  pub username : Text

pub record User : Type 0 where
  pub name : Text
  pub password_hash : Text
  pub groups : List Text

pub record Role : Type 0 where
  pub name : Text
  pub resources : List Text
  pub verbs : List Text

pub record Subject : Type 0 where
  pub kind : Text
  pub name : Text

pub record RoleBinding : Type 0 where
  pub name : Text
  pub subjects : List Subject
  pub role_name : Text
  pub scopes : List (Text → Bool)

pub record Engine : Type 0 where
  pub tokens : List Token
  pub users : List User
  pub roles : List Role
  pub role_bindings : List RoleBinding

abbrev pub anonymous_username : Text
anonymous_username = codes "anonymous"

-- `CleanupExpiredTokens` at the time `now`.
unfoldable pub cleanup_expired_tokens : ℕ → Engine → Engine
cleanup_expired_tokens now e = record e { tokens = keep (λ t. not (ltb t.expires_at now)) e.tokens }

-- `bcrypt.CompareHashAndPassword(hash, pwd) == nil`.
abbrev pub ComparePassword : Type 0
ComparePassword = Text → Text → Bool

unfoldable pub has_user : ComparePassword → Engine → Text → Text → Bool
has_user compare e usr pwd = any (λ u. u.name == usr && compare u.password_hash pwd) e.users

unfoldable pub is_anonymous_user_enabled : Engine → Bool
is_anonymous_user_enabled e = any (λ u. u.name == anonymous_username) e.users

-- The three tests that a binding has to pass, as `IsAllowed` writes them.
unfoldable pub role_matches : RoleBinding → Text → Text → Role → Bool
role_matches rb resource verb r =
    r.name == rb.role_name
    && contains r.verbs verb
    && (contains r.resources resource || contains r.resources (codes "*"))

unfoldable pub subject_matches : User → Subject → Bool
subject_matches user s =
    s.kind == codes "User" && s.name == user.name
    || s.kind == codes "Group" && contains user.groups s.name

unfoldable pub binding_matches : Engine → User → Text → Text → Text → RoleBinding → Bool
binding_matches e user resource scope verb rb =
    any (role_matches rb resource verb) e.roles
    && any (subject_matches user) rb.subjects
    && any (λ re. re scope) rb.scopes

unfoldable pub user_allowed : Engine → Option User → Text → Text → Text → Bool
user_allowed e none resource scope verb = false
user_allowed e (some user) resource scope verb =
    if user.name == anonymous_username && resource == [] && scope == []
    then true
    else any (binding_matches e user resource scope verb) e.role_bindings

unfoldable pub is_allowed : Engine → Text → Text → Text → Text → Bool
is_allowed e username resource scope verb =
    user_allowed e (first (λ u. u.name == username) e.users) resource scope verb
