-- ===== src/Base/Actions.antt =====
-- Results of fallible Go functions, and actions: functions on a state that may fail. What was
-- written before an error stays written, so the state comes back beside the error too.
use mathlib.Core.Path.{◌≡◌, refl, ap}
use mathlib.Core.Logic.{◌⊎◌, inl, inr}

-- `wrapped` is an error of the code itself or of a library that no caller tells apart; `panic`
-- is a run-time panic, which unwinds the whole request.
pub data Error : Type 0 where
  not_exist not_dir is_dir not_empty : Error
  repo_invalid uuid_invalid hash_short digest_mismatch : Error
  digest_invalid : Error → Error
  invalid_digest_format empty_algorithm empty_hash unsupported_algorithm : Error
  link_mismatch invalid_verb json_error unsupported_media_type : Error
  storage_not_initialized upstream_error : Error
  panic wrapped out_of_fuel : Error

pub data Result {ℓ} (A : Type ℓ) : Type ℓ where
  ok : A → Result A
  err : Error → Result A

pub Result-cases {ℓ} :
    {A : Type ℓ} (r : Result A) → ((e : Error) × (r ≡ err e)) ⊎ ((a : A) × (r ≡ ok a))
Result-cases (ok a) = inr (a, refl)
Result-cases (err e) = inl (e, refl)

abbrev pub Action {ℓ κ} : Type ℓ → Type κ → Type (ℓ ⊔ κ)
Action S A = S → Result A × S

module _ {ℓ κ} {S : Type ℓ} {A : Type κ} where
  abbrev pub pure : A → Action S A
  pure a s = (ok a, s)

  abbrev pub raise : Error → Action S A
  raise e s = (err e, s)

  abbrev pub lift : Result A → Action S A
  lift r s = (r, s)

  abbrev pub gets : (S → A) → Action S A
  gets f s = (ok (f s), s)

infixl 5 ◌>>=◌ ◌>>◌
abbrev pub ◌>>=◌ {ℓ κ λ'} :
    {S : Type ℓ} {A : Type κ} {B : Type λ'} → Action S A → (A → Action S B) → Action S B
◌>>=◌ m f s = let (r, s') = m s in elim r [ ok a ↦ f a s' | err e ↦ (err e, s') ]

abbrev pub ◌>>◌ {ℓ κ λ'} :
    {S : Type ℓ} {A : Type κ} {B : Type λ'} → Action S A → Action S B → Action S B
m >> k = m >>= λ _. k

-- Inversion of a bind that succeeds.
pub bind_ok {ℓ κ λ'} :
    {S : Type ℓ} {A : Type κ} {B : Type λ'} (m : Action S A) (f : A → Action S B) (s : S) {b : B}
    {t : S}
    → (m >>= f) s ≡ (ok b, t)
    → (a : A) × (u : S) × (m s ≡ (ok a, u)) × (f a u ≡ (ok b, t))
bind_ok m f s h = elim (Result-cases (m s).0) [
  | inl (e, r) ↦ absurd (cc (rw (r, ◌>>=◌) at h))
  | inr (a, r) ↦ (a, (m s).1, (λ i. (r i, (m s).1)), rw (r, ◌>>=◌) at h)
]

-- A bind whose first part succeeds.
pub bind_of_ok {ℓ κ λ'} :
    {S : Type ℓ} {A : Type κ} {B : Type λ'} (m : Action S A) (f : A → Action S B) (s : S) {a : A}
    {u : S}
    → m s ≡ (ok a, u)
    → (m >>= f) s ≡ f a u
bind_of_ok m f s h = ap (λ z. elim z.0 [ ok a ↦ f a z.1 | err e ↦ (err e, z.1) ]) h

-- What each of two actions keeps.
pub kept_bind {ℓ κ λ' μ} :
    {S : Type ℓ} {A : Type κ} {B : Type λ'} (P : S → Type μ) (m : Action S A) (f : A → Action S B)
    (s : S)
    → P (m s).1
    → ((a : A) → P (m s).1 → P (f a (m s).1).1)
    → P ((m >>= f) s).1
kept_bind P m f s h k = elim (Result-cases (m s).0) [
  | inl (e, r) ↦ rw (r, ◌>>=◌) h
  | inr (a, r) ↦ rw (r, ◌>>=◌) (k a h)
]
