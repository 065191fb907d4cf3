-- ===== src/Filesystem/Layout/Apart.antt =====
-- The paths of the storage, for valid names: where they are, and that blobs and repositories are
-- apart.
use simple_registry.Base.{
  ℕ, zero, suc, true, false, List, [], ◌∷◌, ◌++◌, ◌==◌, nat_eq, list_eq, Text, ◌≡◌, ◌≢◌, refl, sym,
  ◌∙◌, ap, subst, inl, inr, In, All, All-append, take, ==_refl,
}
use simple_registry.Paths.{FilePath, join, split_slash, split_all, dir_of}
use simple_registry.Paths.Plain.{IsPlain, split_slash-IsPlain, join-IsPlain}
use simple_registry.Validator.{is_name}
use simple_registry.Validator.Names.{is_name-IsPlain}
use simple_registry.Disk.{is_under}

split_all-IsPlain : (parts : List Text) → All IsPlain parts → split_all parts ≡ parts
split_all-IsPlain [] h = refl
split_all-IsPlain (p ∷ parts) (h, k) = rw (split_slash-IsPlain p h, split_all-IsPlain parts k) refl

pub join_plain :
    (base : FilePath) (parts : List Text) → All IsPlain parts → join base parts ≡ base ++ parts
join_plain base parts h =
    join-IsPlain base parts (subst (All IsPlain) (sym (split_all-IsPlain parts h)) h)
    ∙ ap (λ l. base ++ l) (split_all-IsPlain parts h)

-- A path below a repository with a valid name.
pub join_repo :
    (base : FilePath) (x repo : Text) (more : List Text)
    → IsPlain x
    → is_name repo ≡ true
    → All IsPlain more
    → join base (x ∷ repo ∷ more) ≡ base ++ x ∷ (split_slash repo ++ more)
join_repo base x repo more hx valid h =
    let e : split_all (x ∷ repo ∷ more) ≡ x ∷ (split_slash repo ++ more) =
      rw (split_slash-IsPlain x hx, split_all-IsPlain more h) refl in
    join-IsPlain base (x ∷ repo ∷ more) (
      subst (All IsPlain) (sym e)
        (hx, All-append IsPlain (split_slash repo) more (is_name-IsPlain repo valid) h))
    ∙ ap (λ l. base ++ l) e

pub head_of_append : (base p q : FilePath) (x y : Text) → base ++ x ∷ p ≡ base ++ y ∷ q → x ≡ y
head_of_append [] p q x y h = cc
head_of_append (b ∷ base) p q x y h =
    let e : base ++ x ∷ p ≡ base ++ y ∷ q = cc in head_of_append base p q x y e

pub dir_of-append :
    (base p : FilePath) (x y : Text) → dir_of (base ++ x ∷ y ∷ p) ≡ base ++ x ∷ dir_of (y ∷ p)
unfolding dir_of
dir_of-append [] p x y = refl
dir_of-append (b ∷ []) p x y = refl
dir_of-append (b ∷ c ∷ base) p x y = ap (λ l. b ∷ l) (dir_of-append (c ∷ base) p x y)

pub is_under_append : (base p q : FilePath) → is_under (base ++ p) (base ++ q) ≡ is_under p q
unfolding is_under
is_under_append [] p q = refl
is_under_append (b ∷ base) p q = rw (==_refl b) (is_under_append base p q)

pub is_under_other :
    (base p q : FilePath) (x y : Text)
    → (x == y) ≡ false
    → is_under (base ++ x ∷ p) (base ++ y ∷ q) ≡ false
unfolding is_under
is_under_other base p q x y h = is_under_append base (x ∷ p) (y ∷ q) ∙ (rw (h, is_under) refl)

-- What lies under the directory of one path is not what lies below another component.
pub is_under-dir_of :
    (base p q : FilePath) (x y : Text)
    → p ≢ []
    → (x == y) ≡ false
    → is_under (dir_of (base ++ x ∷ p)) (base ++ y ∷ q) ≡ false
is_under-dir_of base [] q x y ne h = absurd (ne refl)
is_under-dir_of base (z ∷ p) q x y ne h =
    rw (dir_of-append base p x z) (is_under_other base (dir_of (z ∷ p)) q x y h)

pub In-take : (x n : ℕ) (s : Text) → In x (take n s) → In x s
In-take x zero s i = absurd i
In-take x (suc n) [] i = absurd i
In-take x (suc n) (c ∷ s) (inl e) = inl e
In-take x (suc n) (c ∷ s) (inr i) = inr (In-take x n s i)

IsPlain-take_tail : (n c : ℕ) (s : Text) → IsPlain (c ∷ s) → IsPlain (c ∷ take n s)
IsPlain-take_tail n c s h =
    (h.0, λ m. elim m [ inl e ↦ h.1 (inl e) | inr i ↦ h.1 (inr (In-take b'/' n s i)) ])

pub IsPlain-take : (n : ℕ) (s : Text) → IsPlain s → IsPlain (take (suc n) s)
IsPlain-take n [] h = absurd h
IsPlain-take n (c ∷ s) h = IsPlain-take_tail n c s h
