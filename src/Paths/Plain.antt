-- ===== src/Paths/Plain.antt =====
-- Parts that `join` takes as they stand: not empty, not starting with a dot, free of slashes.
use mathlib.Core.List.{reverse, reverse-cons, reverse-reverse}
use simple_registry.Base.{
  List, [], ◌∷◌, ◌++◌, ◌≡◌, ◌≢◌, refl, sym, ◌∙◌, nat_eq, list_eq, Text, codes, In, All, inl, inr,
  ==_of_ne, append_assoc, append-nil,
}
use simple_registry.Paths.{FilePath, split_slash, resolve, clean_from, split_all, join}

abbrev pub IsPlain : Text → Type 0
IsPlain [] = ⊥
IsPlain (c ∷ s) = (c ≢ b'.') × (¬ In b'/' (c ∷ s))

-- The text up to the first slash is the first component.
pub split_slash_part : (u v : Text) → ¬ In b'/' u → split_slash (u ++ b'/' ∷ v) ≡ u ∷ split_slash v
unfolding split_slash
split_slash_part [] v out = refl
split_slash_part (c ∷ u) v out =
    rw
      (
        ==_of_ne {a = c} {b = b'/'} (λ e. out (inl (sym e))),
        split_slash_part u v (λ m. out (inr m)),
      )
      refl

pub split_slash_last : (u : Text) → ¬ In b'/' u → split_slash u ≡ u ∷ []
unfolding split_slash
split_slash_last [] out = refl
split_slash_last (c ∷ u) out =
    rw (==_of_ne {a = c} {b = b'/'} (λ e. out (inl (sym e))), split_slash_last u (λ m. out (inr m)))
      refl

pub split_slash-IsPlain : (u : Text) → IsPlain u → split_slash u ≡ u ∷ []
split_slash-IsPlain [] h = absurd h
split_slash-IsPlain (c ∷ u) h = split_slash_last (c ∷ u) h.1

resolve-IsPlain :
    (stack : List Text) (part : Text) → IsPlain part → resolve stack part ≡ part ∷ stack
unfolding resolve
resolve-IsPlain stack [] h = absurd h
resolve-IsPlain stack (c ∷ s) h =
    rw
      (
        ==_of_ne {a = c ∷ s} {b = []} (λ e. cc),
        ==_of_ne {a = c ∷ s} {b = codes "."} (λ e. h.0 (cc)),
        ==_of_ne {a = c ∷ s} {b = codes ".."} (λ e. h.0 (cc)),
      )
      refl

pub clean_from-IsPlain :
    (stack parts : List Text) → All IsPlain parts → clean_from stack parts ≡ reverse stack ++ parts
unfolding clean_from
clean_from-IsPlain stack [] h = sym (append-nil _)
clean_from-IsPlain stack (part ∷ parts) h =
    rw (resolve-IsPlain stack part h.0)
      (clean_from-IsPlain (part ∷ stack) parts h.1 ∙ (simp (reverse-cons, append_assoc)))

-- Where every component of the parts is plain, `join` appends them to the base: it stays below it.
pub join-IsPlain :
    (base : FilePath) (parts : List Text)
    → All IsPlain (split_all parts)
    → join base parts ≡ base ++ split_all parts
unfolding join
join-IsPlain base parts h =
    clean_from-IsPlain (reverse base) (split_all parts) h ∙ (simp reverse-reverse)
