-- ===== src/Base/Sorting.antt =====
-- `slices.Sort` and `sort.Strings`: texts in the order of their bytes. Insertion sort gives the
-- list that every sort gives, since texts that compare equal are equal.
use mathlib.Core.Path.{◌≡◌, refl}
use mathlib.Core.Logic.{◌↔◌, ◌⊎◌, inl, inr}
use mathlib.Core.Bool.{Bool, true, false, ◌&&◌, ◌||◌}
use mathlib.Core.List.{List, [], ◌∷◌}
use native.Mathlib.Omega.{arith}
use simple_registry.Base.Tests.{if◌then◌else◌, Bool-cases, ltb, nat_beq}
use simple_registry.Base.Equality.{Text}
use simple_registry.Base.Lists.{In}

unfoldable pub text_leb : Text → Text → Bool
text_leb [] t = true
text_leb (c ∷ s) [] = false
text_leb (c ∷ s) (d ∷ t) = ltb c d || (nat_beq c d && text_leb s t)

pub text_leb_total : (s t : Text) → text_leb s t ≡ false → text_leb t s ≡ true
unfolding text_leb
text_leb_total [] t h = cc
text_leb_total (c ∷ s) [] h = refl
text_leb_total (c ∷ s) (d ∷ t) h = ground (arith, text_leb_total s t)

unfoldable pub insert_text : Text → List Text → List Text
insert_text s [] = s ∷ []
insert_text s (t ∷ ts) =
    let rest = insert_text s ts in if text_leb s t then s ∷ t ∷ ts else t ∷ rest

unfoldable pub sort_texts : List Text → List Text
unfolding insert_text text_leb
sort_texts [] = []
sort_texts (s ∷ ts) = insert_text s (sort_texts ts)

In-insert_text_iff : (a s : Text) (ts : List Text) → In a (insert_text s ts) ↔ ((a ≡ s) ⊎ In a ts)
unfolding insert_text
In-insert_text_iff a s [] = (λ h. h, λ h. h)
In-insert_text_iff a s (t ∷ ts) = elim (Bool-cases (text_leb s t)) [
  | inl h ↦ rw h (λ m. m, λ m. m)
  | inr h ↦ rw h (
    elim [
      | inl e ↦ inr (inl e)
      | inr m ↦ elim ((In-insert_text_iff a s ts).0 m) [ inl e ↦ inl e | inr n ↦ inr (inr n) ]
    ],
    elim [
      | inl e ↦ inr ((In-insert_text_iff a s ts).1 (inl e))
      | inr m ↦ elim m [ inl e ↦ inl e | inr n ↦ inr ((In-insert_text_iff a s ts).1 (inr n)) ]
    ],
  )
]

-- Sorting keeps exactly the elements.
pub In-sort_texts_iff : (a : Text) (ts : List Text) → In a (sort_texts ts) ↔ In a ts
unfolding sort_texts
In-sort_texts_iff a [] = (λ h. h, λ h. h)
In-sort_texts_iff a (t ∷ ts) = (
  λ h. elim ((In-insert_text_iff a t (sort_texts ts)).0 h) [
    | inl e ↦ inl e
    | inr m ↦ inr ((In-sort_texts_iff a ts).0 m)
  ],
  λ h.
      (In-insert_text_iff a t (sort_texts ts)).1
        (elim h [ inl e ↦ inl e | inr m ↦ inr ((In-sort_texts_iff a ts).1 m) ]),
)

-- Neighbours in order.
abbrev pub IsSorted : List Text → Type 0
IsSorted [] = Unit
IsSorted (s ∷ []) = Unit
IsSorted (s ∷ t ∷ ts) = (text_leb s t ≡ true) × IsSorted (t ∷ ts)

insert_text-IsSorted : (s : Text) (ts : List Text) → IsSorted ts → IsSorted (insert_text s ts)
unfolding insert_text
insert_text-IsSorted s [] h = tt
insert_text-IsSorted s (t ∷ []) h = elim (Bool-cases (text_leb s t)) [
  | inl e ↦ rw e (e, tt)
  | inr e ↦ rw e (text_leb_total s t e, tt)
]
insert_text-IsSorted s (t ∷ u ∷ ts) h = elim (Bool-cases (text_leb s t)) [
  | inl e ↦ rw e (e, h)
  | inr e ↦ elim (Bool-cases (text_leb s u)) [
    | inl f ↦ rw (e, f) (text_leb_total s t e, (f, h.1))
    | inr f ↦ let ih = insert_text-IsSorted s (u ∷ ts) h.1 in rw (e, f) (h.0, rw f at ih)
  ]
]

pub sort_texts-IsSorted : (ts : List Text) → IsSorted (sort_texts ts)
unfolding sort_texts
sort_texts-IsSorted [] = tt
sort_texts-IsSorted (t ∷ ts) = insert_text-IsSorted t (sort_texts ts) (sort_texts-IsSorted ts)
