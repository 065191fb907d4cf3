-- ===== src/Http/Laws.antt =====
-- What a page holds.
use simple_registry.Base.{
  ℕ, zero, suc, ◌≤◌, Option, none, some, List, [], ◌∷◌, ◌++◌, ◌==◌, nat_eq, list_eq, ◌≡◌, ◌≢◌, refl,
  sym, ap, ◌∙◌, inl, inr, In, Text, length, take, arith, Bool-cases, Option-cases, ==-cases, ltb,
  append_assoc, append-nil, ==_of_ne, ==_refl, list_beq,
}
use simple_registry.Http.{after_item, start_after, limit_to, parse_count, paginate_string}

-- `after_item` cuts behind the first occurrence.
pub after_item-some :
    (last : Text) (items : List Text) {rest : List Text}
    → after_item last items ≡ some rest
    → (front : List Text) × (items ≡ front ++ last ∷ rest) × (¬ In last front)
unfolding after_item
after_item-some last [] h = cc
after_item-some last (v ∷ items) {rest} h = elim (==-cases v last) [
  | inl (t, same) ↦
      let q : some items ≡ some rest = rw t at h in
      let e : items ≡ rest = cc in ([], rw (same, e) refl, λ z. z)
  | inr (f, ne) ↦
      let (front, e, out) = after_item-some last items (rw f at h) in
      (v ∷ front, ap (λ l. v ∷ l) e, λ m. elim m [ inl q ↦ ne (sym q) | inr z ↦ out z ])
]

pub after_item-none :
    (last : Text) (items : List Text) → after_item last items ≡ none → ¬ In last items
unfolding after_item
after_item-none last [] h m = m
after_item-none last (v ∷ items) h m = elim (==-cases v last) [
  | inl (t, same) ↦ cc (rw t at h)
  | inr (f, ne) ↦ elim m [ inl q ↦ ne (sym q) | inr z ↦ after_item-none last items (rw f at h) z ]
]

take-prefix : (n : ℕ) (xs : List Text) → (back : List Text) × (xs ≡ take n xs ++ back)
take-prefix zero xs = (xs, refl)
take-prefix (suc n) [] = ([], refl)
take-prefix (suc n) (x ∷ xs) = let (back, e) = take-prefix n xs in (back, ap (λ l. x ∷ l) e)

length-take_le : (n : ℕ) (xs : List Text) → length (take n xs) ≤ n
length-take_le zero xs = omega arith
length-take_le (suc n) [] = omega arith
length-take_le (suc n) (x ∷ xs) = omega (arith, length-take_le n xs)

start_after-suffix :
    (last : Text) (items : List Text)
    → (front : List Text) × (items ≡ front ++ start_after last items)
unfolding start_after
start_after-suffix last items = elim (Bool-cases (last == [])) [
  | inl t ↦ ([], rw t refl)
  | inr f ↦ elim (Option-cases (after_item last items)) [
    | inl e ↦ ([], rw (f, e) refl)
    | inr (rest, e) ↦
        let (front, q, out) = after_item-some last items e in
        (front ++ last ∷ [], rw (f, e) (q ∙ (simp append_assoc)))
  ]
]

limit_to-prefix :
    (o : Option ℕ) (items : List Text) → (back : List Text) × (items ≡ limit_to o items ++ back)
limit_to-prefix none items = ([], sym (append-nil items))
limit_to-prefix (some n) items = elim (Bool-cases (ltb (length items) n)) [
  | inl t ↦ ([], rw t (sym (append-nil items)))
  | inr f ↦ rw f (take-prefix n items)
]

-- A page is a contiguous part of the listing, in its order: items are cut off at the front and at
-- the back, and none is skipped, repeated or added.
paginate_string_part :
    (items : List Text) (last n : Text)
    → (front : List Text) × (back : List Text) × (items
        ≡ front ++ (paginate_string items last n ++ back))
unfolding paginate_string
paginate_string_part items last n =
    let (front, e) = start_after-suffix last items in
    elim (Bool-cases (n == [])) [
      | inl t ↦ (front, [], rw t (e ∙ ap (λ l. front ++ l) (sym (append-nil _))))
      | inr f ↦
          let (back, q) = limit_to-prefix (parse_count n) (start_after last items) in
          (front, back, rw f (e ∙ ap (λ l. front ++ l) q))
    ]

-- A limit that is a number in range is kept to.
pub length-paginate_string_le :
    (items : List Text) (last n : Text) (k : ℕ)
    → parse_count n ≡ some k
    → n ≢ []
    → (length (paginate_string items last n) ≤ k)
unfolding paginate_string
length-paginate_string_le items last n k e ne = rw (==_of_ne ne, e) (cut (start_after last items))
  where
    cut : (l : List Text) → length (limit_to (some k) l) ≤ k
    cut l = elim (Bool-cases (ltb (length l) k)) [
      | inl t ↦ rw t (ground arith)
      | inr f ↦ rw f (length-take_le k l)
    ]

after_item_of_parts :
    (front rest : List Text) (last : Text)
    → (¬ In last front)
    → after_item last (front ++ last ∷ rest) ≡ some rest
unfolding after_item
after_item_of_parts [] rest last out = rw (==_refl last) refl
after_item_of_parts (v ∷ front) rest last out =
    rw (==_of_ne {a = v} {b = last} (λ e. out (inl (sym e))))
      (after_item_of_parts front rest last (λ m. out (inr m)))

-- The next page starts right behind the first item equal to `last`.
pub paginate_string_after :
    (front rest : List Text) (last : Text)
    → last ≢ []
    → (¬ In last front)
    → paginate_string (front ++ last ∷ rest) last [] ≡ rest
unfolding paginate_string start_after list_beq
paginate_string_after front rest last ne out =
    rw (==_of_ne {a = last} {b = []} ne, after_item_of_parts front rest last out) refl
