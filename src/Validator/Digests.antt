-- ===== src/Validator/Digests.antt =====
-- What valid digests, tags and upload ids look like: plain parts, and what `digest.Parse` makes of
-- them.
use mathlib.Core.Bool.{false≢true}
use simple_registry.Base.{
  ℕ, true, false, List, [], ◌∷◌, ◌++◌, ◌≡◌, ◌≢◌, refl, sym, ap, ◌∙◌, subst, Text, codes, In, inl,
  inr, In-append, arith, append_assoc, ok,
}
use simple_registry.Regex.{Regex, class, seq, in_class}
use simple_registry.Regex.Laws.{Matches, seq_inv, class_inv, empty_inv, match_string_iff}
use simple_registry.Digest.{parse}
use simple_registry.Digest.Laws.{parse_iff}
use simple_registry.Validator.{
  lower_digit, letter_digit, one_of, expr_digest, is_digest, expr_tag, is_tag, expr_uuid, is_uuid,
  hex_digit,
}
use simple_registry.Validator.Names.{avoids, avoids_sound}
use simple_registry.Paths.Plain.{IsPlain}

-- A text that starts with a byte of a class without dots.
starts_IsPlain :
    (cs : List (ℕ × ℕ)) (r : Regex) (w : Text)
    → in_class cs b'.' ≡ false
    → avoids b'/' (seq (class cs) r) ≡ true
    → Matches (seq (class cs) r) w
    → IsPlain w
starts_IsPlain cs r w dot slash m =
    let (u, v, e, a, b) = seq_inv m in
    let (c, e', h) = class_inv a in
    let whole : w ≡ c ∷ v = e ∙ ap (λ t. t ++ v) e' in
    subst IsPlain (sym whole) (
      λ q. false≢true (sym dot ∙ subst (λ x. in_class cs x ≡ true) q h),
      subst (λ t. ¬ In b'/' t) whole (avoids_sound m b'/' slash),
    )

IsPlain-ne_nil : (w : Text) → IsPlain w → w ≢ []
IsPlain-ne_nil [] h e = h
IsPlain-ne_nil (c ∷ w) h e = cc

no_slash : (w : Text) → IsPlain w → ¬ In b'/' w
no_slash [] h i = h
no_slash (c ∷ w) h i = h.1 i

-- A plain part in front, what follows free of slashes.
IsPlain-append : (u v : Text) → IsPlain u → (¬ In b'/' v) → IsPlain (u ++ v)
IsPlain-append [] v h k = absurd h
IsPlain-append (c ∷ u) v h k =
    (h.0, λ m. elim (In-append b'/' (c ∷ u) v m) [ inl x ↦ h.1 x | inr x ↦ k x ])

-- The parts of a valid digest are plain, and neither holds a colon.
pub is_digest-parse_apart :
    (d : Text)
    → is_digest d ≡ true
    → (a : Text) × (h : Text) × (parse d ≡ ok (a, h)) × IsPlain a × IsPlain h × (¬ In b':' h)
unfolding is_digest
is_digest-parse_apart d valid =
    let (x, rest, e, ax, m) = seq_inv ((match_string_iff expr_digest d).0 valid) in
    let (y, rest', e', ay, m') = seq_inv m in
    let (colon, h, e'', ac, ah) = seq_inv m' in
    let (c, z, ec, kc, kz) = seq_inv ac in
    let (b, eb, hb) = class_inv kc in
    let is_colon : b ≡ b':' = ground arith in
    let tail : rest' ≡ b':' ∷ h = rw (e'', ec, eb, empty_inv kz, is_colon) refl in
    let whole : d ≡ (x ++ y) ++ b':' ∷ h = rw (e, e', tail) (sym (append_assoc x y (b':' ∷ h))) in
    let plain_x = starts_IsPlain lower_digit _ x refl refl ax in
    let plain_a = IsPlain-append x y plain_x (avoids_sound ay b'/' refl) in
    let plain_h = starts_IsPlain (letter_digit ++ one_of (codes "=_-")) _ h refl refl ah in
    let out : ¬ In b':' (x ++ y) = λ i. elim (In-append b':' x y i) [
      | inl k ↦ avoids_sound ax b':' refl k
      | inr k ↦ avoids_sound ay b':' refl k
    ] in
    (
      x ++ y,
      h,
      (parse_iff d (x ++ y) h).1
          (whole, out, IsPlain-ne_nil (x ++ y) plain_a, IsPlain-ne_nil h plain_h),
      plain_a,
      plain_h,
      avoids_sound ah b':' refl,
    )

-- `digest.Parse` takes every valid digest apart, into plain parts.
pub is_digest-parse :
    (d : Text)
    → is_digest d ≡ true
    → (a : Text) × (h : Text) × (parse d ≡ ok (a, h)) × IsPlain a × IsPlain h
is_digest-parse d valid =
    let (a, h, parts, plain_a, plain_h, _) = is_digest-parse_apart d valid in
    (a, h, parts, plain_a, plain_h)

-- A valid digest is a plain path component itself.
pub is_digest-IsPlain : (d : Text) → is_digest d ≡ true → IsPlain d
is_digest-IsPlain d valid =
    let (a, h, parts, plain_a, plain_h, _) = is_digest-parse_apart d valid in
    let (e, _, _, _) = (parse_iff d a h).0 parts in
    subst IsPlain (sym e) (
      IsPlain-append a (b':' ∷ h) plain_a
        (λ i. elim i [ inl k ↦ ground arith | inr k ↦ no_slash h plain_h k ]))

-- A valid tag is a plain part without a colon, so `digest.Parse` refuses it.
pub is_tag-IsPlain : (t : Text) → is_tag t ≡ true → IsPlain t × (¬ In b':' t)
unfolding is_tag
is_tag-IsPlain t valid =
    let m = (match_string_iff expr_tag t).0 valid in
    (starts_IsPlain (letter_digit ++ one_of (codes "_")) _ t refl refl m, avoids_sound m b':' refl)

-- A valid upload id is a plain part.
pub is_uuid-IsPlain : (u : Text) → is_uuid u ≡ true → IsPlain u
unfolding is_uuid
is_uuid-IsPlain u valid =
    let (x, y, e, a, b) = seq_inv ((match_string_iff expr_uuid u).0 valid) in
    subst IsPlain (sym e)
      (IsPlain-append x y (starts_IsPlain hex_digit _ x refl refl a) (avoids_sound b b'/' refl))
