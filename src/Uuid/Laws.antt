-- ===== src/Uuid/Laws.antt =====
-- Every identifier that `new` makes is one that the registry accepts.
use simple_registry.Base.{
  ℕ, zero, suc, ◌+◌, ◌/◌, ◌%◌, ◌<◌, ◌≤◌, [], ◌∷◌, ◌≡◌, refl, ap, ◌∙◌, Bool, true, Text, All, arith,
  length, take, drop, nat_beq, ◌&&◌,
}
use simple_registry.Regex.{in_class, class, seq, times}
use simple_registry.Regex.Laws.{Matches, m_seq, m_class, m_empty, match_string_iff}
use simple_registry.Validator.{hex_digit, expr_uuid, is_uuid}
use simple_registry.Uuid.{hex_char, hex, set_version, set_variant, stamp, to_string, modify_at}

hex_char-in_class : (n : ℕ) → n < 16 → in_class hex_digit (hex_char n) ≡ true
unfolding hex_char
hex_char-in_class n h = ground arith

abbrev pub IsByte : ℕ → Type 0
IsByte b = b < 256

abbrev twice : ℕ → ℕ
twice zero = zero
twice (suc n) = suc (suc (twice n))

digit-Matches :
    (n : ℕ) (r : _) (w : Text)
    → n < 16
    → Matches r w
    → Matches (seq (class hex_digit) r) (hex_char n ∷ w)
digit-Matches n r w h m =
    m_seq (hex_char n ∷ []) w refl (m_class (hex_char n) refl (hex_char-in_class n h)) m

hex-Matches :
    (n : ℕ) (bs : Text)
    → length bs ≡ n
    → All IsByte bs
    → Matches (times (twice n) (class hex_digit)) (hex bs)
unfolding hex
hex-Matches zero [] e h = m_empty refl
hex-Matches zero (b ∷ bs) e h = absurd (omega arith)
hex-Matches (suc n) [] e h = absurd (omega arith)
hex-Matches (suc n) (b ∷ bs) e (small, h) =
    digit-Matches (b / 16) _ _ (omega arith)
      (digit-Matches (b % 16) _ _ (omega arith) (hex-Matches n bs (omega arith) h))

All-take : (n : ℕ) (bs : Text) → All IsByte bs → All IsByte (take n bs)
All-take zero bs h = tt
All-take (suc n) [] h = tt
All-take (suc n) (b ∷ bs) (p, h) = (p, All-take n bs h)

All-drop : (n : ℕ) (bs : Text) → All IsByte bs → All IsByte (drop n bs)
All-drop zero bs h = h
All-drop (suc n) [] h = tt
All-drop (suc n) (b ∷ bs) (p, h) = All-drop n bs h

length-slice : (m n : ℕ) (bs : Text) → m + n ≤ length bs → length (take n (drop m bs)) ≡ n
length-slice zero zero bs h = refl
length-slice zero (suc n) [] h = absurd (omega arith)
length-slice zero (suc n) (b ∷ bs) h = omega (arith, length-slice zero n bs (omega arith))
length-slice (suc m) n [] h = absurd (omega arith)
length-slice (suc m) n (b ∷ bs) h = length-slice m n bs (omega arith)

slice-Matches :
    (m n : ℕ) (u : Text)
    → m + n ≤ length u
    → All IsByte u
    → Matches (times (twice n) (class hex_digit)) (hex (take n (drop m u)))
slice-Matches m n u h k =
    hex-Matches n (take n (drop m u)) (length-slice m n u h)
      (All-take n (drop m u) (All-drop m u k))

dash-Matches :
    (r : _) (w : Text)
    → Matches r w
    → Matches (seq (seq (class ((b'-', b'-') ∷ [])) (times 0 r)) r) (b'-' ∷ w)
dash-Matches r w m =
    m_seq (b'-' ∷ []) w refl (m_seq (b'-' ∷ []) [] refl (m_class b'-' refl refl) (m_empty refl)) m

-- The text of 16 bytes is a valid upload id.
pub to_string-is_uuid : (u : Text) → length u ≡ 16 → All IsByte u → is_uuid (to_string u) ≡ true
unfolding is_uuid to_string
to_string-is_uuid u e h = (match_string_iff expr_uuid _).1 (
    m_seq (hex (take 4 u)) _ refl (slice-Matches 0 4 u (omega arith) h) (
      dash-Matches _ _ (
        m_seq (hex (take 2 (drop 4 u))) _ refl (slice-Matches 4 2 u (omega arith) h) (
          dash-Matches _ _ (
            m_seq (hex (take 2 (drop 6 u))) _ refl (slice-Matches 6 2 u (omega arith) h) (
              dash-Matches _ _ (
                m_seq (hex (take 2 (drop 8 u))) _ refl (slice-Matches 8 2 u (omega arith) h)
                  (dash-Matches _ _ (slice-Matches 10 6 u (omega arith) h)))))))))

all_bytes : ℕ → (ℕ → Bool) → Bool
all_bytes zero p = true
all_bytes (suc n) p = p n && all_bytes n p

all_bytes_sound : (n : ℕ) (p : ℕ → Bool) (x : ℕ) → all_bytes n p ≡ true → x < n → p x ≡ true
unfolding all_bytes
all_bytes_sound zero p x h lt = absurd (omega arith)
all_bytes_sound (suc n) p x h lt = ground (arith, all_bytes_sound n p x)

-- The version digit becomes 4, the low digit stays; the two top bits of the variant become 10, the
-- others stay.
version_table : all_bytes 256 (λ b. nat_beq (set_version b) (64 + b % 16)) ≡ true
unfolding all_bytes set_version
version_table = refl

variant_table : all_bytes 256 (λ b. nat_beq (set_variant b) (128 + b % 64)) ≡ true
unfolding all_bytes set_variant
variant_table = refl

pub set_version_lem : (b : ℕ) → IsByte b → set_version b ≡ 64 + b % 16
set_version_lem b h =
    let t : nat_beq (set_version b) (64 + b % 16) ≡ true =
      all_bytes_sound 256 (λ b. nat_beq (set_version b) (64 + b % 16)) b version_table h in
    ground arith

pub set_variant_lem : (b : ℕ) → IsByte b → set_variant b ≡ 128 + b % 64
set_variant_lem b h =
    let t : nat_beq (set_variant b) (128 + b % 64) ≡ true =
      all_bytes_sound 256 (λ b. nat_beq (set_variant b) (128 + b % 64)) b variant_table h in
    ground arith

modify_at-All :
    (i : ℕ) (f : ℕ → ℕ) (u : Text)
    → ((b : ℕ) → IsByte b → IsByte (f b))
    → All IsByte u
    → (length (modify_at i f u) ≡ length u) × All IsByte (modify_at i f u)
modify_at-All i f [] k h = (refl, tt)
modify_at-All zero f (b ∷ u) k (p, h) = (refl, (k b p, h))
modify_at-All (suc i) f (b ∷ u) k (p, h) =
    let (e, q) = modify_at-All i f u k h in (ap suc e, (p, q))

-- What `New` makes of 16 random bytes is printed as an upload id that every later request passes.
pub stamp-is_uuid : (u : Text) → length u ≡ 16 → All IsByte u → is_uuid (to_string (stamp u)) ≡ true
unfolding stamp
stamp-is_uuid u e h =
    let (e1, h1) = modify_at-All 6 set_version u (λ b k. omega (arith, set_version_lem b k)) h in
    let (e2, h2) =
      modify_at-All 8 set_variant (modify_at 6 set_version u)
        (λ b k. omega (arith, set_variant_lem b k)) h1 in
    to_string-is_uuid _ (e2 ∙ e1 ∙ e) h2
