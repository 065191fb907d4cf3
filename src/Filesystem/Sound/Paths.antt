-- ===== src/Filesystem/Sound/Paths.antt =====
-- Paths at which no text breaks a blob: those of the repositories, also of a referrer whose subject
-- climbs out of them.
use mathlib.Core.List.{reverse}
use simple_registry.Base.{
  ℕ, ◌≤◌, ◌<◌, ◌/◌, ◌%◌, true, List, [], ◌∷◌, ◌++◌, nat_eq, list_eq, Text, codes, Result, ok, ◌≡◌,
  ◌≢◌, refl, sym, ◌∙◌, ap, subst, inl, inr, In, All, All-append, append_assoc, length, take, arith,
  Bool-cases, ◌==◌, ==_eq, drop,
}
use simple_registry.Digest.{Algo, new_hasher}
use simple_registry.Paths.{FilePath, join, split_slash, split_all, clean_from, resolve}
use simple_registry.Paths.Plain.{IsPlain, clean_from-IsPlain, split_slash-IsPlain}
use simple_registry.Uuid
use simple_registry.Uuid.{hex, hex_char, to_string}
use simple_registry.Validator.{is_name}
use simple_registry.Filesystem.Layout.{Library, upload_file, blob_path, manifests_path}
use simple_registry.Filesystem.Layout.Apart.{join_repo}
use simple_registry.Filesystem.Stored.{repositories-ne_blobs, blob_at}
use simple_registry.Filesystem.Sound.{Fits, is_hex, HexHashes}

-- A byte that neither ends a path component nor climbs.
abbrev pub IsCalm : ℕ → Type 0
IsCalm c = (c ≢ b'.') × (c ≢ b'/')

calm_no_slash : (s : Text) → All IsCalm s → ¬ In b'/' s
calm_no_slash [] h i = i
calm_no_slash (c ∷ s) h (inl e) = h.0.1 (sym e)
calm_no_slash (c ∷ s) h (inr i) = calm_no_slash s h.1 i

pub calm-IsPlain : (s : Text) → s ≢ [] → All IsCalm s → IsPlain s
calm-IsPlain [] ne h = ne refl
calm-IsPlain (c ∷ s) ne h = (h.0.0, calm_no_slash (c ∷ s) h)

is_hex-IsCalm : (c : ℕ) → is_hex c ≡ true → IsCalm c
is_hex-IsCalm c h = (λ e. ground (arith, h, e), λ e. ground (arith, h, e))

hex_IsCalm : (s : Text) → All (λ c. is_hex c ≡ true) s → All IsCalm s
hex_IsCalm [] h = tt
hex_IsCalm (c ∷ s) h = (is_hex-IsCalm c h.0, hex_IsCalm s h.1)

pub long_ne_nil : (s : Text) → 2 ≤ length s → s ≢ []
long_ne_nil [] h e = omega (arith, h)
long_ne_nil (c ∷ s) h e = cc

pub hash-IsCalm :
    (lib : Library)
    → HexHashes lib
    → (algo : Algo) (t : Text) → All IsCalm (lib.hash_as_string algo t)
hash-IsCalm lib h algo t = hex_IsCalm (lib.hash_as_string algo t) (h.digits algo t)

-- Hashes are plain path components.
pub hash-IsPlain :
    (lib : Library) → HexHashes lib → (algo : Algo) (t : Text) → IsPlain (lib.hash_as_string algo t)
hash-IsPlain lib h algo t =
    calm-IsPlain (lib.hash_as_string algo t)
      (long_ne_nil (lib.hash_as_string algo t) (h.many algo t)) (hash-IsCalm lib h algo t)

pub new_hasher-IsPlain : (algo : Text) (hasher : Algo) → new_hasher algo ≡ ok hasher → IsPlain algo
unfolding new_hasher
new_hasher-IsPlain algo hasher h = elim (Bool-cases (algo == codes "sha256")) [
  | inl t ↦ subst IsPlain (sym (==_eq t)) (ground arith)
  | inr f ↦ elim (Bool-cases (algo == codes "sha512")) [
    | inl t ↦ subst IsPlain (sym (==_eq t)) (ground arith)
    | inr g ↦ absurd (cc (rw (f, g) at h))
  ]
]

letter-IsCalm : (c : ℕ) → 47 < c → IsCalm c
letter-IsCalm c h = (λ e. ground (arith, e, h), λ e. ground (arith, e, h))

pub digest-IsCalm : (hash : Text) → All IsCalm hash → All IsCalm (codes "sha256" ++ b':' ∷ hash)
digest-IsCalm hash h =
    let calm = λ (c : ℕ) (k : 47 < c). letter-IsCalm c k in
    (
      calm b's' (omega arith),
      (
        calm b'h' (omega arith),
        (
          calm b'a' (omega arith),
          (
            calm b'2' (omega arith),
            (calm b'5' (omega arith), (calm b'6' (omega arith), (calm b':' (omega arith), h))),
          ),
        ),
      ),
    )

hex_char-IsCalm : (n : ℕ) → IsCalm (hex_char n)
unfolding hex_char
hex_char-IsCalm n = (λ e. ground (arith, e), λ e. ground (arith, e))

hex-IsCalm : (u : Text) → All IsCalm (hex u)
unfolding hex
hex-IsCalm [] = tt
hex-IsCalm (b ∷ u) = (hex_char-IsCalm (b / 16), (hex_char-IsCalm (b % 16), hex-IsCalm u))

dash-IsCalm : IsCalm b'-'
dash-IsCalm = (λ e. ground arith, λ e. ground arith)

append_ne_nil : (s t : Text) (c : ℕ) → s ++ c ∷ t ≢ []
append_ne_nil [] t c e = cc
append_ne_nil (a ∷ s) t c e = cc

-- An upload id that is printed is a plain path component, whatever its bytes are.
pub to_string-IsPlain : (u : Text) → IsPlain (Uuid.to_string u)
unfolding to_string
to_string-IsPlain u = calm-IsPlain (Uuid.to_string u) (append_ne_nil (hex (take 4 u)) _ b'-') (
    All-append IsCalm (hex (take 4 u)) _ (hex-IsCalm (take 4 u)) (
      dash-IsCalm,
      All-append IsCalm (hex (take 2 (drop 4 u))) _ (hex-IsCalm (take 2 (drop 4 u))) (
        dash-IsCalm,
        All-append IsCalm (hex (take 2 (drop 6 u))) _ (hex-IsCalm (take 2 (drop 6 u))) (
          dash-IsCalm,
          All-append IsCalm (hex (take 2 (drop 8 u))) _ (hex-IsCalm (take 2 (drop 8 u)))
              (dash-IsCalm, hex-IsCalm (take 6 (drop 10 u))),
        ),
      ),
    ))

split_all-append : (p q : List Text) → split_all (p ++ q) ≡ split_all p ++ split_all q
split_all-append [] q = refl
split_all-append (x ∷ p) q =
    ap (λ l. split_slash x ++ l) (split_all-append p q)
    ∙ sym (append_assoc (split_slash x) (split_all p) (split_all q))

clean_from-append :
    (stack p q : List Text) → All IsPlain q → clean_from stack (p ++ q) ≡ clean_from stack p ++ q
unfolding clean_from
clean_from-append stack [] q h = clean_from-IsPlain stack q h
clean_from-append stack (x ∷ p) q h = clean_from-append (resolve stack x) p q h

-- The last two parts of a path stay, wherever the parts before them lead.
pub join-two :
    (base : FilePath) (parts : List Text) (x y : Text)
    → IsPlain x
    → IsPlain y
    → join base (parts ++ x ∷ y ∷ []) ≡ join base parts ++ x ∷ y ∷ []
unfolding join
join-two base parts x y hx hy =
    ap (clean_from (reverse base)) (
      split_all-append parts (x ∷ y ∷ [])
      ∙ ap (λ l. split_all parts ++ l)
          (rw (split_slash-IsPlain x hx, split_slash-IsPlain y hy) refl))
    ∙ clean_from-append (reverse base) (split_all parts) (x ∷ y ∷ []) (hx, (hy, tt))

-- So does the last one.
pub join-one :
    (base : FilePath) (parts : List Text) (x : Text)
    → IsPlain x
    → join base (parts ++ x ∷ []) ≡ join base parts ++ x ∷ []
unfolding join
join-one base parts x hx =
    ap (clean_from (reverse base)) (
      split_all-append parts (x ∷ [])
      ∙ ap (λ l. split_all parts ++ l) (rw (split_slash-IsPlain x hx) refl))
    ∙ clean_from-append (reverse base) (split_all parts) (x ∷ []) (hx, tt)

two_nonempty : (p : FilePath) (x y : Text) → p ++ x ∷ y ∷ [] ≢ []
two_nonempty [] x y e = cc
two_nonempty (z ∷ p) x y e = cc

two_long : (p : FilePath) (x y z : Text) → p ++ x ∷ y ∷ [] ≢ z ∷ []
two_long [] x y z e = cc
two_long (a ∷ p) x y z e = two_nonempty p x y (cc)

pub last_two :
    (p q : FilePath) (x y u v : Text) → p ++ x ∷ y ∷ [] ≡ q ++ u ∷ v ∷ [] → (x ≡ u) × (y ≡ v)
last_two [] [] x y u v e = (cc, cc)
last_two [] (b ∷ q) x y u v e = absurd (two_long q u v y (cc))
last_two (a ∷ p) [] x y u v e = absurd (two_long p x y v (cc))
last_two (a ∷ p) (b ∷ q) x y u v e = last_two p q x y u v (cc)

four_last :
    (base : FilePath) (algo hash algo' hash' : Text)
    → base ++ codes "blobs" ∷ algo ∷ take 2 hash ∷ hash ∷ []
      ≡ base ++ codes "blobs" ∷ algo' ∷ take 2 hash' ∷ hash' ∷ []
    → (algo ≡ algo') × (hash ≡ hash')
four_last [] algo hash algo' hash' e = (cc, cc)
four_last (b ∷ base) algo hash algo' hash' e = four_last base algo hash algo' hash' (cc)

ok_injective_algo : {a b : Algo} → ◌≡◌ {A = Result Algo} (ok a) (ok b) → a ≡ b
ok_injective_algo h = cc

module _ (lib : Library) (base : FilePath) where
  -- A path below the repositories is not that of a blob.
  pub repositories-Fits :
      (q : FilePath) (c : Text) (p : FilePath)
      → q ≡ base ++ codes "repositories" ∷ p
      → Fits lib base q c
  repositories-Fits q c p e = record {
    fits = λ algo hash hasher k _. absurd (repositories-ne_blobs base p _ q q e k refl);
  }

  -- A path that ends in a directory of more than two bytes and a file "link" is not that of a blob.
  pub link-Fits :
      (parts : List Text) (x c : Text)
      → IsPlain x
      → x ≢ codes "li"
      → Fits lib base (join base (parts ++ x ∷ codes "link" ∷ [])) c
  link-Fits parts x c h ne = record {
    fits = λ algo hash hasher k _. absurd (
        let e =
          sym (join-two base parts x (codes "link") h (ground arith))
          ∙ k
          ∙ sym (append_assoc base (codes "blobs" ∷ algo ∷ []) (take 2 hash ∷ hash ∷ [])) in
        let (ex, ey) =
          last_two (join base parts) (base ++ codes "blobs" ∷ algo ∷ []) x (codes "link")
            (take 2 hash) hash e in
        ne (ex ∙ sym (ap (take 2) ey)));
  }

  -- The files of an upload of a valid repository.
  pub upload-Fits :
      (repo uuid name c : Text)
      → is_name repo ≡ true
      → IsPlain uuid
      → IsPlain name
      → Fits lib base (upload_file base repo uuid name) c
  unfolding upload_file
  upload-Fits repo uuid name c valid h k =
      repositories-Fits (upload_file base repo uuid name) c
        (split_slash repo ++ codes "_uploads" ∷ uuid ∷ name ∷ [])
        (join_repo base (codes "repositories") repo (codes "_uploads" ∷ uuid ∷ name ∷ [])
          (ground arith) valid (ground arith, (h, (k, tt))))

  -- What the manifests of a valid repository keep under plain names.
  pub manifests-Fits :
      (repo c : Text) (parts : List Text)
      → is_name repo ≡ true
      → All IsPlain parts
      → Fits lib base (manifests_path base repo parts) c
  unfolding manifests_path
  manifests-Fits repo c parts valid h =
      repositories-Fits (manifests_path base repo parts) c
        (split_slash repo ++ codes "_manifests" ∷ parts)
        (join_repo base (codes "repositories") repo (codes "_manifests" ∷ parts) (ground arith)
          valid (ground arith, h))

  -- The link of a referrer, of any subject.
  pub referrer-Fits :
      (repo algo hash referrer c : Text)
      → IsPlain referrer
      → referrer ≢ codes "li"
      → Fits lib base
          (manifests_path base repo
            (codes "referrers" ∷ algo ∷ hash ∷ referrer ∷ codes "link" ∷ []))
          c
  unfolding manifests_path
  referrer-Fits repo algo hash referrer c h ne =
      link-Fits
        (codes "repositories" ∷ repo ∷ codes "_manifests" ∷ codes "referrers" ∷ algo ∷ hash ∷ [])
        referrer c h ne

  -- The text that has the hash of its path.
  pub blob-Fits :
      (algo hash c : Text) (hasher : Algo)
      → IsPlain algo
      → IsPlain hash
      → new_hasher algo ≡ ok hasher
      → lib.hash_as_string hasher c ≡ hash
      → Fits lib base (blob_path base algo hash) c
  blob-Fits algo hash c hasher plain_a plain_h known hashed = record {
    fits = λ algo' hash' hasher' e known'.
        let (same_a, same_h) =
          four_last base algo hash algo' hash' (sym (blob_at base algo hash plain_a plain_h) ∙ e) in
        let same : hasher' ≡ hasher =
          ok_injective_algo (sym known' ∙ ap new_hasher (sym same_a) ∙ known) in
        ap (λ k. lib.hash_as_string k c) same ∙ hashed ∙ same_h;
  }
