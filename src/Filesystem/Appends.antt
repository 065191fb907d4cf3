-- ===== src/Filesystem/Appends.antt =====
-- Chunks written in order make the upload their concatenation.
use simple_registry.Base.{
  ==-cases, list_eq, ℕ, zero, suc, ◌+◌, ◌-◌, Option, none, some, [], ◌∷◌, ◌++◌, nat_eq, Text, codes,
  Result, ok, Action, ◌>>=◌, ◌>>◌, ◌≡◌, ◌≢◌, refl, sym, ◌∙◌, ap, subst, ◌⊎◌, inl, inr, bind_ok,
  length, take, drop, append-nil, arith, repo_invalid, uuid_invalid,
}
use simple_registry.Disk.{Disk, read_file, write_file, place}
use simple_registry.Disk.Laws.{file_at, place-other, place_self, read_file_iff}
use simple_registry.Paths.{FilePath}
use simple_registry.Validator.{is_name, is_uuid}
use simple_registry.Filesystem.Blobs.{reads}
use simple_registry.Filesystem.Layout.{Library, upload_file}
use simple_registry.Filesystem.Commits.{require_ok, lift_result}
use simple_registry.Filesystem.Uploads.{splice, zeros, require, blobs_upload_write}

take-all : (s : Text) → take (length s) s ≡ s
take-all [] = refl
take-all (c ∷ s) = ap (λ l. c ∷ l) (take-all s)

drop_zero : (n : ℕ) → drop {A = ℕ} n [] ≡ []
drop_zero zero = refl
drop_zero (suc n) = refl

drop-beyond : (s : Text) (n : ℕ) → drop (length s + n) s ≡ []
drop-beyond [] n = drop_zero (0 + n)
drop-beyond (c ∷ s) n =
    let e : suc (length s) + n ≡ suc (length s + n) = omega arith in rw e (drop-beyond s n)

zeros_none : (n : ℕ) → zeros (n - n) ≡ []
zeros_none n = let e : n - n ≡ 0 = omega arith in rw e refl

-- A write at the end of what is there.
splice-end : (old new : Text) → splice old new (some (length old)) ≡ old ++ new
unfolding splice
splice-end old new = elim (==-cases new []) [
  | inl (t, e) ↦ rw (t, e) (sym (append-nil old))
  | inr (f, _) ↦
      rw (f, take-all old, drop-beyond old (length new), zeros_none (length old))
        (append-nil ((old ++ []) ++ new) ∙ ap (λ l. l ++ new) (append-nil old))
]

splice-append :
    (old new : Text) (start : Option ℕ)
    → (start ≡ none) ⊎ (start ≡ some (length old))
    → splice old new start ≡ old ++ new
unfolding splice
splice-append old new start (inl e) = rw e refl
splice-append old new start (inr e) = rw e (splice-end old new)

pub ok_injective : {a b : Text} → ◌≡◌ {A = Result Text} (ok a) (ok b) → a ≡ b
ok_injective h = cc

-- A write that succeeds, at the end of an upload or without a start, makes the upload its old bytes
-- followed by the new ones, and changes no other file.
pub blobs_upload_write-append :
    (lib : Library) (base : FilePath) (repo uuid old new : Text) (start : Option ℕ) (d t : Disk)
    → read_file (upload_file base repo uuid (codes "data")) d ≡ ok old
    → (start ≡ none) ⊎ (start ≡ some (length old))
    → blobs_upload_write lib base repo uuid new start d ≡ (ok tt, t)
    → (read_file (upload_file base repo uuid (codes "data")) t ≡ ok (old ++ new))
      × ((q : FilePath) → upload_file base repo uuid (codes "data") ≢ q → file_at q t ≡ file_at q d)
unfolding blobs_upload_write write_file
blobs_upload_write-append lib base repo uuid old new start d t held at_end h =
    let u = upload_file base repo uuid (codes "data") in
    let write : Text → Action Disk (Unit {0}) = λ bytes. write_file u (splice bytes new start) in
    let (_, d1, x1, y1) =
      bind_ok (require (is_name repo) repo_invalid)
        (λ _. require (is_uuid uuid) uuid_invalid >> (reads u >>= write)) d h in
    let (_, e1) = require_ok (is_name repo) repo_invalid d d1 x1 in
    let (_, d2, x2, y2) =
      bind_ok (require (is_uuid uuid) uuid_invalid) (λ _. reads u >>= write) d1 y1 in
    let (_, e2) = require_ok (is_uuid uuid) uuid_invalid d1 d2 x2 in
    let (bytes, d3, x3, y3) = bind_ok (reads u) write d2 y2 in
    let (c, e3) = lift_result (read_file u d2) d2 d3 x3 in
    let c' : read_file u d ≡ ok bytes = subst (λ z. read_file u z ≡ ok bytes) (e2 ∙ e1) c in
    let same : bytes ≡ old = ok_injective (sym c' ∙ held) in
    let content : splice bytes new start ≡ old ++ new =
      subst (λ z. splice z new start ≡ old ++ new) (sym same)
        (splice-append old new start at_end) in
    let written : (place u (splice bytes new start) d3.now d3).1 ≡ t = ap (λ z. z.1) y3 in
    let now_there : file_at u t ≡ some (splice bytes new start, d3.now) =
      subst (λ z. file_at u z ≡ some (splice bytes new start, d3.now)) written
        (place_self u (splice bytes new start) d3.now d3 (ap (λ z. z.0) y3)) in
    (
      (read_file_iff u t (old ++ new)).1
          (d3.now, subst (λ z. file_at u t ≡ some (z, d3.now)) content now_there),
      λ q ne.
          subst (λ z. file_at q z ≡ file_at q d3) written
            (place-other u (splice bytes new start) d3.now d3 q ne)
          ∙ ap (file_at q) (e3 ∙ e2 ∙ e1),
    )
