-- ===== src/Disk/Changes.antt =====
-- Which files an operation of the disk can bring about.
use simple_registry.Base.{
  ℕ, Bool, true, false, none, some, [], ◌∷◌, ◌==◌, nat_eq, list_eq, Text, ok, Action, ◌>>=◌, ◌≡◌,
  ◌⊎◌, refl, sym, ◌∙◌, ap, subst, inl, inr, Result-cases, Bool-cases, any, if◌then◌else◌, without,
  lookup-without, ==-cases,
}
use simple_registry.Disk.{
  Disk, file, dir, find, stat, place, write_file, mkdir_all, remove_all, remove, rename, read_file,
  is_under, is_strictly_under,
}
use simple_registry.Disk.Laws.{
  file_at, mkdir_all-files, place-other, place_self, place-cases, remove_all-files,
}
use simple_registry.Paths.{FilePath}

-- The files of the second disk are files of the first one, but for those that `W` allows.
abbrev pub Changes : (FilePath → Text → Type 0) → Disk → Disk → Type 0
Changes W d t =
    (q : FilePath) (c : Text) (x : ℕ)
    → file_at q t ≡ some (c, x)
    → (file_at q d ≡ some (c, x)) ⊎ W q c

module _ (W : FilePath → Text → Type 0) where
  pub Changes-refl : (d : Disk) → Changes W d d
  Changes-refl d q c x h = inl h

  pub Changes-same : (d t : Disk) → t ≡ d → Changes W d t
  Changes-same d t e q c x h = inl (subst (λ z. file_at q z ≡ some (c, x)) e h)

  pub Changes-trans : (d t u : Disk) → Changes W d t → Changes W t u → Changes W d u
  Changes-trans d t u h k q c x f = elim (k q c x f) [ inl g ↦ h q c x g | inr w ↦ inr w ]

  pub Changes-bind :
      {A B : Type 0} (m : Action Disk A) (f : A → Action Disk B) (d : Disk)
      → Changes W d (m d).1
      → ((a : A) → (m d).0 ≡ ok a → Changes W (m d).1 (f a (m d).1).1)
      → Changes W d ((m >>= f) d).1
  Changes-bind m f d h k = elim (Result-cases (m d).0) [
    | inl (e, r) ↦ rw (r, ◌>>=◌) h
    | inr (a, r) ↦ rw (r, ◌>>=◌) (Changes-trans d (m d).1 (f a (m d).1).1 h (k a r))
  ]

  pub Changes-if :
      {A : Type 0} (b : Bool) (m n : Action Disk A) (d : Disk)
      → Changes W d (m d).1
      → Changes W d (n d).1
      → Changes W d ((if b then m else n) d).1
  Changes-if true m n d h k = h
  Changes-if false m n d h k = k

  pub mkdir_all-Changes : (p : FilePath) (d : Disk) → Changes W d (mkdir_all p d).1
  mkdir_all-Changes p d q c x h = inl (sym (mkdir_all-files p d q) ∙ h)

  pub remove_all-Changes : (p : FilePath) (d : Disk) → Changes W d (remove_all p d).1
  remove_all-Changes p d q c x h = elim (Bool-cases (is_under p q)) [
    | inl t ↦
        let e = remove_all-files p d q in
        let gone : file_at q (remove_all p d).1 ≡ none = e ∙ (rw t refl) in absurd (cc)
    | inr f ↦
        let e : file_at q (remove_all p d).1 ≡ file_at q d = remove_all-files p d q ∙ (rw f refl) in
        inl (sym e ∙ h)
  ]

  -- What a text put at a path changes.
  pub place-Changes :
      (p : FilePath) (c : Text) (t : ℕ) (d : Disk) → W p c → Changes W d (place p c t d).1
  place-Changes p c t d w q c' x h = elim (==-cases p q) [
    | inr (_, ne) ↦ inl (sym (place-other p c t d q ne) ∙ h)
    | inl (_, e) ↦ elim (place-cases p c t d) [
      | inl (er, f) ↦ inl (subst (λ z. file_at q z ≡ some (c', x)) (ap (λ z. z.1) f) h)
      | inr (f, ne) ↦
          let there = place_self p c t d (ap (λ z. z.0) f) in
          let at_p : file_at p (place p c t d).1 ≡ some (c', x) =
            subst (λ z. file_at z (place p c t d).1 ≡ some (c', x)) (sym e) h in
          let same : c ≡ c' = cc in inr (subst (λ z. W z c') e (subst (W p) same w))
    ]
  ]

  pub write_file-Changes :
      (p : FilePath) (c : Text) (d : Disk) → W p c → Changes W d (write_file p c d).1
  unfolding write_file
  write_file-Changes p c d w = place-Changes p c d.now d w

without-Changes :
    (W : FilePath → Text → Type 0) (doomed : FilePath → Bool) (d : Disk)
    → Changes W d (record d { nodes = without doomed d.nodes })
unfolding file_at find
without-Changes W doomed d [] c x h = inl h
without-Changes W doomed d (y ∷ q) c x h = elim (Bool-cases (doomed (y ∷ q))) [
  | inl t ↦ absurd (cc (rw (lookup-without doomed (y ∷ q) d.nodes, t) at h))
  | inr f ↦ inl (rw (lookup-without doomed (y ∷ q) d.nodes, f) at h)
]

pub remove-Changes :
    (W : FilePath → Text → Type 0) (p : FilePath) (d : Disk) → Changes W d (remove p d).1
unfolding remove
remove-Changes W p d = elim (Result-cases (stat p d)) [
  | inl (e, h) ↦ rw (h, remove) (Changes-refl W d)
  | inr (n, h) ↦ elim (Bool-cases (any (is_strictly_under p) d.nodes)) [
    | inl t ↦ rw (h, t, remove) (Changes-refl W d)
    | inr f ↦ rw (h, f, remove) (without-Changes W (λ q. q == p) d)
  ]
]

-- A rename brings about one file, which has the bytes of the old one.
pub rename-Changes :
    (W : FilePath → Text → Type 0) (p q : FilePath) (d : Disk)
    → ((c : Text) → read_file p d ≡ ok c → W q c)
    → Changes W d (rename p q d).1
unfolding rename read_file
rename-Changes W p q d w = elim (Result-cases (stat p d)) [
  | inl (e, h) ↦ rw (h, rename) (Changes-refl W d)
  | inr (dir, h) ↦ rw (h, rename) (Changes-refl W d)
  | inr (file c t, h) ↦ elim (Result-cases (place q c t d).0) [
    | inl (e, g) ↦ rw (h, g, rename) (Changes-refl W d)
    | inr (u, g) ↦
        rw (h, g, rename)
          (Changes-trans W d (place q c t d).1 _
            (place-Changes W q c t d (w c (rw (h, read_file) refl)))
            (without-Changes W (λ y. y == p) (place q c t d).1))
  ]
]
