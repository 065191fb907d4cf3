-- ===== src/Disk/Room/Writes.antt =====
-- When the calls of the disk succeed, and the room that they leave.
use simple_registry.Base.{
  lookup, Result-cases, Bool-cases, any, lookup-without, without, ==_of_ne, ℕ, true, false, some,
  List, [], ◌∷◌, ◌++◌, ◌==◌, nat_eq, list_eq, Text, ok, ◌≡◌, ◌≢◌, refl, sym, ◌∙◌, ap, subst, inl,
  inr, ==_refl, Option-cases, append_assoc, append-nil,
}
use simple_registry.Paths.{FilePath, dir_of}
use simple_registry.Disk.{
  Node, file, dir, Disk, find, set_node, is_under, stat, place, write_file, mkdir_from, mkdir_all,
  remove_all, remove, rename, is_strictly_under,
}
use simple_registry.Disk.Laws.{file_of, file_at, file_at-new_dir}
use simple_registry.Disk.Changes.{
  mkdir_all-Changes, remove-Changes, remove_all-Changes, rename-Changes, place-Changes,
}
use simple_registry.Disk.Room.{
  IsOpen, HasRoom, HasRoom-kept, mkdir_all-NewDirs, remove-NewDirs, remove_all-NewDirs,
  rename-NewDirs, place-NewDirs, find-set_node_self,
}

stat_ok : (p : FilePath) (n : Node) (d : Disk) → find p d ≡ some n → stat p d ≡ ok n
unfolding stat
stat_ok p n d h = rw h refl

find-nodes :
    (p : FilePath) (d : Disk) (now : ℕ) (entropy : List Text)
    → find p (record { nodes = d.nodes; now = now; entropy = entropy }) ≡ find p d
unfolding find
find-nodes [] d now entropy = refl
find-nodes (x ∷ p) d now entropy = refl

find-without_other :
    (p q : FilePath) (d : Disk)
    → p ≢ q
    → find q (record d { nodes = without (λ x. x == p) d.nodes }) ≡ find q d
unfolding find
find-without_other p [] d ne = refl
find-without_other p (x ∷ q) d ne =
    rw
      (lookup-without (λ y. y == p) (x ∷ q) d.nodes, ==_of_ne {a = x ∷ q} {b = p} (λ z. ne (sym z)))
      refl

-- No file is at one of the steps from one directory to another.
IsOpenFrom : FilePath → FilePath → Disk → Type 0
IsOpenFrom done rest d =
    (r : FilePath) (c : Text) (x : ℕ) → is_under r rest ≡ true → file_at (done ++ r) d ≢ some (c, x)

mkdir_from-Makes :
    (done rest : FilePath) (d : Disk)
    → find done d ≡ some dir
    → IsOpenFrom done rest d
    → ((mkdir_from done rest d).0 ≡ ok tt)
      × (find (done ++ rest) (mkdir_from done rest d).1 ≡ some dir)
unfolding mkdir_from IsOpenFrom is_under file_at
mkdir_from-Makes done [] d there clear = (refl, rw (append-nil done) there)
mkdir_from-Makes done (x ∷ rest) d there clear =
    let here = done ++ x ∷ [] in
    let along : here ++ rest ≡ done ++ x ∷ rest = append_assoc done (x ∷ []) rest in
    elim (Option-cases (find here d)) [
      | inl e ↦
          let made = set_node here dir d in
          rw (e, mkdir_from, ← along)
            (mkdir_from-Makes here rest made (find-set_node_self done x dir d) (λ r c t under at.
              clear (x ∷ r) c t (rw (==_refl x) under) (
                subst (λ z. file_at z d ≡ some (c, t)) (append_assoc done (x ∷ []) r)
                  (sym (file_at-new_dir here (here ++ r) d e) ∙ at))))
      | inr (file c t, e) ↦ absurd (clear (x ∷ []) c t (rw (==_refl x) refl) (rw e refl))
      | inr (dir, e) ↦
          rw (e, mkdir_from, ← along)
            (mkdir_from-Makes here rest d e (λ r c t under at.
              clear (x ∷ r) c t (rw (==_refl x) under)
                (subst (λ z. file_at z d ≡ some (c, t)) (append_assoc done (x ∷ []) r) at)))
    ]

-- Where no file is in the way, `mkdir_all` succeeds, and the directory is there.
pub mkdir_all-Makes :
    (p : FilePath) (d : Disk)
    → IsOpen p d
    → ((mkdir_all p d).0 ≡ ok tt) × (find p (mkdir_all p d).1 ≡ some dir)
unfolding mkdir_all IsOpenFrom find
mkdir_all-Makes p d clear = mkdir_from-Makes [] p d refl (λ r c x under at. clear r c x under at)

-- A file can be written into a directory that is there.
pub place_ok :
    (p : FilePath) (c : Text) (t : ℕ) (d : Disk)
    → find (dir_of p) d ≡ some dir
    → find p d ≢ some dir
    → place p c t d ≡ (ok tt, set_node p (file c t) d)
unfolding place
place_ok p c t d into free = elim (Option-cases (find p d)) [
  | inl e ↦ rw (stat_ok (dir_of p) dir d into, e, place) refl
  | inr (file _ _, e) ↦ rw (stat_ok (dir_of p) dir d into, e, place) refl
  | inr (dir, e) ↦ absurd (free e)
]

pub write_file_ok :
    (p : FilePath) (c : Text) (d : Disk)
    → find (dir_of p) d ≡ some dir
    → find p d ≢ some dir
    → write_file p c d ≡ (ok tt, set_node p (file c d.now) d)
unfolding write_file
write_file_ok p c d into free = place_ok p c d.now d into free

-- A file that is there moves into a directory that is there.
pub rename_ok :
    (p q : FilePath) (c : Text) (x : ℕ) (d : Disk)
    → file_at p d ≡ some (c, x)
    → find (dir_of q) d ≡ some dir
    → find q d ≢ some dir
    → (rename p q d).0 ≡ ok tt
unfolding rename file_at
rename_ok p q c x d there into free = elim (Option-cases (find p d)) [
  | inl e ↦ absurd (cc (rw (e, file_at) at there))
  | inr (dir, e) ↦ absurd (cc (rw (e, file_at) at there))
  | inr (file c' x', e) ↦ rw (stat_ok p (file c' x') d e, place_ok q c' x' d into free, rename) refl
]

-- A directory stays where another path is removed.
pub remove-other_dir :
    (p q : FilePath) (d : Disk) → p ≢ q → find q d ≡ some dir → find q (remove p d).1 ≡ some dir
unfolding remove
remove-other_dir p q d ne h = elim (Result-cases (stat p d)) [
  | inl (e, k) ↦ rw (k, remove) h
  | inr (n, k) ↦ elim (Bool-cases (any (is_strictly_under p) d.nodes)) [
    | inl t ↦ rw (k, t, remove) h
    | inr f ↦ rw (k, f, remove) (find-without_other p q d ne ∙ h)
  ]
]

-- Room that the operations leave.
module _ (p : FilePath) where
  pub HasRoom-mkdir_all :
      (q : FilePath) (d : Disk) → is_under p q ≡ false → HasRoom p d → HasRoom p (mkdir_all q d).1
  HasRoom-mkdir_all q d away r =
      HasRoom-kept p d (mkdir_all q d).1 (mkdir_all-Changes (λ _ _. ⊥) q d) (mkdir_all-NewDirs q d)
        (λ _ _ w. absurd w) (λ h. cc) r

  pub HasRoom-remove : (q : FilePath) (d : Disk) → HasRoom p d → HasRoom p (remove q d).1
  HasRoom-remove q d r =
      HasRoom-kept p d (remove q d).1 (remove-Changes (λ _ _. ⊥) q d) (remove-NewDirs (λ _. ⊥) q d)
        (λ _ _ w. absurd w) (λ h. h) r

  pub HasRoom-remove_all : (q : FilePath) (d : Disk) → HasRoom p d → HasRoom p (remove_all q d).1
  HasRoom-remove_all q d r =
      HasRoom-kept p d (remove_all q d).1 (remove_all-Changes (λ _ _. ⊥) q d)
        (remove_all-NewDirs (λ _. ⊥) q d) (λ _ _ w. absurd w) (λ h. h) r

  pub HasRoom-rename :
      (u q : FilePath) (d : Disk)
      → is_under q (dir_of p) ≡ false
      → HasRoom p d
      → HasRoom p (rename u q d).1
  HasRoom-rename u q d away r =
      HasRoom-kept p d (rename u q d).1 (rename-Changes (λ z _. z ≡ q) u q d (λ _ _. refl))
        (rename-NewDirs (λ _. ⊥) u q d)
        (λ z _ e. subst (λ y. is_under y (dir_of p) ≡ false) (sym e) away) (λ h. h) r

  pub HasRoom-write_file :
      (q : FilePath) (c : Text) (d : Disk)
      → is_under q (dir_of p) ≡ false
      → HasRoom p d
      → HasRoom p (write_file q c d).1
  unfolding write_file
  HasRoom-write_file q c d away r =
      HasRoom-kept p d (place q c d.now d).1 (place-Changes (λ z _. z ≡ q) q c d.now d refl)
        (place-NewDirs (λ _. ⊥) q c d.now d)
        (λ z _ e. subst (λ y. is_under y (dir_of p) ≡ false) (sym e) away) (λ h. h) r

  -- The clock and the random source take no room.
  pub HasRoom-nodes :
      (d : Disk) (now : ℕ) (entropy : List Text)
      → HasRoom p d
      → HasRoom p (record { nodes = d.nodes; now = now; entropy = entropy })
  unfolding file_at
  HasRoom-nodes d now entropy r = record {
    above =
        λ q c x under at. r.above q c x under (sym (ap file_of (find-nodes q d now entropy)) ∙ at);
    here = λ at. r.here (sym (find-nodes p d now entropy) ∙ at);
  }

-- An empty disk has room for all files.
pub HasRoom-empty :
    (p q : FilePath) (now : ℕ) (entropy : List Text)
    → is_under p q ≡ false
    → HasRoom p (record { nodes = []; now = now; entropy = entropy })
unfolding is_under file_at find lookup
HasRoom-empty [] q now entropy h = absurd (cc)
HasRoom-empty (x ∷ p) q now entropy h = record {
  above = λ r c t under at. no_file r c t at;
  here = λ at. cc;
}
  where
    no_file :
        (r : FilePath) (c : Text) (t : ℕ)
        → file_at r (record { nodes = []; now = now; entropy = entropy }) ≢ some (c, t)
    no_file [] c t at = cc
    no_file (y ∷ r) c t at = cc
