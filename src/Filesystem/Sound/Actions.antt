-- ===== src/Filesystem/Sound/Actions.antt =====
-- What an action brings about on every disk.
use simple_registry.Base.{
  Bool, true, false, nat_eq, list_eq, Text, Error, Result, Action, lift, ◌>>=◌, ◌>>◌, ◌≡◌, refl,
  if◌then◌else◌,
}
use simple_registry.Disk.{Disk, write_file, mkdir_all, remove_all}
use simple_registry.Disk.Changes.{
  Changes, Changes-refl, Changes-bind, mkdir_all-Changes, remove_all-Changes, write_file-Changes,
}
use simple_registry.Paths.{FilePath, dir_of}
use simple_registry.Filesystem.Blobs.{stats}
use simple_registry.Filesystem.Layout.{Library}
use simple_registry.Filesystem.Uploads.{require, ignore, write_link}

module _ (W : FilePath → Text → Type 0) where
  -- From every disk.
  abbrev pub Always : {A : Type 0} → Action Disk A → Type 0
  Always m = (d : Disk) → Changes W d (m d).1

  pub Always-bind :
      {A B : Type 0} (m : Action Disk A) (f : A → Action Disk B)
      → Always m
      → ((a : A) → Always (f a))
      → Always (m >>= f)
  Always-bind m f h k d = Changes-bind W m f d (h d) (λ a _. k a (m d).1)

  pub Always-lift : {A : Type 0} (r : Result A) → Always (lift r)
  Always-lift r d = Changes-refl W d

  pub Always-if :
      {A : Type 0} (b : Bool) (m n : Action Disk A)
      → (b ≡ true → Always m)
      → Always n
      → Always (if b then m else n)
  Always-if true m n h k = h refl
  Always-if false m n h k = k

  pub Always-require : (b : Bool) (e : Error) → Always (require b e)
  Always-require true e d = Changes-refl W d
  Always-require false e d = Changes-refl W d

  -- What follows a test needs to keep the law only where the test holds.
  pub Always-guard :
      {A : Type 0} (b : Bool) (e : Error) (m : Action Disk A)
      → (b ≡ true → Always m)
      → Always (require b e >> m)
  Always-guard true e m h = h refl
  Always-guard false e m h = λ d. Changes-refl W d

  pub remove_at-Always : (p : FilePath) → Always (stats p >> remove_all p)
  remove_at-Always p =
      Always-bind (stats p) (λ _. remove_all p) (λ d. Changes-refl W d)
        (λ _. remove_all-Changes W p)

  pub write_link-Always :
      (lib : Library) (base p : FilePath) (c : Text) → W p c → Always (write_link lib base p c)
  unfolding write_link
  write_link-Always lib base p c w =
      Always-bind (mkdir_all (dir_of p)) (λ _. write_file p c) (mkdir_all-Changes W (dir_of p))
        (λ _ d. write_file-Changes W p c d w)

  pub ignore-Always : (m : Action Disk (Unit {0})) → Always m → Always (ignore m)
  ignore-Always m h d = h d
