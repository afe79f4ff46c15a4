-- ===== src/Gate/Handler/Throws.antt =====
-- Exceptions and the handlers.
use gd2fuse.Base.{
  ℕ, zero, suc, true, false, ◌≡◌, ◌≢◌, refl, Option, none, some, nat_eq, list_eq, string_eq, arith,
}
use gd2fuse.FilePath.{Elements}
use gd2fuse.FileSystem.{Operations}
use gd2fuse.Outcome.{
  Error, is_g2f, Outcome, ok, threw, fault, out_of_fuel, Cmd, pure, and_then, ◌>>=◌,
}
use gd2fuse.Gate.{
  negated, Nodes, catching, caught, caught_null, get_inode, open_content, remove_inode, create_dir,
  rename,
}
use gd2fuse.Gate.Handler.{
  FileInfo, g2f_getattr, g2f_opendir, g2f_open, g2f_access, g2f_unlink, g2f_mkdir, g2f_rmdir,
  g2f_rename, opened,
}

-- A command that throws no G2FException.
abbrev pub NeverThrowsG2f : {W A : Type 0} → Cmd W A → Type 0
NeverThrowsG2f m = (s s' : _) (e : Error) → is_g2f e ≡ true → m s ≢ threw e s'

-- Of the exceptions of `m`, the first thing that `k` does, `k` lets out those that are no G2FException.
abbrev pub CatchesG2f : {W A B : Type 0} → Cmd W A → Cmd W B → Type 0
CatchesG2f m k =
    NeverThrowsG2f k
    × ((s s' : _) (e : Error) → is_g2f e ≡ false → m s ≡ threw e s' → k s ≡ threw e s')

module _ {W A B : Type 0} where
  then-NeverThrowsG2f :
      (m : Cmd W A) (k : A → Cmd W B)
      → NeverThrowsG2f m
      → ((a : A) → NeverThrowsG2f (k a))
      → NeverThrowsG2f (m >>= k)
  then-NeverThrowsG2f m k first next s s' e g = by_cases (m s) refl
    where
      by_cases : (o : Outcome W A) → m s ≡ o → and_then o k ≢ threw e s'
      by_cases (ok a u) eq = next a u s' e g
      by_cases (threw f u) eq = λ h. first s u f (ground (arith, h, g)) eq
      by_cases fault eq = λ h. cc
      by_cases out_of_fuel eq = λ h. cc

map-NeverThrowsG2f :
    {W A B : Type 0} (m : Cmd W A) (f : A → B)
    → NeverThrowsG2f m
    → NeverThrowsG2f (m >>= λ a. pure (f a))
map-NeverThrowsG2f m f first = then-NeverThrowsG2f m (λ a. pure (f a)) first (λ a s s' e g h. cc)

caught-NeverThrowsG2f :
    {W A : Type 0} (condition : Error → ℕ) (a : A) (m : Cmd W (ℕ × A))
    → NeverThrowsG2f (catching condition a m)
caught-NeverThrowsG2f condition a m s s' e g = by_cases (m s)
  where
    by_cases : (o : Outcome _ _) → caught condition a o ≢ threw e s'
    by_cases (ok r u) h = cc
    by_cases (threw f u) h = ground arith
    by_cases fault h = cc
    by_cases out_of_fuel h = cc

module _ {W N H A : Type 0} (fs : Operations W N) (nodes : Nodes W N H A)
    (condition : Error → ℕ) where
  get_inode-NeverThrowsG2f : (path : Elements) → NeverThrowsG2f (get_inode fs nodes condition path)
  unfolding get_inode
  get_inode-NeverThrowsG2f path s s' e g = by_cases (fs.get path s)
    where
      by_cases : (o : Outcome W (Option N)) → caught_null o ≢ threw e s'
      by_cases (ok r u) h = cc
      by_cases (threw f u) h = ground arith
      by_cases fault h = cc
      by_cases out_of_fuel h = cc

  getattr-NeverThrowsG2f : (path : Elements) → NeverThrowsG2f (g2f_getattr fs nodes condition path)
  unfolding g2f_getattr
  getattr-NeverThrowsG2f path =
      then-NeverThrowsG2f _ _ (get_inode-NeverThrowsG2f path) (λ o s s' e g h. ground arith)

  access-NeverThrowsG2f : (path : Elements) → NeverThrowsG2f (g2f_access fs nodes condition path)
  unfolding g2f_access
  access-NeverThrowsG2f path =
      then-NeverThrowsG2f _ _ (get_inode-NeverThrowsG2f path) (λ o s s' e g h. ground arith)

  opendir-NeverThrowsG2f :
      (path : Elements) (fi : FileInfo N H)
      → NeverThrowsG2f (g2f_opendir fs nodes condition path fi)
  unfolding g2f_opendir
  opendir-NeverThrowsG2f path fi =
      then-NeverThrowsG2f _ _ (get_inode-NeverThrowsG2f path) (λ o s s' e g h. ground arith)

  opened-NeverThrowsG2f :
      (fi : FileInfo N H) (r : ℕ × Option H) → NeverThrowsG2f (opened fs nodes condition fi r.0 r.1)
  unfolding opened
  opened-NeverThrowsG2f fi (zero, none) s s' e g h = cc
  opened-NeverThrowsG2f fi (zero, some chn) s s' e g h = cc
  opened-NeverThrowsG2f fi (suc err, chn) s s' e g h = cc

  open-NeverThrowsG2f :
      (path : Elements) (fi : FileInfo N H) → NeverThrowsG2f (g2f_open fs nodes condition path fi)
  unfolding g2f_open open_content
  open-NeverThrowsG2f path fi =
      then-NeverThrowsG2f _ _ (caught-NeverThrowsG2f condition none _) (opened-NeverThrowsG2f fi)

  remove-NeverThrowsG2f : (path : Elements) → NeverThrowsG2f (remove_inode fs nodes condition path)
  unfolding remove_inode
  remove-NeverThrowsG2f path =
      map-NeverThrowsG2f _ (λ r. r.0) (caught-NeverThrowsG2f condition tt _)

  unlink-NeverThrowsG2f : (path : Elements) → NeverThrowsG2f (g2f_unlink fs nodes condition path)
  unfolding g2f_unlink
  unlink-NeverThrowsG2f path = map-NeverThrowsG2f _ negated (remove-NeverThrowsG2f path)

  rmdir-NeverThrowsG2f : (path : Elements) → NeverThrowsG2f (g2f_rmdir fs nodes condition path)
  unfolding g2f_rmdir
  rmdir-NeverThrowsG2f path = map-NeverThrowsG2f _ negated (remove-NeverThrowsG2f path)

  mkdir-NeverThrowsG2f : (path : Elements) → NeverThrowsG2f (g2f_mkdir fs nodes condition path)
  unfolding g2f_mkdir create_dir
  mkdir-NeverThrowsG2f path =
      map-NeverThrowsG2f _ (λ r. negated r.0) (caught-NeverThrowsG2f condition none _)

  rename-NeverThrowsG2f :
      (path new : Elements) → NeverThrowsG2f (g2f_rename fs nodes condition path new)
  unfolding g2f_rename rename
  rename-NeverThrowsG2f path new =
      map-NeverThrowsG2f _ negated
        (map-NeverThrowsG2f _ (λ r. r.0) (caught-NeverThrowsG2f condition tt _))

  -- For the eight handlers that look up, open, remove, make or rename an entry: no G2FException leaves
  -- one, whatever the file system and its nodes throw, and an exception of another kind that the
  -- handler's first call of the file system throws leaves the handler as it is.
  pub handlers-CatchesG2f :
      (path new : Elements) (fi : FileInfo N H)
      → CatchesG2f (fs.get path) (g2f_getattr fs nodes condition path)
        × CatchesG2f (fs.get path) (g2f_access fs nodes condition path)
        × CatchesG2f (fs.get path) (g2f_opendir fs nodes condition path fi)
        × CatchesG2f (fs.get path) (g2f_open fs nodes condition path fi)
        × CatchesG2f (fs.remove_node path) (g2f_unlink fs nodes condition path)
        × CatchesG2f (fs.remove_node path) (g2f_rmdir fs nodes condition path)
        × CatchesG2f (fs.create_node path true) (g2f_mkdir fs nodes condition path)
        × CatchesG2f (fs.rename_node path new) (g2f_rename fs nodes condition path new)
  unfolding g2f_getattr g2f_access g2f_opendir g2f_open g2f_unlink g2f_rmdir g2f_mkdir g2f_rename
      get_inode open_content remove_inode create_dir rename
  handlers-CatchesG2f path new fi = (
    (getattr-NeverThrowsG2f path, λ s s' e g h. ground arith),
    (access-NeverThrowsG2f path, λ s s' e g h. ground arith),
    (opendir-NeverThrowsG2f path fi, λ s s' e g h. ground arith),
    (open-NeverThrowsG2f path fi, λ s s' e g h. ground arith),
    (unlink-NeverThrowsG2f path, λ s s' e g h. ground arith),
    (rmdir-NeverThrowsG2f path, λ s s' e g h. ground arith),
    (mkdir-NeverThrowsG2f path, λ s s' e g h. ground arith),
    (rename-NeverThrowsG2f path new, λ s s' e g h. ground arith),
  )
