-- ===== src/Directories/Choice.antt =====
-- readDirName and getDir.
use gd2fuse.Base.{String, ◌≡◌, refl, ◌∙◌, Option, some, Bool-cases, inl, inr, [], ◌∷◌, string_eq}
use gd2fuse.FilePath.{Elements}
use gd2fuse.Outcome.{ok, threw, Cmd}
use gd2fuse.Directories.{
  DirType, config_dir, data_dir, cache_dir, runtime_dir, path_error_thrown, Environment,
  dir_or_home, base_dir, read_dir_name, Paths, member, set_member, Disk, create_dir_on_disk,
  known_dir, created_if, get_dir,
}

-- A variable that is set but empty is not taken as unset: the configuration, data and cache directories
-- then can not be determined.
pub read_dir_name-empty :
    {S : Type 0} (env : Environment) (password_dir : Option Elements) (s : S)
    → env "XDG_CONFIG_HOME" ≡ some []
    → env "XDG_DATA_HOME" ≡ some []
    → env "XDG_CACHE_HOME" ≡ some []
    → (read_dir_name env password_dir config_dir s ≡ threw path_error_thrown s)
      × (read_dir_name env password_dir data_dir s ≡ threw path_error_thrown s)
      × (read_dir_name env password_dir cache_dir s ≡ threw path_error_thrown s)
unfolding read_dir_name base_dir dir_or_home
read_dir_name-empty env password_dir s config_set data_set cache_set =
    (rw (config_set, dir_or_home), rw (data_set, dir_or_home), rw (cache_set, dir_or_home))

member-set :
    {W : Type 0} (type : DirType) (p : Elements) (s : Paths W)
    → member type (set_member type p s) ≡ p
member-set config_dir p s = refl
member-set data_dir p s = refl
member-set cache_dir p s = refl
member-set runtime_dir p s = refl

member-disk :
    {W : Type 0} (type : DirType) (w : W) (s : Paths W)
    → member type (record s { disk = w }) ≡ member type s
member-disk config_dir w s = refl
member-disk data_dir w s = refl
member-disk cache_dir w s = refl
member-disk runtime_dir w s = refl

module _ {W : Type 0} (disk : Disk W) (type : DirType) where
  created_if-ok :
      (path : Elements) (s : Paths W)
      → (t : Paths W) × (created_if disk type path s ≡ ok path t) × (member type t ≡ member type s)
  unfolding created_if
  created_if-ok path s = elim (Bool-cases s.auto_create) [
    | inl on ↦ (
      record s { disk = (create_dir_on_disk disk type path s.disk).1 },
      rw on,
      member-disk type _ s,
    )
    | inr off ↦ (s, rw off, refl)
  ]

  known_dir-known :
      (read : DirType → Cmd (Paths W) Elements) (e : String) (p : Elements) (s : Paths W)
      → member type s ≡ e ∷ p
      → known_dir disk read type s ≡ ok (e ∷ p) s
  unfolding known_dir
  known_dir-known read e p s known = rw (known, known_dir)

  known_dir-unknown :
      (read : DirType → Cmd (Paths W) Elements) (p : Elements) (s t : Paths W)
      → member type s ≡ []
      → read type s ≡ ok p t
      → known_dir disk read type s ≡ ok p (set_member type p t)
  unfolding known_dir
  known_dir-unknown read p s t unknown reads = rw (unknown, reads, known_dir)

  -- The first call for a type: the directory that is read is answered, and is the member of that type
  -- from then on.
  pub get_dir-first :
      (read : DirType → Cmd (Paths W) Elements) (p : Elements) (s t : Paths W)
      → member type s ≡ []
      → read type s ≡ ok p t
      → (u : Paths W) × (get_dir disk read type s ≡ ok p u) × (member type u ≡ p)
  unfolding get_dir known_dir
  get_dir-first read p s t unknown reads =
      let (u, runs, kept) = created_if-ok p (set_member type p t) in
      (u, rw (known_dir-unknown read p s t unknown reads) runs, kept ∙ member-set type p t)

  get_dir-known :
      (read : DirType → Cmd (Paths W) Elements) (e : String) (p : Elements) (s : Paths W)
      → member type s ≡ e ∷ p
      → (t : Paths W) × (get_dir disk read type s ≡ ok (e ∷ p) t) × (member type t ≡ e ∷ p)
  unfolding get_dir known_dir
  get_dir-known read e p s known =
      let (t, runs, kept) = created_if-ok (e ∷ p) s in
      (t, rw (known_dir-known read e p s known) runs, kept ∙ known)

  -- Once a directory has been read, as a path that is not empty, each later call gives the same path,
  -- whatever the environment gives then.
  pub get_dir-stays :
      (read later : DirType → Cmd (Paths W) Elements) (e : String) (p : Elements) (s : Paths W)
      → member type s ≡ []
      → read type s ≡ ok (e ∷ p) s
      → (t u : Paths W) × (get_dir disk read type s ≡ ok (e ∷ p) t)
        × (get_dir disk later type t ≡ ok (e ∷ p) u)
  get_dir-stays read later e p s unknown reads =
      let (t, runs, kept) = get_dir-first read (e ∷ p) s s unknown reads in
      let (u, again, _) = get_dir-known later e p t kept in (t, u, runs, again)
