-- ===== src/Gate.antt =====
-- FuseGate of src/presentation/FuseGate.cpp: a G2FException of the joined file system becomes an errno
-- value, any other exception passes.
-- An out parameter is part of the result; its callers give null before the call. The gate's objects
-- are the interfaces INode and IContentHandle, here the record Nodes.
pub mod Handler
mod Tests
use gd2fuse.Base.{
  ℕ, zero, suc, String, Bool, true, false, Option, none, some, List, ◌==◌, nat_eq, if◌then◌else◌,
}
use gd2fuse.Errno.{enoent, eperm, eexist, enotdir, eisdir}
use gd2fuse.FilePath.{Elements, parent_path}
use gd2fuse.FileSystem.{
  Operations, CreateStatus, create_success, create_already_exists, create_forbidden,
  create_bad_path, RemoveStatus, remove_success, remove_not_found, remove_forbidden,
}
use gd2fuse.Outcome.{
  Error, is_g2f, Outcome, ok, threw, fault, out_of_fuel, Cmd, pure, undefined, and_then, ◌>>=◌,
  ◌>>◌,
}

-- A C++ `int` that a call of the kernel is answered with.
pub data ℤ : Type 0 where
  pos negsuc : ℕ → ℤ

-- `-err`
abbrev pub negated : ℕ → ℤ
negated zero = pos 0
negated (suc n) = negsuc n

-- INode and IContentHandle; `A` is `struct stat`. A directory's iterator is the list of what it gives.
pub record Nodes (W N H A : Type 0) : Type 0 where
  pub is_folder : N → W → Bool
  pub name : N → W → String
  pub fill_attr : N → W → A
  pub children : N → Cmd W (Option (List N))
  pub open_content : N → ℕ → Cmd W (Option H)
  pub truncate : N → ℕ → Cmd W ℕ
  pub get_error : H → W → ℕ
  pub use_direct_io : H → W → Bool
  pub handle_attr : H → W → A
  pub read : H → ℕ → ℕ → Cmd W (ℤ × List ℕ)
  pub write : H → List ℕ → ℕ → Cmd W ℤ
  pub flush : H → Cmd W ℕ
  pub close : H → Cmd W (Unit {0})
  pub delete : H → Cmd W (Unit {0})

-- a method that only reads the state
abbrev pub ask : {W A : Type 0} → (W → A) → Cmd W A
ask f s = ok (f s) s

-- The errno of a status; `createFile` and `createDir` differ at a bad path.
abbrev pub create_errno : ℕ → CreateStatus → ℕ
create_errno bad_path create_success = 0
create_errno bad_path create_already_exists = eexist
create_errno bad_path create_forbidden = eperm
create_errno bad_path create_bad_path = bad_path

abbrev pub remove_errno : RemoveStatus → ℕ
remove_errno remove_success = 0
remove_errno remove_not_found = enoent
remove_errno remove_forbidden = eperm

module _ {W : Type 0} (condition : Error → ℕ) where
  -- `catch(const G2FException &e) { return e.code().default_error_condition().value(); }`; the value of
  -- an error's default condition is the library's.
  abbrev caught : {A : Type 0} → A → Outcome W (ℕ × A) → Outcome W (ℕ × A)
  caught a (ok r s) = ok r s
  caught a (threw e s) = if is_g2f e then ok (condition e, a) s else threw e s
  caught a fault = fault
  caught a out_of_fuel = out_of_fuel

  abbrev pub catching : {A : Type 0} → A → Cmd W (ℕ × A) → Cmd W (ℕ × A)
  catching a m s = caught a (m s)

-- `catch(const G2FException &e) { }` and `return nullptr;`
abbrev caught_null : {W N : Type 0} → Outcome W (Option N) → Outcome W (Option N)
caught_null (ok r s) = ok r s
caught_null (threw e s) = if is_g2f e then ok none s else threw e s
caught_null fault = fault
caught_null out_of_fuel = out_of_fuel

module _ {W N H A : Type 0} (fs : Operations W N) (nodes : Nodes W N H A)
    (condition : Error → ℕ) where
  unfoldable pub get_inode : Elements → Cmd W (Option N)
  get_inode path s = caught_null (fs.get path s)

  -- The handle that a node opens, deleted at once if it has an error.
  checked : Option H → Cmd W (ℕ × Option H)
  checked none = undefined
  checked (some chn) = do
    err ← ask (nodes.get_error chn)
    if err == 0 then pure (0, some chn) else (do nodes.delete chn; pure (err, some chn))

  open_found : Option N → ℕ → Cmd W (ℕ × Option H)
  unfolding checked
  open_found none flags = pure (enoent, none)
  open_found (some n) flags = do
    folder ← ask (nodes.is_folder n)
    if folder then pure (eisdir, none) else (do chn ← nodes.open_content n flags; checked chn)

  unfoldable pub open_content : Elements → ℕ → Cmd W (ℕ × Option H)
  unfolding open_found
  open_content path flags = catching condition none (do n ← fs.get path; open_found n flags)

  create_below : Elements → Option N → Cmd W (ℕ × Option N)
  create_below path none = undefined
  create_below path (some parent) = do
    folder ← ask (nodes.is_folder parent)
    if folder
        then (do (s, f) ← fs.create_node path false; pure (create_errno eisdir s, f))
        else pure (enotdir, none)

  create_unless : Elements → Option N → Cmd W (ℕ × Option N)
  unfolding create_below
  create_unless path (some f) = do
    folder ← ask (nodes.is_folder f)
    if folder then pure (eisdir, some f) else pure (0, some f)
  create_unless path none = do n ← fs.get (parent_path path); create_below path n

  unfoldable pub create_file : Elements → Cmd W (ℕ × Option N)
  unfolding create_unless
  create_file path = catching condition none (do f ← fs.get path; create_unless path f)

  unfoldable pub remove_inode : Elements → Cmd W ℕ
  remove_inode path = do
    (err, _) ← catching condition tt (do ret ← fs.remove_node path; pure (remove_errno ret, tt))
    pure err

  unfoldable pub create_dir : Elements → Cmd W (ℕ × Option N)
  create_dir path =
      catching condition none
        (do (s, f) ← fs.create_node path true; pure (create_errno enotdir s, f))

  unfoldable pub rename : Elements → Elements → Cmd W ℕ
  rename old_name new_name = do
    (err, _) ← catching condition tt (do fs.rename_node old_name new_name; pure (0, tt))
    pure err
