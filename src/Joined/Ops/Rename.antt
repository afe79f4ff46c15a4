-- ===== src/Joined/Ops/Rename.antt =====
-- A rename from one mounted file system to another.
use gd2fuse.Base.{◌≡◌, ◌≢◌, refl, Option, none, some, nat_eq, list_eq, string_eq, arith}
use gd2fuse.Errno.{enoent}
use gd2fuse.FilePath.{Elements, parent_path}
use gd2fuse.FileSystem.{Operations}
use gd2fuse.Outcome.{
  system_error, Outcome, ok, threw, fault, out_of_fuel, Cmd, pure, and_then, ◌>>◌,
}
use gd2fuse.Outcome.Invariant.{After, Keeps, Keeps-bind}
use gd2fuse.Joined.{MountPtr, FsPtr, Mounts, get_fs}
use gd2fuse.Joined.Ops.{joined_rename, copy, source, destination, target, transfer}
use gd2fuse.Joined.Ops.Laws.{get_fs-Inside}

module _ {W N : Type 0} (systems : FsPtr → Operations W N) (mount_node : MountPtr → N) where
  -- What lookups and copies leave true, in whichever of the file systems.
  pub record KeptByCopies (I : W → Type 0) : Type 0 where
    pub by_get : (f : FsPtr) (p : Elements) → Keeps I ((systems f).get p)
    pub by_replace : (f : FsPtr) (p : Elements) (n : N) → Keeps I ((systems f).replace_node p n)
    pub by_insert : (f : FsPtr) (p : Elements) (n : N) → Keeps I ((systems f).insert_node p n)

  copy-Keeps :
      (I : W → Type 0) (g : FsPtr) (inner' : Elements) (n : N)
      → KeptByCopies I
      → Keeps I (copy systems mount_node (g, inner') n)
  unfolding copy
  copy-Keeps I g inner' n v = Keeps-bind I ((systems g).get inner') _ (v.by_get g inner') put
    where
      put :
          (o : Option N)
          → Keeps I (elim o [
            | some _ ↦ (systems g).replace_node inner' n
            | none ↦ (systems g).insert_node (parent_path inner') n
          ])
      put (some m) = v.by_replace g inner' n
      put none = v.by_insert g (parent_path inner') n

  module _ (t : Mounts) (from to : Elements) (f g : FsPtr) (inner inner' : Elements) where
    -- The removal of the source, whose status is dropped.
    abbrev pub removal : Cmd W (Unit {0})
    removal = (systems f).remove_node inner >> pure tt

    -- How a run ends: with what holds of the state, or with the removal of the source, run from a
    -- state in which the copy to the target has returned and in which it holds still.
    pub data Careful (I : W → Type 0) (o : Outcome W (Unit {0})) : Type 0 where
      untouched : After I o → Careful I o
      copied :
          (n : N) (u w : W)
          → I u
          → copy systems mount_node (g, inner') n u ≡ ok tt w
          → I w
          → o ≡ removal w
          → Careful I o

    -- The paths lead into different file systems.
    pub record Apart : Type 0 where
      pub from_route : get_fs t from ≡ some (f, inner)
      pub to_route : get_fs t to ≡ some (g, inner')
      pub others : f ≢ g

    differ : Apart → from ≢ to
    differ v h = v.others (cc (v.from_route, v.to_route))

    module _ (v : Apart) (s u : W) where
      transfers :
          (n : N)
          → (systems f).get inner s ≡ ok (some n) u
          → joined_rename systems mount_node (some t) from to s
            ≡ and_then (copy systems mount_node (g, inner') n u) (λ _. removal)
      unfolding joined_rename source destination target transfer
      transfers n there =
          let i = get_fs-Inside t from f inner v.from_route in
          let j = get_fs-Inside t to g inner' v.to_route in
          ground (arith, differ v, v.from_route, v.to_route, v.others, there, i.inner, j.inner)

    -- The rest of a rename, by what the lookup of the source gives.
    after_lookup : Outcome W (Option N) → Outcome W (Unit {0})
    after_lookup (ok (some n) u) = and_then (copy systems mount_node (g, inner') n u) (λ _. removal)
    after_lookup (ok none u) = threw (system_error enoent "File '%1' not found") u
    after_lookup (threw e u) = threw e u
    after_lookup fault = fault
    after_lookup out_of_fuel = out_of_fuel

    rename-after_lookup :
        (s : W) (o : Outcome W (Option N))
        → Apart
        → (systems f).get inner s ≡ o
        → joined_rename systems mount_node (some t) from to s ≡ after_lookup o
    unfolding joined_rename source target after_lookup
    rename-after_lookup s (ok (some n) u) v there = transfers v s u n there
    rename-after_lookup s (ok none u) v there = ground (arith, differ v, v.from_route, there)
    rename-after_lookup s (threw e u) v there = ground (arith, differ v, v.from_route, there)
    rename-after_lookup s fault v there = ground (arith, differ v, v.from_route, there)
    rename-after_lookup s out_of_fuel v there = ground (arith, differ v, v.from_route, there)

    module _ (I : W → Type 0) (k : KeptByCopies I) where
      copy-Careful :
          (n : N) (u : W) (o : Outcome W (Unit {0}))
          → I u
          → copy systems mount_node (g, inner') n u ≡ o
          → After I o
          → Careful I (and_then o (λ _. removal))
      copy-Careful n u (ok tt w) i runs h = copied n u w i runs h refl
      copy-Careful n u (threw e w) i runs h = untouched h
      copy-Careful n u fault i runs h = untouched tt
      copy-Careful n u out_of_fuel i runs h = untouched tt

      lookup-Careful : (o : Outcome W (Option N)) → After I o → Careful I (after_lookup o)
      unfolding after_lookup
      lookup-Careful (ok (some n) u) i = copy-Careful n u _ i refl (copy-Keeps I g inner' n k u i)
      lookup-Careful (ok none u) i = untouched i
      lookup-Careful (threw e u) i = untouched i
      lookup-Careful fault i = untouched tt
      lookup-Careful out_of_fuel i = untouched tt

      pub joined_rename-Careful :
          (s : W) → Apart → I s → Careful I (joined_rename systems mount_node (some t) from to s)
      joined_rename-Careful s v i =
          rw (rename-after_lookup s ((systems f).get inner s) v refl)
            (lookup-Careful ((systems f).get inner s) (k.by_get f inner s i))
