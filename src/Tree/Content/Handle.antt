-- ===== src/Tree/Content/Handle.antt =====
-- FileHandle and getDirectoryIterator of src/fs/AbstractFileSystem.cpp. A handle is a state beside the
-- file system's; its descriptor is of the content manager, whose operations on open files are a
-- parameter.
pub mod Closing
mod Tests
use gd2fuse.Base.{ℕ, Bool, true, false, not, Option, none, some, List, if◌then◌else◌}
use gd2fuse.Cache.{Ptr}
use gd2fuse.Node.{is_folder, Timespec, set_time, access_time}
use gd2fuse.Outcome.{Outcome, ok, threw, fault, out_of_fuel, Cmd, pure, and_then, ◌>>=◌, ◌>>◌}
use gd2fuse.Tree.{Answer, done, failed, Backend, Fs, load, store, call}
use gd2fuse.Tree.Content.{FileHandle, update_node_content}
use gd2fuse.Tree.Lookup.{fill_dir}

-- readContent, writeContent and closeFile of the content manager
pub record Descriptors (W : Type 0) : Type 0 where
  pub read_content : Option ℕ → ℕ → ℕ → W → Answer W (List ℕ)
  pub write_content : Option ℕ → List ℕ → ℕ → W → Answer W ℕ
  pub close_file : Option ℕ → W → Answer W (Unit {0})

module _ (b : Backend) where
  abbrev pub Opened : Type 0
  Opened = FileHandle × Fs b.World

  abbrev pub with_handle : {A : Type 0} → FileHandle → Outcome (Fs b.World) A → Outcome Opened A
  with_handle h (ok a s) = ok a (h, s)
  with_handle h (threw e s) = threw e (h, s)
  with_handle h fault = fault
  with_handle h out_of_fuel = out_of_fuel

  abbrev pub on_fs : {A : Type 0} → Cmd (Fs b.World) A → Cmd Opened A
  on_fs m s = with_handle s.0 (m s.1)

  abbrev pub set_handle : (FileHandle → FileHandle) → Cmd Opened (Unit {0})
  set_handle f s = ok tt (f s.0, s.1)

  -- `if(_changed) onContentChange(*_n)`: the file system has subscribed updateNodeContent
  unfoldable pub notify_changed : Cmd Opened (Unit {0})
  unfolding update_node_content
  notify_changed s = if s.0.changed then on_fs (update_node_content b s.0.node) s else ok tt s

  module _ (cm : Descriptors b.World) where
    unfoldable pub handle_read : ℕ → ℕ → Cmd Opened (List ℕ)
    handle_read len offset s = on_fs (call (cm.read_content s.0.fd len offset)) s

    unfoldable pub handle_write : List ℕ → ℕ → Cmd Opened ℕ
    handle_write buf offset s =
        (do
          ret ← on_fs (call (cm.write_content s.0.fd buf offset))
          set_handle (λ h. record h { changed = true })
          pure ret)
          s

    unfoldable pub handle_flush : Cmd Opened ℕ
    handle_flush = set_handle (λ h. record h { error = 0 }) >> pure 0

    unfoldable pub handle_close : Cmd Opened (Unit {0})
    unfolding notify_changed
    handle_close s =
        (do
          set_handle (λ h. record h { error = 0 })
          on_fs (call (cm.close_file s.0.fd))
          set_handle (λ h. record h { fd = none })
          notify_changed)
          s

    -- `catch(...)`
    abbrev pub swallowed : Outcome (Fs b.World) (Unit {0}) → Outcome (Fs b.World) (Unit {0})
    swallowed (threw e s) = ok tt s
    swallowed o = o

    -- the destructor
    unfoldable pub handle_destroy : FileHandle → Cmd (Fs b.World) (Unit {0})
    handle_destroy h s = elim h.fd [
      | none ↦ ok tt s
      | some fd ↦ swallowed (call (cm.close_file (some fd)) s)
    ]

  -- getDirectoryIterator: the children, or no iterator for a file
  unfoldable pub get_directory_iterator : Timespec → Ptr → Cmd (Fs b.World) (Option (List Ptr))
  unfolding load store fill_dir set_time
  get_directory_iterator now p = do
    n ← load p
    if not (is_folder n) then pure none else (do
      if n.dir_filled then pure tt else fill_dir b p
      m ← load p
      store p (set_time access_time now m)
      pure (some m.next))
