-- ===== src/Tree/Content/Local.antt =====
-- openContent, truncate and updateNodeContent with the local copy of a file.
use gd2fuse.Base.{ℕ, true, false, ◌≡◌, some, List, nat_eq}
use gd2fuse.Cache.{Ptr}
use gd2fuse.Node.{Node, Timespec, is_folder, set_time, access_time, set_meta, Meta}
use gd2fuse.Outcome.{ok}
use gd2fuse.Tree.{Backend, Fs, done, put}
use gd2fuse.Tree.Memory.{load-ok, store-ok}
use gd2fuse.Tree.Content.{
  o_creat, has_flag, fetch_content, will_be_created, fetch_unless, open_content, truncate,
  update_node_content,
}

module _ (b : Backend) (s : Fs b.World) (p : Ptr) (n : Node) (here : s.heap p ≡ some n) where
  -- The state after an opening: the access time and the world.
  abbrev pub opened : Timespec → b.World → Fs b.World
  opened now w = record s { heap = put s.heap p (some (set_time access_time now n)); world = w }

  -- Opening a file without O_CREAT that has no local copy reads it from the cloud and makes the copy
  -- before the copy is opened; the handle does not count as changed, and of the tree only the
  -- access time changes.
  pub open_content-remote :
      (now : Timespec) (flags fd : ℕ) (media : List ℕ) (u v w x : b.World)
      → has_flag flags o_creat ≡ false
      → b.content_is n.id s.world ≡ done false u
      → b.read_media n.id u ≡ done media v
      → b.content_create n.id media v ≡ done tt w
      → b.content_open n.id flags w ≡ done fd x
      → open_content b now p flags s
        ≡ ok (record { node = p; fd = some fd; changed = false; error = 0 }) (opened now x)
  unfolding open_content will_be_created fetch_unless fetch_content
  open_content-remote now flags fd media u v w x plain absent read made opens =
      rw (load-ok p s here, absent, plain, read, made, opens)
        (rw (store-ok p (record s { world = x }) here (set_time access_time now n)))

  -- Opening a file with O_CREAT that has no local copy does not ask the cloud, and its handle counts
  -- as changed.
  pub open_content-new :
      (now : Timespec) (flags fd : ℕ) (u x : b.World)
      → has_flag flags o_creat ≡ true
      → b.content_is n.id s.world ≡ done false u
      → b.content_open n.id flags u ≡ done fd x
      → open_content b now p flags s
        ≡ ok (record { node = p; fd = some fd; changed = true; error = 0 }) (opened now x)
  unfolding open_content will_be_created fetch_unless fetch_content
  open_content-new now flags fd u x creates absent opens =
      rw (load-ok p s here, absent, creates, opens)
        (rw (store-ok p (record s { world = x }) here (set_time access_time now n)))

  -- Truncating a file that has a local copy truncates the copy and leaves every node as it was, also
  -- the size of the file's node.
  pub truncate-keeps_size :
      (new_size : ℕ) (u x : b.World)
      → is_folder n ≡ false
      → b.content_is n.id s.world ≡ done true u
      → b.content_truncate n.id n.size new_size u ≡ done tt x
      → truncate b p new_size s ≡ ok 0 (record s { world = x })
  unfolding truncate fetch_unless
  truncate-keeps_size new_size u x file present cut = rw (load-ok p s here, file, present, cut)

  -- After the content has been sent to the cloud, the node is as the cloud then describes it, and no
  -- other node has changed.
  pub update_node_content-described :
      (bytes : List ℕ) (m : Meta) (u v x : b.World)
      → b.content_read n.id s.world ≡ done bytes u
      → b.update_media n.id bytes u ≡ done tt v
      → b.fetch_meta n.id v ≡ done m x
      → update_node_content b p s
        ≡ ok tt (record s { heap = put s.heap p (some (set_meta m n)); world = x })
  unfolding update_node_content
  update_node_content-described bytes m u v x read sent described =
      rw (load-ok p s here, read, sent, described)
        (store-ok p (record s { world = x }) here (set_meta m n))
