-- ===== src/Tree/Content/Handle/Closing.antt =====
-- What closing a handle sends to the cloud.
use gd2fuse.Base.{ℕ, Bool, true, false, ◌≡◌, refl, none, some, List, nat_eq}
use gd2fuse.Node.{Node, Meta, set_meta}
use gd2fuse.Outcome.{Error, ok, threw, ◌>>◌}
use gd2fuse.Tree.{done, failed, Backend, Fs, put}
use gd2fuse.Tree.Memory.{load-ok}
use gd2fuse.Tree.Content.{FileHandle, update_node_content}
use gd2fuse.Tree.Content.Local.{update_node_content-described}
use gd2fuse.Tree.Content.Handle.{Descriptors, handle_write, handle_close, notify_changed}

abbrev pub closed_handle : Bool → FileHandle → FileHandle
closed_handle changed h = record { node = h.node; fd = none; changed = changed; error = 0 }

module _ (b : Backend) (cm : Descriptors b.World) (h : FileHandle) (s : Fs b.World) where
  -- Closing a handle that has not changed closes its descriptor, and neither asks the cloud nor
  -- changes a node.
  pub handle_close-unchanged :
      (v : b.World)
      → h.changed ≡ false
      → cm.close_file h.fd s.world ≡ done tt v
      → handle_close b cm (h, s) ≡ ok tt (closed_handle h.changed h, record s { world = v })
  unfolding handle_close notify_changed
  handle_close-unchanged v same closes = rw (closes, same) refl

  module _ (n : Node) (here : s.heap h.node ≡ some n) where
    -- Writing to a handle and closing it sends the local copy, as it is then, to the cloud, also if
    -- the handle had not changed before: the node is then as the cloud describes it, and no other
    -- node has changed. The calls of the system and of the cloud succeed.
    pub handle_close-write :
        (buf bytes : List ℕ) (offset ret : ℕ) (m : Meta) (u v w x y : b.World)
        → cm.write_content h.fd buf offset s.world ≡ done ret u
        → cm.close_file h.fd u ≡ done tt v
        → b.content_read n.id v ≡ done bytes w
        → b.update_media n.id bytes w ≡ done tt x
        → b.fetch_meta n.id x ≡ done m y
        → (handle_write b cm buf offset >> handle_close b cm) (h, s)
          ≡ ok tt (
            closed_handle true h,
            record s { heap = put s.heap h.node (some (set_meta m n)); world = y },
          )
    unfolding handle_write handle_close notify_changed
    handle_close-write buf bytes offset ret m u v w x y written closes read sent described =
        rw
          (
            written,
            closes,
            update_node_content-described b (record s { world = v }) h.node n here bytes m w x y
                read sent described,
          )
          refl

    -- If the cloud refuses the content, the error gets past `close`: the descriptor is closed, the
    -- node is as it was, and the handle still counts as changed.
    pub handle_close-refused :
        (bytes : List ℕ) (e : Error) (v w x : b.World)
        → h.changed ≡ true
        → cm.close_file h.fd s.world ≡ done tt v
        → b.content_read n.id v ≡ done bytes w
        → b.update_media n.id bytes w ≡ failed e x
        → handle_close b cm (h, s) ≡ threw e (closed_handle h.changed h, record s { world = x })
    unfolding handle_close notify_changed update_node_content
    handle_close-refused bytes e v w x changed closes read refused =
        rw (closes, changed, load-ok h.node (record s { world = v }) here, read, refused) refl
