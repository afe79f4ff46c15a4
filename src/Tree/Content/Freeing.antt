-- ===== src/Tree/Content/Freeing.antt =====
-- Opening, writing and closing files keeps a freed node free.
use gd2fuse.Base.{
  ℕ, String, Bool, true, false, none, some, List, nat_eq, Option-cases, inl, inr, if◌then◌else◌,
}
use gd2fuse.Cache.{Ptr}
use gd2fuse.Node.{Timespec, set_time, access_time, set_meta}
use gd2fuse.Outcome.{Outcome, ok, threw, fault, out_of_fuel, Cmd}
use gd2fuse.Outcome.Invariant.{After, Keeps, After-and_then, Keeps-bind, Keeps-pure, Keeps-if}
use gd2fuse.Tree.{Backend, Fs, load, store, call}
use gd2fuse.Tree.Content.{
  FileHandle, o_creat, o_excl, has_flag, fetch_content, will_be_created, fetch_unless, open_content,
  update_node_content,
}
use gd2fuse.Tree.Content.Handle.{
  Descriptors, Opened, with_handle, on_fs, handle_write, handle_close, handle_destroy,
}
use gd2fuse.Tree.Content.Handle as H
use gd2fuse.Tree.Freed.{Freed, load-Freed, store-Freed, call-Freed}

module _ (b : Backend) (cm : Descriptors b.World) (p : Ptr) where
  abbrev pub IsFreed : Fs b.World → Type 0
  IsFreed = Freed p true

  abbrev pub HandleFreed : Opened b → Type 0
  HandleFreed s = IsFreed s.1

  with_handle-Freed :
      {A : Type 0} (h : FileHandle) (o : Outcome (Fs b.World) A)
      → After IsFreed o
      → After HandleFreed (with_handle b h o)
  with_handle-Freed h (ok a s) i = i
  with_handle-Freed h (threw e s) i = i
  with_handle-Freed h fault i = tt
  with_handle-Freed h out_of_fuel i = tt

  on_fs-Freed :
      {A : Type 0} (m : Cmd (Fs b.World) A) → Keeps IsFreed m → Keeps HandleFreed (on_fs b m)
  on_fs-Freed m k s i = with_handle-Freed s.0 (m s.1) (k s.1 i)

  pub handle_write-Freed :
      (buf : List ℕ) (offset : ℕ) → Keeps HandleFreed (handle_write b cm buf offset)
  unfolding handle_write
  handle_write-Freed buf offset s i =
      After-and_then HandleFreed (on_fs b (call (cm.write_content s.0.fd buf offset)) s) _
        (on_fs-Freed _ (call-Freed p true (cm.write_content s.0.fd buf offset)) s i) (λ ret t j. j)

  update_node_content-Freed : (q : Ptr) → Keeps IsFreed (update_node_content b q)
  unfolding update_node_content
  update_node_content-Freed q = Keeps-bind IsFreed (load q) _ (load-Freed p true q) (λ n.
      Keeps-bind IsFreed (call (b.content_read n.id)) _ (call-Freed p true (b.content_read n.id))
        (λ r.
          Keeps-bind IsFreed (call (b.update_media n.id r)) _
            (call-Freed p true (b.update_media n.id r))
            (λ _.
              Keeps-bind IsFreed (call (b.fetch_meta n.id)) _
                (call-Freed p true (b.fetch_meta n.id))
                (λ m. store-Freed p true q (set_meta m n)))))

  fetch_content-Freed : (id : String) → Keeps IsFreed (fetch_content b id)
  unfolding fetch_content
  fetch_content-Freed id =
      Keeps-bind IsFreed (call (b.read_media id)) _ (call-Freed p true (b.read_media id))
        (λ media. call-Freed p true (b.content_create id media))

  fetch_unless-Freed :
      (id : String) (made there : Bool) → Keeps IsFreed (fetch_unless b id made there)
  unfolding fetch_unless
  fetch_unless-Freed id true there = Keeps-pure IsFreed tt
  fetch_unless-Freed id false true = Keeps-pure IsFreed tt
  fetch_unless-Freed id false false = fetch_content-Freed id

  will_be_created-Freed :
      (id : String) (there : Bool) (flags : ℕ) → Keeps IsFreed (will_be_created b id there flags)
  unfolding will_be_created
  will_be_created-Freed id true flags =
      Keeps-if IsFreed (has_flag flags o_creat) _ _
        (Keeps-if IsFreed (has_flag flags o_excl) _ _ (call-Freed p true (b.content_delete id))
          (Keeps-pure IsFreed false))
        (Keeps-pure IsFreed false)
  will_be_created-Freed id false flags =
      Keeps-if IsFreed (has_flag flags o_creat) _ _ (Keeps-pure IsFreed true)
        (Keeps-pure IsFreed false)

  pub open_content-Freed :
      (now : Timespec) (q : Ptr) (flags : ℕ) → Keeps IsFreed (open_content b now q flags)
  unfolding open_content
  open_content-Freed now q flags = Keeps-bind IsFreed (load q) _ (load-Freed p true q) (λ n.
      Keeps-bind IsFreed (call (b.content_is n.id)) _ (call-Freed p true (b.content_is n.id))
        (λ there.
          Keeps-bind IsFreed (will_be_created b n.id there flags) _
            (will_be_created-Freed n.id there flags)
            (λ made.
              Keeps-bind IsFreed (fetch_unless b n.id made there) _
                (fetch_unless-Freed n.id made there)
                (λ _.
                  Keeps-bind IsFreed (call (b.content_open n.id flags)) _
                    (call-Freed p true (b.content_open n.id flags))
                    (λ fd.
                      Keeps-bind IsFreed (store q (set_time access_time now n)) _
                        (store-Freed p true q (set_time access_time now n)) (λ _. λ s i. i))))))

  notify_changed-Freed : Keeps HandleFreed (H.notify_changed b)
  unfolding H.notify_changed
  notify_changed-Freed s i = changed s.0.changed
    where
      changed :
          (c : Bool)
          → After HandleFreed (if c then on_fs b (update_node_content b s.0.node) s else ok tt s)
      changed true =
          on_fs-Freed (update_node_content b s.0.node) (update_node_content-Freed s.0.node) s i
      changed false = i

  pub handle_close-Freed : Keeps HandleFreed (handle_close b cm)
  unfolding handle_close
  handle_close-Freed s i =
      After-and_then HandleFreed
        (on_fs b (call (cm.close_file s.0.fd)) (record s.0 { error = 0 }, s.1)) _
        (on_fs-Freed _ (call-Freed p true (cm.close_file s.0.fd)) (record s.0 { error = 0 }, s.1) i)
        (λ _ t j. notify_changed-Freed (record t.0 { fd = none }, t.1) j)

  swallowed-Freed :
      (o : Outcome (Fs b.World) (Unit {0})) → After IsFreed o → After IsFreed (H.swallowed b cm o)
  swallowed-Freed (ok a t) i = i
  swallowed-Freed (threw e t) i = i
  swallowed-Freed fault i = tt
  swallowed-Freed out_of_fuel i = tt

  pub handle_destroy-Freed : (h : FileHandle) → Keeps IsFreed (handle_destroy b cm h)
  unfolding handle_destroy
  handle_destroy-Freed h s i = elim (Option-cases h.fd) [
    | inl e ↦ rw (e, After) i
    | inr (fd, e) ↦
        rw (e, After)
          (swallowed-Freed (call (cm.close_file (some fd)) s)
            (call-Freed p true (cm.close_file (some fd)) s i))
  ]
