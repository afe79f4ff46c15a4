-- ===== src/Google/Cloud/Refinement.antt =====
-- The methods of GoogleFileSystem against the answers that the tree is proved over.
use gd2fuse.Base.{
  ==_true, ==_false, ℕ, suc, zero, ◌<◌, ◌≡◌, ◌≢◌, refl, String, Bool, true, false, Option, none,
  some, List, [], ◌∷◌, nat_eq, arith, Text, length, Option-cases, inl, inr,
}
use native.Mathlib.Decide.{ℕ_discrete}
use gd2fuse.AppError.{code_value}
use gd2fuse.Node.{Node, Meta, set_meta, is_folder}
use gd2fuse.Outcome.{Outcome, ok, threw, fault, out_of_fuel, Cmd, pure, and_then}
use gd2fuse.Tree.{Answer, done, failed, Backend}
use gd2fuse.Google.{
  Dates, DriveFile, HttpResponse, check_http_response, fill_node, fill_md5, sp2md5sign,
}
use gd2fuse.Google.Filling.{described, fill-steps}
use gd2fuse.Google.Requests.{create_request, update_request}
use gd2fuse.Google.Cloud.{
  DriveService, accepted, on_dest, cloud_fetch_meta, cloud_fetch_children_list, cloud_create_meta,
  cloud_update, cloud_remove, ids_of,
}
use gd2fuse.Google.Cloud.Backend.{
  Local, answered, named, identified, checksum, describe, google_backend,
}

-- A method that fills a node does what the answer says: it sets the answer's description, or throws
-- the answer's error.
abbrev pub Fills : {W : Type 0} → Node → Outcome (Node × W) (Unit {0}) → Answer W Meta → Type 0
Fills n (ok _ (m, w)) a = (x : Meta) × (a ≡ done x w) × (m ≡ set_meta x n)
Fills n (threw e (m, w)) a = a ≡ failed e w
Fills n fault a = ⊥
Fills n out_of_fuel a = ⊥

-- A method that gives a value gives the answer's, or throws its error.
abbrev pub Gives : {W A : Type 0} → Outcome W A → Answer W A → Type 0
Gives (ok x w) a = a ≡ done x w
Gives (threw e w) a = a ≡ failed e w
Gives fault a = ⊥
Gives out_of_fuel a = ⊥

module _ (d : Dates) (svc : DriveService d) (bad : String) where
  checksum-Fills :
      (n : Node) (w : svc.World) (f : DriveFile d) (m : Text)
      → Fills n
          (on_dest w (fill_md5 d bad m (set_meta (described d bad f none) n)))
          (checksum d svc bad f m w)
  unfolding fill_md5 sp2md5sign
  checksum-Fills n w f [] = (described d bad f none, refl, refl)
  checksum-Fills n w f (c ∷ m) = elim (ℕ_discrete (length (c ∷ m)) 32) [
    | no wrong ↦ rw (==_false (length (c ∷ m)) 32 wrong, Fills) refl
    | yes right ↦ elim (Option-cases (d.unhex (c ∷ m))) [
      | inl e ↦ rw (==_true (length (c ∷ m)) 32 right, e, Fills) refl
      | inr (md5, e) ↦
          rw (==_true (length (c ∷ m)) 32 right, e, Fills)
            (described d bad f (some md5), refl, refl)
    ]
  ]

  describe-Fills :
      (n : Node) (w : svc.World) (f : DriveFile d)
      → Fills n (on_dest w (fill_node d bad f n)) (describe d svc bad f w)
  unfolding describe fill_md5
  describe-Fills n w f =
      rw (fill-steps d bad f n, Fills)
        (elim (ℕ_discrete f.file_size 0) [
          | no sized ↦ rw (==_false f.file_size 0 sized) (checksum-Fills n w f f.md5_checksum)
          | yes empty ↦ rw (==_true f.file_size 0 empty, Fills) (described d bad f none, refl, refl)
        ])

  accepted-Fills :
      (what : String) (r : HttpResponse) (n : Node) (w : svc.World)
      (k : Cmd (Node × svc.World) (Unit {0})) (a : Answer svc.World Meta)
      → Fills n (k (n, w)) a
      → Fills n (and_then (accepted what r (n, w)) (λ _. k)) (answered what r a w)
  unfolding accepted answered
  accepted-Fills what r n w k a h = elim (ℕ_discrete (code_value (check_http_response r)) 0) [
    | no refused ↦ rw (==_false (code_value (check_http_response r)) 0 refused, Fills) refl
    | yes fine ↦ rw (==_true (code_value (check_http_response r)) 0 fine) h
  ]

  accepted-Gives :
      {A : Type 0} (what : String) (r : HttpResponse) (w : svc.World) (k : Cmd svc.World A)
      (a : Answer svc.World A)
      → Gives (k w) a
      → Gives (and_then (accepted what r w) (λ _. k)) (answered what r a w)
  unfolding accepted answered
  accepted-Gives what r w k a h = elim (ℕ_discrete (code_value (check_http_response r)) 0) [
    | no refused ↦ rw (==_false (code_value (check_http_response r)) 0 refused, Gives) refl
    | yes fine ↦ rw (==_true (code_value (check_http_response r)) 0 fine) h
  ]

  accepted-last :
      (what : String) (r : HttpResponse) (w : svc.World)
      → Gives (accepted {S = svc.World} what r w) (answered what r (done tt w) w)
  unfolding accepted answered
  accepted-last what r w = elim (ℕ_discrete (code_value (check_http_response r)) 0) [
    | no refused ↦ rw (==_false (code_value (check_http_response r)) 0 refused, Gives) refl
    | yes fine ↦ rw (==_true (code_value (check_http_response r)) 0 fine, Gives) refl
  ]

  -- The request of a new file asks of the node for no more than its name and whether it is a folder.
  create_request-named :
      (n : Node) (parent : String)
      → create_request d n parent ≡ create_request d (named n.name (is_folder n)) parent
  unfolding create_request
  create_request-named n parent = by_type (is_folder n) refl
    where
      by_type :
          (folder : Bool)
          → is_folder n ≡ folder
          → create_request d n parent ≡ create_request d (named n.name folder) parent
      by_type true e = rw e refl
      by_type false e = rw e refl

  -- The request of a new name or parent asks of the node for no more than its name.
  update_request-identified :
      (n : Node) (parent : String) (fields : ℕ)
      → fields < 4
      → update_request d n parent fields ≡ update_request d (identified n.id n.name) parent fields
  unfolding update_request nat_eq
  update_request-identified n parent zero l = refl
  update_request-identified n parent (suc zero) l = refl
  update_request-identified n parent (suc (suc zero)) l = refl
  update_request-identified n parent (suc (suc (suc zero))) l = refl
  update_request-identified n parent (suc (suc (suc (suc k)))) l = absurd (omega (arith, l))

  module _ (local : Local svc.World svc.Body) where
    abbrev backend : Backend
    backend = google_backend d svc bad local

    fetch_meta-Fills :
        (n : Node) (w : svc.World)
        → Fills n (cloud_fetch_meta d svc bad (n, w)) (backend.fetch_meta n.id w)
    unfolding cloud_fetch_meta
    fetch_meta-Fills n w =
        let a = svc.get_file n.id w in
        accepted-Fills "GoogleFS: fail to get node description" a.0.0 n a.1 _ _
          (describe-Fills n a.1 a.0.1)

    create_meta-Fills :
        (n : Node) (parent : String) (w : svc.World)
        → Fills n
            (cloud_create_meta d svc bad parent (n, w))
            (backend.create_meta n.name parent (is_folder n) w)
    unfolding cloud_create_meta
    create_meta-Fills n parent w =
        let a = svc.insert_file (create_request d (named n.name (is_folder n)) parent) w in
        rw (create_request-named n parent) (
          accepted-Fills "GoogleFS: fail to create node" a.0.0 n a.1 _ _
            (describe-Fills n a.1 a.0.1))

    fetch_children-Gives :
        (id : String) (w : svc.World)
        → Gives (cloud_fetch_children_list d svc bad id w) (backend.fetch_children id w)
    unfolding cloud_fetch_children_list
    fetch_children-Gives id w =
        let a = svc.list_children id w in
        accepted-Gives "GoogleFS: Error reading children list" a.0.0 a.1 (pure (ids_of a.0.1)) _
          refl

    update-Gives :
        (n : Node) (parent : String) (fields : ℕ) (w : svc.World)
        → fields ≢ 0
        → fields < 4
        → Gives
            (cloud_update d svc bad n (some parent) fields "" none w)
            (backend.update n.id fields n.name (some parent) w)
    unfolding cloud_update
    update-Gives n parent fields w h l =
        let a =
          svc.update_file n.id (update_request d (identified n.id n.name) parent fields) "" none
            w in
        rw (==_false fields 0 h, update_request-identified n parent fields l)
          (accepted-last "GoogleFS: Fail to update data" a.0 a.1)

    update_media-Gives :
        (n : Node) (parent : Option String) (bytes : List ℕ) (w : svc.World)
        → Gives
            (cloud_update d svc bad n parent 0 "" (some bytes) w)
            (backend.update_media n.id bytes w)
    unfolding cloud_update update_request nat_eq
    update_media-Gives n none bytes w =
        let a = svc.update_file n.id none "" (some bytes) w in
        accepted-last "GoogleFS: Fail to update data" a.0 a.1
    update_media-Gives n (some id) bytes w =
        let a = svc.update_file n.id none "" (some bytes) w in
        accepted-last "GoogleFS: Fail to update data" a.0 a.1

    remove-Gives :
        (n : Node) (w : svc.World) → Gives (cloud_remove d svc bad n w) (backend.remove n.id w)
    unfolding cloud_remove
    remove-Gives n w =
        let a = svc.delete_file n.id w in
        accepted-last "GoogleFS: Fail to remove node id '%1'" a.0 a.1

    -- What each method does, beside the answer that the tree is proved over.
    abbrev pub Refines : Node → String → ℕ → List ℕ → svc.World → Type 0
    Refines n parent fields bytes w =
        Fills n (cloud_fetch_meta d svc bad (n, w)) (backend.fetch_meta n.id w)
        × Fills n (cloud_create_meta d svc bad parent (n, w))
            (backend.create_meta n.name parent (is_folder n) w)
        × Gives (cloud_fetch_children_list d svc bad n.id w) (backend.fetch_children n.id w)
        × Gives (cloud_update d svc bad n (some parent) fields "" none w)
            (backend.update n.id fields n.name (some parent) w)
        × Gives (cloud_update d svc bad n (some parent) 0 "" (some bytes) w)
            (backend.update_media n.id bytes w)
        × Gives (cloud_remove d svc bad n w) (backend.remove n.id w)

    -- The methods of GoogleFileSystem do to a node and to the cloud what the record of answers says that
    -- the tree's operations are modelled over, for a renaming or moving update of any node below a
    -- parent: none of them reads a null pointer, each value or error is the answer's, and a description
    -- that is taken over is the answer's.
    pub google_backend-Refines :
        (n : Node) (parent : String) (fields : ℕ) (bytes : List ℕ) (w : svc.World)
        → fields ≢ 0
        → fields < 4
        → Refines n parent fields bytes w
    google_backend-Refines n parent fields bytes w h l = (
      fetch_meta-Fills n w,
      create_meta-Fills n parent w,
      fetch_children-Gives n.id w,
      update-Gives n parent fields w h l,
      update_media-Gives n (some parent) bytes w,
      remove-Gives n w,
    )
