-- ===== src/Google/Session/Lazy.antt =====
-- What a session keeps of its credential and its file system.
use gd2fuse.Base.{◌≡◌, ◌≢◌, refl, Bool, true, false, Option, none, some, Text}
use gd2fuse.Outcome.{Outcome, ok, threw, fault, out_of_fuel, Cmd, pure, and_then, ◌>>=◌}
use gd2fuse.Google.Auth.{Library}
use gd2fuse.Google.Session.{
  Dirs, State, on_world, in_session, make_fs, authorize, get_auth_cred, fs_arguments,
  get_file_system,
}

-- A command that returns or throws.
abbrev pub Returns : {S A : Type 0} → Outcome S A → Type 0
Returns (ok a s) = Unit
Returns (threw e s) = Unit
Returns fault = ⊥
Returns out_of_fuel = ⊥

module _ {W D F : Type 0} (lib : Library W) (dirs : Dirs W D)
    (new_fs : D → lib.Credential → W → F × W) (secret_app_key acc_id : Text) where
  abbrev pub Session : Type 0
  Session = State lib dirs new_fs secret_app_key acc_id

  abbrev pub served : Session → Outcome Session F
  served = get_file_system lib dirs new_fs secret_app_key acc_id

  abbrev pub authorized : Session → Outcome Session lib.Credential
  authorized = get_auth_cred lib dirs new_fs secret_app_key acc_id

  -- A session without a file system, which has the credential of `before`, if there is one.
  pub record Grown (before after : Session) : Type 0 where
    pub unserved : after.fs ≡ none
    pub kept : (c : lib.Credential) → before.auth_cred ≡ some c → after.auth_cred ≡ some c

  -- What a call of getFileSystem in the session `s`, which has no file system yet, leaves.
  abbrev pub Serves : Session → Outcome Session F → Type 0
  Serves s (ok f t) =
      (served t ≡ ok f t)
      × ((c : lib.Credential) × (authorized t ≡ ok c t)
          × ((d : lib.Credential) → s.auth_cred ≡ some d → c ≡ d))
  Serves s (threw e t) = Grown s t
  Serves s fault = ⊥
  Serves s out_of_fuel = ⊥

  Grown-refl : (s : Session) → s.fs ≡ none → Grown s s
  Grown-refl s h = record { unserved = h; kept = λ c k. k }

  -- What is asked of a step on the way to the arguments.
  abbrev Way : {A : Type 0} → (A → Session → Type 0) → Session → Outcome Session A → Type 0
  Way P s (ok a t) = Grown s t × P a t
  Way P s (threw e t) = Grown s t
  Way P s fault = ⊥
  Way P s out_of_fuel = ⊥

  Way-and_then :
      {A B : Type 0} (P : A → Session → Type 0) (Q : B → Session → Type 0) (s : Session)
      (o : Outcome Session A) (k : A → Cmd Session B)
      → Way P s o
      → ((a : A) (t : Session) → Grown s t → P a t → Way Q s (k a t))
      → Way Q s (and_then o k)
  Way-and_then P Q s (ok a t) k h hk = hk a t h.0 h.1
  Way-and_then P Q s (threw e t) k h hk = h
  Way-and_then P Q s fault k h hk = h
  Way-and_then P Q s out_of_fuel k h hk = h

  -- The credential is the session's.
  abbrev Has : lib.Credential → Session → Type 0
  Has c t = t.auth_cred ≡ some c

  data_dir-Way :
      {c : Option lib.Credential} (s t : Session)
      → ((w : W) → Returns (dirs.data_dir w))
      → Grown s t
      → t.auth_cred ≡ c
      → Way
          (λ d u. u.auth_cred ≡ c)
          s
          (on_world lib dirs new_fs secret_app_key acc_id dirs.data_dir t)
  data_dir-Way {c} s t returns g has = by_cases (dirs.data_dir t.world) (returns t.world)
    where
      by_cases :
          (o : Outcome W D)
          → Returns o
          → Way (λ d u. u.auth_cred ≡ c) s (in_session lib dirs new_fs secret_app_key acc_id t o)
      by_cases (ok d w) r = (record { unserved = g.unserved; kept = g.kept }, has)
      by_cases (threw e w) r = record { unserved = g.unserved; kept = g.kept }
      by_cases fault r = r
      by_cases out_of_fuel r = r

  authorize-Way :
      (s : Session) (cred : Option lib.Credential) (f : Option F) (w : W)
      → ((v : W) → Returns (authorize lib dirs new_fs secret_app_key acc_id v))
      → Grown s (record { auth_cred = cred; fs = f; world = w })
      → Way Has s (authorized (record { auth_cred = cred; fs = f; world = w }))
  unfolding get_auth_cred
  authorize-Way s (some c) f w returns g = (g, refl)
  authorize-Way s none f w returns g =
      by_cases (authorize lib dirs new_fs secret_app_key acc_id w) (returns w)
    where
      differ : {d : lib.Credential} → ◌≢◌ {A = Option lib.Credential} none (some d)
      differ h = cc

      by_cases :
          (o : Outcome W lib.Credential)
          → Returns o
          → Way Has s (
              and_then
                (in_session lib dirs new_fs secret_app_key acc_id
                  (record { auth_cred = none; fs = f; world = w })
                  o)
                (λ c u. ok c (record u { auth_cred = some c })))
      by_cases (ok c v) r =
          (record { unserved = g.unserved; kept = λ d k. absurd (differ (g.kept d k)) }, refl)
      by_cases (threw e v) r = record { unserved = g.unserved; kept = g.kept }
      by_cases fault r = r
      by_cases out_of_fuel r = r

  Arguments : D × lib.Credential → Session → Type 0
  Arguments (d, c) t = t.auth_cred ≡ some c

  module _ (authorizes : (w : W) → Returns (authorize lib dirs new_fs secret_app_key acc_id w))
      (finds : (w : W) → Returns (dirs.data_dir w)) where
    fs_arguments-Way :
        (s : Session) (order : Bool)
        → s.fs ≡ none
        → Way Arguments s (fs_arguments lib dirs new_fs secret_app_key acc_id order s)
    unfolding fs_arguments Arguments
    fs_arguments-Way s true fresh =
        Way-and_then Has Arguments s (authorized s)
          (λ c. on_world lib dirs new_fs secret_app_key acc_id dirs.data_dir >>= λ d. pure (d, c))
          (authorize-Way s s.auth_cred s.fs s.world authorizes (Grown-refl s fresh))
          (λ c t g has.
            Way-and_then (λ d u. u.auth_cred ≡ some c) Arguments s
              (on_world lib dirs new_fs secret_app_key acc_id dirs.data_dir t) (λ d. pure (d, c))
              (data_dir-Way s t finds g has) (λ d u h same. (h, same)))
    fs_arguments-Way s false fresh =
        Way-and_then (λ d u. u.auth_cred ≡ s.auth_cred) Arguments s
          (on_world lib dirs new_fs secret_app_key acc_id dirs.data_dir s)
          (λ d. get_auth_cred lib dirs new_fs secret_app_key acc_id >>= λ c. pure (d, c))
          (data_dir-Way s s finds (Grown-refl s fresh) refl)
          (λ d t g same.
            Way-and_then Has Arguments s (authorized t) (λ c. pure (d, c))
              (authorize-Way s t.auth_cred t.fs t.world authorizes g) (λ c u h has. (h, has)))

    known :
        (c : lib.Credential) (cred : Option lib.Credential) (f : Option F) (w : W)
        → cred ≡ some c
        → authorized (record { auth_cred = cred; fs = f; world = w })
          ≡ ok c (record { auth_cred = cred; fs = f; world = w })
    unfolding get_auth_cred
    known c none f w h = absurd (cc)
    known c (some d) f w h = cc

    made-Serves :
        (s : Session) (o : Outcome Session (D × lib.Credential))
        → Way Arguments s o
        → Serves s (and_then o (λ x. make_fs lib dirs new_fs secret_app_key acc_id x.0 x.1))
    unfolding get_file_system Arguments
    made-Serves s (ok (d, c) t) (g, has) =
        (refl, (c, known c t.auth_cred _ _ has, λ e k. same (g.kept e k)))
      where
        same : {e : lib.Credential} → t.auth_cred ≡ some e → c ≡ e
        same h = cc
    made-Serves s (threw e t) g = g
    made-Serves s fault g = g
    made-Serves s out_of_fuel g = g

    get-fresh :
        (cred : Option lib.Credential) (f : Option F) (w : W)
        → f ≡ none
        → served (record { auth_cred = cred; fs = f; world = w })
          ≡ and_then
              (fs_arguments lib dirs new_fs secret_app_key acc_id dirs.right_to_left
                (record { auth_cred = cred; fs = f; world = w }))
              (λ x. make_fs lib dirs new_fs secret_app_key acc_id x.0 x.1)
    unfolding get_file_system
    get-fresh cred none w h = refl
    get-fresh cred (some f) w h = absurd (cc)

    -- If the authorization and the lookup of the data directory return or throw, getFileSystem of a
    -- session without a file system does, whichever argument is evaluated first. If it returns,
    -- later calls give the same file system and the session's credential, and change nothing, and a
    -- credential that the session had is kept. If it throws, the session has no file system, and
    -- still the credential that it had.
    pub get_file_system-Serves : (s : Session) → s.fs ≡ none → Serves s (served s)
    get_file_system-Serves s fresh =
        rw (get-fresh s.auth_cred s.fs s.world fresh)
          (made-Serves s _ (fs_arguments-Way s dirs.right_to_left fresh))
