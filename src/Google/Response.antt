-- ===== src/Google/Response.antt =====
-- The errors of HTTP responses, and the transport's options.
use gd2fuse.Base.{
  ℕ, ◌<◌, ◌≤◌, ◌≡◌, ◌≢◌, refl, ap, ◌∙◌, ◌⊎◌, inl, inr, true, false, some, [], ◌∷◌, ◌++◌, nat_eq,
  list_eq, arith, Text, codes, to_lower, tolower, drop, ==_false,
}
use native.Mathlib.Decide.{dec_lt}
use gd2fuse.AppError.{ErrorCode, success, http_client_error, http_server_error}
use gd2fuse.Google.{
  HttpResponse, check_http_response, code_error, transport_option, find, starts_with, CaCerts,
  cacerts_path,
}

-- What a code of an answer that is not ok is taken for.
abbrev pub CodeError : ℕ → ErrorCode → Type 0
CodeError code e =
    ((400 ≤ code) × (code < 500) × (e ≡ http_client_error))
    ⊎ ((500 ≤ code) × (code < 600) × (e ≡ http_server_error))
    ⊎ (((code < 400) ⊎ (600 ≤ code)) × (e ≡ success))

code_error_lem : (code : ℕ) → CodeError code (code_error code)
unfolding code_error nat_eq
code_error_lem code = elim (dec_lt code 400) [
  | yes small ↦ inr (inr (inl small, ground arith))
  | no a ↦ elim (dec_lt code 500) [
    | yes client ↦ inl (omega arith, client, ground arith)
    | no b ↦ elim (dec_lt code 600) [
      | yes server ↦ inr (inl (omega arith, server, ground arith))
      | no c ↦ inr (inr (inr (omega arith), ground arith))
    ]
  ]
]

-- A response that arrived, is not ok and whose body can be read again is a client error for the codes
-- from 400 to 499, a server error from 500 to 599, and no error for all others; so a refused
-- permission (401 to 403) and a timeout (408) are told as client errors.
pub check_http_response-CodeError :
    (r : HttpResponse)
    → r.transport_ok ≡ true
    → r.is_ok ≡ false
    → r.reset ≡ true
    → r.reset_again ≡ true
    → CodeError r.http_code (check_http_response r)
unfolding check_http_response
check_http_response-CodeError r transport bad reset again =
    rw (transport, bad, reset, again) (code_error_lem r.http_code)

starts_with-append : (q t : Text) → starts_with q (q ++ t) ≡ true
unfolding starts_with nat_eq
starts_with-append [] t = refl
starts_with-append (a ∷ q) t = ground (arith, starts_with-append q t)

find-prefix : (a : ℕ) (p s : Text) → find (a ∷ p) ((a ∷ p) ++ s) ≡ some 0
unfolding find
find-prefix a p s = rw (starts_with-append (a ∷ p) s) refl

abbrev path_option : Text
path_option = codes "ssl-ca-path="

option-found :
    (prop : Text) (off : ℕ) (opts : CaCerts)
    → to_lower prop ≢ codes "disable-ssl-verify"
    → find path_option (to_lower prop) ≡ some off
    → transport_option prop opts ≡ cacerts_path (drop off (to_lower prop))
unfolding transport_option
option-found prop off opts other found =
    rw (==_false (to_lower prop) (codes "disable-ssl-verify") other) (rw found refl)

lower-option : (path : Text) → to_lower (path_option ++ path) ≡ path_option ++ to_lower path
unfolding tolower
lower-option path = refl

-- The option for the certificates' path is taken with its name: the path that is set is the whole
-- text "ssl-ca-path=…", in lower case.
pub transport_option-ssl_ca_path :
    (path : Text) (opts : CaCerts)
    → transport_option (codes "ssl-ca-path=" ++ path) opts
      ≡ cacerts_path (codes "ssl-ca-path=" ++ to_lower path)
transport_option-ssl_ca_path path opts =
    let lower = lower-option path in
    option-found (path_option ++ path) 0 opts (λ h. ground (arith, lower, h))
      (ap (find path_option) lower ∙ find-prefix b's' (codes "sl-ca-path=") (to_lower path))
    ∙ ap cacerts_path lower
