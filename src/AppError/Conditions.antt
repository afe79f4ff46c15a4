-- ===== src/AppError/Conditions.antt =====
-- G2FErrorCategory::equivalent.
use gd2fuse.Base.{ℕ, ◌≡◌, true, ◌==◌, nat_eq, arith}
use gd2fuse.AppError.{
  ErrorCode, success, wrong_app_arguments, http_read_error, http_transport_error, internal_error,
  http_client_error, http_server_error, http_permission_error, http_timeout_error, not_implemented,
  not_supported, couldnt_determine_provider, property_not_found, bad_file_operation,
  error_modify_conf_file, unknown_env_variable, path_error, authentication_failed, md5_error,
  generic_case, equivalent,
}

is_unique : (k c d : ℕ) → (c == k) ≡ true → (d == k) ≡ true → c ≡ d
is_unique k c d h j = ground arith

generic_case_unique :
    (code : ErrorCode) (c d : ℕ) → generic_case code c ≡ true → generic_case code d ≡ true → c ≡ d
unfolding generic_case
generic_case_unique success c d h k = is_unique _ c d h k
generic_case_unique wrong_app_arguments c d h k = is_unique _ c d h k
generic_case_unique http_read_error c d h k = is_unique _ c d h k
generic_case_unique http_transport_error c d h k = is_unique _ c d h k
generic_case_unique internal_error c d h k = cc
generic_case_unique http_client_error c d h k = is_unique _ c d h k
generic_case_unique http_server_error c d h k = is_unique _ c d h k
generic_case_unique http_permission_error c d h k = is_unique _ c d h k
generic_case_unique http_timeout_error c d h k = is_unique _ c d h k
generic_case_unique not_implemented c d h k = is_unique _ c d h k
generic_case_unique not_supported c d h k = is_unique _ c d h k
generic_case_unique couldnt_determine_provider c d h k = is_unique _ c d h k
generic_case_unique property_not_found c d h k = is_unique _ c d h k
generic_case_unique bad_file_operation c d h k = is_unique _ c d h k
generic_case_unique error_modify_conf_file c d h k = is_unique _ c d h k
generic_case_unique unknown_env_variable c d h k = cc
generic_case_unique path_error c d h k = is_unique _ c d h k
generic_case_unique authentication_failed c d h k = is_unique _ c d h k
generic_case_unique md5_error c d h k = cc

-- A code is equivalent to one value of the generic category's conditions at most.
pub equivalent_unique :
    (code : ErrorCode) (c d : ℕ)
    → equivalent code c true ≡ true
    → equivalent code d true ≡ true
    → c ≡ d
unfolding equivalent nat_eq
equivalent_unique success c d h k = ground (arith, generic_case_unique success c d)
equivalent_unique wrong_app_arguments c d h k = generic_case_unique wrong_app_arguments c d h k
equivalent_unique http_read_error c d h k = generic_case_unique http_read_error c d h k
equivalent_unique http_transport_error c d h k = generic_case_unique http_transport_error c d h k
equivalent_unique internal_error c d h k = generic_case_unique internal_error c d h k
equivalent_unique http_client_error c d h k = generic_case_unique http_client_error c d h k
equivalent_unique http_server_error c d h k = generic_case_unique http_server_error c d h k
equivalent_unique http_permission_error c d h k = generic_case_unique http_permission_error c d h k
equivalent_unique http_timeout_error c d h k = generic_case_unique http_timeout_error c d h k
equivalent_unique not_implemented c d h k = generic_case_unique not_implemented c d h k
equivalent_unique not_supported c d h k = generic_case_unique not_supported c d h k
equivalent_unique couldnt_determine_provider c d h k =
    generic_case_unique couldnt_determine_provider c d h k
equivalent_unique property_not_found c d h k = generic_case_unique property_not_found c d h k
equivalent_unique bad_file_operation c d h k = generic_case_unique bad_file_operation c d h k
equivalent_unique error_modify_conf_file c d h k =
    generic_case_unique error_modify_conf_file c d h k
equivalent_unique unknown_env_variable c d h k = generic_case_unique unknown_env_variable c d h k
equivalent_unique path_error c d h k = generic_case_unique path_error c d h k
equivalent_unique authentication_failed c d h k = generic_case_unique authentication_failed c d h k
equivalent_unique md5_error c d h k = generic_case_unique md5_error c d h k
