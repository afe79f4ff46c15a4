-- ===== src/AppError.antt =====
-- The application's error category, src/error/appError.h and appError.cpp.
mod Conditions
use gd2fuse.Base.{ℕ, String, Bool, true, false, ◌==◌, ◌&&◌, ◌||◌, nat_eq, if◌then◌else◌}

-- G2FErrorCodes, without the prefix of the type
pub data ErrorCode : Type 0 where
  success wrong_app_arguments http_read_error http_transport_error internal_error http_client_error
        http_server_error http_permission_error http_timeout_error not_implemented not_supported
        couldnt_determine_provider property_not_found bad_file_operation error_modify_conf_file
        unknown_env_variable path_error authentication_failed md5_error :
      ErrorCode

abbrev pub code_value : ErrorCode → ℕ
code_value success = 0
code_value wrong_app_arguments = 1
code_value http_read_error = 2
code_value http_transport_error = 3
code_value internal_error = 4
code_value http_client_error = 5
code_value http_server_error = 6
code_value http_permission_error = 7
code_value http_timeout_error = 8
code_value not_implemented = 9
code_value not_supported = 10
code_value couldnt_determine_provider = 11
code_value property_not_found = 12
code_value bad_file_operation = 13
code_value error_modify_conf_file = 14
code_value unknown_env_variable = 15
code_value path_error = 16
code_value authentication_failed = 17
code_value md5_error = 18

unfoldable pub message : ErrorCode → String
message success = "Success"
message wrong_app_arguments = "Wrong application arguments"
message http_read_error = "Error of reading HTTP data stream"
message http_transport_error = "HTTP transport error"
message internal_error = "Internal error"
message http_client_error = "HTTP client error"
message http_server_error = "HTTP transport error"
message http_permission_error = "HTTP permission error"
message http_timeout_error = "HTTP timeout error"
message not_implemented = "Not implemented yet"
message not_supported = "Feature is not supported"
message couldnt_determine_provider = "Could not detemine cloud provider by account name"
message property_not_found = "Unknown property"
message bad_file_operation = "Fail to work with file"
message error_modify_conf_file = "Unknown error"
message unknown_env_variable = "Can not find environment variable"
message path_error = "Error in path value"
message authentication_failed = "Authentication failed"
message md5_error = "MD5 error"

-- The values of err::errc on Linux that the category compares with.
abbrev pub errc_io_error : ℕ
errc_io_error = 5

abbrev pub errc_permission_denied : ℕ
errc_permission_denied = 13

abbrev pub errc_bad_address : ℕ
errc_bad_address = 14

abbrev pub errc_invalid_argument : ℕ
errc_invalid_argument = 22

abbrev pub errc_not_supported : ℕ
errc_not_supported = 95

abbrev pub errc_timed_out : ℕ
errc_timed_out = 110

-- The `switch` for a condition of the generic category.
unfoldable pub generic_case : ErrorCode → ℕ → Bool
generic_case success cond = cond == 0
generic_case path_error cond = cond == errc_bad_address
generic_case property_not_found cond = cond == errc_invalid_argument
generic_case couldnt_determine_provider cond = cond == errc_invalid_argument
generic_case wrong_app_arguments cond = cond == errc_invalid_argument
generic_case error_modify_conf_file cond = cond == errc_io_error
generic_case bad_file_operation cond = cond == errc_io_error
generic_case http_read_error cond = cond == errc_io_error
generic_case http_transport_error cond = cond == errc_io_error
generic_case http_client_error cond = cond == errc_io_error
generic_case http_server_error cond = cond == errc_io_error
generic_case authentication_failed cond = cond == errc_permission_denied
generic_case http_permission_error cond = cond == errc_permission_denied
generic_case http_timeout_error cond = cond == errc_timed_out
generic_case not_supported cond = cond == errc_not_supported
generic_case not_implemented cond = cond == errc_not_supported
generic_case internal_error cond = false
generic_case unknown_env_variable cond = false
generic_case md5_error cond = false

-- `equivalent`, with the condition's value and whether its category is the generic one
unfoldable pub equivalent : ErrorCode → ℕ → Bool → Bool
unfolding generic_case
equivalent code cond is_generic =
    if code_value code == 0 && cond == 0
    then true
    else if is_generic
    then generic_case code cond
    else false
