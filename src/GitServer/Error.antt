-- ===== src/GitServer/Error.antt =====
-- git-server/src/error.rs: the errors and the HTTP status of each. The payload that wraps an error
-- of another crate is the text that it shows.
use radicle_client_services.Base.{Text, ℕ, Outcome}

-- std::io::ErrorKind, as far as it is told apart
pub data IoErrorKind : Type 0 where
  not_found invalid_input invalid_data other_kind : IoErrorKind

pub data Error : Type 0 where
  io : IoErrorKind → Error
  unsupported_content_encoding service_unavailable : Text → Error
  http : Text → Error
  backend no_default_branch : Error
  custom_hook : IoErrorKind → Error
  failed_certificate_verification : Error
  unauthorized post_receive : Text → Error
  -- the fields `actual` and `expected`
  key_mismatch : Text → Text → Error
  alias_not_found invalid_id invalid_peer_id : Error
  invalid_ref_pushed : Text → Error
  namespace_not_found reference_not_found radicle_identity_not_found : Error
  var_error git2_error missing_certificate_signer_credentials : Text → Error
  env_config_error utf8_error profile : Text → Error
  unix_socket : Error
  init identities verify_identity pool stored track previous_error : Text → Error
  invalid_header_name invalid_header_value : Text → Error

-- Error::status
unfoldable pub status : Error → ℕ
status (unsupported_content_encoding s) = 501
status (service_unavailable s) = 503
status (unauthorized s) = 401
status (key_mismatch a b) = 401
status alias_not_found = 404
status invalid_id = 404
status _ = 500

abbrev pub Result : Type 0 → Type 0
Result A = Outcome Error A
