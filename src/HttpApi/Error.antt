-- ===== src/HttpApi/Error.antt =====
-- http-api/src/error.rs: the errors of the API, and the response to each. The payload that wraps an
-- error of another crate is the text that it shows.
pub mod Statuses
use radicle_client_services.Base.{Text, ℕ, lit, eqb, if◌then◌else◌, Option, none, some, Outcome}

pub data Error : Type 0 where
  git : Text → Error
  missing_namespace missing_default_branch : Error
  tracking local_identity : Text → Error
  not_found : Error
  no_head auth siwe_verification siwe_parse : Text → Error
  identities surf storage pool project_error : Text → Error
  io : Text → Text → Error
  init source env identity_resolve cobs tokio_join_error common : Text → Error

-- the status and the message of `into_response`
unfoldable pub response_of : Error → ℕ × Option Text
response_of not_found = (404, none)
response_of (no_head msg) = (404, some msg)
response_of (auth msg) = (400, some msg)
response_of (siwe_parse msg) = (400, some msg)
response_of (siwe_verification msg) = (400, some msg)
response_of (git msg) = (500, some msg)
response_of _ = (500, none)

-- StatusCode::canonical_reason, of the statuses above
abbrev canonical_reason : ℕ → Option Text
canonical_reason code =
    if eqb code 400
    then some (lit "Bad Request")
    else if eqb code 404
    then some (lit "Not Found")
    else if eqb code 500
    then some (lit "Internal Server Error")
    else none

-- the fields "error" and "code" of the body
abbrev error_text : ℕ × Option Text → Option Text
error_text (code, some msg) = some msg
error_text (code, none) = canonical_reason code

unfoldable pub into_response : Error → ℕ × Option Text
into_response e = ((response_of e).0, error_text (response_of e))

abbrev pub Result : Type 0 → Type 0
Result A = Outcome Error A
