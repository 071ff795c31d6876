-- ===== src/HttpApi/AxumExtra.antt =====
-- http-api/src/axum_extra.rs: what is answered if a path or a query cannot be read.
use radicle_client_services.Base.{Text, ℕ, Bool, false, Outcome, map_err}

-- axum's rejections, as far as they are matched on, with what the payload shows
pub data ErrorKind : Type 0 where
  message other_kind : Text → ErrorKind

pub data PathRejection : Type 0 where
  failed_to_deserialize_path_params : ErrorKind → PathRejection
  other_path_rejection : Text → PathRejection

pub data QueryRejection : Type 0 where
  failed_to_deserialize_query_string other_query_rejection : Text → QueryRejection

pub record Error : Type 0 where
  pub success : Bool
  pub error : Text

abbrev rejected : Text → ℕ × Error
rejected text = (400, record { success = false; error = text })

unfoldable pub path_error : PathRejection → Text
path_error (failed_to_deserialize_path_params (message msg)) = msg
path_error (failed_to_deserialize_path_params (other_kind kind)) = kind
path_error (other_path_rejection text) = text

unfoldable pub query_error : QueryRejection → Text
query_error (failed_to_deserialize_query_string text) = text
query_error (other_query_rejection text) = text

-- `from_request` of Path and of Query, for what axum's extractor returns
unfoldable pub path_from_request : {A : Type 0} → Outcome PathRejection A → Outcome (ℕ × Error) A
path_from_request value = map_err (λ r. rejected (path_error r)) value

unfoldable pub query_from_request : {A : Type 0} → Outcome QueryRejection A → Outcome (ℕ × Error) A
query_from_request value = map_err (λ r. rejected (query_error r)) value
