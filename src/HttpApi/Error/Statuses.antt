-- ===== src/HttpApi/Error/Statuses.antt =====
-- The statuses of the API, and that the response to an error (http-api/src/error.rs) has one.
use radicle_client_services.Base.{ℕ, List, [], ◌∷◌, Has, arith}
use radicle_client_services.HttpApi.Error.{Error, response_of, into_response}

abbrev pub statuses : List ℕ
statuses = 200 ∷ 302 ∷ 400 ∷ 404 ∷ 405 ∷ 500 ∷ []

pub into_response-status : (e : Error) → Has (into_response e).0 statuses
unfolding into_response response_of
into_response-status (Error.git _) = ground arith
into_response-status (Error.tracking _) = ground arith
into_response-status (Error.local_identity _) = ground arith
into_response-status (Error.no_head _) = ground arith
into_response-status (Error.auth _) = ground arith
into_response-status (Error.siwe_verification _) = ground arith
into_response-status (Error.siwe_parse _) = ground arith
into_response-status (Error.identities _) = ground arith
into_response-status (Error.surf _) = ground arith
into_response-status (Error.storage _) = ground arith
into_response-status (Error.pool _) = ground arith
into_response-status (Error.project_error _) = ground arith
into_response-status (Error.init _) = ground arith
into_response-status (Error.source _) = ground arith
into_response-status (Error.env _) = ground arith
into_response-status (Error.identity_resolve _) = ground arith
into_response-status (Error.cobs _) = ground arith
into_response-status (Error.tokio_join_error _) = ground arith
into_response-status (Error.common _) = ground arith
into_response-status (Error.io _ _) = ground arith
into_response-status Error.missing_namespace = ground arith
into_response-status Error.missing_default_branch = ground arith
into_response-status Error.not_found = ground arith
