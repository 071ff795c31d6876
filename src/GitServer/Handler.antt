-- ===== src/GitServer/Handler.antt =====
-- `git_handler` and `git` of git-server/src/lib.rs: from a request to the environment and the input
-- of git-http-backend, and from its output to the response.
pub mod Gate
pub mod Environment
pub mod Flag
pub mod Given
pub mod Serving
use radicle_client_services.Base.{
  Text, ℕ, lit, ◌==◌, ◌||◌, Bool, true, false, if◌then◌else◌, Assoc, get, insert, head?, map, join,
  eqb, get_or_else, Option, none, some, List, [], ◌∷◌, ◌++◌, Outcome, ok, err, panic, ok_or,
  map_err, ensure, ◌>>=◌, ◌>>◌,
}
use radicle_client_services.Base.Action.{Action, lift}
use radicle_client_services.Base.Action
use radicle_client_services.Extern.Peers.{Peers}
use radicle_client_services.Extern.Monorepo.{Monorepo}
use radicle_client_services.Extern.Backend.{Backend, Output}
use radicle_client_services.GitServer.Error.{
  Error, Result, IoErrorKind, io, service_unavailable, backend, invalid_header_name,
  invalid_header_value,
}
use radicle_client_services.GitServer.Context.{Context, load_authorized_keys, Meta, get_meta}
use radicle_client_services.GitServer.Alias.{Aliases, resolve_project}
use radicle_client_services.GitServer.Body.{copy_body}
use radicle_client_services.GitServer.Response.{Headers, parse_reply}

-- The request: its method, its headers through `HeaderValue::to_str` (none if it is not text), the
-- address of the client, and the parts of its URI.
pub record Request : Type 0 where
  pub method : Text
  pub header : Text → Option (Option Text)
  pub remote_ip : Text
  pub remote : Text
  pub project_id : Text
  pub path : Text
  pub query : Option Text

-- `if let Some(Ok(content_type)) = headers.get(…)`
unfoldable pub content_type : Request → Text
content_type r = get_or_else (get_or_else (r.header (lit "Content-Type")) none) []

-- `matches!(…, Some(Ok("gzip")))`
unfoldable pub is_gzip : Request → Bool
is_gzip r = get_or_else (get_or_else (r.header (lit "Content-Encoding")) none) [] == lit "gzip"

-- the match on the path and the query, as a test and as what it does
unfoldable pub is_receive_pack : Text → Text → Bool
is_receive_pack path query =
    path == lit "git-receive-pack" || query == lit "service=git-receive-pack"

unfoldable pub keys_for : Context → Backend → Text → Text → Result (List Text)
keys_for ctx B path query =
    if is_receive_pack path query
    then (ensure ctx.git_receive_pack (service_unavailable (lit "git-receive-pack"))
        >> load_authorized_keys B)
    else ok []

-- `Path::new("/").join(path)`
unfoldable pub join_root : Text → Text
join_root [] = lit "/"
join_root (b ∷ path) = if eqb b b'/' then b ∷ path else b'/' ∷ b ∷ path

abbrev pub Env : Type 0
Env = List (Text × Text)

-- a variable that is set if there is something to set it to
abbrev pub var_if : Bool → Text → Text → Env
var_if true k v = (k, v) ∷ []
var_if false k v = []

abbrev pub var_of : Text → Option Text → Env
var_of k none = []
var_of k (some v) = (k, v) ∷ []

-- `if !xs.is_empty() { cmd.env(k, xs.join(",")) }`
abbrev pub var_list : Text → List Text → Env
var_list k [] = []
var_list k (x ∷ xs) = (k, join b',' (x ∷ xs)) ∷ []

-- the variables of every request
unfoldable pub request_env : Context → Text → Text → Request → Env
request_env ctx git_dir namespace r =
    (lit "RADICLE_RECEIVE_HOOK", ctx.git_receive_hook)
    ∷ (lit "REQUEST_METHOD", r.method)
    ∷ (lit "GIT_PROJECT_ROOT", git_dir)
    ∷ (lit "GIT_NAMESPACE", namespace)
    ∷ (lit "PATH_INFO", join_root r.path)
    ∷ (lit "CONTENT_TYPE", content_type r)
    ∷ (lit "REMOTE_USER", r.remote_ip)
    ∷ (lit "REMOTE_ADDR", r.remote)
    ∷ (lit "QUERY_STRING", get_or_else r.query [])
    ∷ (lit "GIT_HTTP_EXPORT_ALL", [])
    ∷ []

-- the match on `child.wait_with_output()`
unfoldable pub reply_of : Backend → Outcome IoErrorKind Output → Result (ℕ × Headers × Text)
reply_of B (ok output) =
    if output.success then parse_reply B.parse_status output.stdout else err backend
reply_of B (err kind) = panic
reply_of B panic = panic

-- the loops over the headers of the reply: `HeaderMap::insert` puts a value in place of the last
unfoldable pub insert_values : Backend → Text → List Text → Assoc Text → Result (Assoc Text)
insert_values B name [] out = ok out
insert_values B name (v ∷ vs) out = do
  header ← ok_or (invalid_header_name name) (B.header_name name)
  value ← ok_or (invalid_header_value v) (B.header_value v)
  insert_values B name vs (insert header value out)

unfoldable pub insert_headers : Backend → Headers → Assoc Text → Result (Assoc Text)
insert_headers B [] out = ok out
insert_headers B ((name, vs) ∷ hs) out = do
  out' ← insert_values B name vs out
  insert_headers B hs out'

pub record Response : Type 0 where
  pub status_code : ℕ
  pub response_headers : Assoc Text
  pub content : Text

module _ {P : Peers} (G : Monorepo P) where
  abbrev pub encoded : Option P.PeerId → Option Text
  encoded none = none
  encoded (some peer) = some (P.default_encoding peer)

  -- all that the command is given: the variables that speak of keys and of the identity, if there
  -- are any, and those of every request
  unfoldable pub command_env :
      Context → List Text → Meta G → Option P.PeerId → Text → G.Urn → Request → Env
  command_env ctx keys (name, delegates, branch) peer git_dir urn r =
      var_list (lit "RADICLE_AUTHORIZED_KEYS") keys
      ++ (var_list (lit "RADICLE_DELEGATES") (map P.default_encoding delegates)
          ++ (var_if ctx.allow_unauthorized_keys (lit "RADICLE_ALLOW_UNAUTHORIZED_KEYS")
                (lit "true")
              ++ (var_of (lit "RADICLE_NAME") name
                  ++ (var_of (lit "RADICLE_PEER_ID") (encoded peer)
                      ++ (var_of (lit "RADICLE_DEFAULT_BRANCH") branch
                          ++ (var_of (lit "RADICLE_ROOT") ctx.root
                              ++ (request_env ctx git_dir (G.encode_id urn) r)))))))

  unfoldable pub git :
      Context
      → (B : Backend) → G.Store
      → G.Urn
      → Option P.PeerId
      → Request
      → B.Body
      → Result (ℕ × Headers × Text)
  git ctx B s urn peer r body = do
    authorized_keys ← keys_for ctx B r.path (get_or_else r.query [])
    meta ← get_meta G s urn
    git_dir ← map_err io B.canonical_git_dir
    let env = command_env ctx authorized_keys meta peer git_dir urn r
    u ← map_err io (B.spawn env)
    input ← map_err io (if is_gzip r then B.gunzip body else copy_body B body)
    reply_of B (B.wait_with_output env input)

  unfoldable pub respond : Backend → ℕ × Headers × Text → Result Response
  respond B (code, headers, body) = do
    response_headers ← insert_headers B (B.iterate_headers headers) []
    ok (record { status_code = code; response_headers = response_headers; content = body })

  unfoldable pub git_handler :
      Context → (B : Backend) → G.Store → Request → B.Body → Action (Aliases G) Error Response
  git_handler ctx B s r body =
      Action.◌>>=◌ (resolve_project G s r.project_id)
        λ urn. lift (git ctx B s urn none r body >>= respond B)
