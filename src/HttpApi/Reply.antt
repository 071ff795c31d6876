-- ===== src/HttpApi/Reply.antt =====
-- The responses of http-api/src: what each handler hands to `Json`, and its errors.
use radicle_client_services.Base.{
  Text, ℕ, ℤ, lit, Assoc, Option, none, some, List, [], ◌∷◌, ◌++◌, Outcome, ok, err, panic, map_err,
  ◌>>=◌,
}
use radicle_client_services.Extern.Peers.{Peers}
use radicle_client_services.Extern.Monorepo.{Monorepo}
use radicle_client_services.Extern.Api.{Api}
use radicle_client_services.Extern.Surf.{Surf}
use radicle_client_services.Extern.Cobs.{Cobs}
use radicle_client_services.HttpApi.Error.{Error, Result, into_response}
use radicle_client_services.HttpApi.Auth.{Siwe, Session, AuthState, authorized, unauthorized}
use radicle_client_services.HttpApi.AxumExtra
use radicle_client_services.HttpApi.AxumExtra.{
  PathRejection, QueryRejection, path_from_request, query_from_request,
}
use radicle_client_services.HttpApi.Commits.{Header}
use radicle_client_services.HttpApi.Projects.{Info}
use radicle_client_services.HttpApi.Cobs.{Shown, Stored}

-- an entry of "links"
pub record Link : Type 0 where
  pub href : Text
  pub rel : Text
  pub type : Text

-- the JSON of the root; the id of the peer is shown
pub record Welcome (P : Peers) : Type 0 where
  pub message : Text
  pub service : Text
  pub version : Text
  pub peer : P.PeerId
  pub path : Text
  pub links : List Link

-- root_handler, for CARGO_PKG_VERSION and GIT_HEAD
unfoldable pub root_handler : {P : Peers} → Text → Text → P.PeerId → Welcome P
root_handler version git_head peer_id = record {
  message = lit "Welcome!";
  service = lit "radicle-http-api";
  version = version ++ (lit "-" ++ git_head);
  peer = peer_id;
  path = lit "/";
  links =
      record { href = lit "/v1/projects"; rel = lit "projects"; type = lit "GET" }
      ∷ record { href = lit "/v1/peer"; rel = lit "peer"; type = lit "GET" }
      ∷ record { href = lit "/v1/delegates/:urn/projects"; rel = lit "projects"; type = lit "GET" }
      ∷ [];
}

module _ {P : Peers} {G : Monorepo P} (X : Api G) {S : Surf G} (C : Cobs S) (W : Siwe) where
  pub data Body : Type 0 where
    no_body : Body
    -- "error" and "code"
    failure : Option Text → ℕ → Body
    rejection : AxumExtra.Error → Body
    welcome : Welcome P → Body
    -- its text
    peer_id : P.PeerId → Body
    counts : ℕ × ℕ → Body
    infos : List (Info G X) → Body
    info : Info G X → Body
    listing : List (Header × Option X.PeerInfo) × S.Stats → Body
    commit : S.Commit × Option X.PeerInfo → Body
    activity : List ℤ → Body
    tree : S.Tree × S.Stats → Body
    remotes : List X.PeerInfo → Body
    heads : Assoc Text → Body
    blob : S.Blob → Body
    patches : List (C.ObjectId × Stored G X S C) → Body
    patch : C.ObjectId × Shown G X S C → Body
    issues : List (C.ObjectId × C.Issue) → Body
    issue : C.ObjectId × C.Issue → Body
    -- "id" and "nonce"; "id" and "session"; "id", "nonce" and "expirationTime"
    created : Text → Text → Body
    session : Text → Session W → Body
    pending : Text → Text → ℕ → Body

  pub record Reply : Type 0 where
    pub status_code : ℕ
    pub cache_control : Option Text
    pub content : Body

  -- a reply or an early return
  abbrev pub Answer : Type 0
  Answer = Outcome Reply Reply

  abbrev pub reply : ℕ → Body → Reply
  reply code content = record { status_code = code; cache_control = none; content = content }

  -- `IntoResponse for Error`
  unfoldable pub failed : Error → Reply
  failed e = reply (into_response e).0 (failure (into_response e).1 (into_response e).0)

  abbrev pub rejected : ℕ × AxumExtra.Error → Reply
  rejected (code, body) = reply code (rejection body)

  -- the arguments of a handler, through the extractors of axum_extra.rs
  unfoldable pub path : {T : Type 0} → Outcome PathRejection T → Outcome Reply T
  path value = map_err rejected (path_from_request value)

  unfoldable pub query : {T : Type 0} → Outcome QueryRejection T → Outcome Reply T
  query value = map_err rejected (query_from_request value)

  -- the result of a handler, with `Json`
  unfoldable pub json : {T : Type 0} → (T → Body) → Result T → Answer
  json body result = do value ← map_err failed result; ok (reply 200 (body value))

  -- the JSON of session_get_handler
  abbrev pub body_of_state : Text → AuthState W → Body
  body_of_state id (authorized s) = session id s
  body_of_state id (unauthorized nonce expiration_time) = pending id nonce expiration_time

  -- SetResponseHeaderLayer::if_not_present, with CACHE_1_HOUR
  abbrev cached : Reply → Reply
  cached r = record r { cache_control = some (lit "public, max-age=3600, must-revalidate") }

  unfoldable pub with_cache : Answer → Answer
  with_cache (ok r) = ok (cached r)
  with_cache (err r) = err (cached r)
  with_cache panic = panic
