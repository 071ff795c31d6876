-- ===== src/Extern/Axum.antt =====
-- What axum and serde read of a request to the API.
use radicle_client_services.Base.{Text, ℕ, Bool, Option, List, Outcome}
use radicle_client_services.Extern.Peers.{Peers}
use radicle_client_services.Extern.Monorepo.{Monorepo}
use radicle_client_services.Extern.Surf.{Surf}
use radicle_client_services.Extern.Cobs.{Cobs}
use radicle_client_services.HttpApi.Auth.{Siwe, AuthRequest}
use radicle_client_services.HttpApi.AxumExtra.{PathRejection, QueryRejection}
use radicle_client_services.HttpApi.Commits.{CommitsQuery}
use radicle_client_services.HttpApi.Source.{BlobQuery}

-- axum::routing::get, post and put
pub data MethodFilter : Type 0 where
  on_get on_post on_put : MethodFilter

pub record Axum {P : Peers} {G : Monorepo P} {S : Surf G} (C : Cobs S) (W : Siwe) : Type 1 where
  pub Request : Type 0
  -- whether a method router takes the method of the request; get also takes HEAD
  pub takes : MethodFilter → Request → Bool
  -- which of the patterns of a router matches the path of the request, with its parameters
  pub Params : Type 0
  pub matched : List Text → Request → Option (Text × Params)
  -- axum::extract::Path, for each type of parameters
  pub path_text : Params → Outcome PathRejection Text
  pub path_urn : Params → Outcome PathRejection G.Urn
  pub path_urn_sha : Params → Outcome PathRejection (G.Urn × Text)
  pub path_urn_sha_path : Params → Outcome PathRejection (G.Urn × Text × Text)
  pub path_urn_peer : Params → Outcome PathRejection (G.Urn × P.PeerId)
  pub path_urn_object : Params → Outcome PathRejection (G.Urn × C.ObjectId)
  -- axum::extract::Query: page and per_page, parent and the rest of CommitsQueryString, BlobQuery
  pub query_projects : Request → Outcome QueryRejection (Option ℕ × Option ℕ)
  pub query_commits : Request → Outcome QueryRejection (Option Text × CommitsQuery)
  pub query_blob : Request → Outcome QueryRejection BlobQuery
  -- axum::Json of an AuthRequest, or the status of its rejection
  pub json_auth : Request → Outcome ℕ (AuthRequest W)
