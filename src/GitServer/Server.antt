-- ===== src/GitServer/Server.antt =====
-- The git server as a whole: the route of git-server/src/lib.rs, what it answers, and its cache over
-- any number of requests.
pub mod Stability
use radicle_client_services.Base.{
  Text, ℕ, Option, none, some, List, [], ◌∷◌, Outcome, ok, err, panic,
}
use radicle_client_services.Extern.Peers.{Peers}
use radicle_client_services.Extern.Monorepo.{Monorepo}
use radicle_client_services.Extern.Backend.{Backend}
use radicle_client_services.GitServer.Error.{Error, status}
use radicle_client_services.GitServer.Context.{Context}
use radicle_client_services.GitServer.Alias.{Aliases}
use radicle_client_services.GitServer.Handler.{Request, Response, git_handler}

-- `IntoResponse for Error`
unfoldable pub into_response : Error → Response
into_response e = record { status_code = status e; response_headers = []; content = [] }

-- what is sent; nothing is if the handler panics
unfoldable pub answer : Outcome Error Response → Option Response
answer (ok r) = some r
answer (err e) = some (into_response e)
answer panic = none

module _ {P : Peers} (G : Monorepo P) (ctx : Context) (B : Backend) where
  -- The service on one request that its route takes, for the repository as it is then.
  unfoldable pub serve : G.Store → Request → B.Body → Aliases G → Option Response × Aliases G
  serve s r body m = (answer (git_handler G ctx B s r body m).0, (git_handler G ctx B s r body m).1)

  -- requests, one after the other: the cache is behind a lock
  unfoldable pub serve_all : List (G.Store × Request × B.Body) → Aliases G → Aliases G
  serve_all [] m = m
  serve_all ((s, r, body) ∷ calls) m = serve_all calls (serve s r body m).1
