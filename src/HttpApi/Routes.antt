-- ===== src/HttpApi/Routes.antt =====
-- The routers of http-api/src: which handler a request goes to.
use radicle_client_services.Base.{
  Text, ℕ, lit, Assoc, get, get_or_else, map, if◌then◌else◌, Option, none, some, List, [], ◌∷◌,
  ◌++◌, Outcome, ok, err,
}
use radicle_client_services.Extern.Peers.{Peers}
use radicle_client_services.Extern.Monorepo.{Monorepo}
use radicle_client_services.Extern.Surf.{Surf}
use radicle_client_services.Extern.Cobs.{Cobs}
use radicle_client_services.Extern.Axum.{Axum, MethodFilter, on_get, on_post, on_put}
use radicle_client_services.HttpApi.Auth.{Siwe}

-- the functions that the routers name
pub data Handler : Type 0 where
  root_handler peer_handler stats_handler project_root_handler project_alias_or_urn_handler :
      Handler
  history_handler commit_handler activity_handler tree_handler remotes_handler : Handler
  remote_handler blob_handler readme_handler patches_handler patch_handler : Handler
  issues_handler issue_handler session_create_handler session_get_handler : Handler
  session_signin_handler delegates_projects_handler : Handler

-- a pattern, and the handler of each method
abbrev pub Router : Type 0
Router = Assoc (List (MethodFilter × Handler))

abbrev get_only : Handler → List (MethodFilter × Handler)
get_only handler = (on_get, handler) ∷ []

unfoldable pub projects_router : Router
projects_router =
    (lit "/projects", get_only project_root_handler)
    ∷ (lit "/projects/:project", get_only project_alias_or_urn_handler)
    ∷ (lit "/projects/:project/commits", get_only history_handler)
    ∷ (lit "/projects/:project/commits/:sha", get_only commit_handler)
    ∷ (lit "/projects/:project/activity", get_only activity_handler)
    ∷ (lit "/projects/:project/tree/:sha/*path", get_only tree_handler)
    ∷ (lit "/projects/:project/remotes", get_only remotes_handler)
    ∷ (lit "/projects/:project/remotes/:peer", get_only remote_handler)
    ∷ (lit "/projects/:project/blob/:sha/*path", get_only blob_handler)
    ∷ (lit "/projects/:project/readme/:sha", get_only readme_handler)
    ∷ (lit "/projects/:project/patches", get_only patches_handler)
    ∷ (lit "/projects/:project/patches/:id", get_only patch_handler)
    ∷ (lit "/projects/:project/issues", get_only issues_handler)
    ∷ (lit "/projects/:project/issues/:id", get_only issue_handler)
    ∷ []

unfoldable pub sessions_router : Router
sessions_router =
    (lit "/sessions", (on_post, session_create_handler) ∷ [])
    ∷ (lit "/sessions/:id", (on_get, session_get_handler) ∷ (on_put, session_signin_handler) ∷ [])
    ∷ []

unfoldable pub delegates_router : Router
delegates_router = (lit "/delegates/:delegate/projects", get_only delegates_projects_handler) ∷ []

unfoldable pub peer_router : Router
peer_router = (lit "/peer", get_only peer_handler) ∷ []

unfoldable pub stats_router : Router
stats_router = (lit "/stats", get_only stats_handler) ∷ []

-- Router::nest
abbrev nest : Text → Router → Router
nest prefix routes = map (λ route. (prefix ++ route.0, route.1)) routes

-- v1::router, each Router::merge in its order
unfoldable pub v1_router : Router
v1_router =
    nest (lit "/v1")
      (peer_router ++ (stats_router ++ (projects_router ++ (sessions_router ++ delegates_router))))

-- the routes of `run`
unfoldable pub app : Router
app = (lit "/", get_only root_handler) ∷ v1_router

module _ {P : Peers} {G : Monorepo P} {S : Surf G} {C : Cobs S} {W : Siwe} (A : Axum C W) where
  unfoldable pub find_method : A.Request → List (MethodFilter × Handler) → Option Handler
  find_method r [] = none
  find_method r ((filter, handler) ∷ methods) =
      let rest = find_method r methods in if A.takes filter r then some handler else rest

  -- The handler and the parameters, or the status of a request that has none.
  unfoldable pub route : A.Request → Outcome ℕ (Handler × A.Params)
  route r = elim (A.matched (map (λ p. p.0) app) r) [
    | none ↦ err 404
    | some (pattern, params) ↦ elim (find_method r (get_or_else (get pattern app) [])) [
      | none ↦ err 405
      | some handler ↦ ok (handler, params)
    ]
  ]
