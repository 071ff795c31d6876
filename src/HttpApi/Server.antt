-- ===== src/HttpApi/Server.antt =====
-- The HTTP API as a whole: `run` of http-api/src/lib.rs with its routers, the handlers of v1, the
-- state that they share, and the two jobs.
pub mod Answers
pub mod Statuses
pub mod Effects
pub mod Runs
pub mod Shown
pub mod Login
pub mod Stability
use radicle_client_services.Base.{
  Text, ℕ, ◌+◌, Option, none, some, [], Outcome, ok, err, panic, ◌>>=◌, map_err,
}
use radicle_client_services.Base.Action.{Action, gets, resume}
use radicle_client_services.Extern.Peers.{Peers}
use radicle_client_services.Extern.Monorepo.{Monorepo}
use radicle_client_services.Extern.Api.{Api}
use radicle_client_services.Extern.Surf.{Surf}
use radicle_client_services.Extern.Cobs.{Cobs}
use radicle_client_services.Extern.Axum.{Axum}
use radicle_client_services.HttpApi.Auth.{Siwe, AuthRequest}
use radicle_client_services.HttpApi.Sessions.{
  Sessions, create_session, session_get, session_signin, cleanup_sessions,
}
use radicle_client_services.HttpApi.Fingerprints.{Projects, populate_round}
use radicle_client_services.HttpApi.Aliases.{Aliases, project_alias_or_urn_handler}
use radicle_client_services.HttpApi.Projects.{get_projects_info, delegates_projects, stats}
use radicle_client_services.HttpApi.Source.{
  history_handler, commit_handler, activity_handler, tree_handler, blob_handler, readme_handler,
}
use radicle_client_services.HttpApi.Remotes.{remotes_handler, remote_handler}
use radicle_client_services.HttpApi.Cobs.{
  patches_handler, patch_handler, issues_handler, issue_handler,
}
use radicle_client_services.HttpApi.Projects
use radicle_client_services.HttpApi.Routes.{Handler, route}
use radicle_client_services.HttpApi.Reply.{
  Body, Reply, Answer, reply, failed, path, query, json, body_of_state, with_cache, root_handler,
}

-- UNAUTHORIZED_SESSIONS_EXPIRATION, in seconds
abbrev pub session_time : ℕ
session_time = 60

-- What a handler finds outside of the program when it runs: the clock, the variable RADICLE_DOMAIN,
-- and what the generators of nonces and of ids give.
pub record Outside : Type 0 where
  pub now : ℕ
  pub domain : Outcome Text Text
  pub nonce : Text
  pub id : Text

module _ {P : Peers} (G : Monorepo P) (X : Api G) (S : Surf G) (C : Cobs S) (W : Siwe)
    (A : Axum C W) (version git_head : Text) where
  -- The pool is the repository, which each operation is given.
  pub record Context : Type 0 where
    pub git_dir : Text
    pub theme : Text
    pub peer_id : P.PeerId
    pub aliases : Aliases G X
    pub projects : Projects G X
    pub sessions : Sessions W

  -- Context::new
  unfoldable pub new : Text → P.PeerId → Text → Context
  new git_dir peer_id theme = record {
    git_dir = git_dir;
    theme = theme;
    peer_id = peer_id;
    aliases = [];
    projects = λ urn. none;
    sessions = [];
  }

  -- session_create_handler
  unfoldable pub session_create_handler : Outside → Action Context (Reply X C W) (Reply X C W)
  session_create_handler o c =
      let made = create_session W o.nonce o.id (o.now + session_time) c.sessions in
      (ok (reply X C W 200 (Body.created made.0.0 made.0.1)), record c { sessions = made.1 })

  -- session_signin_handler, with its arguments
  unfoldable pub session_signin_handler :
      Outside → Text → AuthRequest W → Action Context (Reply X C W) (Reply X C W)
  session_signin_handler o id request c =
      let signed = session_signin W o.domain o.now id request c.sessions in
      (json X C W (Body.session id) signed.0, record c { sessions = signed.1 })

  -- project_alias_or_urn_handler, with its argument
  unfoldable pub alias_handler : G.Store → Text → Action Context (Reply X C W) (Reply X C W)
  alias_handler s urn_or_alias c =
      let found = project_alias_or_urn_handler G X s c.git_dir urn_or_alias c.aliases in
      (json X C W Body.info found.0, record c { aliases = found.1 })

  -- What a handler does with a request: its arguments, in their order, its result and its JSON.
  unfoldable pub handle :
      G.Store
      → Outside
      → A.Request
      → A.Params
      → Handler
      → Action Context (Reply X C W) (Reply X C W)
  handle s o r params Handler.root_handler =
      gets (λ c. ok (reply X C W 200 (Body.welcome (root_handler version git_head c.peer_id))))
  handle s o r params Handler.peer_handler =
      gets (λ c. ok (reply X C W 200 (Body.peer_id c.peer_id)))
  handle s o r params Handler.stats_handler =
      gets (λ c. json X C W Body.counts (Projects.stats G X s))
  handle s o r params Handler.project_root_handler = gets (λ c. do
    qs ← query X C W (A.query_projects r)
    json X C W Body.infos (get_projects_info G X s c.git_dir qs.0 qs.1))
  handle s o r params Handler.history_handler = gets (λ c. do
    project ← path X C W (A.path_urn params)
    qs ← query X C W (A.query_commits r)
    listed ← map_err (failed X C W) (history_handler G X S s c.git_dir c.projects project qs.0 qs.1)
    ok (reply X C W listed.0 (Body.listing (listed.1, listed.2))))
  handle s o r params Handler.commit_handler = gets (λ c. do
    args ← path X C W (A.path_urn_sha params)
    json X C W Body.commit (commit_handler G X S s c.projects args.0 args.1))
  handle s o r params Handler.activity_handler = gets (λ c. with_cache X C W (do
    project ← path X C W (A.path_urn params)
    json X C W Body.activity (activity_handler G X S s c.git_dir o.now project)))
  handle s o r params Handler.tree_handler = gets (λ c. do
    args ← path X C W (A.path_urn_sha_path params)
    json X C W Body.tree (tree_handler G S s args.0 args.1 args.2))
  handle s o r params Handler.remotes_handler = gets (λ c. do
    urn ← path X C W (A.path_urn params)
    json X C W Body.remotes (remotes_handler G X s urn))
  handle s o r params Handler.remote_handler = gets (λ c. do
    args ← path X C W (A.path_urn_peer params)
    json X C W Body.heads (remote_handler G S s c.git_dir args.0 args.1))
  handle s o r params Handler.blob_handler = gets (λ c. do
    args ← path X C W (A.path_urn_sha_path params)
    json X C W Body.blob
        (blob_handler G S s c.theme args.0 args.1 args.2 (Projects.to_option (A.query_blob r))))
  handle s o r params Handler.readme_handler = gets (λ c. do
    args ← path X C W (A.path_urn_sha params)
    json X C W Body.blob (readme_handler G S s args.0 args.1))
  handle s o r params Handler.patches_handler = gets (λ c. do
    urn ← path X C W (A.path_urn params)
    json X C W Body.patches (patches_handler G X S C s urn))
  handle s o r params Handler.patch_handler = gets (λ c. do
    args ← path X C W (A.path_urn_object params)
    json X C W Body.patch (patch_handler G X S C s args.0 args.1))
  handle s o r params Handler.issues_handler = gets (λ c. do
    project ← path X C W (A.path_urn params)
    json X C W Body.issues (issues_handler G X S C s project))
  handle s o r params Handler.issue_handler = gets (λ c. do
    args ← path X C W (A.path_urn_object params)
    json X C W Body.issue (issue_handler G X S C s args.0 args.1))
  handle s o r params Handler.session_get_handler = gets (λ c. do
    id ← path X C W (A.path_text params)
    json X C W (body_of_state X C W id) (session_get W id c.sessions).0)
  handle s o r params Handler.delegates_projects_handler = gets (λ c. do
    delegate ← path X C W (A.path_urn params)
    qs ← query X C W (A.query_projects r)
    json X C W Body.infos (delegates_projects G X s c.git_dir delegate qs.0 qs.1))
  handle s o r params Handler.project_alias_or_urn_handler =
      resume (path X C W (A.path_text params)) (alias_handler s)
  handle s o r params Handler.session_create_handler = session_create_handler o
  handle s o r params Handler.session_signin_handler =
      resume (path X C W (A.path_text params)) (λ id.
        resume (map_err (λ code. reply X C W code Body.no_body) (A.json_auth r))
          (session_signin_handler o id))

  -- what is sent; nothing is if a handler panics
  abbrev pub sent : Answer X C W → Option (Reply X C W)
  sent (ok r) = some r
  sent (err r) = some r
  sent panic = none

  -- The service on one request.
  unfoldable pub respond : G.Store → Outside → A.Request → Context → Option (Reply X C W) × Context
  respond s o r c = elim (route A r) [
    | ok (handler, params) ↦
        (sent (handle s o r params handler c).0, (handle s o r params handler c).1)
    | err code ↦ (some (reply X C W code Body.no_body), c)
    | panic ↦ (none, c)
  ]

  -- a round of `cleanup_sessions_job`, and one of `populate_fingerprints_job`
  unfoldable pub cleanup : (ℕ → ℕ) → Context → Context
  cleanup clock c = record c { sessions = cleanup_sessions W clock c.sessions }

  unfoldable pub populate : G.Store → Context → Context
  populate s c = record c { projects = (populate_round G X s c.projects).1 }
