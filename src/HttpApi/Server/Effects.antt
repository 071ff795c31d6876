-- ===== src/HttpApi/Server/Effects.antt =====
-- What a request to the API changes of the state that the handlers share.
use radicle_client_services.Base.{
  Text, ◌+◌, Bool, true, false, not, ◌&&◌, get, get_or_else, map, none, some, List, [], ◌∷◌,
  Outcome, ok, err, panic, map_err, Option-cases, Outcome-cases, ◌≡◌, inl, inr, refl, ap, subst,
  ok-injective, arith,
}
use radicle_client_services.Base.Action.{resume}
use radicle_client_services.Extern.Peers.{Peers}
use radicle_client_services.Extern.Monorepo.{Monorepo}
use radicle_client_services.Extern.Api.{Api}
use radicle_client_services.Extern.Surf.{Surf}
use radicle_client_services.Extern.Cobs.{Cobs}
use radicle_client_services.Extern.Axum.{Axum, MethodFilter, on_get, on_post, on_put}
use radicle_client_services.HttpApi.Auth.{Siwe, AuthRequest}
use radicle_client_services.HttpApi.Sessions.{create_session, session_signin}
use radicle_client_services.HttpApi.Routes.{
  Handler, Router, app, v1_router, projects_router, sessions_router, delegates_router, peer_router,
  stats_router, find_method, route,
}
use radicle_client_services.HttpApi.Reply.{Body, Reply, reply, path}
use radicle_client_services.HttpApi.Server.{
  session_time, Outside, Context, handle, respond, session_create_handler, session_signin_handler,
  alias_handler,
}
use radicle_client_services.HttpApi.Server.Answers.{made_by}

-- the handlers that write to the sessions
abbrev writes_sessions : Handler → Bool
writes_sessions Handler.session_create_handler = true
writes_sessions Handler.session_signin_handler = true
writes_sessions _ = false

abbrev is_get : MethodFilter → Bool
is_get on_get = true
is_get _ = false

-- no handler that writes to the sessions is called by get
abbrev is_safe : List (MethodFilter × Handler) → Bool
is_safe [] = true
is_safe ((filter, handler) ∷ methods) =
    not (is_get filter && writes_sessions handler) && is_safe methods

abbrev all_safe : Router → Bool
all_safe [] = true
all_safe ((pattern, methods) ∷ routes) = is_safe methods && all_safe routes

app-all_safe : all_safe app ≡ true
unfolding app v1_router projects_router sessions_router delegates_router peer_router stats_router
app-all_safe = refl

get-is_safe :
    (pattern : Text) (routes : Router)
    → all_safe routes ≡ true
    → is_safe (get_or_else (get pattern routes) []) ≡ true
unfolding get
get-is_safe pattern [] safe = refl
get-is_safe pattern ((p, methods) ∷ routes) safe = ground (arith, get-is_safe pattern routes)

module _ {P : Peers} (G : Monorepo P) (X : Api G) (S : Surf G) (C : Cobs S) (W : Siwe)
    (A : Axum C W) (version git_head : Text) where
  find_method-is_safe :
      (r : A.Request) (methods : List (MethodFilter × Handler)) (h : Handler)
      → is_safe methods ≡ true
      → A.takes on_post r ≡ false
      → A.takes on_put r ≡ false
      → find_method A r methods ≡ some h
      → writes_sessions h ≡ false
  unfolding find_method
  find_method-is_safe r [] h safe no_post no_put found = cc
  find_method-is_safe r ((on_get, handler) ∷ methods) h safe no_post no_put found =
      ground (arith, find_method-is_safe r methods h)
  find_method-is_safe r ((on_post, handler) ∷ methods) h safe no_post no_put found =
      ground (arith, find_method-is_safe r methods h)
  find_method-is_safe r ((on_put, handler) ∷ methods) h safe no_post no_put found =
      ground (arith, find_method-is_safe r methods h)

  -- What the handlers change: only two of them change sessions, and none the fingerprints.
  pub data Effect (o : Outside) (c : Context G X S C W A version git_head) (h : Handler)
      (d : Context G X S C W A version git_head) : Type 0 where
    keeps :
        writes_sessions h ≡ false
        → made_by o h ≡ none
        → d.sessions ≡ c.sessions
        → d.projects ≡ c.projects
        → Effect o c h d
    creates :
        h ≡ Handler.session_create_handler
        → d ≡ record c {
          sessions = (create_session W o.nonce o.id (o.now + session_time) c.sessions).1;
        }
        → Effect o c h d
    signs :
        h ≡ Handler.session_signin_handler
        → (id : Text) (request : AuthRequest W)
        → d ≡ record c { sessions = (session_signin W o.domain o.now id request c.sessions).1 }
        → Effect o c h d
    refuses : h ≡ Handler.session_signin_handler → d ≡ c → Effect o c h d

  alias-Effect :
      (s : G.Store) (o : Outside) (c : Context G X S C W A version git_head)
      (value : Outcome (Reply X C W) Text)
      → Effect o c Handler.project_alias_or_urn_handler
          (resume value (alias_handler G X S C W A version git_head s) c).1
  unfolding alias_handler
  alias-Effect s o c (ok alias) = keeps refl refl refl refl
  alias-Effect s o c (err rep) = keeps refl refl refl refl
  alias-Effect s o c panic = keeps refl refl refl refl

  signin-Effect :
      (o : Outside) (c : Context G X S C W A version git_head) (value : Outcome (Reply X C W) Text)
      (body : Outcome (Reply X C W) (AuthRequest W))
      → Effect o c Handler.session_signin_handler
          (resume value
            (λ id. resume body (session_signin_handler G X S C W A version git_head o id))
            c).1
  unfolding session_signin_handler
  signin-Effect o c (ok id) (ok request) = signs refl id request refl
  signin-Effect o c (ok id) (err rep) = refuses refl refl
  signin-Effect o c (ok id) panic = refuses refl refl
  signin-Effect o c (err rep) body = refuses refl refl
  signin-Effect o c panic body = refuses refl refl

  pub handle-Effect :
      (s : G.Store) (o : Outside) (r : A.Request) (params : A.Params) (h : Handler)
      (c : Context G X S C W A version git_head)
      → Effect o c h (handle G X S C W A version git_head s o r params h c).1
  unfolding handle session_create_handler
  handle-Effect s o r params Handler.root_handler c = keeps refl refl refl refl
  handle-Effect s o r params Handler.peer_handler c = keeps refl refl refl refl
  handle-Effect s o r params Handler.stats_handler c = keeps refl refl refl refl
  handle-Effect s o r params Handler.project_root_handler c = keeps refl refl refl refl
  handle-Effect s o r params Handler.history_handler c = keeps refl refl refl refl
  handle-Effect s o r params Handler.commit_handler c = keeps refl refl refl refl
  handle-Effect s o r params Handler.activity_handler c = keeps refl refl refl refl
  handle-Effect s o r params Handler.tree_handler c = keeps refl refl refl refl
  handle-Effect s o r params Handler.remotes_handler c = keeps refl refl refl refl
  handle-Effect s o r params Handler.remote_handler c = keeps refl refl refl refl
  handle-Effect s o r params Handler.blob_handler c = keeps refl refl refl refl
  handle-Effect s o r params Handler.readme_handler c = keeps refl refl refl refl
  handle-Effect s o r params Handler.patches_handler c = keeps refl refl refl refl
  handle-Effect s o r params Handler.patch_handler c = keeps refl refl refl refl
  handle-Effect s o r params Handler.issues_handler c = keeps refl refl refl refl
  handle-Effect s o r params Handler.issue_handler c = keeps refl refl refl refl
  handle-Effect s o r params Handler.session_get_handler c = keeps refl refl refl refl
  handle-Effect s o r params Handler.delegates_projects_handler c = keeps refl refl refl refl
  handle-Effect s o r params Handler.project_alias_or_urn_handler c =
      alias-Effect s o c (path X C W (A.path_text params))
  handle-Effect s o r params Handler.session_create_handler c = creates refl refl
  handle-Effect s o r params Handler.session_signin_handler c =
      signin-Effect o c (path X C W (A.path_text params))
        (map_err (λ code. reply X C W code Body.no_body) (A.json_auth r))

  handler-safe :
      (r : A.Request) (h : Handler) (params : A.Params)
      → A.takes on_post r ≡ false
      → A.takes on_put r ≡ false
      → route A r ≡ ok (h, params)
      → writes_sessions h ≡ false
  unfolding route
  handler-safe r h params no_post no_put routed =
      elim (Option-cases (A.matched (map (λ p. p.0) app) r)) [
        | inl missing ↦ absurd (ground arith)
        | inr ((pattern, ps), matched) ↦
            let methods = get_or_else (get pattern app) [] in
            elim (Option-cases (find_method A r methods)) [
              | inl refused ↦ absurd (ground arith)
              | inr (handler, found) ↦
                  let same : handler ≡ h =
                    ap (λ (p : Handler × A.Params). p.0)
                      (ok-injective (rw (route, matched, found) at routed)) in
                  subst (λ g. writes_sessions g ≡ false) same
                    (find_method-is_safe r methods handler (get-is_safe pattern app app-all_safe)
                      no_post no_put found)
            ]
      ]

  Effect-safe :
      (o : Outside) (c : Context G X S C W A version git_head) (h : Handler)
      (d : Context G X S C W A version git_head)
      → Effect o c h d
      → writes_sessions h ≡ false
      → (d.sessions ≡ c.sessions) × (d.projects ≡ c.projects)
  Effect-safe o c h d (keeps silent made sessions projects) safe = (sessions, projects)
  Effect-safe o c h d (creates same changed) safe = absurd (ground arith)
  Effect-safe o c h d (signs same id request changed) safe = absurd (ground arith)
  Effect-safe o c h d (refuses same changed) safe = absurd (ground arith)

  pub Effect-projects :
      (o : Outside) (c : Context G X S C W A version git_head) (h : Handler)
      (d : Context G X S C W A version git_head)
      → Effect o c h d
      → d.projects ≡ c.projects
  Effect-projects o c h d (keeps silent made sessions projects) = projects
  Effect-projects o c h d (creates same changed) =
      ap (λ (x : Context G X S C W A version git_head). x.projects) changed
  Effect-projects o c h d (signs same id request changed) =
      ap (λ (x : Context G X S C W A version git_head). x.projects) changed
  Effect-projects o c h d (refuses same changed) =
      ap (λ (x : Context G X S C W A version git_head). x.projects) changed

  -- A request that axum matches with neither `post` nor `put` leaves every session as it is, and the
  -- fingerprints of peers.
  pub respond-safe :
      (s : G.Store) (o : Outside) (r : A.Request) (c : Context G X S C W A version git_head)
      → A.takes on_post r ≡ false
      → A.takes on_put r ≡ false
      → ((respond G X S C W A version git_head s o r c).1.sessions ≡ c.sessions)
        × ((respond G X S C W A version git_head s o r c).1.projects ≡ c.projects)
  unfolding respond
  respond-safe s o r c no_post no_put = elim (Outcome-cases (route A r)) [
    | inl ((h, params), routed) ↦
        let d = (handle G X S C W A version git_head s o r params h c).1 in
        rw (respond, routed)
          (Effect-safe o c h d (handle-Effect s o r params h c)
            (handler-safe r h params no_post no_put routed))
    | inr (inl (code, unrouted)) ↦ rw (respond, unrouted) (refl, refl)
    | inr (inr broken) ↦ rw (respond, broken) (refl, refl)
  ]
