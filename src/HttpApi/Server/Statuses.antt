-- ===== src/HttpApi/Server/Statuses.antt =====
-- The statuses that the API answers with.
use radicle_client_services.Base.{
  Text, ℕ, some, some-injective, [], ok, err, panic, map_err, ◌≡◌, inl, inr, refl, subst,
  map_err-eq-ok, Option, none, Outcome-cases, Option-cases, get, get_or_else, map, arith,
}
use radicle_client_services.Extern.Peers.{Peers}
use radicle_client_services.Extern.Monorepo.{Monorepo}
use radicle_client_services.Extern.Api.{Api}
use radicle_client_services.Extern.Surf.{Surf}
use radicle_client_services.Extern.Cobs.{Cobs}
use radicle_client_services.Extern.Axum.{Axum}
use radicle_client_services.HttpApi.Auth.{Siwe, AuthState, authorized, unauthorized}
use radicle_client_services.HttpApi.Source.{history_handler}
use radicle_client_services.HttpApi.Routes.{Handler, app, find_method, route}
use radicle_client_services.HttpApi.Reply.{Body, Reply, Answer, reply, failed, path, body_of_state}
use radicle_client_services.HttpApi.Sessions.{create_session}
use radicle_client_services.HttpApi.Server.{
  Outside, Context, sent, handle, respond, session_create_handler,
}
use radicle_client_services.HttpApi.Server.Answers.{
  made_by, made_in, IsStatus, IsReply, IsAnswered, failed_result-IsReply, json-IsAnswered,
  with_cache-IsAnswered, bind-IsAnswered, path-IsReply, resume-IsAnswered, json_auth-IsReply,
  session_signin-IsAnswered, alias-IsAnswered, history_handler-status, with_path, with_query,
}

module _ {P : Peers} (G : Monorepo P) (X : Api G) (S : Surf G) (C : Cobs S) (W : Siwe)
    (A : Axum C W) (version git_head : Text) where
  body_of_state-plain :
      (id : Text) (state : AuthState W)
      → made_in G X S C W A version git_head (body_of_state X C W id state) ≡ none
  body_of_state-plain id (authorized session) = refl
  body_of_state-plain id (unauthorized nonce expiration_time) = refl

  pub handle-IsAnswered :
      (s : G.Store) (o : Outside) (r : A.Request) (params : A.Params) (h : Handler)
      (c : Context G X S C W A version git_head)
      → IsAnswered G X S C W A version git_head r
          (made_by o h)
          (handle G X S C W A version git_head s o r params h c).0
  unfolding IsAnswered handle session_create_handler create_session
  handle-IsAnswered s o r params Handler.root_handler c = (inl (inl refl), refl)
  handle-IsAnswered s o r params Handler.peer_handler c = (inl (inl refl), refl)
  handle-IsAnswered s o r params Handler.session_create_handler c = (inl (inl refl), refl)
  handle-IsAnswered s o r params Handler.stats_handler c =
      json-IsAnswered G X S C W A version git_head r _ _ (λ t. refl)
  handle-IsAnswered s o r params Handler.project_root_handler c =
      with_query G X S C W A version git_head r (A.query_projects r) _
        (λ qs. json-IsAnswered G X S C W A version git_head r _ _ (λ t. refl))
  handle-IsAnswered s o r params Handler.delegates_projects_handler c =
      with_path G X S C W A version git_head r (A.path_urn params) _ (λ delegate.
        with_query G X S C W A version git_head r (A.query_projects r) _
          (λ qs. json-IsAnswered G X S C W A version git_head r _ _ (λ t. refl)))
  handle-IsAnswered s o r params Handler.history_handler c =
      with_path G X S C W A version git_head r (A.path_urn params) _ (λ project.
        with_query G X S C W A version git_head r (A.query_commits r) _ (λ qs.
          let listing = history_handler G X S s c.git_dir c.projects project qs.0 qs.1 in
          bind-IsAnswered G X S C W A version git_head r (map_err (failed X C W) listing) _
            (failed_result-IsReply G X S C W A version git_head r listing)
            (λ listed found. (
              inl (
                  history_handler-status G X S C W A version git_head s c project qs.0 qs.1 listed
                    (map_err-eq-ok (failed X C W) listing found)),
              refl,
            ))))
  handle-IsAnswered s o r params Handler.activity_handler c =
      with_cache-IsAnswered G X S C W A version git_head r _ (
        with_path G X S C W A version git_head r (A.path_urn params) _
          (λ project. json-IsAnswered G X S C W A version git_head r _ _ (λ t. refl)))
  handle-IsAnswered s o r params Handler.project_alias_or_urn_handler c =
      resume-IsAnswered G X S C W A version git_head r (path X C W (A.path_text params)) _ c
        (path-IsReply G X S C W A version git_head r (A.path_text params))
        (λ alias d. alias-IsAnswered G X S C W A version git_head s r alias d)
  handle-IsAnswered s o r params Handler.session_signin_handler c =
      resume-IsAnswered G X S C W A version git_head r (path X C W (A.path_text params)) _ c
        (path-IsReply G X S C W A version git_head r (A.path_text params))
        (λ id d.
          resume-IsAnswered G X S C W A version git_head r
            (map_err (λ code. reply X C W code Body.no_body) (A.json_auth r)) _ d
            (json_auth-IsReply G X S C W A version git_head r)
            (λ request d'.
              session_signin-IsAnswered G X S C W A version git_head o r id request d'))
  handle-IsAnswered s o r params Handler.commit_handler c =
      with_path G X S C W A version git_head r (A.path_urn_sha params) _
        (λ args. json-IsAnswered G X S C W A version git_head r _ _ (λ t. refl))
  handle-IsAnswered s o r params Handler.tree_handler c =
      with_path G X S C W A version git_head r (A.path_urn_sha_path params) _
        (λ args. json-IsAnswered G X S C W A version git_head r _ _ (λ t. refl))
  handle-IsAnswered s o r params Handler.remotes_handler c =
      with_path G X S C W A version git_head r (A.path_urn params) _
        (λ args. json-IsAnswered G X S C W A version git_head r _ _ (λ t. refl))
  handle-IsAnswered s o r params Handler.remote_handler c =
      with_path G X S C W A version git_head r (A.path_urn_peer params) _
        (λ args. json-IsAnswered G X S C W A version git_head r _ _ (λ t. refl))
  handle-IsAnswered s o r params Handler.blob_handler c =
      with_path G X S C W A version git_head r (A.path_urn_sha_path params) _
        (λ args. json-IsAnswered G X S C W A version git_head r _ _ (λ t. refl))
  handle-IsAnswered s o r params Handler.readme_handler c =
      with_path G X S C W A version git_head r (A.path_urn_sha params) _
        (λ args. json-IsAnswered G X S C W A version git_head r _ _ (λ t. refl))
  handle-IsAnswered s o r params Handler.patches_handler c =
      with_path G X S C W A version git_head r (A.path_urn params) _
        (λ args. json-IsAnswered G X S C W A version git_head r _ _ (λ t. refl))
  handle-IsAnswered s o r params Handler.patch_handler c =
      with_path G X S C W A version git_head r (A.path_urn_object params) _
        (λ args. json-IsAnswered G X S C W A version git_head r _ _ (λ t. refl))
  handle-IsAnswered s o r params Handler.issues_handler c =
      with_path G X S C W A version git_head r (A.path_urn params) _
        (λ args. json-IsAnswered G X S C W A version git_head r _ _ (λ t. refl))
  handle-IsAnswered s o r params Handler.issue_handler c =
      with_path G X S C W A version git_head r (A.path_urn_object params) _
        (λ args. json-IsAnswered G X S C W A version git_head r _ _ (λ t. refl))
  handle-IsAnswered s o r params Handler.session_get_handler c =
      with_path G X S C W A version git_head r (A.path_text params) _ (λ id.
        json-IsAnswered G X S C W A version git_head r (body_of_state X C W id) _
          (body_of_state-plain id))

  sent-IsReply :
      (r : A.Request) (made : Option (Text × Text)) (answer : Answer X C W) (rep : Reply X C W)
      → IsAnswered G X S C W A version git_head r made answer
      → sent G X S C W A version git_head answer ≡ some rep
      → IsReply G X S C W A version git_head r made rep
  unfolding IsAnswered
  sent-IsReply r made (ok sent_reply) rep known h =
      subst (λ (a : Reply X C W). IsReply G X S C W A version git_head r made a) (some-injective h)
        known
  sent-IsReply r made (err sent_reply) rep known h =
      subst (λ (a : Reply X C W). IsReply G X S C W A version git_head r made a) (some-injective h)
        known
  sent-IsReply r made panic rep known h = cc

  -- A request that goes to no handler has a status of its own.
  route-unrouted :
      (r : A.Request) (code : ℕ)
      → route A r ≡ err code
      → IsStatus G X S C W A version git_head r code
  unfolding route
  route-unrouted r code h = elim (Option-cases (A.matched (map (λ p. p.0) app) r)) [
    | inl missing ↦ inl (ground arith)
    | inr ((pattern, params), matched) ↦
        elim (Option-cases (find_method A r (get_or_else (get pattern app) []))) [
          | inl refused ↦ inl (ground arith)
          | inr (handler, found) ↦ absurd (ground arith)
        ]
  ]

  -- Every reply of the API has the status 200, 302, 400, 404, 405 or 500, unless it is what axum
  -- answers to a body that is not the JSON of an AuthRequest.
  pub respond-IsStatus :
      (s : G.Store) (o : Outside) (r : A.Request) (c : Context G X S C W A version git_head)
      (rep : Reply X C W)
      → (respond G X S C W A version git_head s o r c).0 ≡ some rep
      → IsStatus G X S C W A version git_head r rep.status_code
  unfolding respond
  respond-IsStatus s o r c rep h = elim (Outcome-cases (route A r)) [
    | inl ((handler, params), routed) ↦
        (sent-IsReply r (made_by o handler)
          (handle G X S C W A version git_head s o r params handler c).0 rep
          (handle-IsAnswered s o r params handler c) (rw (respond, routed) at h)).0
    | inr (inl (code, unrouted)) ↦
        subst (λ (a : Reply X C W). IsStatus G X S C W A version git_head r a.status_code)
          (some-injective (rw (respond, unrouted) at h)) (route-unrouted r code unrouted)
    | inr (inr broken) ↦ absurd (ground (arith, rw (respond, broken) at h))
  ]
