-- ===== src/HttpApi/Server/Stability.antt =====
-- What no request to the API takes away: the urn of an alias, and a session that is signed into.
use radicle_client_services.Base.{
  Text, ℕ, ◌+◌, ◌==◌, eq_iff, get, get-insert, Bool-cases, false, Outcome-cases, some, Outcome, ok,
  err, panic, map_err, ◌≡◌, ◌∙◌, inl, inr, refl, ap,
}
use radicle_client_services.Base.Action.{resume}
use radicle_client_services.Extern.Peers.{Peers}
use radicle_client_services.Extern.Monorepo.{Monorepo}
use radicle_client_services.Extern.Api.{Api}
use radicle_client_services.Extern.Surf.{Surf}
use radicle_client_services.Extern.Cobs.{Cobs}
use radicle_client_services.Extern.Axum.{Axum}
use radicle_client_services.HttpApi.Auth.{Siwe, AuthRequest, Session, authorized, unauthorized}
use radicle_client_services.HttpApi.Sessions.{Sessions, create_session, session_signin}
use radicle_client_services.HttpApi.Sessions.Signin.{session_signin_lem, session_signin-authorized}
use radicle_client_services.HttpApi.Aliases.Stable.{project_alias_or_urn_handler-Holds}
use radicle_client_services.HttpApi.Routes.{Handler, route}
use radicle_client_services.HttpApi.Reply.{Body, Reply, reply, path}
use radicle_client_services.HttpApi.Server.{
  session_time, Outside, Context, handle, respond, session_create_handler, session_signin_handler,
  alias_handler,
}
use radicle_client_services.HttpApi.Server.Effects.{
  Effect, keeps, creates, signs, refuses, handle-Effect,
}

module _ (W : Siwe) where
  -- Signing in, for any id, leaves a session that is signed into as it is.
  session_signin-keeps :
      (domain : Outcome Text Text) (now : ℕ) (id k : Text) (request : AuthRequest W)
      (session : Session W) (m : Sessions W)
      → get k m ≡ some (authorized session)
      → get k (session_signin W domain now id request m).1 ≡ some (authorized session)
  session_signin-keeps domain now id k request session m found = elim (Bool-cases (id == k)) [
    | inl same ↦
        ap (λ r. get k r.1)
          (session_signin-authorized W domain now request id m session
            (ap (λ j. get j m) ((eq_iff id k).0 same) ∙ found))
        ∙ found
    | inr other ↦ elim (session_signin_lem W domain now request id m) [
      | inl (new, done) ↦
          ap (λ r. get k r.1) done ∙ get-insert id k (authorized new) m ∙ rw other found
      | inr same ↦ ap (get k) same ∙ found
    ]
  ]

module _ {P : Peers} (G : Monorepo P) (X : Api G) (S : Surf G) (C : Cobs S) (W : Siwe)
    (A : Axum C W) (version git_head : Text) where
  abbrev State : Type 0
  State = Context G X S C W A version git_head

  alias_handler-keeps :
      (s : G.Store) (value : Outcome (Reply X C W) Text) (name : Text) (u : G.Urn) (c : State)
      → get name c.aliases ≡ some u
      → get name (resume value (alias_handler G X S C W A version git_head s) c).1.aliases ≡ some u
  unfolding alias_handler
  alias_handler-keeps s (ok text) name u c held =
      project_alias_or_urn_handler-Holds G X name u s c.git_dir text c.aliases held
  alias_handler-keeps s (err rep) name u c held = held
  alias_handler-keeps s panic name u c held = held

  signin-aliases :
      (o : Outside) (value : Outcome (Reply X C W) Text)
      (body : Outcome (Reply X C W) (AuthRequest W)) (c : State)
      → (resume value
          (λ id. resume body (session_signin_handler G X S C W A version git_head o id))
          c).1.aliases
        ≡ c.aliases
  unfolding session_signin_handler
  signin-aliases o (ok id) (ok request) c = refl
  signin-aliases o (ok id) (err rep) c = refl
  signin-aliases o (ok id) panic c = refl
  signin-aliases o (err rep) body c = refl
  signin-aliases o panic body c = refl

  handle-keeps :
      (s : G.Store) (o : Outside) (r : A.Request) (params : A.Params) (h : Handler) (c : State)
      (name : Text) (u : G.Urn)
      → get name c.aliases ≡ some u
      → get name (handle G X S C W A version git_head s o r params h c).1.aliases ≡ some u
  unfolding handle session_create_handler
  handle-keeps s o r params Handler.root_handler c name u held = held
  handle-keeps s o r params Handler.peer_handler c name u held = held
  handle-keeps s o r params Handler.stats_handler c name u held = held
  handle-keeps s o r params Handler.project_root_handler c name u held = held
  handle-keeps s o r params Handler.history_handler c name u held = held
  handle-keeps s o r params Handler.commit_handler c name u held = held
  handle-keeps s o r params Handler.activity_handler c name u held = held
  handle-keeps s o r params Handler.tree_handler c name u held = held
  handle-keeps s o r params Handler.remotes_handler c name u held = held
  handle-keeps s o r params Handler.remote_handler c name u held = held
  handle-keeps s o r params Handler.blob_handler c name u held = held
  handle-keeps s o r params Handler.readme_handler c name u held = held
  handle-keeps s o r params Handler.patches_handler c name u held = held
  handle-keeps s o r params Handler.patch_handler c name u held = held
  handle-keeps s o r params Handler.issues_handler c name u held = held
  handle-keeps s o r params Handler.issue_handler c name u held = held
  handle-keeps s o r params Handler.session_get_handler c name u held = held
  handle-keeps s o r params Handler.delegates_projects_handler c name u held = held
  handle-keeps s o r params Handler.session_create_handler c name u held = held
  handle-keeps s o r params Handler.project_alias_or_urn_handler c name u held =
      alias_handler-keeps s (path X C W (A.path_text params)) name u c held
  handle-keeps s o r params Handler.session_signin_handler c name u held =
      ap (get name) (
        signin-aliases o (path X C W (A.path_text params))
          (map_err (λ code. reply X C W code Body.no_body) (A.json_auth r)) c)
      ∙ held

  -- An alias that has a urn keeps it, whatever is requested and whatever the repository has become.
  respond-alias :
      (s : G.Store) (o : Outside) (r : A.Request) (c : State) (name : Text) (u : G.Urn)
      → get name c.aliases ≡ some u
      → get name (respond G X S C W A version git_head s o r c).1.aliases ≡ some u
  unfolding respond
  respond-alias s o r c name u held = elim (Outcome-cases (route A r)) [
    | inl ((h, params), routed) ↦ rw (respond, routed) (handle-keeps s o r params h c name u held)
    | inr (inl (code, unrouted)) ↦ rw (respond, unrouted) held
    | inr (inr broken) ↦ rw (respond, broken) held
  ]

  created-keeps :
      (o : Outside) (c : State) (id : Text) (session : Session W)
      → (o.id == id) ≡ false
      → get id c.sessions ≡ some (authorized session)
      → get id (create_session W o.nonce o.id (o.now + session_time) c.sessions).1
        ≡ some (authorized session)
  unfolding create_session
  created-keeps o c id session fresh found =
      get-insert o.id id (unauthorized o.nonce (o.now + session_time)) c.sessions ∙ rw fresh found

  Effect-authorized :
      (o : Outside) (h : Handler) (c d : State) (id : Text) (session : Session W)
      → Effect G X S C W A version git_head o c h d
      → (o.id == id) ≡ false
      → get id c.sessions ≡ some (authorized session)
      → get id d.sessions ≡ some (authorized session)
  Effect-authorized o h c d id session (keeps silent made sessions projects) fresh found =
      ap (get id) sessions ∙ found
  Effect-authorized o h c d id session (creates same changed) fresh found =
      ap (λ (x : State). get id x.sessions) changed ∙ created-keeps o c id session fresh found
  Effect-authorized o h c d id session (signs same k request changed) fresh found =
      ap (λ (x : State). get id x.sessions) changed
      ∙ session_signin-keeps W o.domain o.now k id request session c.sessions found
  Effect-authorized o h c d id session (refuses same changed) fresh found =
      ap (λ (x : State). get id x.sessions) changed ∙ found

  -- A session that is signed into is the same behind every request, unless the generator draws its
  -- id again: nobody else can sign into it, and no request ends it.
  pub respond-authorized :
      (s : G.Store) (o : Outside) (r : A.Request) (c : State) (id : Text) (session : Session W)
      → (o.id == id) ≡ false
      → get id c.sessions ≡ some (authorized session)
      → get id (respond G X S C W A version git_head s o r c).1.sessions ≡ some (authorized session)
  unfolding respond
  respond-authorized s o r c id session fresh found = elim (Outcome-cases (route A r)) [
    | inl ((h, params), routed) ↦
        rw (respond, routed)
          (Effect-authorized o h c (handle G X S C W A version git_head s o r params h c).1 id
            session (handle-Effect G X S C W A version git_head s o r params h c) fresh found)
    | inr (inl (code, unrouted)) ↦ rw (respond, unrouted) found
    | inr (inr broken) ↦ rw (respond, broken) found
  ]
