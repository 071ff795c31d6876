-- ===== src/HttpApi/Server/Login.antt =====
-- How a client signs in: POST /sessions, PUT /sessions/:id, GET /sessions/:id.
use radicle_client_services.Base.{
  Text, ℕ, List, [], ◌∷◌, All, ◌==◌, false, ◌+◌, eq_refl, get, insert, get-insert, Assoc, Option,
  some, ok, ◌≡◌, refl, ap, ◌∙◌,
}
use radicle_client_services.Extern.Peers.{Peers}
use radicle_client_services.Extern.Monorepo.{Monorepo}
use radicle_client_services.Extern.Api.{Api}
use radicle_client_services.Extern.Surf.{Surf}
use radicle_client_services.Extern.Cobs.{Cobs}
use radicle_client_services.Extern.Axum.{Axum}
use radicle_client_services.HttpApi.Auth.{
  Siwe, AuthRequest, Session, AuthState, authorized, unauthorized,
}
use radicle_client_services.HttpApi.AxumExtra.{path_from_request}
use radicle_client_services.HttpApi.Sessions.{create_session, session_get}
use radicle_client_services.HttpApi.Sessions.Signin.{
  IsVerified, IsSignedIn, session_signin_iff, session_signin-ok,
}
use radicle_client_services.HttpApi.Server.Stability.{respond-authorized}
use radicle_client_services.HttpApi.Routes.{Handler, route}
use radicle_client_services.HttpApi.Reply.{Body, Reply, reply, path, json}
use radicle_client_services.HttpApi.Server.{
  session_time, Outside, Context, respond, handle, session_create_handler, session_signin_handler,
}

get-insert_self : {V : Type 0} (k : Text) (v : V) (m : Assoc V) → get k (insert k v m) ≡ some v
get-insert_self k v m = get-insert k k v m ∙ rw eq_refl refl

module _ {P : Peers} (G : Monorepo P) (X : Api G) (S : Surf G) (C : Cobs S) (W : Siwe)
    (A : Axum C W) (version git_head : Text) where
  -- POST /sessions adds a session that nobody signed into, for a minute.
  respond-create :
      (s : G.Store) (o : Outside) (r : A.Request) (params : A.Params)
      (c : Context G X S C W A version git_head)
      → route A r ≡ ok (Handler.session_create_handler, params)
      → respond G X S C W A version git_head s o r c ≡ (
        some (reply X C W 200 (Body.created o.id o.nonce)),
        record c {
          sessions = insert o.id (unauthorized o.nonce (o.now + session_time)) c.sessions;
        },
      )
  unfolding respond handle session_create_handler create_session insert
  respond-create s o r params c routed = rw (respond, routed) refl

  -- The request is a PUT for the id with this request for a body.
  pub record IsPut (r : A.Request) (id : Text) (request : AuthRequest W) : Type 0 where
    pub params : A.Params
    pub routed : route A r ≡ ok (Handler.session_signin_handler, params)
    pub named : A.path_text params ≡ ok id
    pub read : A.json_auth r ≡ ok request

  -- The request is a GET for the id.
  pub record IsGet (r : A.Request) (id : Text) : Type 0 where
    pub params : A.Params
    pub routed : route A r ≡ ok (Handler.session_get_handler, params)
    pub named : A.path_text params ≡ ok id

  path-ok :
      (params : A.Params) (id : Text)
      → A.path_text params ≡ ok id
      → path X C W (A.path_text params) ≡ ok id
  unfolding path path_from_request
  path-ok params id named = rw named refl

  respond-signin :
      (s : G.Store) (o : Outside) (r : A.Request) (id : Text) (request : AuthRequest W)
      (nonce : Text) (t : ℕ) (session : Session W) (c : Context G X S C W A version git_head)
      → IsPut r id request
      → get id c.sessions ≡ some (unauthorized nonce t)
      → IsVerified W o.domain o.now request nonce session
      → respond G X S C W A version git_head s o r c ≡ (
        some (reply X C W 200 (Body.session id session)),
        record c { sessions = insert id (authorized session) c.sessions },
      )
  unfolding respond handle session_signin_handler json
  respond-signin s o r id request nonce t session c put found verified =
      let signed : IsSignedIn W o.domain o.now request id c.sessions session = record {
        nonce = nonce;
        expiration_time = t;
        found = found;
        verified = verified;
      } in
      let done =
        session_signin-ok W o.domain o.now request id c.sessions session
          ((session_signin_iff W o.domain o.now request id c.sessions session).1 signed) in
      rw (respond, put.routed) (rw (path-ok put.params id put.named) (rw put.read (rw done refl)))

  respond-get :
      (s : G.Store) (o : Outside) (r : A.Request) (id : Text) (session : Session W)
      (c : Context G X S C W A version git_head)
      → IsGet r id
      → get id c.sessions ≡ some (authorized session)
      → (respond G X S C W A version git_head s o r c).0
        ≡ some (reply X C W 200 (Body.session id session))
  unfolding respond handle json session_get
  respond-get s o r id session c got found =
      rw (respond, got.routed) (rw (path-ok got.params id got.named) (rw found refl))

  -- The state behind some requests, each at its state of the repository and with what comes from
  -- outside.
  abbrev pub respond_all :
      List (G.Store × Outside × A.Request)
      → Context G X S C W A version git_head
      → Context G X S C W A version git_head
  respond_all [] c = c
  respond_all ((s, o, r) ∷ rs) c = respond_all rs (respond G X S C W A version git_head s o r c).1

  respond_all-authorized :
      (rs : List (G.Store × Outside × A.Request)) (c : Context G X S C W A version git_head)
      (id : Text) (session : Session W)
      → All (λ q. (q.1.id == id) ≡ false) rs
      → get id c.sessions ≡ some (authorized session)
      → get id (respond_all rs c).sessions ≡ some (authorized session)
  respond_all-authorized [] c id session fresh found = found
  respond_all-authorized ((s, o, r) ∷ rs) c id session (other, fresh) found =
      respond_all-authorized rs (respond G X S C W A version git_head s o r c).1 id session fresh
        (respond-authorized G X S C W A version git_head s o r c id session other found)

  -- A client that creates a session, and then puts a message with the nonce of the reply that
  -- verifies, for the id of the reply, is signed in: that request is answered with the session that
  -- the message describes, and so is a GET for the id behind any other requests, whose draws are not
  -- that id, and with no cleanup of sessions before it. Nothing happens to the sessions between the
  -- first two.
  pub respond-login :
      (s₁ s₂ s₃ : G.Store) (o₁ o₂ o₃ : Outside) (r₁ r₂ r₃ : A.Request) (params : A.Params)
      (request : AuthRequest W) (session : Session W) (c : Context G X S C W A version git_head)
      (others : List (G.Store × Outside × A.Request))
      → route A r₁ ≡ ok (Handler.session_create_handler, params)
      → IsPut r₂ o₁.id request
      → IsVerified W o₂.domain o₂.now request o₁.nonce session
      → All (λ q. (q.1.id == o₁.id) ≡ false) others
      → IsGet r₃ o₁.id
      → let created = respond G X S C W A version git_head s₁ o₁ r₁ c in
        let signed = respond G X S C W A version git_head s₂ o₂ r₂ created.1 in
        (created.0 ≡ some (reply X C W 200 (Body.created o₁.id o₁.nonce)))
        × (signed.0 ≡ some (reply X C W 200 (Body.session o₁.id session)))
        × ((respond G X S C W A version git_head s₃ o₃ r₃ (respond_all others signed.1)).0
            ≡ some (reply X C W 200 (Body.session o₁.id session)))
  respond-login s₁ s₂ s₃ o₁ o₂ o₃ r₁ r₂ r₃ params request session c others routed put verified fresh
        got =
      let created = respond G X S C W A version git_head s₁ o₁ r₁ c in
      let e₁ = respond-create s₁ o₁ r₁ params c routed in
      let opened : AuthState W = unauthorized o₁.nonce (o₁.now + session_time) in
      let found₁ : get o₁.id created.1.sessions ≡ some opened =
        ap
          (λ (x : Option (Reply X C W) × Context G X S C W A version git_head).
            get o₁.id x.1.sessions)
          e₁
        ∙ get-insert_self o₁.id opened c.sessions in
      let e₂ =
        respond-signin s₂ o₂ r₂ o₁.id request o₁.nonce (o₁.now + session_time) session created.1 put
          found₁ verified in
      let signed = respond G X S C W A version git_head s₂ o₂ r₂ created.1 in
      let found₂ : get o₁.id signed.1.sessions ≡ some (authorized session) =
        ap
          (λ (x : Option (Reply X C W) × Context G X S C W A version git_head).
            get o₁.id x.1.sessions)
          e₂
        ∙ get-insert_self o₁.id (authorized session) created.1.sessions in
      (
        ap (λ (x : Option (Reply X C W) × Context G X S C W A version git_head). x.0) e₁,
        ap (λ (x : Option (Reply X C W) × Context G X S C W A version git_head). x.0) e₂,
        respond-get s₃ o₃ r₃ o₁.id session (respond_all others signed.1) got
            (respond_all-authorized others signed.1 o₁.id session fresh found₂),
      )
