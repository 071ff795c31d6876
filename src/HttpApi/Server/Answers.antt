-- ===== src/HttpApi/Server/Answers.antt =====
-- What the parts of a handler of the API answer with: a status, and no nonce.
use radicle_client_services.Base.{
  Text, ℕ, Option, some, Has, Outcome, ok, err, panic, ◌>>=◌, map_err, ◌≡◌, ◌⊎◌, inl, inr, refl, ap,
  sym, subst, >>=-eq-ok, ok-injective, err-injective, ok_or, none, Bool, Bool-cases, Outcome-cases,
  ◌∙◌, arith,
}
use radicle_client_services.Base.Action.{Action, resume}
use radicle_client_services.Extern.Peers.{Peers}
use radicle_client_services.Extern.Monorepo.{Monorepo}
use radicle_client_services.Extern.Api.{Api}
use radicle_client_services.Extern.Surf.{Surf}
use radicle_client_services.Extern.Cobs.{Cobs}
use radicle_client_services.Extern.Axum.{Axum}
use radicle_client_services.HttpApi.Error.{Error, Result, not_found}
use radicle_client_services.HttpApi.Error.Statuses.{statuses, into_response-status}
use radicle_client_services.HttpApi.Auth.{Siwe, AuthRequest}
use radicle_client_services.HttpApi.AxumExtra.{
  PathRejection, QueryRejection, path_from_request, query_from_request,
}
use radicle_client_services.HttpApi.Commits.{CommitsQuery, history}
use radicle_client_services.HttpApi.Browse.{browse}
use radicle_client_services.HttpApi.Sessions.{session_signin}
use radicle_client_services.HttpApi.Aliases.{project_alias_or_urn_handler}
use radicle_client_services.HttpApi.Source.{Listing, history_handler, start_of, list_from}
use radicle_client_services.HttpApi.Routes.{Handler}
use radicle_client_services.HttpApi.Reply.{
  Body, Reply, Answer, reply, failed, path, query, json, with_cache,
}
use radicle_client_services.HttpApi.Server.{Outside, Context, session_signin_handler, alias_handler}

-- the id and the nonce that a handler hands out
abbrev pub made_by : Outside → Handler → Option (Text × Text)
made_by o Handler.session_create_handler = some (o.id, o.nonce)
made_by o _ = none

module _ {P : Peers} (G : Monorepo P) (X : Api G) (S : Surf G) (C : Cobs S) (W : Siwe)
    (A : Axum C W) (version git_head : Text) where
  -- the id and the nonce in the body of session_create_handler
  abbrev pub made_in : Body X C W → Option (Text × Text)
  made_in (Body.created id nonce) = some (id, nonce)
  made_in _ = none

  -- One of these, or what axum answers to a body that is not the JSON of an AuthRequest.
  abbrev pub IsStatus : A.Request → ℕ → Type 0
  IsStatus r code = Has code statuses ⊎ (A.json_auth r ≡ err code)

  -- A reply with such a status, and the id and nonce that it hands out.
  abbrev pub IsReply : A.Request → Option (Text × Text) → Reply X C W → Type 0
  IsReply r made rep = IsStatus r rep.status_code × (made_in rep.content ≡ made)

  -- the same of what a handler returns, early or not
  unfoldable pub IsAnswered : A.Request → Option (Text × Text) → Answer X C W → Type 0
  IsAnswered r made (ok rep) = IsReply r made rep
  IsAnswered r made (err rep) = IsReply r made rep
  IsAnswered r made panic = Unit {0}

  pub bind-IsAnswered :
      {T : Type 0} (r : A.Request) (m : Outcome (Reply X C W) T) (k : T → Answer X C W)
      → ((rep : Reply X C W) → m ≡ err rep → IsReply r none rep)
      → ((t : T) → m ≡ ok t → IsAnswered r none (k t))
      → IsAnswered r none (m >>= k)
  unfolding IsAnswered
  bind-IsAnswered r (ok t) k early late = late t refl
  bind-IsAnswered r (err rep) k early late = early rep refl
  bind-IsAnswered r panic k early late = tt

  same_status :
      {T : Type 0} (r : A.Request) (a b : Reply X C W)
      → ◌≡◌ {A = Outcome (Reply X C W) T} (err a) (err b)
      → IsReply r none a
      → IsReply r none b
  same_status r a b h known =
      subst (λ (rep : Reply X C W). IsReply r none rep) (err-injective h) known

  failed-IsReply : (r : A.Request) (e : Error) → IsReply r none (failed X C W e)
  unfolding failed
  failed-IsReply r e = (inl (into_response-status e), refl)

  pub path-IsReply :
      {T : Type 0} (r : A.Request) (value : Outcome PathRejection T) (rep : Reply X C W)
      → path X C W value ≡ err rep
      → IsReply r none rep
  unfolding path path_from_request
  path-IsReply r (ok t) rep h = cc
  path-IsReply r (err e) rep h = same_status r _ rep h (inl (inr (inr (inl refl))), refl)
  path-IsReply r panic rep h = cc

  query-IsReply :
      {T : Type 0} (r : A.Request) (value : Outcome QueryRejection T) (rep : Reply X C W)
      → query X C W value ≡ err rep
      → IsReply r none rep
  unfolding query query_from_request
  query-IsReply r (ok t) rep h = cc
  query-IsReply r (err e) rep h = same_status r _ rep h (inl (inr (inr (inl refl))), refl)
  query-IsReply r panic rep h = cc

  pub failed_result-IsReply :
      {T : Type 0} (r : A.Request) (result : Result T) (rep : Reply X C W)
      → map_err (failed X C W) result ≡ err rep
      → IsReply r none rep
  failed_result-IsReply r (ok t) rep h = cc
  failed_result-IsReply r (err e) rep h = same_status r _ rep h (failed-IsReply r e)
  failed_result-IsReply r panic rep h = cc

  pub json-IsAnswered :
      {T : Type 0} (r : A.Request) (body : T → Body X C W) (result : Result T)
      → ((t : T) → made_in (body t) ≡ none)
      → IsAnswered r none (json X C W body result)
  unfolding IsAnswered json
  json-IsAnswered r body (ok t) plain = (inl (inl refl), plain t)
  json-IsAnswered r body (err e) plain = failed-IsReply r e
  json-IsAnswered r body panic plain = tt

  pub with_cache-IsAnswered :
      (r : A.Request) (a : Answer X C W)
      → IsAnswered r none a
      → IsAnswered r none (with_cache X C W a)
  unfolding IsAnswered with_cache
  with_cache-IsAnswered r (ok rep) known = known
  with_cache-IsAnswered r (err rep) known = known
  with_cache-IsAnswered r panic known = tt

  list_from-status :
      (s : G.Store) (c : Context G X S C W A version git_head) (project : G.Urn) (q : CommitsQuery)
      (sha : Text) (fallback : Bool) (listed : Listing G X S)
      → list_from G X S s c.projects project q (sha, fallback) ≡ ok listed
      → Has listed.0 statuses
  unfolding list_from
  list_from-status s c project q sha fallback listed h =
      let (name, _, h₁) = >>=-eq-ok (ok_or not_found (S.one_from_str sha)) _ h in
      let (commits, _, h₂) = >>=-eq-ok (browse G S s (S.head project none name) S.commits) _ h₁ in
      let (headers, _, h₃) =
        >>=-eq-ok (history (X.commit_fingerprint s) (c.projects project) q commits.0) _ h₂ in
      subst (λ (l : Listing G X S). Has l.0 statuses) (ok-injective h₃)
        (elim (Bool-cases fallback) [
          | inl head ↦ rw head (inr (inl refl))
          | inr parent ↦ rw parent (inl refl)
        ])

  pub history_handler-status :
      (s : G.Store) (c : Context G X S C W A version git_head) (project : G.Urn)
      (parent : Option Text) (q : CommitsQuery) (listed : Listing G X S)
      → history_handler G X S s c.git_dir c.projects project parent q ≡ ok listed
      → Has listed.0 statuses
  unfolding history_handler
  history_handler-status s c project parent q listed h =
      let (start, _, h₁) = >>=-eq-ok (start_of G X S s c.git_dir project parent) _ h in
      list_from-status s c project q start.0 start.1 listed h₁

  pub session_signin-IsAnswered :
      (o : Outside) (r : A.Request) (id : Text) (request : AuthRequest W)
      (c : Context G X S C W A version git_head)
      → IsAnswered r none (session_signin_handler G X S C W A version git_head o id request c).0
  unfolding session_signin_handler
  session_signin-IsAnswered o r id request c =
      json-IsAnswered r (Body.session id) (session_signin W o.domain o.now id request c.sessions).0
        (λ session. refl)

  pub alias-IsAnswered :
      (s : G.Store) (r : A.Request) (alias : Text) (c : Context G X S C W A version git_head)
      → IsAnswered r none (alias_handler G X S C W A version git_head s alias c).0
  unfolding alias_handler
  alias-IsAnswered s r alias c =
      json-IsAnswered r Body.info (project_alias_or_urn_handler G X s c.git_dir alias c.aliases).0
        (λ info. refl)

  pub resume-IsAnswered :
      {T : Type 0} (r : A.Request) (m : Outcome (Reply X C W) T)
      (k : T → Action (Context G X S C W A version git_head) (Reply X C W) (Reply X C W))
      (c : Context G X S C W A version git_head)
      → ((rep : Reply X C W) → m ≡ err rep → IsReply r none rep)
      → ((t : T) (d : Context G X S C W A version git_head) → IsAnswered r none (k t d).0)
      → IsAnswered r none (resume m k c).0
  unfolding IsAnswered
  resume-IsAnswered r (ok t) k c early late = late t c
  resume-IsAnswered r (err rep) k c early late = early rep refl
  resume-IsAnswered r panic k c early late = tt

  pub json_auth-IsReply :
      (r : A.Request) (rep : Reply X C W)
      → map_err (λ code. reply X C W code Body.no_body) (A.json_auth r) ≡ err rep
      → IsReply r none rep
  json_auth-IsReply r rep h = elim (Outcome-cases (A.json_auth r)) [
    | inl (request, good) ↦ absurd (ground arith)
    | inr (inl (code, bad)) ↦
        same_status r _ rep (ap (map_err (λ n. reply X C W n Body.no_body)) (sym bad) ∙ h)
          (inr bad, refl)
    | inr (inr bad) ↦ absurd (ground arith)
  ]

  pub with_path :
      {T : Type 0} (r : A.Request) (value : Outcome PathRejection T) (k : T → Answer X C W)
      → ((t : T) → IsAnswered r none (k t))
      → IsAnswered r none (path X C W value >>= k)
  with_path r value k late =
      bind-IsAnswered r (path X C W value) k (path-IsReply r value) (λ t _. late t)

  pub with_query :
      {T : Type 0} (r : A.Request) (value : Outcome QueryRejection T) (k : T → Answer X C W)
      → ((t : T) → IsAnswered r none (k t))
      → IsAnswered r none (query X C W value >>= k)
  with_query r value k late =
      bind-IsAnswered r (query X C W value) k (query-IsReply r value) (λ t _. late t)
