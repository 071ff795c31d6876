-- ===== src/Checks/Web.antt =====
-- The HTTP API as a whole, with requests that say where they go.
use radicle_client_services.Base.{
  Text, lit, ◌≡◌, refl, ◌==◌, get, insert, true, false, Bool, Option, none, some, [], ok, err,
}
use radicle_client_services.Extern.Axum.{Axum, MethodFilter, on_get, on_post, on_put}
use radicle_client_services.HttpApi.Auth.{verify_message, try_from}
use radicle_client_services.HttpApi.AxumExtra.{path_from_request, query_from_request}
use radicle_client_services.HttpApi.Sessions.{create_session, session_get, session_signin}
use radicle_client_services.HttpApi.Routes.{
  app, v1_router, projects_router, sessions_router, delegates_router, peer_router, stats_router,
  find_method, route,
}
use radicle_client_services.HttpApi.Reply.{Reply, path, query, json}
use radicle_client_services.HttpApi.Server.{
  Outside, Context, new, session_create_handler, session_signin_handler, handle, respond,
}
use radicle_client_services.Checks.Toy.{alice, repo}
use radicle_client_services.Checks.Api
use radicle_client_services.Checks.Sessions.{siwe}
use radicle_client_services.Checks.Jobs.{signed, disk}
use radicle_client_services.Checks.Surf.{surf, cobs}

-- a request that says which pattern it matches, with the id in its path and a message
pub record Call : Type 0 where
  pub method : MethodFilter
  pub pattern : Text
  pub id : Text
  pub message : Option Text

abbrev pub same : MethodFilter → MethodFilter → Bool
same on_get on_get = true
same on_post on_post = true
same on_put on_put = true
same _ _ = false

abbrev pub axum : Axum cobs siwe
axum = record {
  Request = Call;
  takes = λ f r. same f r.method;
  Params = Text;
  matched = λ ps r. some (r.pattern, r.id);
  path_text = λ p. ok p;
  path_urn = λ p. ok p;
  path_urn_sha = λ p. ok (p, lit "5");
  path_urn_sha_path = λ p. ok (p, lit "5", lit "/README.md");
  path_urn_peer = λ p. ok (p, alice);
  path_urn_object = λ p. ok (p, 0);
  query_projects = λ r. ok (none, none);
  query_commits = λ r. ok (some (lit "5"), Api.query);
  query_blob = λ r. ok (record { highlight = false; theme = none });
  json_auth =
      λ r. elim r.message [ none ↦ err 422 | some m ↦ ok (record { message = m; signature = tt }) ];
}

abbrev pub ApiContext : Type 0
ApiContext = Context repo signed surf cobs siwe axum (lit "0") (lit "x")

abbrev pub empty : ApiContext
empty = new repo signed surf cobs siwe axum (lit "0") (lit "x") (lit "/git") alice (lit "dark")

abbrev pub outside : Outside
outside = record { now = 3; domain = ok (lit "host"); nonce = lit "n1"; id = lit "id" }

abbrev pub post : Call
post = record { method = on_post; pattern = lit "/v1/sessions"; id = []; message = none }

abbrev pub put : Call
put = record {
  method = on_put;
  pattern = lit "/v1/sessions/:id";
  id = lit "id";
  message = some (lit "n1");
}

abbrev pub look : Call
look = record { method = on_get; pattern = lit "/v1/sessions/:id"; id = lit "id"; message = none }

abbrev pub step : Call → ApiContext → Option (Reply signed cobs siwe) × ApiContext
step r c = respond repo signed surf cobs siwe axum (lit "0") (lit "x") disk outside r c

-- what the tests compute with
unfoldable pub runs : Unit {0}
unfolding respond handle route find_method app v1_router projects_router sessions_router
    delegates_router peer_router stats_router get ◌==◌ session_create_handler session_signin_handler
    create_session session_get session_signin verify_message try_from json path query
    path_from_request query_from_request new insert
runs = tt

-- a later request, for which the id of another session is drawn
abbrev pub later : Outside
later = record outside { now = 4; nonce = lit "n2"; id = lit "other" }

pub fresh : (later.id == lit "id") ≡ false
unfolding ◌==◌
fresh = refl
