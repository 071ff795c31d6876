-- ===== src/Checks/Replies.antt =====
-- What the HTTP API replies to concrete requests.
use radicle_client_services.Base.{lit, List, ◌∷◌, ◌==◌, none, some, [], ok, ◌≡◌, refl}
use radicle_client_services.HttpApi.Auth.{try_from}
use radicle_client_services.HttpApi.Sessions.Signin.{IsVerified}
use radicle_client_services.HttpApi.Routes.{route, Handler}
use radicle_client_services.HttpApi.Reply.{Body, Reply, reply}
use radicle_client_services.HttpApi.Server.{Outside}
use radicle_client_services.HttpApi.Server.Answers.{IsStatus}
use radicle_client_services.HttpApi.Server.Statuses.{respond-IsStatus}
use radicle_client_services.HttpApi.Server.Effects.{respond-safe}
use radicle_client_services.HttpApi.Server.Login.{IsPut, IsGet, respond_all, respond-login}
use radicle_client_services.Checks.Toy.{Disk, repo}
use radicle_client_services.Checks.Sessions.{siwe, session}
use radicle_client_services.Checks.Jobs.{signed, disk}
use radicle_client_services.Checks.Surf.{surf, cobs}
use radicle_client_services.Checks.Web.{
  Call, axum, empty, outside, later, fresh, post, put, look, step, runs,
}

is_post : route axum post ≡ ok (Handler.session_create_handler, [])
unfolding runs
is_post = refl

is_put :
    IsPut repo signed surf cobs siwe axum
      (lit "0")
      (lit "x")
      put
      (lit "id")
      (record { message = lit "n1"; signature = tt })
unfolding runs
is_put = record { params = lit "id"; routed = refl; named = refl; read = refl }

is_get : IsGet repo signed surf cobs siwe axum (lit "0") (lit "x") look (lit "id")
unfolding runs
is_get = record { params = lit "id"; routed = refl; named = refl }

verified :
    IsVerified siwe
      (ok (lit "host"))
      3
      (record { message = lit "n1"; signature = tt })
      (lit "n1")
      session
unfolding try_from ◌==◌
verified = record {
  message = lit "n1";
  host = lit "host";
  authority = lit "host";
  parsed = refl;
  served = refl;
  same_nonce = refl;
  valid_host = refl;
  same_domain = refl;
  signed = refl;
  copied = refl;
}

-- requests in between: somebody puts the message again, and looks at the session
abbrev between : List (Disk × Outside × Call)
between = (disk, later, put) ∷ (disk, later, look) ∷ []

respond-login_example :
    ((step post empty).0 ≡ some (reply signed cobs siwe 200 (Body.created (lit "id") (lit "n1"))))
    × ((step put (step post empty).1).0
        ≡ some (reply signed cobs siwe 200 (Body.session (lit "id") session)))
    × ((step look (
          respond_all repo signed surf cobs siwe axum
            (lit "0")
            (lit "x")
            between
            (step put (step post empty).1).1)).0
        ≡ some (reply signed cobs siwe 200 (Body.session (lit "id") session)))
respond-login_example =
    respond-login repo signed surf cobs siwe axum (lit "0") (lit "x") disk disk disk outside outside
      outside post put look [] (record { message = lit "n1"; signature = tt }) session empty between
      is_post is_put verified (fresh, (fresh, tt)) is_get

-- a body that is not JSON, and an id that has no session
abbrev bad_put : Call
bad_put = record put { message = none }

abbrev refusal : Reply signed cobs siwe
refusal = reply signed cobs siwe 422 Body.no_body

refuses : (step bad_put empty).0 ≡ some refusal
unfolding runs
refuses = refl

respond-IsStatus_example : IsStatus repo signed surf cobs siwe axum (lit "0") (lit "x") bad_put 422
respond-IsStatus_example =
    respond-IsStatus repo signed surf cobs siwe axum (lit "0") (lit "x") disk outside bad_put empty
      refusal refuses

respond-safe_example :
    ((step look empty).1.sessions ≡ empty.sessions)
    × ((step look empty).1.projects ≡ empty.projects)
respond-safe_example =
    respond-safe repo signed surf cobs siwe axum (lit "0") (lit "x") disk outside look empty refl
      refl
