-- ===== src/Checks/Sessions.antt =====
-- The sessions of the HTTP API, on one session.
use radicle_client_services.Base.{
  Text, lit, ℕ, ◌⊎◌, get_elem?, ◌+◌, ◌==◌, get, insert, remove, none, some, [], ◌∷◌, Outcome, ok,
  Unique, ◌≡◌, ◌↔◌, refl,
}
use radicle_client_services.HttpApi.Auth.{
  Siwe, AuthRequest, Session, authorized, verify_message, try_from,
}
use radicle_client_services.HttpApi.Sessions.{
  Sessions, expired, remove_all, create_session, session_get, session_signin, is_expired,
  cleanup_sessions,
}
use radicle_client_services.HttpApi.Sessions.Signin.{IsSignedIn, session_signin_iff}
use radicle_client_services.HttpApi.Sessions.Cleanup.{HasEnded, IsLive, cleanup_sessions-get}
use radicle_client_services.HttpApi.Sessions.Lifecycle.{
  Reachable, start, create, signin, Reachable-Unique,
}

-- a message that is its own nonce
abbrev pub siwe : Siwe
siwe = record {
  Message = Text;
  Signature = Unit {0};
  Address = Unit {0};
  from_str = λ t. ok t;
  verify = λ now m g. ok tt;
  nonce = λ m. m;
  host = λ m. lit "host";
  address = λ m. tt;
  uri = λ m. [];
  version = λ m. 1;
  chain_id = λ m. 1;
  issued_at = λ m. 0;
  expiration_time = λ m. some 9;
  resources = λ m. [];
  Authority = Text;
  authority = λ t. some t;
  is_domain = λ a m. a == lit "host";
}

abbrev domain : Outcome Text Text
domain = ok (lit "host")

abbrev request : AuthRequest siwe
request = record { message = lit "n1"; signature = tt }

abbrev pub session : Session siwe
session = record {
  domain = lit "host";
  address = tt;
  statement = none;
  uri = [];
  version = 1;
  chain_id = 1;
  nonce = lit "n1";
  issued_at = 0;
  expiration_time = some 9;
  resources = [];
}

abbrev pub id : Text
id = lit "id"

abbrev fresh : Sessions siwe
fresh = (create_session siwe (lit "n1") id 5 []).1

session_signin_iff_example :
    ((session_signin siwe domain 3 id request fresh).0 ≡ ok session)
    ↔ IsSignedIn siwe domain 3 request id fresh session
session_signin_iff_example = session_signin_iff siwe domain 3 request id fresh session

signed_in : (session_signin siwe domain 3 id request fresh).0 ≡ ok session
unfolding session_signin session_get create_session verify_message try_from get insert ◌==◌
signed_in = refl

fresh-Reachable : Reachable siwe ((id, lit "n1") ∷ []) fresh
fresh-Reachable = create [] [] (lit "n1") id 5 start

abbrev pub used : Sessions siwe
used = (session_signin siwe domain 3 id request fresh).1

used-Reachable : Reachable siwe ((id, lit "n1") ∷ []) used
used-Reachable = signin ((id, lit "n1") ∷ []) fresh domain 3 id request fresh-Reachable

used-found : get id used ≡ some (authorized session)
unfolding session_signin session_get create_session verify_message try_from get insert ◌==◌
used-found = refl

pub used-Unique : Unique used
used-Unique = Reachable-Unique siwe ((id, lit "n1") ∷ []) used used-Reachable

cleanup_sessions-get_example :
    (j : ℕ) × (get_elem? used j ≡ some (id, authorized session))
    × ((HasEnded siwe (9 + j) (authorized session)
          × (get id (cleanup_sessions siwe (λ i. 9 + i) used) ≡ none))
        ⊎ (IsLive siwe (9 + j) (authorized session)
            × (get id (cleanup_sessions siwe (λ i. 9 + i) used) ≡ some (authorized session))))
cleanup_sessions-get_example =
    cleanup_sessions-get siwe (λ i. 9 + i) id (authorized session) used used-Unique used-found

-- the session is gone at its time of expiration
cleans_up : cleanup_sessions siwe (λ i. 9 + i) used ≡ []
unfolding cleanup_sessions session_signin session_get create_session verify_message try_from get
    insert ◌==◌ expired is_expired remove_all remove
cleans_up = refl
