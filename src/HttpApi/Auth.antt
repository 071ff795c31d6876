-- ===== src/HttpApi/Auth.antt =====
-- http-api/src/auth.rs: the state of a session, and what the siwe, ethers and hyper crates give to it.
use radicle_client_services.Base.{
  Text, ℕ, lit, Option, none, List, Bool, Outcome, ok, ok_or, map_err, ensure, ◌==◌, ◌>>=◌, ◌>>◌,
}
use radicle_client_services.HttpApi.Error.{Error, Result, auth, env, siwe_parse, siwe_verification}

-- siwe::Message with the http crate's Authority. An instant of chrono's is a number.
pub record Siwe : Type 1 where
  pub Message : Type 0
  pub Signature : Type 0
  pub Address : Type 0
  pub from_str : Text → Outcome Text Message
  -- Message::verify, which also reads the clock
  pub verify : ℕ → Message → Signature → Outcome Text (Unit {0})
  pub nonce : Message → Text
  pub host : Message → Text
  pub address : Message → Address
  pub uri : Message → Text
  pub version : Message → ℕ
  pub chain_id : Message → ℕ
  pub issued_at : Message → ℕ
  pub expiration_time : Message → Option ℕ
  pub resources : Message → List Text
  -- Authority::from_str, and its equality with the domain of a message
  pub Authority : Type 0
  pub authority : Text → Option Authority
  pub is_domain : Authority → Message → Bool

module _ (W : Siwe) where
  pub record AuthRequest : Type 0 where
    pub message : Text
    pub signature : W.Signature

  pub record Session : Type 0 where
    pub domain : Text
    pub address : W.Address
    pub statement : Option Text
    pub uri : Text
    pub version : ℕ
    pub chain_id : ℕ
    pub nonce : Text
    pub issued_at : ℕ
    pub expiration_time : Option ℕ
    pub resources : List Text

  -- the nonce and the expiration time of a session that nobody signed into
  pub data AuthState : Type 0 where
    authorized : Session → AuthState
    unauthorized : Text → ℕ → AuthState

  -- Session::try_from
  unfoldable pub try_from : W.Message → Result Session
  try_from m = ok (record {
    domain = W.host m;
    address = W.address m;
    statement = none;
    uri = W.uri m;
    version = W.version m;
    chain_id = W.chain_id m;
    nonce = W.nonce m;
    issued_at = W.issued_at m;
    expiration_time = W.expiration_time m;
    resources = W.resources m;
  })

  -- the part of `session_signin_handler` between the request and the new session: `domain` is the variable RADICLE_DOMAIN
  unfoldable pub verify_message : Outcome Text Text → ℕ → Text → AuthRequest → Outcome Error Session
  verify_message domain now nonce request = do
    message ← map_err siwe_parse (W.from_str request.message)
    host ← map_err env domain
    ensure (nonce == W.nonce message) (auth (lit "Invalid nonce"))
    authority ← ok_or (auth (lit "Invalid host")) (W.authority host)
    ensure (W.is_domain authority message) (auth (lit "Invalid domain"))
    map_err siwe_verification (W.verify now message request.signature)
    try_from message
