-- ===== src/HttpApi/Programs.antt =====
-- The program of the HTTP API: http-api/src/main.rs, and the start of `run` of http-api/src/lib.rs.
use radicle_client_services.Base.{Text, Option, ok}
use radicle_client_services.Base.Action.{Action, resume}
use radicle_client_services.Extern.Peers.{Peers}
use radicle_client_services.Extern.Monorepo.{Monorepo}
use radicle_client_services.Extern.Api.{Api}
use radicle_client_services.Extern.Surf.{Surf}
use radicle_client_services.Extern.Cobs.{Cobs}
use radicle_client_services.Extern.Axum.{Axum}
use radicle_client_services.Extern.Keystore.{Keystore}
use radicle_client_services.HttpApi.Auth.{Siwe}
use radicle_client_services.HttpApi.Server.{Context, new}
use radicle_client_services.Shared.{profile}

-- Options of main.rs, which argh reads from the command line
pub record Flags : Type 0 where
  pub listen : Text
  pub root : Option Text
  pub passphrase : Option Text
  pub tls_cert : Option Text
  pub tls_key : Option Text
  pub theme : Text

-- Options of lib.rs
pub record ApiOptions : Type 0 where
  pub root : Option Text
  pub passphrase : Option Text
  pub listen : Text
  pub tls_cert : Option Text
  pub tls_key : Option Text
  pub theme : Text

-- From<Options> for api::Options
unfoldable pub api_options : Flags → ApiOptions
api_options other = record {
  root = other.root;
  passphrase = other.passphrase;
  tls_cert = other.tls_cert;
  tls_key = other.tls_key;
  listen = other.listen;
  theme = other.theme;
}

module _ {P : Peers} (G : Monorepo P) (X : Api G) (S : Surf G) (C : Cobs S) (W : Siwe)
    (A : Axum C W) (version git_head : Text) (K : Keystore) where
  -- `run` up to its context, for the git directory of the paths of a profile and the peer id of a
  -- signer
  unfoldable pub run_context :
      (K.Profile → Text)
      → (K.BoxedSigner → P.PeerId)
      → ApiOptions
      → Action K.Disk Text (Context G X S C W A version git_head)
  run_context git_dir peer_id options d =
      resume (profile K options.root options.passphrase d).0
        (λ found d'. (
          ok (new G X S C W A version git_head (git_dir found.1) (peer_id found.2) options.theme),
          d',
        ))
        (profile K options.root options.passphrase d).1
