-- ===== src/GitServer/Programs.antt =====
-- The programs of the git server: git-server/src/main.rs, and the hooks of git-server/bin.
use radicle_client_services.Base.{Text, ℕ, Bool, Option, List, Outcome, ok, err, panic}
use radicle_client_services.Extern.Peers.{Peers}
use radicle_client_services.Extern.Monorepo.{Monorepo}
use radicle_client_services.Extern.Process.{Process}
use radicle_client_services.Extern.Vars.{Vars}
use radicle_client_services.GitServer.Hooks.Updates.{Line}
use radicle_client_services.GitServer.Hooks.PreReceive
use radicle_client_services.GitServer.Hooks.PostReceive
use radicle_client_services.GitServer.Start.{Options}

-- the options of main.rs, which argh reads from the command line
pub record Arguments : Type 0 where
  pub listen : Text
  pub root : Option Text
  pub passphrase : Option Text
  pub tls_cert : Option Text
  pub tls_key : Option Text
  pub git_receive_pack : Bool
  pub cert_nonce_seed : Option Text
  pub allow_unauthorized_keys : Bool

-- From<Options> for server::Options
unfoldable pub options_from : Arguments → Options
options_from other = record {
  root = other.root;
  passphrase = other.passphrase;
  tls_cert = other.tls_cert;
  tls_key = other.tls_key;
  listen = other.listen;
  git_receive_pack = other.git_receive_pack;
  cert_nonce_seed = other.cert_nonce_seed;
  allow_unauthorized_keys = other.allow_unauthorized_keys;
}

-- the status that a program exits with; a panic has 101
unfoldable pub exit_code : {E : Type 0} → Outcome E (Unit {0}) → ℕ
exit_code (ok u) = 0
exit_code (err e) = 1
exit_code panic = 101

module _ {P : Peers} (G : Monorepo P) (V : Vars P) where
  -- bin/pre_receive.rs, whose status git reads
  unfoldable pub pre_receive_main : List Line → V.Env → G.Store → ℕ
  pre_receive_main lines e s = exit_code (PreReceive.hook G V lines e s)

  -- bin/post_receive.rs
  unfoldable pub post_receive_main : Process G.Store → List Line → V.Env → G.Store → ℕ × G.Store
  post_receive_main R lines e s =
      (exit_code (PostReceive.hook G R V lines e s).0, (PostReceive.hook G R V lines e s).1)
