-- ===== src/GitServer/Start.antt =====
-- The start of the git server: `Context::from` and the first half of `run` of git-server/src/lib.rs,
-- up to where it listens, and the options of git-server/src/main.rs.
pub mod Ready
use radicle_client_services.Base.{
  Text, lit, Assoc, is_utf8, Bool, Option, none, some, [], ◌++◌, Outcome, ok, err, panic, map_err,
  ensure,
}
use radicle_client_services.Base.Action.{Action, gets, lift, resume, ◌>>=◌, ◌>>◌}
use radicle_client_services.Extern.Peers.{Peers}
use radicle_client_services.Extern.Monorepo.{Monorepo}
use radicle_client_services.Extern.GitConfig.{GitConfig}
use radicle_client_services.Extern.Keystore.{Keystore}
use radicle_client_services.GitServer.Error.{Error}
use radicle_client_services.GitServer.Context.{Context}
use radicle_client_services.GitServer.Alias.{Aliases, populate_aliases}
use radicle_client_services.GitServer.Config.{configure}
use radicle_client_services.Shared.{profile}

-- the options of the library and of the program, with the address as it is shown
pub record Options : Type 0 where
  pub root : Option Text
  pub passphrase : Option Text
  pub listen : Text
  pub tls_cert : Option Text
  pub tls_key : Option Text
  pub git_receive_pack : Bool
  pub cert_nonce_seed : Option Text
  pub allow_unauthorized_keys : Bool

-- what `run` returns with if it does not listen
pub data StartError : Type 0 where
  no_git : Text → StartError
  not_utf8 : StartError
  populating_aliases : Error → StartError
  setup_failed : Text × Error → StartError

-- Result::expect
abbrev pub expect : {A E F : Type 0} → Outcome E A → Outcome F A
expect (ok a) = ok a
expect _ = panic

module _ {P : Peers} (G : Monorepo P) (F : GitConfig) (K : Keystore) where
  -- the disk with the profiles, git's configuration, and the cache of the server
  pub record World : Type 0 where
    pub disk : K.Disk
    pub config : F.Config
    pub aliases : Aliases G

  abbrev pub Setup : Type 0 → Type 0
  Setup A = Action World StartError A

  module _ (canonicalize : K.Disk → K.Profile → Outcome Text Text)
      (root_of : K.Home → Option Text) where
    -- Context::from, where the git directory of a profile is canonicalized
    unfoldable pub context_from : Options → Action K.Disk Text Context
    context_from options = do
      found ← profile K options.root options.passphrase
      git_root ← gets (λ d. canonicalize d found.1)
      lift (
          ok (record {
            root = root_of found.0;
            git_receive_pack = options.git_receive_pack;
            cert_nonce_seed = options.cert_nonce_seed;
            git_receive_hook = git_root ++ lit "/hooks/post-receive-ok";
            allow_unauthorized_keys = options.allow_unauthorized_keys;
          }))

    unfoldable pub create_context : Options → Setup Context
    create_context options w = (
      expect (context_from options w.disk).0,
      record w { disk = (context_from options w.disk).1 },
    )

    unfoldable pub fill_aliases : G.Store → Setup (Unit {0})
    fill_aliases s w = (
      map_err populating_aliases (populate_aliases G s w.aliases).0,
      record w { aliases = (populate_aliases G s w.aliases).1 },
    )

    unfoldable pub set_config : Context → Setup (Unit {0})
    set_config ctx w = (
      map_err setup_failed (configure F ctx.cert_nonce_seed w.config).0,
      record w { config = (configure F ctx.cert_nonce_seed w.config).1 },
    )

    -- run, for the output of `git version` and the repository at the start
    unfoldable pub start : Outcome Text Text → G.Store → Options → Setup Context
    start git_version s options = do
      version ← lift (map_err no_git git_version)
      lift (ensure (is_utf8 version) not_utf8)
      ctx ← create_context options
      fill_aliases s
      set_config ctx
      lift (ok ctx)
