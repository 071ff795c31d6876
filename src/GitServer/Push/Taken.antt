-- ===== src/GitServer/Push/Taken.antt =====
-- Which pushes git takes, with the hook of git-server/src/hooks/pre_receive.rs run by the server of
-- git-server/src/lib.rs.
use radicle_client_services.Base.{
  Text, lit, get, All, Lacks, Has, or_else, get_or_else, true, refl, Option, none, some, List, [],
  ok, ok-injective, ◌≡◌, ◌≢◌, ◌↔◌, inl, inr, ◌∙◌, ap, sym, subst,
}
use radicle_client_services.Extern.Peers.{Peers}
use radicle_client_services.Extern.Monorepo.{Monorepo}
use radicle_client_services.Extern.Vars.{Vars, LoadsOptional, LoadsUnset, LoadsFlag, Inherits}
use radicle_client_services.Extern.Backend.{Backend, IteratesAll}
use radicle_client_services.GitServer.Context.{Context, Meta}
use radicle_client_services.GitServer.Context.Keys.{load_authorized_keys_iff}
use radicle_client_services.GitServer.Handler.{Request, keys_for, command_env}
use radicle_client_services.GitServer.Handler.Gate.{Gated, keys_for_iff}
use radicle_client_services.GitServer.Handler.Flag.{get-flag_on}
use radicle_client_services.GitServer.Programs.{exit_code, pre_receive_main}
use radicle_client_services.GitServer.Hooks.Types.{ReceivePackEnv, init_from_env}
use radicle_client_services.GitServer.Hooks.Types.Loaded.{init_from_env_sound}
use radicle_client_services.GitServer.Hooks.Updates.{Line}
use radicle_client_services.GitServer.Hooks.PreReceive.{keyring}
use radicle_client_services.GitServer.Hooks.PreReceive.Acceptance.{Opens, IsAccepted, hook_iff}
use radicle_client_services.GitServer.Push.{
  IsListed, IsAuthorized, digest-ne, var-eq, keyring-inherited, pre_receive_main-IsAuthorized,
}

-- A line of the file is among the keys that a push has loaded.
listed-Has :
    (ctx : Context) (B : Backend)
    → IteratesAll B
    → (path query : Text) (keys : List Text) (key : Text) → keys_for ctx B path query ≡ ok keys
    → key ≢ []
    → IsListed ctx B path query key
    → Has key keys
listed-Has ctx B I path query keys key passed n listed =
    let gated =
      subst (λ b. Gated ctx B b keys) listed.recognised
        ((keys_for_iff ctx B path query keys).0 passed) in
    (load_authorized_keys_iff B I listed.file keys key listed.opened gated.1 n).1 listed.line

module _ {P : Peers} (G : Monorepo P) (V : Vars P) (lines : List Line) (e : V.Env)
    (L : LoadsOptional P V) (U : LoadsUnset P V) (F : LoadsFlag P V) (own : Text → Option Text)
    (ctx : Context) (B : Backend) (I : IteratesAll B) (keys : List Text) (meta : Meta G)
    (peer : Option P.PeerId) (dir : Text) (urn : G.Urn) (r : Request)
    (N : Inherits P V own (λ name. get name (command_env G ctx keys meta peer dir urn r)) e)
    (passed : keys_for ctx B r.path (get_or_else r.query []) ≡ ok keys)
    (plain : All (Lacks b',') keys) where
  -- The hook finds the flag set if the option is.
  flag_set :
      ctx.allow_unauthorized_keys ≡ true
      → V.load_optional_bool e (lit "RADICLE_ALLOW_UNAUTHORIZED_KEYS") ≡ ok (some true)
  flag_set on = F.load_optional_bool-set e (lit "RADICLE_ALLOW_UNAUTHORIZED_KEYS") (
      N.inherited (lit "RADICLE_ALLOW_UNAUTHORIZED_KEYS") (lit "ALLOW_UNAUTHORIZED_KEYS") refl
      ∙ ap (λ o. or_else o (own (lit "RADICLE_ALLOW_UNAUTHORIZED_KEYS")))
          (get-flag_on G ctx keys meta peer dir urn r on))

  -- The hook accepts an authorized push, if its environment is read and the repository opens.
  accepts :
      (s : G.Store) (env : ReceivePackEnv P)
      → own (lit "RADICLE_AUTHORIZED_KEYS") ≡ none
      → init_from_env P V e ≡ ok env
      → Opens G V lines e s env
      → IsAuthorized G V lines e ctx B r
      → IsAccepted G V lines e s
  accepts s env unset read repository a =
      let loaded = init_from_env_sound V e env read in
      let signer =
        sym (var-eq G V lines e L (lit "GIT_PUSH_CERT_KEY") env.cert_key loaded.cert_key)
        ∙ a.signer in
      let status =
        sym
          (var-eq G V lines e L (lit "GIT_PUSH_CERT_STATUS") env.cert_status loaded.cert_status) in
      let same =
        keyring-inherited G V lines e L U own ctx B I keys meta peer dir urn r N passed plain
          env.authorized_keys unset loaded.authorized_keys in
      record {
        push = record {
          env = env;
          updates = a.updates;
          authorized_keys = keyring env.authorized_keys;
          key_fingerprint = a.key;
        };
        input = record { loaded = read; parsed = a.parsed; keys = refl; signer = signer };
        repository = repository;
        signed = record {
          certificate = elim a.certificate [
            | inl good ↦ inl (status ∙ good)
            | inr unknown ↦ inr (status ∙ unknown)
          ];
          nonce =
              sym (
                var-eq G V lines e L (lit "GIT_PUSH_CERT_NONCE_STATUS") env.cert_nonce_status
                  loaded.cert_nonce_status)
              ∙ a.nonce;
        };
        allowed = record {
          key = a.key;
          signed = signer;
          allowed = elim a.allowed [
            | inl on ↦ inl (ok-injective (sym loaded.allow_unauthorized_keys ∙ flag_set on))
            | inr listed ↦ inr (
                subst (λ (l : List Text). Has a.key l) (sym same)
                  (listed-Has ctx B I r.path (get_or_else r.query []) keys a.key passed
                    (digest-ne a.prefixed) listed))
          ];
        };
        owner = record {
          digest = a.digest;
          fingerprint = a.fingerprint;
          prefixed = a.prefixed;
          decoded = a.decoded;
          owned = a.owned;
        };
      }

  -- The program of the hook exits with 0, which is when git takes the push, exactly for the pushes
  -- that are authorized. That is a push with a key that the server lists, if the gate takes the
  -- request for a push (its path is git-receive-pack without a slash, or its query is
  -- service=git-receive-pack); any other request is authorized only if every key is let through.
  -- This is so if the program runs with the environment that the server handed down, whose keys
  -- passed the gate and have no comma, neither RADICLE_AUTHORIZED_KEYS nor
  -- RADICLE_ALLOW_UNAUTHORIZED_KEYS is set for the server itself, the hook can read its
  -- environment, and the repository opens and takes its namespace.
  pub pre_receive_main_iff :
      (s : G.Store) (env : ReceivePackEnv P)
      → own (lit "RADICLE_AUTHORIZED_KEYS") ≡ none
      → own (lit "RADICLE_ALLOW_UNAUTHORIZED_KEYS") ≡ none
      → init_from_env P V e ≡ ok env
      → Opens G V lines e s env
      → (pre_receive_main G V lines e s ≡ 0) ↔ IsAuthorized G V lines e ctx B r
  unfolding pre_receive_main exit_code
  pre_receive_main_iff s env keys_unset flag_unset read repository = (
    λ status.
        pre_receive_main-IsAuthorized G V lines e L U own ctx B I keys meta peer dir urn r N passed
          plain s keys_unset flag_unset status,
    λ a. ap exit_code ((hook_iff G V lines e s).1 (accepts s env keys_unset read repository a)),
  )
