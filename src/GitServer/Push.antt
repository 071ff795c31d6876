-- ===== src/GitServer/Push.antt =====
-- A push as a whole: the server of git-server/src/lib.rs loads the keys and runs git-http-backend,
-- which runs the hook of git-server/src/hooks/pre_receive.rs with the environment that it was given.
pub mod Taken
use radicle_client_services.Base.{
  Text, or_else-none, lit, get, All, Lacks, Has, or_else, get_or_else, Bool-cases, true, Option,
  none, some, List, [], ◌++◌, Outcome, ok, err, panic, ok-injective, some-injective, ◌≡◌, ◌≢◌, ◌⊎◌,
  inl, inr, ◌∙◌, refl, ap, sym, subst, arith,
}
use radicle_client_services.Extern.Peers.{Peers}
use radicle_client_services.Extern.Monorepo.{Monorepo}
use radicle_client_services.Extern.Vars.{Vars, LoadsOptional, LoadsUnset, Inherits}
use radicle_client_services.Extern.Backend.{Backend, IteratesAll}
use radicle_client_services.GitServer.Context.{Context, Meta}
use radicle_client_services.GitServer.Context.Keys.{load_authorized_keys-listed}
use radicle_client_services.GitServer.Handler.{Request, is_receive_pack, keys_for, command_env}
use radicle_client_services.GitServer.Handler.Gate.{Gated, keys_for_iff}
use radicle_client_services.GitServer.Handler.Environment.{keyring-command_env}
use radicle_client_services.GitServer.Programs.{exit_code, pre_receive_main}
use radicle_client_services.GitServer.Handler.Flag.{get-flag}
use radicle_client_services.GitServer.Hooks.Types.Loaded.{init_from_env_sound}
use radicle_client_services.GitServer.Hooks.Updates.{Line, read, Update, read_updates}
use radicle_client_services.GitServer.Hooks.PreReceive.{keyring, hook}
use radicle_client_services.GitServer.Hooks.PreReceive.Authority.{IsOwn}
use radicle_client_services.GitServer.Hooks.PreReceive.Acceptance.{hook_iff}

-- A key that passes the gate is a line of the file of a server that takes pushes, and the request
-- is one that the gate takes for a push.
pub record IsListed (ctx : Context) (B : Backend) (path query key : Text) : Type 0 where
  pub recognised : is_receive_pack path query ≡ true
  pub file : List Line
  pub enabled : ctx.git_receive_pack ≡ true
  pub opened : B.authorized_keys_file ≡ ok file
  pub line : Has (read key) file

keys_for-IsListed :
    (ctx : Context) (B : Backend)
    → IteratesAll B
    → (path query : Text) (keys : List Text) (key : Text) → keys_for ctx B path query ≡ ok keys
    → key ≢ []
    → Has key keys
    → IsListed ctx B path query key
keys_for-IsListed ctx B I path query keys key passed n held =
    let gated = (keys_for_iff ctx B path query keys).0 passed in
    elim (Bool-cases (is_receive_pack path query)) [
      | inl push ↦
          let (enabled, loaded) = subst (λ b. Gated ctx B b keys) push gated in
          let (file, opened, line) = load_authorized_keys-listed B I keys key loaded n held in
          record { recognised = push; file = file; enabled = enabled; opened = opened; line = line }
      | inr fetch ↦
          absurd (
            subst (λ (l : List Text). Has key l) (subst (λ b. Gated ctx B b keys) fetch gated) held)
    ]

some-ne-none : some true ≢ none
some-ne-none h = cc

exit_code-eq_zero : {E : Type 0} (r : Outcome E (Unit {0})) → exit_code r ≡ 0 → r ≡ ok tt
unfolding exit_code
exit_code-eq_zero (ok u) h = refl
exit_code-eq_zero (err e) h = absurd (ground arith)
exit_code-eq_zero panic h = absurd (ground arith)

pub digest-ne : {key digest : Text} → key ≡ lit "SHA256:" ++ digest → key ≢ []
digest-ne h e = absurd (ground arith)

module _ {P : Peers} (G : Monorepo P) (V : Vars P) (lines : List Line) (e : V.Env) where
  -- The push was signed with a certificate that git found good, by a key that owns every reference.
  -- The server lets every key through, or it takes the request for a push and lists the key.
  pub record IsAuthorized (ctx : Context) (B : Backend) (r : Request) : Type 0 where
    pub updates : List (Update G)
    pub key : Text
    pub digest : Text
    pub fingerprint : Text
    pub parsed : read_updates G lines ≡ ok updates
    pub signer : V.var e (lit "GIT_PUSH_CERT_KEY") ≡ some key
    pub certificate :
        (V.var e (lit "GIT_PUSH_CERT_STATUS") ≡ some (lit "G"))
        ⊎ (V.var e (lit "GIT_PUSH_CERT_STATUS") ≡ some (lit "U"))
    pub nonce : V.var e (lit "GIT_PUSH_CERT_NONCE_STATUS") ≡ some (lit "OK")
    pub prefixed : key ≡ lit "SHA256:" ++ digest
    pub decoded : P.base64_decode digest ≡ some fingerprint
    pub owned : All (IsOwn G fingerprint) updates
    pub allowed :
        (ctx.allow_unauthorized_keys ≡ true) ⊎ IsListed ctx B r.path (get_or_else r.query []) key

  pub var-eq :
      LoadsOptional P V
      → (name : Text) (field : Option Text) → V.load_optional_var e name ≡ ok field
      → V.var e name ≡ field
  var-eq L name field loaded = ok-injective (sym (L.load_lem e name) ∙ loaded)

  module _ (L : LoadsOptional P V) (U : LoadsUnset P V) (own : Text → Option Text) (ctx : Context)
      (B : Backend) (I : IteratesAll B) (keys : List Text) (meta : Meta G) (peer : Option P.PeerId)
      (dir : Text) (urn : G.Urn) (r : Request)
      (N : Inherits P V own (λ name. get name (command_env G ctx keys meta peer dir urn r)) e)
      (passed : keys_for ctx B r.path (get_or_else r.query []) ≡ ok keys)
      (plain : All (Lacks b',') keys) where
    keys_var :
        own (lit "RADICLE_AUTHORIZED_KEYS") ≡ none
        → V.var e (lit "RADICLE_AUTHORIZED_KEYS")
          ≡ get (lit "RADICLE_AUTHORIZED_KEYS") (command_env G ctx keys meta peer dir urn r)
    keys_var unset =
        N.inherited (lit "RADICLE_AUTHORIZED_KEYS") (lit "AUTHORIZED_KEYS") refl
        ∙ ap (or_else _) unset
        ∙ or_else-none _

    -- The hook's keys are those that the server passed on.
    pub keyring-inherited :
        (field : Option Text)
        → own (lit "RADICLE_AUTHORIZED_KEYS") ≡ none
        → V.load_optional_var e (lit "RADICLE_AUTHORIZED_KEYS") ≡ ok field
        → keyring field ≡ keys
    keyring-inherited field unset loaded =
        ap keyring (sym (var-eq L (lit "RADICLE_AUTHORIZED_KEYS") field loaded) ∙ keys_var unset)
        ∙ keyring-command_env G ctx keys meta peer dir urn r plain

    -- The hook finds the flag set only if the option is.
    flag-inherited :
        own (lit "RADICLE_ALLOW_UNAUTHORIZED_KEYS") ≡ none
        → V.load_optional_bool e (lit "RADICLE_ALLOW_UNAUTHORIZED_KEYS") ≡ ok (some true)
        → ctx.allow_unauthorized_keys ≡ true
    flag-inherited unset loaded = elim (Bool-cases ctx.allow_unauthorized_keys) [
      | inl on ↦ on
      | inr off ↦
          let missing =
            N.inherited (lit "RADICLE_ALLOW_UNAUTHORIZED_KEYS") (lit "ALLOW_UNAUTHORIZED_KEYS") refl
            ∙ ap (λ o. or_else o (own (lit "RADICLE_ALLOW_UNAUTHORIZED_KEYS")))
                (get-flag G ctx keys meta peer dir urn r off)
            ∙ unset in
          absurd (
            some-ne-none (
              ok-injective (
                sym loaded
                ∙ U.load_optional_bool-unset e (lit "RADICLE_ALLOW_UNAUTHORIZED_KEYS") missing)))
    ]

    -- A push is authorized if the program of the hook exits with 0, which is when git takes it, if
    -- the hook runs with the environment that the
    -- server handed down for the request, the keys passed the gate and have no comma, and neither
    -- RADICLE_AUTHORIZED_KEYS nor RADICLE_ALLOW_UNAUTHORIZED_KEYS is set for the server itself.
    pub pre_receive_main-IsAuthorized :
        (s : G.Store)
        → own (lit "RADICLE_AUTHORIZED_KEYS") ≡ none
        → own (lit "RADICLE_ALLOW_UNAUTHORIZED_KEYS") ≡ none
        → pre_receive_main G V lines e s ≡ 0
        → IsAuthorized ctx B r
    unfolding pre_receive_main
    pre_receive_main-IsAuthorized s keys_unset flag_unset status =
        let a = (hook_iff G V lines e s).0 (exit_code-eq_zero (hook G V lines e s) status) in
        let p = a.push in
        let loaded = init_from_env_sound V e p.env a.input.loaded in
        let cert_status =
          var-eq L (lit "GIT_PUSH_CERT_STATUS") p.env.cert_status loaded.cert_status in
        let listed =
          a.input.keys
          ∙ keyring-inherited p.env.authorized_keys keys_unset loaded.authorized_keys in
        let same : a.allowed.key ≡ p.key_fingerprint =
          some-injective (sym a.allowed.signed ∙ a.input.signer) in
        record {
          updates = p.updates;
          key = p.key_fingerprint;
          digest = a.owner.digest;
          fingerprint = a.owner.fingerprint;
          parsed = a.input.parsed;
          signer =
              var-eq L (lit "GIT_PUSH_CERT_KEY") p.env.cert_key loaded.cert_key ∙ a.input.signer;
          certificate = elim a.signed.certificate [
            | inl good ↦ inl (cert_status ∙ good)
            | inr unknown ↦ inr (cert_status ∙ unknown)
          ];
          nonce =
              var-eq L (lit "GIT_PUSH_CERT_NONCE_STATUS") p.env.cert_nonce_status
                loaded.cert_nonce_status
              ∙ a.signed.nonce;
          prefixed = a.owner.prefixed;
          decoded = a.owner.decoded;
          owned = a.owner.owned;
          allowed = elim a.allowed.allowed [
            | inl every ↦
                inl (flag-inherited flag_unset (loaded.allow_unauthorized_keys ∙ ap ok every))
            | inr held ↦ inr (
                keys_for-IsListed ctx B I r.path (get_or_else r.query []) keys p.key_fingerprint
                  passed (digest-ne a.owner.prefixed)
                  (subst (λ (l : List Text). Has p.key_fingerprint l) listed
                    (subst (λ k. Has k p.authorized_keys) same held)))
          ];
        }
