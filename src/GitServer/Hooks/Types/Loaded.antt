-- ===== src/GitServer/Hooks/Types/Loaded.antt =====
-- Where the fields of the hooks' environment that decide on a push come from.
use radicle_client_services.Base.{
  Text, lit, Option, ok, >>=-eq-ok, map_err, map_err-eq-ok, ok-injective, ◌≡◌, ◌∙◌, ap,
}
use radicle_client_services.Extern.Peers.{Peers}
use radicle_client_services.Extern.Vars.{Vars}
use radicle_client_services.GitServer.Error.{env_config_error}
use radicle_client_services.GitServer.Hooks.Types.{
  ReceivePackEnv, optional, required, init_from_env,
}

module _ {P : Peers} (V : Vars P) (e : V.Env) where
  -- The variables of the certificate, of the keys and of the flag that lets every key through.
  pub record IsLoaded (env : ReceivePackEnv P) : Type 0 where
    pub cert_key : V.load_optional_var e (lit "GIT_PUSH_CERT_KEY") ≡ ok env.cert_key
    pub cert_status : V.load_optional_var e (lit "GIT_PUSH_CERT_STATUS") ≡ ok env.cert_status
    pub cert_nonce_status :
        V.load_optional_var e (lit "GIT_PUSH_CERT_NONCE_STATUS") ≡ ok env.cert_nonce_status
    pub authorized_keys :
        V.load_optional_var e (lit "RADICLE_AUTHORIZED_KEYS") ≡ ok env.authorized_keys
    pub allow_unauthorized_keys :
        V.load_optional_bool e (lit "RADICLE_ALLOW_UNAUTHORIZED_KEYS")
        ≡ ok env.allow_unauthorized_keys

  is_loaded :
      (name : Text) (a b : Option Text)
      → optional P V e name ≡ ok a
      → a ≡ b
      → V.load_optional_var e name ≡ ok b
  is_loaded name a b h same =
      map_err-eq-ok env_config_error (V.load_optional_var e name) h ∙ ap ok same

  pub init_from_env_sound : (env : ReceivePackEnv P) → init_from_env P V e ≡ ok env → IsLoaded env
  unfolding init_from_env
  init_from_env_sound env h =
      let (cert, h_cert, h₁) = >>=-eq-ok (optional P V e (lit "GIT_PUSH_CERT")) _ h in
      let (cert_signer, _, h₂) = >>=-eq-ok (optional P V e (lit "GIT_PUSH_CERT_SIGNER")) _ h₁ in
      let (cert_key, key, h₃) = >>=-eq-ok (optional P V e (lit "GIT_PUSH_CERT_KEY")) _ h₂ in
      let (cert_status, status, h₄) =
        >>=-eq-ok (optional P V e (lit "GIT_PUSH_CERT_STATUS")) _ h₃ in
      let (cert_nonce, _, h₅) = >>=-eq-ok (optional P V e (lit "GIT_PUSH_CERT_NONCE")) _ h₄ in
      let (cert_nonce_status, nonce, h₆) =
        >>=-eq-ok (optional P V e (lit "GIT_PUSH_CERT_NONCE_STATUS")) _ h₅ in
      let (authorized_keys, keys, h₇) =
        >>=-eq-ok (optional P V e (lit "RADICLE_AUTHORIZED_KEYS")) _ h₆ in
      let (delegates, _, h₈) = >>=-eq-ok (optional P V e (lit "RADICLE_DELEGATES")) _ h₇ in
      let (allow, flag, h₉) =
        >>=-eq-ok
          (map_err env_config_error
            (V.load_optional_bool e (lit "RADICLE_ALLOW_UNAUTHORIZED_KEYS")))
          _ h₈ in
      let (name, _, h₁₀) = >>=-eq-ok (optional P V e (lit "RADICLE_NAME")) _ h₉ in
      let (peer_id, _, h₁₁) =
        >>=-eq-ok (map_err env_config_error (V.load_optional_peer e (lit "RADICLE_PEER_ID"))) _
          h₁₀ in
      let (receive_hook, _, h₁₂) = >>=-eq-ok (optional P V e (lit "RADICLE_RECEIVE_HOOK")) _ h₁₁ in
      let (default_branch, _, h₁₃) =
        >>=-eq-ok (optional P V e (lit "RADICLE_DEFAULT_BRANCH")) _ h₁₂ in
      let (root, _, h₁₄) = >>=-eq-ok (optional P V e (lit "RADICLE_ROOT")) _ h₁₃ in
      let (git_namespace, _, h₁₅) = >>=-eq-ok (required P V e (lit "GIT_NAMESPACE")) _ h₁₄ in
      let (remote_user, _, h₁₆) = >>=-eq-ok (optional P V e (lit "REMOTE_USER")) _ h₁₅ in
      let (remote_addr, _, h₁₇) = >>=-eq-ok (optional P V e (lit "REMOTE_ADDR")) _ h₁₆ in
      let (committer, _, h₁₈) = >>=-eq-ok (optional P V e (lit "GIT_COMMITTER_NAME")) _ h₁₇ in
      let (email, _, h₁₉) = >>=-eq-ok (optional P V e (lit "GIT_COMMITTER_EMAIL")) _ h₁₈ in
      let (content_type, _, h₂₀) = >>=-eq-ok (required P V e (lit "CONTENT_TYPE")) _ h₁₉ in
      let (query_string, _, h₂₁) = >>=-eq-ok (required P V e (lit "QUERY_STRING")) _ h₂₀ in
      let (git_dir, _, h₂₂) = >>=-eq-ok (required P V e (lit "GIT_DIR")) _ h₂₁ in
      let same = ok-injective h₂₂ in
      record {
        cert_key =
            is_loaded (lit "GIT_PUSH_CERT_KEY") cert_key env.cert_key key
              (ap (λ (r : ReceivePackEnv P). r.cert_key) same);
        cert_status =
            is_loaded (lit "GIT_PUSH_CERT_STATUS") cert_status env.cert_status status
              (ap (λ (r : ReceivePackEnv P). r.cert_status) same);
        cert_nonce_status =
            is_loaded (lit "GIT_PUSH_CERT_NONCE_STATUS") cert_nonce_status env.cert_nonce_status
              nonce (ap (λ (r : ReceivePackEnv P). r.cert_nonce_status) same);
        authorized_keys =
            is_loaded (lit "RADICLE_AUTHORIZED_KEYS") authorized_keys env.authorized_keys keys
              (ap (λ (r : ReceivePackEnv P). r.authorized_keys) same);
        allow_unauthorized_keys =
            map_err-eq-ok env_config_error _ flag
            ∙ ap ok (ap (λ (r : ReceivePackEnv P). r.allow_unauthorized_keys) same);
      }
