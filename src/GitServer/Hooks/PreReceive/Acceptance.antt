-- ===== src/GitServer/Hooks/PreReceive/Acceptance.antt =====
-- When the whole pre-receive hook accepts a push, and how it refuses one.
use radicle_client_services.Base.{
  some, List, ok, map_err, ok_or-bind, >>=-eq-ok, ok-injective, map_err-eq-ok, subst, ◌≡◌, ◌↔◌,
  refl,
}
use radicle_client_services.Extern.Peers.{Peers}
use radicle_client_services.Extern.Monorepo.{Monorepo}
use radicle_client_services.Extern.Vars.{Vars}
use radicle_client_services.GitServer.Error.{git2_error}
use radicle_client_services.GitServer.Hooks.Types.{ReceivePackEnv, init_from_env}
use radicle_client_services.GitServer.Hooks.Updates.{Line, read_updates}
use radicle_client_services.GitServer.Hooks.PreReceive.{
  PreReceive, keyring, from_stdin, verify_certificate, check_authorized_key, hook,
}
use radicle_client_services.GitServer.Hooks.PreReceive.Certificate.{
  IsSigned, IsAllowed, verify_certificate_iff, check_authorized_key_iff,
}
use radicle_client_services.GitServer.Hooks.PreReceive.Authority.{
  OwnsAll, authorize_ref_updates_iff,
}

module _ {P : Peers} (G : Monorepo P) (V : Vars P) (lines : List Line) (e : V.Env) where
  -- What `from_stdin` reads: the environment, the updates, the keyring of the environment, and the
  -- fingerprint of the key, which is set.
  pub record IsRead (p : PreReceive G) : Type 0 where
    pub loaded : init_from_env P V e ≡ ok p.env
    pub parsed : read_updates G lines ≡ ok p.updates
    pub keys : p.authorized_keys ≡ keyring p.env.authorized_keys
    pub signer : p.env.cert_key ≡ some p.key_fingerprint

  pub from_stdin_sound : (p : PreReceive G) → from_stdin G V lines e ≡ ok p → IsRead p
  unfolding from_stdin
  from_stdin_sound p h =
      let (env, loaded, h₁) = >>=-eq-ok (init_from_env P V e) _ h in
      let (updates, parsed, h₂) = >>=-eq-ok (read_updates G lines) _ h₁ in
      let (key, signer, h₃) = ok_or-bind _ env.cert_key _ h₂ in
      subst (IsRead) (ok-injective h₃)
        (record { loaded = loaded; parsed = parsed; keys = refl; signer = signer })

  pub from_stdin_complete : (p : PreReceive G) → IsRead p → from_stdin G V lines e ≡ ok p
  unfolding from_stdin
  from_stdin_complete p r = rw r.loaded (rw r.parsed (rw r.signer (rw (← r.keys) refl)))

  -- The repository of the environment opens, and takes its namespace.
  pub record Opens (s : G.Store) (env : ReceivePackEnv P) : Type 0 where
    pub bare : G.open_bare s env.git_dir ≡ ok tt
    pub namespaced : G.set_namespace s env.git_namespace ≡ ok tt

  pub record IsAccepted (s : G.Store) : Type 0 where
    pub push : PreReceive G
    pub input : IsRead push
    pub repository : Opens s push.env
    pub signed : IsSigned push
    pub allowed : IsAllowed push
    pub owner : OwnsAll G push

  -- The hook accepts a push exactly when: the input and the environment are read and the
  -- certificate's key is set; the repository opens; the certificate is signed; the key is allowed;
  -- and every updated reference belongs to the peer whose key it is.
  pub hook_iff : (s : G.Store) → (hook G V lines e s ≡ ok tt) ↔ IsAccepted s
  unfolding hook
  hook_iff s = (
    λ h.
        let (p, input, h₁) = >>=-eq-ok (from_stdin G V lines e) _ h in
        let (_, bare, h₂) = >>=-eq-ok (map_err git2_error (G.open_bare s p.env.git_dir)) _ h₁ in
        let (_, named, h₃) =
          >>=-eq-ok (map_err git2_error (G.set_namespace s p.env.git_namespace)) _ h₂ in
        let (_, signed, h₄) = >>=-eq-ok (verify_certificate G p) _ h₃ in
        let (_, allowed, owner) = >>=-eq-ok (check_authorized_key G p) _ h₄ in
        record {
          push = p;
          input = from_stdin_sound p input;
          repository = record {
            bare = map_err-eq-ok git2_error _ bare;
            namespaced = map_err-eq-ok git2_error _ named;
          };
          signed = (verify_certificate_iff p).0 signed;
          allowed = (check_authorized_key_iff p).0 allowed;
          owner = (authorize_ref_updates_iff G p).0 owner;
        },
    λ a. rw (from_stdin_complete a.push a.input) (
        rw a.repository.bare (
          rw a.repository.namespaced (
            rw ((verify_certificate_iff a.push).1 a.signed) (
              rw ((check_authorized_key_iff a.push).1 a.allowed)
                ((authorize_ref_updates_iff G a.push).1 a.owner))))),
  )
