-- ===== src/GitServer/Hooks/PreReceive.antt =====
-- git-server/src/hooks/pre_receive.rs: a push is refused before any reference is updated.
pub mod Certificate
pub mod Authority
pub mod Acceptance
pub mod Refusal
use radicle_client_services.Base.{
  Text, lit, ◌==◌, split, strip_prefix, contains, write_u32, length, get_or_else, if◌then◌else◌,
  Bool, true, false, Option, none, some, List, [], ◌∷◌, ◌++◌, ok, err, ok_or, map_err, ◌>>=◌, ◌>>◌,
}
use radicle_client_services.Extern.Peers.{Peers}
use radicle_client_services.Extern.Monorepo.{Monorepo}
use radicle_client_services.Extern.Vars.{Vars}
use radicle_client_services.GitServer.Error.{
  Result, git2_error, unauthorized, invalid_ref_pushed, key_mismatch,
  failed_certificate_verification,
}
use radicle_client_services.GitServer.RefName.{parse_ref}
use radicle_client_services.GitServer.Hooks.CertStatus.{
  CertNonceStatus, nonce_status_from_str, cert_status_from_str, is_ok,
}
use radicle_client_services.GitServer.Hooks.Types.{ReceivePackEnv, init_from_env}
use radicle_client_services.GitServer.Hooks.Updates.{Line, Update, read_updates}

-- the keyring of `from_stdin`
unfoldable pub keyring : Option Text → List Text
keyring none = []
keyring (some k) = split b',' k

module _ (P : Peers) where
  -- to_ssh_fingerprint; writing to a `Vec` cannot fail
  unfoldable pub to_ssh_fingerprint : P.PeerId → Text
  to_ssh_fingerprint peer_id =
      let name = lit "ssh-ed25519" in
      let key = P.key_bytes (P.as_public_key peer_id) in
      P.sha256 (write_u32 (length name) ++ name ++ write_u32 (length key) ++ key)

module _ {P : Peers} (G : Monorepo P) where
  pub record PreReceive : Type 0 where
    pub env : ReceivePackEnv P
    pub updates : List (Update G)
    pub authorized_keys : List Text
    pub key_fingerprint : Text

  unfoldable pub from_stdin : (V : Vars P) → List Line → V.Env → Result PreReceive
  from_stdin V lines e = do
    env ← init_from_env P V e
    updates ← read_updates G lines
    let authorized_keys = keyring env.authorized_keys
    key_fingerprint ← ok_or (unauthorized (lit "push certificate is not available")) env.cert_key
    ok (record {
      env = env;
      updates = updates;
      authorized_keys = authorized_keys;
      key_fingerprint = key_fingerprint;
    })

  -- the loop of `authorize_ref_updates`, for a decoded fingerprint and the text that it came from
  unfoldable pub authorize_refs : Text → Text → List (Update G) → Result (Unit {0})
  authorize_refs fingerprint actual [] = ok tt
  authorize_refs fingerprint actual ((refname, old, new) ∷ updates) = do
    parsed ← map_err (λ _. invalid_ref_pushed refname) (parse_ref P refname)
    let peer_fingerprint = to_ssh_fingerprint P parsed.0
    if fingerprint == peer_fingerprint
        then authorize_refs fingerprint actual updates
        else err (key_mismatch actual (P.base64_encode peer_fingerprint))

  unfoldable pub authorize_ref_updates : PreReceive → Result (Unit {0})
  authorize_ref_updates p = do
    digest ←
        ok_or (unauthorized (lit "key fingerprint is not a SHA-256 hash"))
          (strip_prefix (lit "SHA256:") p.key_fingerprint)
    fingerprint ← ok_or (unauthorized (lit "key fingerprint is not valid")) (P.base64_decode digest)
    authorize_refs fingerprint p.key_fingerprint p.updates

  accept_nonce : CertNonceStatus → Result (Unit {0})
  accept_nonce CertNonceStatus.ok = ok tt
  accept_nonce _ = err failed_certificate_verification

  unfoldable pub verify_certificate : PreReceive → Result (Unit {0})
  unfolding accept_nonce
  verify_certificate p =
      let status = cert_status_from_str (get_or_else p.env.cert_status []) in
      if is_ok status
      then accept_nonce (nonce_status_from_str (get_or_else p.env.cert_nonce_status []))
      else err failed_certificate_verification

  unfoldable pub check_authorized_key : PreReceive → Result (Unit {0})
  check_authorized_key p =
      let denied = err (unauthorized (lit "key is not authorized to push")) in
      elim p.env.cert_key [
        | none ↦ denied
        | some key ↦
            if get_or_else p.env.allow_unauthorized_keys false
            then ok tt
            else if contains ◌==◌ key p.authorized_keys
            then ok tt
            else denied
      ]

  -- PreReceive::hook, for the lines of its input, its environment and the repository on disk
  unfoldable pub hook : (V : Vars P) → List Line → V.Env → G.Store → Result (Unit {0})
  hook V lines e s = do
    p ← from_stdin V lines e
    map_err git2_error (G.open_bare s p.env.git_dir)
    map_err git2_error (G.set_namespace s p.env.git_namespace)
    verify_certificate p
    check_authorized_key p
    authorize_ref_updates p
