-- ===== src/Checks/PreReceive.antt =====
-- The pre-receive hook at concrete pushes.
use radicle_client_services.Base.{
  Text, lit, ◌==◌, split, strip_prefix, split_once, contains, write_u32, List, [], ◌∷◌, ◌++◌, ok,
  err, ◌≡◌, ◌↔◌, refl,
}
use radicle_client_services.GitServer.Error.{
  unauthorized, key_mismatch, failed_certificate_verification,
}
use radicle_client_services.GitServer.RefName.{parse_ref}
use radicle_client_services.GitServer.Hooks.CertStatus.{
  nonce_status_from_str, cert_status_from_str, is_ok,
}
use radicle_client_services.GitServer.Hooks.Types.{init_from_env}
use radicle_client_services.GitServer.Hooks.Updates.{Line, read, parse_update, read_updates}
use radicle_client_services.GitServer.Hooks.PreReceive.{
  keyring, to_ssh_fingerprint, from_stdin, authorize_refs, authorize_ref_updates,
  verify_certificate, check_authorized_key, hook,
}
use radicle_client_services.GitServer.Hooks.PreReceive.Acceptance.{IsAccepted, hook_iff}
use radicle_client_services.Checks.Toy.{repo, vars, lookup, decode, empty_disk}

-- what the tests compute with
unfoldable pub runs : Unit {0}
unfolding hook from_stdin authorize_ref_updates authorize_refs verify_certificate
    check_authorized_key keyring to_ssh_fingerprint read_updates parse_update init_from_env
    nonce_status_from_str cert_status_from_str is_ok parse_ref strip_prefix split_once split
    contains write_u32 lookup decode ◌==◌
runs = tt

abbrev alice_print : Text
alice_print = 0 ∷ 0 ∷ 0 ∷ 11 ∷ (lit "ssh-ed25519" ++ 0 ∷ 0 ∷ 0 ∷ 5 ∷ lit "alice")

abbrev pub alice_key : Text
alice_key = lit "SHA256:" ++ alice_print

abbrev common_env : List (Text × Text)
common_env =
    (lit "GIT_NAMESPACE", lit "hnrk")
    ∷ (lit "CONTENT_TYPE", [])
    ∷ (lit "QUERY_STRING", [])
    ∷ (lit "GIT_DIR", lit "/git")
    ∷ []

abbrev signed_env : List (Text × Text)
signed_env =
    (lit "GIT_PUSH_CERT_KEY", alice_key)
    ∷ (lit "GIT_PUSH_CERT_STATUS", lit "U")
    ∷ (lit "GIT_PUSH_CERT_NONCE_STATUS", lit "OK")
    ∷ (lit "RADICLE_AUTHORIZED_KEYS", lit "SHA256:other," ++ alice_key)
    ∷ common_env

abbrev pub to_alice : List Line
to_alice = read (lit "0 7 refs/remotes/alice/heads/master") ∷ []

abbrev to_bob : List Line
to_bob = read (lit "0 7 refs/remotes/bob/heads/master") ∷ []

accepts_alice : hook repo vars to_alice signed_env empty_disk ≡ ok tt
unfolding runs
accepts_alice = refl

refuses_bob :
    hook repo vars to_bob signed_env empty_disk
    ≡ err
        (key_mismatch alice_key (0 ∷ 0 ∷ 0 ∷ 11 ∷ (lit "ssh-ed25519" ++ 0 ∷ 0 ∷ 0 ∷ 3 ∷ lit "bob")))
unfolding runs
refuses_bob = refl

-- Allowing unauthorized keys does not lift the check of the certificate.
abbrev lax_env : List (Text × Text)
lax_env =
    (lit "RADICLE_ALLOW_UNAUTHORIZED_KEYS", lit "true")
    ∷ (lit "GIT_PUSH_CERT_KEY", alice_key)
    ∷ (lit "GIT_PUSH_CERT_STATUS", lit "N")
    ∷ common_env

refuses_lax : hook repo vars to_alice lax_env empty_disk ≡ err failed_certificate_verification
unfolding runs
refuses_lax = refl

hook_iff_example :
    (hook repo vars to_alice signed_env empty_disk ≡ ok tt)
    ↔ IsAccepted repo vars to_alice signed_env empty_disk
hook_iff_example = hook_iff repo vars to_alice signed_env empty_disk

-- unsigned, with every key allowed
abbrev unsigned_env : List (Text × Text)
unsigned_env = (lit "RADICLE_ALLOW_UNAUTHORIZED_KEYS", lit "true") ∷ common_env

refuses_unsigned :
    hook repo vars to_alice unsigned_env empty_disk
    ≡ err (unauthorized (lit "push certificate is not available"))
unfolding runs
refuses_unsigned = refl
