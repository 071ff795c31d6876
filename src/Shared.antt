-- ===== src/Shared.antt =====
-- shared/src: the profile and the signer that a service starts with, and identity files.
pub mod Profiles
pub mod KeyFiles
use radicle_client_services.Base.{
  Text, lit, ℕ, Option, none, some, List, [], Outcome, ok, err, panic, map_err, ◌>>=◌,
}
use radicle_client_services.Base.Action.{Action, gets, resume, ◌>>◌}
use radicle_client_services.Extern.Keystore.{Keystore}

-- the mode 0o600
abbrev pub private_mode : ℕ
private_mode = 384

module _ (K : Keystore) where
  abbrev pub Setup : Type 0 → Type 0
  Setup A = Action K.Disk Text A

  -- the home of lib.rs: the root as it is on disk, or the default
  unfoldable pub home_of : K.Disk → Option Text → Outcome Text K.Home
  home_of d (some root) = K.canonicalize d root >>= λ path. ok (K.root_home path)
  home_of d none = ok K.default_home

  -- a profile that is found, or one that is created with the passphrase
  unfoldable pub find_or_create : K.Home → Option Text → Option K.Profile → Setup K.Profile
  find_or_create home passphrase (some profile) d = (ok profile, d)
  find_or_create home (some pass) none d = K.create home (K.pwhash pass) d
  find_or_create home none none d = (err (lit "No active profile and no passphrase supplied"), d)

  -- the signer of the secret key, or of the agent
  unfoldable pub signer_from : K.Disk → Option Text → K.Profile → Outcome Text K.BoxedSigner
  signer_from d (some pass) profile = do
    key ← K.load_secret_key d profile pass
    K.signer_of_key key profile
  signer_from d none profile = elim (K.ssh_auth_sock d) [
    | ok sock ↦ K.signer_of_socket d sock profile
    | err e ↦ err (lit "No signer found: ssh-agent isn't running, and no passphrase was supplied")
    | panic ↦ panic
  ]

  -- the signer of a profile that is there, which changes nothing
  unfoldable pub finish_profile :
      K.Home → Option Text → K.Profile → Setup (K.Home × K.Profile × K.BoxedSigner)
  finish_profile home passphrase profile d =
      resume (signer_from d passphrase profile) (λ signer d'. (ok (home, profile, signer), d')) d

  unfoldable pub with_profile :
      K.Home → Option Text → Option K.Profile → Setup (K.Home × K.Profile × K.BoxedSigner)
  with_profile home passphrase found d =
      resume (find_or_create home passphrase found d).0 (finish_profile home passphrase)
        (find_or_create home passphrase found d).1

  -- profile of lib.rs
  unfoldable pub profile : Option Text → Option Text → Setup (K.Home × K.Profile × K.BoxedSigner)
  profile root passphrase d =
      resume (home_of d root)
        (λ home d'. resume (K.active d' home) (with_profile home passphrase) d') d

  -- Identity of identity.rs
  pub data Identity : Type 0 where
    plain : Text → Identity
    encrypted : Text → Text → Identity

  -- the key of bytes that were read: Signer::new of signer.rs
  unfoldable pub new_signer : Outcome K.IoError Text → Outcome K.IoError K.SecretKey
  new_signer read = do bytes ← read; map_err K.invalid_data (K.from_bytes bytes)

  -- Identity::signer; a signer is its key
  unfoldable pub signer : K.Disk → Identity → Outcome K.IoError K.SecretKey
  signer d (plain path) = new_signer (K.read_file d path)
  signer d (encrypted path passphrase) = map_err K.permission_denied (K.get_key d path passphrase)

  -- generate of identity.rs
  unfoldable pub generate : Text → Action K.Disk K.IoError (Unit {0})
  generate path = do
    K.create_file path
    gets (λ d. K.metadata d path)
    K.set_mode path private_mode
    K.write_all path (K.bytes K.new_key)
