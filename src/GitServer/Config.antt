-- ===== src/GitServer/Config.antt =====
-- The configuration of git that git-server/src/lib.rs sets when the server starts.
pub mod Settings
use radicle_client_services.Base.{
  Text, lit, ℕ, zero, suc, Option, List, [], ◌∷◌, get_or_else, Outcome, ok, map_err,
}
use radicle_client_services.Base.Action.{Action, pure, lift, gets, resume, ◌>>=◌, ◌>>◌}
use radicle_client_services.Extern.GitConfig.{GitConfig}
use radicle_client_services.GitServer.Error.{Error, git2_error}

module _ (F : GitConfig) where
  abbrev pub Setup : Type 0 → Type 0
  Setup E = Action F.Config E (Unit {0})

  -- the loop of `gen_random_string`
  unfoldable pub draw : ℕ → ℕ → Text
  draw zero i = []
  draw (suc n) i = F.alphanumeric i ∷ draw n (suc i)

  unfoldable pub gen_random_string : Text
  gen_random_string = draw 12 0

  -- Context::set_root_git_config
  unfoldable pub set_root_git_config : Text → Text → Setup Error
  set_root_git_config field value = do
    gets (λ c. map_err git2_error (F.open_config c))
    λ c. (map_err git2_error (F.set_str field value c).0, (F.set_str field value c).1)

  unfoldable pub advertise_push_options : Setup Error
  advertise_push_options = set_root_git_config (lit "receive.advertisePushOptions") (lit "true")

  unfoldable pub disable_signers_file : Setup Error
  disable_signers_file = set_root_git_config (lit "gpg.ssh.allowedSignersFile") (lit "/dev/null")

  unfoldable pub disable_gc : Setup Error
  disable_gc = set_root_git_config (lit "gc.auto") (lit "0")

  unfoldable pub set_cert_nonce_seed : Option Text → Setup Error
  set_cert_nonce_seed seed =
      set_root_git_config (lit "receive.certNonceSeed") (get_or_else seed gen_random_string)

  -- the value 60, as it is shown
  unfoldable pub set_cert_nonce_slop : Setup Error
  set_cert_nonce_slop = set_root_git_config (lit "receive.certNonceSlop") (lit "60")

  -- `if let Err(e) = … { bail!(…) }`, with the error beside the words of the message
  abbrev pub or_bail : Text → Setup Error → Setup (Text × Error)
  or_bail words m c = (map_err (λ e. (words, e)) (m c).0, (m c).1)

  -- the five calls of `run`
  unfoldable pub configure : Option Text → Setup (Text × Error)
  configure seed = do
    or_bail (lit "Failed to set certificate nonce seed") (set_cert_nonce_seed seed)
    or_bail (lit "Failed to set certificate nonce slop") set_cert_nonce_slop
    or_bail (lit "Failed to set push config") advertise_push_options
    or_bail (lit "Failed to set signers file config") disable_signers_file
    or_bail (lit "Failed to disable gc") disable_gc
