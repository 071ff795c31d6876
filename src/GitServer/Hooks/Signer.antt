-- ===== src/GitServer/Hooks/Signer.antt =====
-- `CertSignerDetails` of git-server/src/hooks/mod.rs: name and e-mail of the signer of a push
-- certificate, from a text such as "First Last <first.last@email.com>".
pub mod Parts
use radicle_client_services.Base.{
  Text, ℕ, lit, ◌+◌, ◌-◌, length, slice, find_byte, get_or_else, eqb, Option, none, some, err,
  panic, if◌then◌else◌,
}
use radicle_client_services.GitServer.Error.{Result, missing_certificate_signer_credentials}

-- `n - 1` on usize: below zero it panics in a debug build, and in a release build it wraps to a
-- bound that the slice then panics on.
unfoldable pub signer_name : Option Text → Result Text
signer_name none = err (missing_certificate_signer_credentials (lit "name"))
signer_name (some signer) =
    let stop = get_or_else (find_byte b'<' signer) (length signer) in
    if eqb stop 0 then panic else slice signer 0 (stop - 1)

-- the two nested tests of `signer_email`: the start without the end is no e-mail either
between : Text → Option ℕ → Option ℕ → Result Text
between signer (some start) (some stop) = slice signer (start + 1) stop
between signer _ _ = err (missing_certificate_signer_credentials (lit "email"))

unfoldable pub signer_email : Option Text → Result Text
unfolding between
signer_email none = err (missing_certificate_signer_credentials (lit "email"))
signer_email (some signer) = between signer (find_byte b'<' signer) (find_byte b'>' signer)
