-- ===== src/GitServer/Body.antt =====
-- The loop of `git` of git-server/src/lib.rs that copies the body of a request to git-http-backend.
pub mod Copying
use radicle_client_services.Base.{
  Text, ℕ, zero, suc, length, Bool, true, false, Option, none, some, [], ◌++◌, Outcome, ok, err,
  panic, get_or_else,
}
use radicle_client_services.Extern.Backend.{Backend}
use radicle_client_services.GitServer.Error.{IoErrorKind}

module _ (B : Backend) where
  -- `while body.has_remaining()`, on fuel: `none` is that it ran out
  unfoldable pub copy_chunks : ℕ → B.Body → Text → Option (Outcome IoErrorKind Text)
  copy_chunks zero body written = none
  copy_chunks (suc fuel) body written = elim (B.has_remaining body) [
    | false ↦ some (ok written)
    | true ↦ elim (B.write_chunk written (B.chunk body)) [
      | ok u ↦ copy_chunks fuel (B.advance (length (B.chunk body)) body) (written ++ B.chunk body)
      | err e ↦ some (err e)
      | panic ↦ some panic
    ]
  ]

  unfoldable pub copy_rounds : B.Body → Option (Outcome IoErrorKind Text)
  copy_rounds body = copy_chunks (suc (B.remaining body)) body []

  -- the copied bytes; a panic stands for running out of fuel
  unfoldable pub copy_body : B.Body → Outcome IoErrorKind Text
  copy_body body = get_or_else (copy_rounds body) panic
