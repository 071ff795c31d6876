-- ===== src/Checks/Input.antt =====
-- The lines of the hooks' input, and the signer of a certificate, at concrete texts.
use radicle_client_services.Base.{
  lit, some, List, [], ◌∷◌, map, ok, ◌≡◌, refl, arith, find_byte, slice, is_boundary,
}
use radicle_client_services.GitServer.Hooks.Updates.{Update, read, read_updates}
use radicle_client_services.GitServer.Hooks.Updates.Lines.{update_line, read_updates-update_line}
use radicle_client_services.GitServer.Hooks.Signer.{signer_email}
use radicle_client_services.Checks.Toy.{repo, repo-HasOids}

abbrev two_updates : List (Update repo)
two_updates = (lit "r/a", 0, 7) ∷ (lit "r/b", 3, 0) ∷ []

read_updates-update_line_example :
    read_updates repo (map (λ u. read (update_line repo u)) two_updates) ≡ ok two_updates
read_updates-update_line_example =
    read_updates-update_line repo repo-HasOids two_updates (omega arith)

email_shown : signer_email (some (lit "Al B <al@b.c>")) ≡ ok (lit "al@b.c")
unfolding signer_email find_byte slice is_boundary
email_shown = refl
