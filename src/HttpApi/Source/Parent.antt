-- ===== src/HttpApi/Source/Parent.antt =====
-- A listing without a parent is that from the head of the project, with another status.
use radicle_client_services.Base.{
  Text, none, some, ok, ok_or, ◌>>=◌, >>=_assoc, >>=-ext, true, false, ◌≡◌, ◌∙◌, sym,
}
use radicle_client_services.Extern.Peers.{Peers}
use radicle_client_services.Extern.Monorepo.{Monorepo}
use radicle_client_services.Extern.Api.{Api}
use radicle_client_services.Extern.Surf.{Surf}
use radicle_client_services.HttpApi.Error.{Result, not_found}
use radicle_client_services.HttpApi.Projects.{project_info}
use radicle_client_services.HttpApi.Commits.{CommitsQuery, history}
use radicle_client_services.HttpApi.Fingerprints.{Projects}
use radicle_client_services.HttpApi.Browse.{browse}
use radicle_client_services.HttpApi.Source.{
  Listing, head_text, list_from, history_handler, start_of,
}

module _ {P : Peers} (G : Monorepo P) (X : Api G) (S : Surf G) (s : G.Store)
    (projects : Projects G X) (project : G.Urn) (q : CommitsQuery) where
  -- The same listing with the status Found.
  abbrev pub with_found : Listing G X S → Result (Listing G X S)
  with_found (status, headers, stats) = ok (302, headers, stats)

  list_from-with_found :
      (sha : Text)
      → list_from G X S s projects project q (sha, true)
        ≡ (list_from G X S s projects project q (sha, false) >>= with_found)
  unfolding list_from
  list_from-with_found sha =
      >>=-ext (ok_or not_found (S.one_from_str sha)) (λ name.
        >>=-ext (browse G S s (S.head project none name) S.commits) (λ commits. sym (
          >>=_assoc (history (X.commit_fingerprint s) (projects project) q commits.0) _ with_found))
        ∙ sym (>>=_assoc (browse G S s (S.head project none name) S.commits) _ with_found))
      ∙ sym (>>=_assoc (ok_or not_found (S.one_from_str sha)) _ with_found)

  -- Without a parent the handler looks the head of the project up, and its response is the one for
  -- this head as the parent, errors included, only with the status Found in place of OK.
  pub history_handler-head :
      (git_dir : Text)
      → history_handler G X S s git_dir projects project none q ≡ (
          project_info G X s git_dir project >>= λ info. head_text G X S info >>= λ head.
          history_handler G X S s git_dir projects project (some head) q >>= with_found)
  unfolding history_handler start_of
  history_handler-head git_dir =
      >>=_assoc (project_info G X s git_dir project) _ (list_from G X S s projects project q)
      ∙ >>=-ext (project_info G X s git_dir project) (λ info.
        >>=_assoc (head_text G X S info) _ (list_from G X S s projects project q)
        ∙ >>=-ext (head_text G X S info) list_from-with_found)
