-- ===== src/HttpApi/Browse.antt =====
-- `browse` and `remote_branch` of http-api/src/v1/projects.rs: a browser at a revision of a project.
pub mod Revision
use radicle_client_services.Base.{
  Text, lit, Option, none, some, ◌++◌, Outcome, ok_or, map_err, ◌>>=◌, ◌>>◌,
}
use radicle_client_services.Extern.Peers.{Peers}
use radicle_client_services.Extern.Monorepo.{Monorepo}
use radicle_client_services.Extern.Surf.{Surf, SourceError, path_not_found, other}
use radicle_client_services.HttpApi.Error.{
  Error, Result, missing_namespace, not_found, surf, source,
}

-- the match on the error of the callback
unfoldable pub error_of_source : SourceError → Error
error_of_source (path_not_found path) = not_found
error_of_source (other e) = source e

module _ {P : Peers} (G : Monorepo P) (S : Surf G) where
  unfoldable pub remote_branch : Text → P.PeerId → S.Branch
  remote_branch branch_name peer_id =
      S.remote (lit "heads/" ++ branch_name) (P.default_encoding peer_id)

  -- an object id is a revision of its own, any other name a branch of the remote
  unfoldable pub revision_of : S.Reference → Result S.Rev
  revision_of reference = elim (S.oid_from_str (S.name_of reference)) [
    | some oid ↦ ok_or not_found (S.rev_of_oid oid)
    | none ↦ (do
      peer ← ok_or not_found (S.remote_of reference)
      ok_or not_found (S.rev_of_branch (remote_branch (S.name_of reference) peer)))
  ]

  unfoldable pub browse :
      {T : Type 0} → G.Store → S.Reference → (S.Browser → Outcome SourceError T) → Result T
  browse s reference callback = do
    name ← ok_or missing_namespace (S.namespace_of reference)
    namespace ← map_err surf (S.namespace_from name)
    revision ← revision_of reference
    map_err surf (S.open_repository s)
    browser ← map_err surf (S.new_with_namespace s namespace revision)
    map_err error_of_source (callback browser)
