-- ===== src/HttpApi/Remotes.antt =====
-- `remotes_handler` and `remote_handler` of http-api/src/v1/projects.rs: the peers that are tracked
-- for a project, and the branches of one of them.
pub mod Heads
use radicle_client_services.Base.{
  Text, lit, Assoc, insert, strip_prefix, Option, none, some, List, [], ◌∷◌, ◌++◌, Outcome, ok, err,
  panic, ok_or, map_err, ◌>>=◌, ◌>>◌,
}
use radicle_client_services.Extern.Peers.{Peers}
use radicle_client_services.Extern.Monorepo.{Monorepo}
use radicle_client_services.Extern.Api.{Api}
use radicle_client_services.Extern.Surf.{Surf}
use radicle_client_services.HttpApi.Error.{
  Error, Result, git, pool, identities, not_found, project_error,
}
use radicle_client_services.HttpApi.Fingerprints.{tracked}

-- `Result::unwrap`
abbrev pub unwrap : {E A : Type 0} → Outcome E A → Result A
unwrap (ok a) = ok a
unwrap _ = panic

module _ {P : Peers} (G : Monorepo P) (X : Api G) where
  unfoldable pub remotes_handler : G.Store → G.Urn → Result (List X.PeerInfo)
  remotes_handler s urn = do
    map_err pool (G.pool_get s)
    found ← map_err identities (X.get_project s urn)
    p ← ok_or not_found found
    meta ← map_err project_error (X.metadata p)
    tracked G X s meta

module _ {P : Peers} (G : Monorepo P) (S : Surf G) where
  abbrev pub Listed : Type 0
  Listed = List (Outcome Text (Option Text × Option G.Oid))

  unfoldable pub heads_prefix : G.Urn → P.PeerId → Text
  heads_prefix project peer_id =
      lit "refs/namespaces/"
      ++ (G.encode_id project
          ++ (lit "/refs/remotes/" ++ (P.default_encoding peer_id ++ lit "/heads/")))

  -- `reference.name()?.strip_prefix(&prefix)?` and `reference.target()?`
  unfoldable pub branch_of : Text → Option Text × Option G.Oid → Option (Text × Text)
  branch_of prefix (some name, some oid) = elim (strip_prefix prefix name) [
    | some branch ↦ some (branch, G.oid_to_string oid)
    | none ↦ none
  ]
  branch_of prefix (some name, none) = none
  branch_of prefix (none, target) = none

  -- the filter_map; a reference that cannot be read is passed over
  unfoldable pub branches_of : Text → Listed → List (Text × Text)
  branches_of prefix [] = []
  branches_of prefix (ok r ∷ rs) =
      let rest = branches_of prefix rs in
      elim (branch_of prefix r) [ some branch ↦ branch ∷ rest | none ↦ rest ]
  branches_of prefix (_ ∷ rs) = branches_of prefix rs

  -- `collect` into a HashMap: the last of a name stays
  unfoldable pub collect_map : List (Text × Text) → Assoc Text → Assoc Text
  collect_map [] m = m
  collect_map ((name, oid) ∷ bs) m = collect_map bs (insert name oid m)

  unfoldable pub remote_handler : G.Store → Text → G.Urn → P.PeerId → Result (Assoc Text)
  remote_handler s git_dir project peer_id = do
    map_err git (G.open_bare s git_dir)
    map_err git (S.references s)
    refs ← unwrap (S.references_glob s (heads_prefix project peer_id ++ lit "*"))
    ok (collect_map (branches_of (heads_prefix project peer_id) refs) [])
