-- ===== src/HttpApi/Aliases.antt =====
-- The aliases of http-api/src/lib.rs, and `project_alias_or_urn_handler` of v1/projects.rs: from the
-- last part of a path to the information on a project.
pub mod Agreement
pub mod Stable
use radicle_client_services.Base.{
  Text, Assoc, get, insert, Option, none, some, List, [], ◌∷◌, Outcome, ok, err, panic, ok_or,
  map_err,
}
use radicle_client_services.Base.Action.{Action, pure, lift, resume, ◌>>=◌, ◌>>◌}
use radicle_client_services.Extern.Peers.{Peers}
use radicle_client_services.Extern.Identity.{SomeIdentity, person, project, unknown}
use radicle_client_services.Extern.Monorepo.{Monorepo}
use radicle_client_services.Extern.Api.{Api}
use radicle_client_services.HttpApi.Error.{Error, pool, identities, not_found}
use radicle_client_services.HttpApi.Projects.{Info, project_info}

module _ {P : Peers} (G : Monorepo P) (X : Api G) where
  abbrev pub Aliases : Type 0
  Aliases = Assoc G.Urn

  -- `if let Entry::Vacant(e) = map.entry(name)`
  unfoldable pub insert_vacant : Text → G.Urn → Aliases → Aliases
  insert_vacant name urn m = elim (get name m) [ none ↦ insert name urn m | some u ↦ m ]

  -- the loop over the identities that can be read
  unfoldable pub insert_projects : List (Outcome Text (SomeIdentity P G.Urn)) → Aliases → Aliases
  insert_projects [] m = m
  insert_projects (ok (project urn name branch ds) ∷ ids) m =
      insert_projects ids (insert_vacant name urn m)
  insert_projects (_ ∷ ids) m = insert_projects ids m

  unfoldable pub populate_aliases : G.Store → Action Aliases Error (Unit {0})
  populate_aliases s = do
    u ← lift (map_err pool (G.pool_get s))
    ids ← lift (map_err identities (G.list_identities s))
    λ m. (ok tt, insert_projects ids m)

  -- the urn of the handler: the text as a urn, or the cache, which is built again on a miss
  unfoldable pub urn_of_alias : G.Store → Text → Action Aliases Error G.Urn
  urn_of_alias s urn_or_alias = elim (X.urn_from_str urn_or_alias) [
    | some urn ↦ pure urn
    | none ↦ (do
      λ m. elim (get urn_or_alias m) [ none ↦ populate_aliases s m | some u ↦ (ok tt, m) ]
      λ m. (ok_or not_found (get urn_or_alias m), m))
  ]

  unfoldable pub project_alias_or_urn_handler :
      G.Store → Text → Text → Action Aliases Error (Info G X)
  project_alias_or_urn_handler s git_dir urn_or_alias = do
    urn ← urn_of_alias s urn_or_alias
    lift (project_info G X s git_dir urn)
