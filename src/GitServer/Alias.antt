-- ===== src/GitServer/Alias.antt =====
-- The project aliases of git-server/src/lib.rs, and the first part of `git_handler`: from the id in
-- a request's path to the urn of a project.
pub mod Lookup
use radicle_client_services.Base.{
  Text, lit, Assoc, get, insert, strip_suffix, Option, none, some, List, [], ◌∷◌, Outcome, ok, err,
  panic, ok_or, map_err,
}
use radicle_client_services.Base.Action.{Action, pure, raise, lift, resume, ◌>>=◌, ◌>>◌}
use radicle_client_services.Extern.Peers.{Peers}
use radicle_client_services.Extern.Identity.{SomeIdentity, person, project, unknown}
use radicle_client_services.Extern.Monorepo.{Monorepo}
use radicle_client_services.GitServer.Error.{
  Error, Result, pool, identities, alias_not_found, invalid_id,
}

module _ {P : Peers} (G : Monorepo P) where
  abbrev pub Aliases : Type 0
  Aliases = Assoc G.Urn

  -- `map.entry(name)`: a vacant entry is filled, another is skipped
  add_vacant : Text → G.Urn → Aliases → Aliases
  add_vacant name urn m = elim (get name m) [ none ↦ insert name urn m | some u ↦ m ]

  -- the loop over the identities; `flatten` passes over those that cannot be read
  unfoldable pub add_projects : List (Outcome Text (SomeIdentity P G.Urn)) → Aliases → Aliases
  unfolding add_vacant
  add_projects [] m = m
  add_projects (ok (project urn name branch ds) ∷ ids) m = add_projects ids (add_vacant name urn m)
  add_projects (_ ∷ ids) m = add_projects ids m

  unfoldable pub populate_aliases : G.Store → Action Aliases Error (Unit {0})
  populate_aliases s = do
    u ← lift (map_err pool (G.pool_get s))
    ids ← lift (map_err identities (G.list_identities s))
    λ m. (ok tt, add_projects ids m)

  -- an id with the suffix .git that is no urn is an alias: a miss rebuilds the cache
  unfoldable pub resolve_alias : G.Store → Text → Action Aliases Error G.Urn
  resolve_alias s name = do
    λ m. elim (get name m) [ none ↦ populate_aliases s m | some u ↦ (ok tt, m) ]
    λ m. (ok_or alias_not_found (get name m), m)

  unfoldable pub resolve_project : G.Store → Text → Action Aliases Error G.Urn
  resolve_project s project_id = elim (strip_suffix (lit ".git") project_id) [
    | some name ↦ elim (G.try_from_id name) [ some urn ↦ pure urn | none ↦ resolve_alias s name ]
    | none ↦ lift (ok_or invalid_id (G.try_from_id project_id))
  ]
