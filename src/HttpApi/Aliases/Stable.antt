-- ===== src/HttpApi/Aliases/Stable.antt =====
-- A name that is in the cache of http-api/src/lib.rs stays in it, with its urn.
use radicle_client_services.Base.{
  Text, get, fill_vacant-keeps, Option-cases, some, List, [], ◌∷◌, Outcome, ok, err, panic, map_err,
  ◌≡◌, inl, inr,
}
use radicle_client_services.Base.Action.{resume-inv}
use radicle_client_services.Extern.Peers.{Peers}
use radicle_client_services.Extern.Identity.{SomeIdentity, person, project, unknown}
use radicle_client_services.Extern.Monorepo.{Monorepo}
use radicle_client_services.Extern.Api.{Api}
use radicle_client_services.HttpApi.Error.{pool, identities}
use radicle_client_services.HttpApi.Aliases.{
  Aliases, insert_vacant, insert_projects, populate_aliases, urn_of_alias,
  project_alias_or_urn_handler,
}

module _ {P : Peers} (G : Monorepo P) (X : Api G) (name : Text) (u : G.Urn) where
  -- The name has this urn.
  abbrev Holds : Aliases G X → Type 0
  Holds m = get name m ≡ some u

  insert_vacant-Holds :
      (other : Text) (urn : G.Urn) (m : Aliases G X)
      → Holds m
      → Holds (insert_vacant G X other urn m)
  unfolding insert_vacant
  insert_vacant-Holds other urn m held = fill_vacant-keeps other name urn u m held

  insert_projects-Holds :
      (ids : List (Outcome Text (SomeIdentity P G.Urn))) (m : Aliases G X)
      → Holds m
      → Holds (insert_projects G X ids m)
  unfolding insert_projects
  insert_projects-Holds [] m held = held
  insert_projects-Holds (ok (project urn other branch ds) ∷ ids) m held =
      insert_projects-Holds ids (insert_vacant G X other urn m)
        (insert_vacant-Holds other urn m held)
  insert_projects-Holds (ok (person urn other keys) ∷ ids) m held = insert_projects-Holds ids m held
  insert_projects-Holds (ok (unknown urn) ∷ ids) m held = insert_projects-Holds ids m held
  insert_projects-Holds (err e ∷ ids) m held = insert_projects-Holds ids m held
  insert_projects-Holds (panic ∷ ids) m held = insert_projects-Holds ids m held

  populate_aliases-Holds :
      (s : G.Store) (m : Aliases G X) → Holds m → Holds (populate_aliases G X s m).1
  unfolding populate_aliases
  populate_aliases-Holds s m held = resume-inv Holds (map_err pool (G.pool_get s)) _ m held (λ v _.
      resume-inv Holds (map_err identities (G.list_identities s)) _ m held
        (λ ids _. insert_projects-Holds ids m held))

  urn_of_alias-Holds :
      (s : G.Store) (text : Text) (m : Aliases G X) → Holds m → Holds (urn_of_alias G X s text m).1
  unfolding urn_of_alias
  urn_of_alias-Holds s text m held = elim (Option-cases (X.urn_from_str text)) [
    | inr (urn, parsed) ↦ rw (urn_of_alias, parsed) held
    | inl alias ↦ elim (Option-cases (get text m)) [
      | inr (v, cached) ↦ rw (urn_of_alias, alias) (rw cached held)
      | inl missing ↦
          rw (urn_of_alias, alias)
            (rw missing (
              resume-inv Holds (populate_aliases G X s m).0 _ (populate_aliases G X s m).1
                (populate_aliases-Holds s m held) (λ v _. populate_aliases-Holds s m held)))
    ]
  ]

  pub project_alias_or_urn_handler-Holds :
      (s : G.Store) (git_dir text : Text) (m : Aliases G X)
      → Holds m
      → Holds (project_alias_or_urn_handler G X s git_dir text m).1
  unfolding project_alias_or_urn_handler
  project_alias_or_urn_handler-Holds s git_dir text m held =
      resume-inv Holds (urn_of_alias G X s text m).0 _ (urn_of_alias G X s text m).1
        (urn_of_alias-Holds s text m held) (λ urn _. urn_of_alias-Holds s text m held)
