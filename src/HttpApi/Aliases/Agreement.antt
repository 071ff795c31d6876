-- ===== src/HttpApi/Aliases/Agreement.antt =====
-- The two servers agree on the aliases of projects.
use radicle_client_services.Base.{
  Text, lit, get, strip_suffix, Option-cases, Outcome-cases, none, some, List, [], ◌∷◌, Outcome, ok,
  err, panic, ◌≡◌, refl, inl, inr, arith,
}
use radicle_client_services.Extern.Peers.{Peers}
use radicle_client_services.Extern.Identity.{SomeIdentity, project, person, unknown}
use radicle_client_services.Extern.Monorepo.{Monorepo}
use radicle_client_services.Extern.Api.{Api}
use radicle_client_services.GitServer.Alias
use radicle_client_services.HttpApi.Projects.{to_option}
use radicle_client_services.HttpApi.Aliases.{
  Aliases, insert_vacant, insert_projects, populate_aliases, urn_of_alias,
}

module _ {P : Peers} (G : Monorepo P) (X : Api G) where
  insert_projects-add_projects :
      (ids : List (Outcome Text (SomeIdentity P G.Urn))) (m : Aliases G X)
      → insert_projects G X ids m ≡ Alias.add_projects G ids m
  unfolding insert_projects insert_vacant Alias.add_projects
  insert_projects-add_projects [] m = refl
  insert_projects-add_projects (ok (project urn name branch ds) ∷ ids) m =
      insert_projects-add_projects ids (insert_vacant G X name urn m)
  insert_projects-add_projects (ok (person urn name keys) ∷ ids) m =
      insert_projects-add_projects ids m
  insert_projects-add_projects (ok (unknown urn) ∷ ids) m = insert_projects-add_projects ids m
  insert_projects-add_projects (err e ∷ ids) m = insert_projects-add_projects ids m
  insert_projects-add_projects (panic ∷ ids) m = insert_projects-add_projects ids m

  -- What the path of a git request and the path of a request to the API lead to is the same: an id
  -- with the suffix .git whose name is no urn to either server has the same urn, if any, as its name
  -- has for the API, from the same cache and storage, and leaves the same cache.
  pub urn_of_alias-resolve_project :
      (s : G.Store) (project_id name : Text) (m : Aliases G X)
      → strip_suffix (lit ".git") project_id ≡ some name
      → G.try_from_id name ≡ none
      → X.urn_from_str name ≡ none
      → (to_option (urn_of_alias G X s name m).0
          ≡ to_option (Alias.resolve_project G s project_id m).0)
        × ((urn_of_alias G X s name m).1 ≡ (Alias.resolve_project G s project_id m).1)
  unfolding urn_of_alias populate_aliases to_option Alias.resolve_project Alias.resolve_alias
      Alias.populate_aliases
  urn_of_alias-resolve_project s project_id name m suffix no_id no_urn =
      elim (Option-cases (get name m)) [
        | inr (u, cached) ↦ (ground arith, ground arith)
        | inl missing ↦ elim (Outcome-cases (G.pool_get s)) [
          | inr (inl (e, bad)) ↦ (ground arith, ground arith)
          | inr (inr bad) ↦ (ground arith, ground arith)
          | inl (u, pooled) ↦
              let same = insert_projects-add_projects in
              elim (Outcome-cases (G.list_identities s)) [
                | inr (inl (e, bad)) ↦ (ground arith, ground arith)
                | inr (inr bad) ↦ (ground arith, ground arith)
                | inl (ids, listed) ↦ (ground (arith, same ids m), ground (arith, same ids m))
              ]
        ]
      ]
