-- ===== src/GitServer/Alias/Lookup.antt =====
-- Which urn an alias resolves to: the first project of that name, or the one that was cached.
use radicle_client_services.Base.{
  Text, lit, get, get-insert, or_else, ◌==◌, eq_iff, strip_suffix, if◌then◌else◌, Option, none,
  some, List, [], ◌∷◌, Outcome, ok, ok_or, ◌≡◌, ◌∙◌, arith,
}
use radicle_client_services.Extern.Peers.{Peers}
use radicle_client_services.Extern.Identity.{SomeIdentity, project}
use radicle_client_services.Extern.Monorepo.{Monorepo}
use radicle_client_services.GitServer.Error.{alias_not_found}
use radicle_client_services.GitServer.Alias.{
  Aliases, add_vacant, add_projects, populate_aliases, resolve_alias, resolve_project,
}

module _ {P : Peers} (G : Monorepo P) where
  -- The urn of the first project of this name among the identities that can be read.
  pub first_project : Text → List (Outcome Text (SomeIdentity P G.Urn)) → Option G.Urn
  first_project n [] = none
  first_project n (ok (project urn name branch ds) ∷ ids) =
      if name == n then some urn else first_project n ids
  first_project n (_ ∷ ids) = first_project n ids

  get-add_vacant :
      (k n : Text) (urn : G.Urn) (m : Aliases G)
      → get k (add_vacant G n urn m) ≡ or_else (get k m) (if n == k then some urn else none)
  unfolding add_projects
  get-add_vacant k n urn m = ground (arith, get-insert n k urn m, eq_iff n k)

  -- Rebuilding keeps every alias and adds the first project of each other name.
  pub get-add_projects :
      (k : Text) (ids : List (Outcome Text (SomeIdentity P G.Urn))) (m : Aliases G)
      → get k (add_projects G ids m) ≡ or_else (get k m) (first_project k ids)
  unfolding add_projects first_project
  get-add_projects k [] m = ground arith
  get-add_projects k (ok (project urn name branch ds) ∷ ids) m =
      get-add_projects k ids (add_vacant G name urn m) ∙ ground (arith, get-add_vacant k name urn m)
  get-add_projects k (_ ∷ ids) m = get-add_projects k ids m

  -- An id with the suffix .git that is no urn itself resolves to the cached urn of its name, or to
  -- the first project of that name, if the storage lists its identities; without either it is an
  -- unknown alias.
  pub resolve_project-alias :
      (s : G.Store) (project_id name : Text) (ids : List (Outcome Text (SomeIdentity P G.Urn)))
      (m : Aliases G)
      → strip_suffix (lit ".git") project_id ≡ some name
      → G.try_from_id name ≡ none
      → G.pool_get s ≡ ok tt
      → G.list_identities s ≡ ok ids
      → (resolve_project G s project_id m).0
        ≡ ok_or alias_not_found (or_else (get name m) (first_project name ids))
  unfolding resolve_project resolve_alias populate_aliases
  resolve_project-alias s project_id name ids m suffix no_urn pooled listed =
      ground (arith, get-add_projects name ids m)

  -- A cached alias is answered without a look at the storage, and the cache stays as it is.
  pub resolve_project-cached :
      (s : G.Store) (project_id name : Text) (urn : G.Urn) (m : Aliases G)
      → strip_suffix (lit ".git") project_id ≡ some name
      → G.try_from_id name ≡ none
      → get name m ≡ some urn
      → resolve_project G s project_id m ≡ (ok urn, m)
  unfolding resolve_project resolve_alias populate_aliases
  resolve_project-cached s project_id name urn m suffix no_urn cached = ground arith
