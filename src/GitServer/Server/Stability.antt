-- ===== src/GitServer/Server/Stability.antt =====
-- An alias of the git server keeps its project.
use radicle_client_services.Base.{
  Text, lit, strip_suffix, get, fill_vacant-keeps, Option-cases, none, some, List, [], ◌∷◌, Outcome,
  ok, err, panic, ok_or, map_err, ◌>>=◌, ◌≡◌, inl, inr, ap,
}
use radicle_client_services.Base.Action.{resume-inv, lift}
use radicle_client_services.Extern.Peers.{Peers}
use radicle_client_services.Extern.Identity.{SomeIdentity, person, project, unknown}
use radicle_client_services.Extern.Monorepo.{Monorepo}
use radicle_client_services.Extern.Backend.{Backend}
use radicle_client_services.GitServer.Error.{pool, identities, alias_not_found}
use radicle_client_services.GitServer.Context.{Context}
use radicle_client_services.GitServer.Alias.{
  Aliases, add_projects, populate_aliases, resolve_alias, resolve_project,
}
use radicle_client_services.GitServer.Handler.{Request, git, respond, git_handler}
use radicle_client_services.GitServer.Server.{serve, serve_all}

module _ {P : Peers} (G : Monorepo P) (name : Text) (u : G.Urn) where
  -- The name has this urn.
  abbrev Holds : Aliases G → Type 0
  Holds m = get name m ≡ some u

  add_projects-Holds :
      (ids : List (Outcome Text (SomeIdentity P G.Urn))) (m : Aliases G)
      → Holds m
      → Holds (add_projects G ids m)
  unfolding add_projects
  add_projects-Holds [] m held = held
  add_projects-Holds (ok (project urn other branch ds) ∷ ids) m held =
      add_projects-Holds ids _ (fill_vacant-keeps other name urn u m held)
  add_projects-Holds (ok (person urn other keys) ∷ ids) m held = add_projects-Holds ids m held
  add_projects-Holds (ok (unknown urn) ∷ ids) m held = add_projects-Holds ids m held
  add_projects-Holds (err e ∷ ids) m held = add_projects-Holds ids m held
  add_projects-Holds (panic ∷ ids) m held = add_projects-Holds ids m held

  populate_aliases-Holds :
      (s : G.Store) (m : Aliases G) → Holds m → Holds (populate_aliases G s m).1
  unfolding populate_aliases
  populate_aliases-Holds s m held = resume-inv Holds (map_err pool (G.pool_get s)) _ m held (λ v _.
      resume-inv Holds (map_err identities (G.list_identities s)) _ m held
        (λ ids _. add_projects-Holds ids m held))

  resolve_alias-Holds :
      (s : G.Store) (text : Text) (m : Aliases G) → Holds m → Holds (resolve_alias G s text m).1
  unfolding resolve_alias
  resolve_alias-Holds s text m held = elim (Option-cases (get text m)) [
    | inr (v, cached) ↦ rw (resolve_alias, cached) held
    | inl missing ↦
        rw (resolve_alias, missing)
          (resume-inv Holds (populate_aliases G s m).0 _ (populate_aliases G s m).1
            (populate_aliases-Holds s m held) (λ v _. populate_aliases-Holds s m held))
  ]

  resolve_project-Holds :
      (s : G.Store) (id : Text) (m : Aliases G) → Holds m → Holds (resolve_project G s id m).1
  unfolding resolve_project
  resolve_project-Holds s id m held = elim (Option-cases (strip_suffix (lit ".git") id)) [
    | inl plain ↦ rw (resolve_project, plain) held
    | inr (text, suffixed) ↦ elim (Option-cases (G.try_from_id text)) [
      | inr (urn, parsed) ↦ rw (resolve_project, suffixed) (rw parsed held)
      | inl alias ↦ rw (resolve_project, suffixed) (rw alias (resolve_alias-Holds s text m held))
    ]
  ]

  module _ (ctx : Context) (B : Backend) where
    serve-Holds :
        (s : G.Store) (r : Request) (body : B.Body) (m : Aliases G)
        → Holds m
        → Holds (serve G ctx B s r body m).1
    unfolding serve git_handler
    serve-Holds s r body m held =
        resume-inv Holds (resolve_project G s r.project_id m).0
          (λ urn. lift (git G ctx B s urn none r body >>= respond G B))
          (resolve_project G s r.project_id m).1 (resolve_project-Holds s r.project_id m held)
          (λ urn _. resolve_project-Holds s r.project_id m held)

    serve_all-Holds :
        (calls : List (G.Store × Request × B.Body)) (m : Aliases G)
        → Holds m
        → Holds (serve_all G ctx B calls m)
    unfolding serve_all
    serve_all-Holds [] m held = held
    serve_all-Holds ((s, r, body) ∷ calls) m held =
        serve_all-Holds calls (serve G ctx B s r body m).1 (serve-Holds s r body m held)

    -- An alias in the cache stays with its project: behind any requests, for any states of the
    -- repository, an id that is the alias with the suffix .git leads to the same urn.
    pub serve_all-alias :
        (calls : List (G.Store × Request × B.Body)) (s : G.Store) (id : Text) (m : Aliases G)
        → strip_suffix (lit ".git") id ≡ some name
        → G.try_from_id name ≡ none
        → get name m ≡ some u
        → (resolve_project G s id (serve_all G ctx B calls m)).0 ≡ ok u
    unfolding resolve_project resolve_alias
    serve_all-alias calls s id m suffixed alias held =
        let still = serve_all-Holds calls m held in
        rw (resolve_project, suffixed)
          (rw alias (rw (resolve_alias, still) (ap (ok_or alias_not_found) still)))
