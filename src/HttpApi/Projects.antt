-- ===== src/HttpApi/Projects.antt =====
-- The lists of projects of http-api/src/v1: `get_projects_info` of projects.rs, the handler of
-- delegates.rs and that of stats.rs, and `project_info` of http-api/src/lib.rs.
pub mod Counts
pub mod Delegates
use radicle_client_services.Base.{
  Text, map, ℕ, zero, suc, ◌*◌, ◌%◌, ◌^◌, lit, length, take, drop, any, get_or_else, if◌then◌else◌,
  Bool, true, false, Option, none, some, List, [], ◌∷◌, Outcome, ok, err, panic, ok_or, map_err,
  ◌>>=◌, ◌>>◌,
}
use radicle_client_services.Extern.Peers.{Peers}
use radicle_client_services.Extern.Identity.{
  Delegation, direct, indirect, SomeIdentity, person, project, unknown,
}
use radicle_client_services.Extern.Monorepo.{Monorepo}
use radicle_client_services.Extern.Api.{Api, Metadata}
use radicle_client_services.HttpApi.Error.{
  Error, Result, git, identities, local_identity, cobs, pool, not_found, project_error,
}
use radicle_client_services.HttpApi.Pages.{query_page}
use radicle_client_services.HttpApi.Commits.{collect}
use radicle_client_services.HttpApi.Head.{get_head_commit}

-- the results that are there, in order
unfoldable pub oks : {E A : Type 0} → List (Outcome E A) → List A
oks [] = []
oks (ok a ∷ rs) = a ∷ oks rs
oks (_ ∷ rs) = oks rs

-- `Result::ok`
unfoldable pub to_option : {E A : Type 0} → Outcome E A → Option A
to_option (ok a) = some a
to_option _ = none

unfoldable pub filter_map : {A B : Type 0} → (A → Option B) → List A → List B
filter_map f [] = []
filter_map f (x ∷ xs) = let rest = filter_map f xs in elim (f x) [ none ↦ rest | some y ↦ y ∷ rest ]

module _ {P : Peers} (G : Monorepo P) (X : Api G) where
  abbrev pub Identities : Type 0
  Identities = List (Outcome Text (SomeIdentity P G.Urn))

  pub record Info : Type 0 where
    pub meta : Metadata G
    pub head : Option G.Oid
    pub issues : ℕ
    pub patches : ℕ

  unfoldable pub info_of : G.Store → Metadata G → Result Info
  info_of s meta = do
    let head = to_option (get_head_commit G X s meta.urn meta.default_branch meta.delegates)
    issues ← map_err cobs (X.count_issues s meta.urn)
    patches ← map_err cobs (X.count_patches s meta.urn)
    ok (record { meta = meta; head = head; issues = issues; patches = patches })

  -- get_project_info and get_project_info_sync
  unfoldable pub get_project_info : G.Store → Text → SomeIdentity P G.Urn → Result Info
  get_project_info s git_dir p = do
    map_err pool (G.pool_get s)
    map_err git (G.open_bare s git_dir)
    map_err local_identity (X.local_person s)
    meta ← map_err project_error (X.metadata p)
    info_of s meta

  -- Context::project_info
  unfoldable pub project_info : G.Store → Text → G.Urn → Result Info
  project_info s git_dir urn = do
    map_err pool (G.pool_get s)
    found ← map_err identities (X.get_project s urn)
    p ← ok_or not_found found
    meta ← map_err project_error (X.metadata p)
    map_err git (G.open_bare s git_dir)
    map_err local_identity (X.local_person s)
    info_of s meta

  -- the filter_map: a project, or an identity that cannot be read
  unfoldable pub projects_of : Identities → List (Result (SomeIdentity P G.Urn))
  projects_of [] = []
  projects_of (ok (project urn name branch ds) ∷ ids) =
      ok (project urn name branch ds) ∷ projects_of ids
  projects_of (err e ∷ ids) = err (identities e) ∷ projects_of ids
  projects_of (_ ∷ ids) = projects_of ids

  -- A project whose information cannot be had, or whose task panics, is left out.
  unfoldable pub get_projects_info : G.Store → Text → Option ℕ → Option ℕ → Result (List Info)
  get_projects_info s git_dir page per_page = do
    map_err pool (G.pool_get s)
    ids ← map_err identities (G.list_identities s)
    projects ← collect (λ r. r) (query_page page per_page (projects_of ids))
    ok (oks (map (get_project_info s git_dir) projects))

  abbrev pub names : G.Urn → Delegation P G.Urn → Bool
  names delegate (direct key) = false
  names delegate (indirect urn keys) = G.urn_eq urn delegate

  -- the `any` over the delegations
  unfoldable pub is_delegate : G.Urn → List (Delegation P G.Urn) → Bool
  is_delegate delegate ds = any (names delegate) ds

  -- the filter_map of delegates_projects_handler: none is passed over
  unfoldable pub delegate_info :
      G.Store → G.Urn → Outcome Text (SomeIdentity P G.Urn) → Option (Result Info)
  delegate_info s delegate (err e) = some (err (identities e))
  delegate_info s delegate (ok (project urn name branch ds)) =
      if is_delegate delegate ds
      then elim (X.metadata (project urn name branch ds)) [
        | ok meta ↦ elim (info_of s meta) [
          | ok info ↦ some (ok info)
          | err e ↦ none
          | panic ↦ some panic
        ]
        | err e ↦ none
        | panic ↦ some panic
      ]
      else none
  delegate_info s delegate panic = some panic
  delegate_info s delegate _ = none

  -- delegates_projects_handler; the functions of the crates are taken not to panic on a project that
  -- is skipped
  unfoldable pub delegates_projects :
      G.Store → Text → G.Urn → Option ℕ → Option ℕ → Result (List Info)
  delegates_projects s git_dir delegate page per_page = do
    map_err pool (G.pool_get s)
    map_err git (G.open_bare s git_dir)
    map_err local_identity (X.local_person s)
    ids ← map_err identities (G.list_identities s)
    collect (λ r. r) (query_page page per_page (filter_map (delegate_info s delegate) ids))

  -- stats_handler: the counts of projects and of persons; any other identity panics
  unfoldable pub count_identities : Identities → Result (ℕ × ℕ)
  count_identities [] = ok (0, 0)
  count_identities (ok (project urn name branch ds) ∷ ids) = do
    counts ← count_identities ids
    ok (suc counts.0, counts.1)
  count_identities (ok (person urn name keys) ∷ ids) = do
    counts ← count_identities ids
    ok (counts.0, suc counts.1)
  count_identities (_ ∷ ids) = panic

  unfoldable pub stats : G.Store → Result (ℕ × ℕ)
  stats s = do
    map_err pool (G.pool_get s)
    ids ← map_err identities (G.list_identities s)
    count_identities ids
