-- ===== src/HttpApi/Source.antt =====
-- The handlers of http-api/src/v1/projects.rs that browse a project: its commits, activity, trees
-- and files.
pub mod Parent
pub mod Readme
pub mod Activity
pub mod Signed
use radicle_client_services.Base.{
  Text, lit, ℕ, ℤ, ltb_int, minus, keep, get_or_else, strip_prefix, if◌then◌else◌, Bool, true,
  false, Option, none, some, List, [], ◌∷◌, Outcome, ok, err, panic, ok_or, ◌>>=◌,
}
use radicle_client_services.Extern.Peers.{Peers}
use radicle_client_services.Extern.Monorepo.{Monorepo}
use radicle_client_services.Extern.Api.{Api}
use radicle_client_services.Extern.Surf.{Surf, SourceError, path_not_found}
use radicle_client_services.HttpApi.Error.{Error, Result, not_found, no_head}
use radicle_client_services.HttpApi.Projects.{Info, project_info}
use radicle_client_services.HttpApi.Commits.{Header, CommitsQuery, history, committer_of}
use radicle_client_services.HttpApi.Fingerprints.{Projects}
use radicle_client_services.HttpApi.Browse.{browse}

-- BlobQuery
pub record BlobQuery : Type 0 where
  pub highlight : Bool
  pub theme : Option Text

-- BlobQuery::default()
abbrev default_query : BlobQuery
default_query = record { highlight = false; theme = none }

-- the theme of the highlighting, if there is any
unfoldable pub theme_of : Text → BlobQuery → Option Text
theme_of theme q = if q.highlight then some (get_or_else q.theme theme) else none

abbrev pub readme_paths : List Text
readme_paths =
    lit "README"
    ∷ lit "README.md"
    ∷ lit "README.markdown"
    ∷ lit "README.txt"
    ∷ lit "README.rst"
    ∷ lit "Readme.md"
    ∷ []

-- 52 weeks in seconds
abbrev pub one_year : ℕ
one_year = 31449600

module _ {P : Peers} (G : Monorepo P) (X : Api G) (S : Surf G) where
  -- the commit and its committer
  unfoldable pub commit_handler :
      G.Store → Projects G X → G.Urn → Text → Result (S.Commit × Option X.PeerInfo)
  commit_handler s projects project sha = do
    commit ← browse G S s (S.head project none sha) (λ b. S.oid b sha >>= S.commit b)
    committer ← committer_of (X.commit_fingerprint s) (projects project) (S.sha1_of commit)
    ok (commit, committer)

  -- `info.head`, which must be set
  unfoldable pub head_text : Info G X → Result Text
  head_text info = elim info.head [
    | some head ↦ ok (G.oid_to_string head)
    | none ↦ err (no_head (lit "project head is not set"))
  ]

  -- the name to list from, and whether it is the head of the project for want of a parent
  unfoldable pub start_of : G.Store → Text → G.Urn → Option Text → Result (Text × Bool)
  start_of s git_dir project (some commit) = ok (commit, false)
  start_of s git_dir project none = do
    info ← project_info G X s git_dir project
    head ← head_text info
    ok (head, true)

  -- StatusCode::FOUND or StatusCode::OK, the headers and the statistics
  abbrev pub Listing : Type 0
  Listing = ℕ × List (Header × Option X.PeerInfo) × S.Stats

  -- history_handler behind the choice of the name
  unfoldable pub list_from :
      G.Store → Projects G X → G.Urn → CommitsQuery → Text × Bool → Result Listing
  list_from s projects project q (sha, fallback_to_head) = do
    name ← ok_or not_found (S.one_from_str sha)
    commits ← browse G S s (S.head project none name) S.commits
    headers ← history (X.commit_fingerprint s) (projects project) q commits.0
    ok (if fallback_to_head then 302 else 200, headers, commits.1)

  unfoldable pub history_handler :
      G.Store → Text → Projects G X → G.Urn → Option Text → CommitsQuery → Result Listing
  history_handler s git_dir projects project parent q = do
    start ← start_of s git_dir project parent
    list_from s projects project q start

  -- the times of the last year, for the time of the clock in seconds
  unfoldable pub activity_handler : G.Store → Text → ℕ → G.Urn → Result (List ℤ)
  activity_handler s git_dir current_date project = do
    info ← project_info G X s git_dir project
    head ← head_text info
    name ← ok_or not_found (S.one_from_str head)
    browse G S s (S.head project none name)
        (λ b. ok (keep (λ seconds. ltb_int (minus current_date one_year) seconds) (S.times b)))

module _ {P : Peers} (G : Monorepo P) (S : Surf G) where
  unfoldable pub tree_handler : G.Store → G.Urn → Text → Text → Result (S.Tree × S.Stats)
  tree_handler s project sha path = do
    path ← ok_or not_found (strip_prefix (lit "/") path)
    browse G S s (S.head project none sha)
        (λ b. S.tree b path >>= λ tree. S.get_stats b >>= λ stats. ok (tree, stats))

  unfoldable pub blob_handler :
      G.Store → Text → G.Urn → Text → Text → Option BlobQuery → Result S.Blob
  blob_handler s theme project sha path query = do
    path ← ok_or not_found (strip_prefix (lit "/") path)
    browse G S s (S.head project none sha)
        (λ b. S.blob b path (theme_of theme (get_or_else query default_query)))

  -- the loop over the names of a readme
  unfoldable pub first_blob : S.Browser → List Text → Outcome SourceError S.Blob
  first_blob b [] = err (path_not_found (lit "README"))
  first_blob b (path ∷ paths) =
      let rest = first_blob b paths in
      elim (S.blob b path none) [ ok blob ↦ ok blob | err e ↦ rest | panic ↦ panic ]

  unfoldable pub readme_handler : G.Store → G.Urn → Text → Result S.Blob
  readme_handler s project sha =
      browse G S s (S.head project none sha) (λ b. first_blob b readme_paths)
