-- ===== src/Checks/Api.antt =====
-- The HTTP API on concrete sessions, commits and projects.
use radicle_client_services.Base.{
  Text, lit, ℕ, ℤ, pos, negsuc, ◌+◌, ◌==◌, Assoc, get, map, keep, true, Option, none, some, List,
  [], ◌∷◌, Outcome, ok, ◌≡◌, ◌≢◌, refl, arith,
}
use radicle_client_services.Extern.Identity.{SomeIdentity, project, person}
use radicle_client_services.Extern.Api.{Api, direct}
use radicle_client_services.HttpApi.Pages.{page_of, query_page}
use radicle_client_services.HttpApi.Head.{default_delegate, get_head_commit}
use radicle_client_services.HttpApi.Head.Fallback.{IsHead, get_head_commit-IsHead}
use radicle_client_services.HttpApi.Commits.{
  Header, CommitsQuery, is_within, default_per_page, collect, teaser_of, history, committer_of,
  find_committer,
}
use radicle_client_services.HttpApi.Changeset.{
  Diff, Stats, FileDiff, plain, addition, deletion, other_line,
}
use radicle_client_services.HttpApi.Changeset
use radicle_client_services.HttpApi.Changeset.Counts.{lines, additions_of, deletions_of, stats_lem}
use radicle_client_services.HttpApi.Projects.{
  oks, to_option, projects_of, info_of, get_project_info, Info, count_identities, get_projects_info,
}
use radicle_client_services.Checks.Toy.{Peer, alice, peers, lookup, Disk, repo, empty_disk}

abbrev header : ℤ → Header
header t = record { sha1 = lit "1"; committer_time = t }

abbrev pub headers : List Header
headers = header (pos 3) ∷ header (negsuc 0) ∷ header (pos 7) ∷ []

abbrev pub query : CommitsQuery
query = record {
  since = some (pos 0);
  until = none;
  page = none;
  per_page = none;
  verified = some true;
}

abbrev fingerprint_of : Text → Outcome Text (Option Text)
fingerprint_of sha1 = ok (some (lit "fp"))

abbrev pub known : Option (Assoc Peer)
known = some ((lit "fp", alice) ∷ [])

some-ne : some (pos 0) ≢ none
some-ne = ground arith

abbrev teasers : List (Header × Option Peer)
teasers = (header (pos 3), some alice) ∷ (header (pos 7), some alice) ∷ []

lists : history fingerprint_of known query headers ≡ ok teasers
unfolding history collect teaser_of committer_of find_committer default_per_page page_of is_within
    keep get ◌==◌
lists = refl

abbrev pub api : Api repo
api = record {
  is_namespace = λ u. true;
  is_branch = λ b. true;
  head = λ u p b. elim p [ none ↦ b | some q ↦ lit "remote" ];
  urn_from_str = λ t. none;
  get_project = λ s u. repo.get_identity s u;
  find_commit = λ s o. ok tt;
  commit_of = λ s o. ok tt;
  local_person = λ s. ok tt;
  count_issues = λ s u. ok 2;
  count_patches = λ s u. ok 1;
  metadata = λ p.
      ok (record { urn = lit "urn"; default_branch = lit "main"; delegates = direct alice ∷ [] });
  tracked = λ s u. ok [];
  PeerInfo = Peer;
  peer_of = λ p. p;
  peer_info = λ s p m. p;
  ssh_fingerprint = λ p. [];
  commit_fingerprint = λ s t. ok none;
}

abbrev people : List (ℕ × SomeIdentity peers Text)
people =
    (0, project (lit "urn") (lit "acme") none [])
    ∷ (1, person (lit "p") (lit "ann") (alice ∷ []))
    ∷ []

abbrev pub disk : Disk
disk = record empty_disk { refs = (lit "remote", 5) ∷ []; documents = people }

falls_back : get_head_commit repo api disk (lit "urn") (lit "main") (direct alice ∷ []) ≡ ok 5
unfolding get_head_commit default_delegate lookup ◌==◌
falls_back = refl

get_head_commit-IsHead_example : IsHead repo api disk (lit "urn") (lit "main") (direct alice ∷ []) 5
get_head_commit-IsHead_example =
    get_head_commit-IsHead repo api disk (lit "urn") (lit "main") (direct alice ∷ []) 5 falls_back

abbrev diff : Diff
diff = record {
  created = plain ((addition ∷ []) ∷ []) ∷ [];
  deleted = plain ((deletion ∷ deletion ∷ []) ∷ []) ∷ [];
  modified = plain ((addition ∷ other_line ∷ []) ∷ (deletion ∷ []) ∷ []) ∷ [];
}

stats_lem_example :
    ((Changeset.stats diff).additions
      ≡ additions_of (lines diff.modified) + additions_of (lines diff.created))
    × ((Changeset.stats diff).deletions
        ≡ deletions_of (lines diff.modified) + deletions_of (lines diff.deleted))
stats_lem_example = stats_lem diff

counts : count_identities repo api (map (λ d. ok d.1) people) ≡ ok (1, 1)
unfolding count_identities
counts = refl

abbrev pub info : Info repo api
info = record {
  meta = record { urn = lit "urn"; default_branch = lit "main"; delegates = direct alice ∷ [] };
  head = some 5;
  issues = 2;
  patches = 1;
}

shows : get_projects_info repo api disk (lit "/git") none none ≡ ok (info ∷ [])
unfolding get_projects_info collect query_page page_of projects_of oks get_project_info info_of
    to_option get_head_commit default_delegate lookup ◌==◌
shows = refl
