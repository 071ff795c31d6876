-- ===== src/Checks/Browse.antt =====
-- The handlers of the HTTP API that browse a project, on a small one.
use radicle_client_services.Base.{
  Text, lit, ℕ, pos, minus, keep, ◌==◌, Assoc, get, insert, Has, strip_prefix, true, Option, none,
  some, [], ◌∷◌, ◌++◌, map, Outcome, ok, err, ◌>>=◌, ◌≡◌, ◌↔◌, refl,
}
use radicle_client_services.Extern.Surf.{SourceError}
use radicle_client_services.Extern.Api.{Api, Metadata, direct}
use radicle_client_services.HttpApi.Error.{not_found}
use radicle_client_services.GitServer.Alias.{resolve_project}
use radicle_client_services.HttpApi.Head.{default_delegate, get_head_commit}
use radicle_client_services.HttpApi.Projects.{to_option, info_of, project_info}
use radicle_client_services.HttpApi.Aliases.{urn_of_alias}
use radicle_client_services.HttpApi.Aliases.Agreement.{urn_of_alias-resolve_project}
use radicle_client_services.HttpApi.Browse.{revision_of, browse, error_of_source}
use radicle_client_services.HttpApi.Browse.Revision.{IsAt, browse_iff}
use radicle_client_services.HttpApi.Source.{
  readme_paths, head_text, history_handler, activity_handler, first_blob, readme_handler,
}
use radicle_client_services.HttpApi.Source.Parent.{with_found, history_handler-head}
use radicle_client_services.HttpApi.Source.Readme.{IsFirst, readme_handler_iff}
use radicle_client_services.HttpApi.Remotes.{
  Listed, heads_prefix, branch_of, branches_of, collect_map, remote_handler,
}
use radicle_client_services.HttpApi.Remotes.Heads.{IsListed, remote_handler-IsListed}
use radicle_client_services.HttpApi.Remotes.Heads
use radicle_client_services.HttpApi.Cobs.{
  resolve_revisions, resolve_each, resolve_revision, changeset_of, changeset_from, read_commits,
  take_while, unwrap_nonempty, new_changeset,
}
use radicle_client_services.HttpApi.Cobs.Revisions.{IsShown}
use radicle_client_services.Checks.Toy.{Peer, alice, lookup, repo}
use radicle_client_services.Checks.Api.{api, disk, known, query}
use radicle_client_services.Checks.Server.{named_repo, cache, has_suffix}
use radicle_client_services.Checks.Server
use radicle_client_services.Checks.Surf.{surf, surf-HasHeads, cobs, patch}

abbrev readme : surf.Browser → Outcome SourceError Text
readme b = surf.blob b (lit "README.md") none

browse_iff_example :
    (browse repo surf disk (surf.head (lit "urn") none (lit "5")) readme ≡ ok (lit "# acme")) ↔ (
      (b : ℕ) × IsAt repo surf surf-HasHeads disk (lit "urn") (lit "5") b
      × (readme b ≡ ok (lit "# acme")))
browse_iff_example =
    browse_iff repo surf surf-HasHeads disk (lit "urn") (lit "5") readme (lit "# acme")

-- the name of a branch is not found
branch : browse repo surf disk (surf.head (lit "urn") none []) readme ≡ err not_found
unfolding browse revision_of
branch = refl

readme_handler_iff_example :
    (readme_handler repo surf disk (lit "urn") (lit "5") ≡ ok (lit "# acme")) ↔ (
      (b : ℕ) × IsAt repo surf surf-HasHeads disk (lit "urn") (lit "5") b
      × IsFirst repo surf b readme_paths (lit "# acme"))
readme_handler_iff_example =
    readme_handler_iff repo surf surf-HasHeads disk (lit "urn") (lit "5") (lit "# acme")

reads : readme_handler repo surf disk (lit "urn") (lit "5") ≡ ok (lit "# acme")
unfolding readme_handler browse revision_of error_of_source first_blob ◌==◌
reads = refl

abbrev projects : Text → Option (Assoc Peer)
projects u = known

history_handler-head_example :
    history_handler repo api surf disk (lit "/git") projects (lit "urn") none query ≡ (
      project_info repo api disk (lit "/git") (lit "urn") >>= λ info.
      head_text repo api surf info >>= λ head.
      history_handler repo api surf disk (lit "/git") projects (lit "urn") (some head) query
      >>= with_found repo api surf disk projects (lit "urn") query)
history_handler-head_example =
    history_handler-head repo api surf disk projects (lit "urn") query (lit "/git")

-- the commit of the first second is older than a year
recent :
    activity_handler repo api surf disk (lit "/git") 50000000 (lit "urn") ≡ ok (pos 40000000 ∷ [])
unfolding activity_handler project_info info_of to_option get_head_commit default_delegate lookup
    head_text browse revision_of keep minus ◌==◌
recent = refl

abbrev heads : Assoc Text
heads = (lit "main", lit "7") ∷ []

shows : remote_handler repo surf disk (lit "/git") (lit "urn") alice ≡ ok heads
unfolding remote_handler heads_prefix branches_of branch_of collect_map insert strip_prefix
shows = refl

remote_handler-IsListed_example :
    (refs : Listed repo surf) × (surf.references_glob disk
        (heads_prefix repo surf (lit "urn") alice ++ lit "*")
      ≡ ok refs)
    × ((name target : Text)
        → get name heads ≡ some target
        → IsListed repo surf (heads_prefix repo surf (lit "urn") alice) name refs target)
    × ((name : Text) (oid : ℕ)
        → Has (ok (some (heads_prefix repo surf (lit "urn") alice ++ name), some oid)) refs
        → Heads.IsShown repo surf name heads)
remote_handler-IsListed_example =
    remote_handler-IsListed repo surf disk (lit "/git") (lit "urn") alice heads shows

abbrev metadata : Metadata repo
metadata = record { urn = lit "urn"; default_branch = lit "main"; delegates = direct alice ∷ [] }

-- only the commit before the base is shown
commits_shown :
    map
      (λ c. c.commits)
      (elim (resolve_revisions repo api surf cobs disk metadata true patch 0) [
        | ok shown ↦ elim shown.revisions.0.changeset [ none ↦ [] | some c ↦ c ∷ [] ]
        | _ ↦ []
      ])
    ≡ (3 ∷ 100 ∷ []) ∷ []
unfolding resolve_revisions resolve_each resolve_revision changeset_of changeset_from read_commits
    take_while unwrap_nonempty new_changeset
commits_shown = refl

abbrev nameless : Api named_repo
nameless = record {
  is_namespace = api.is_namespace;
  is_branch = api.is_branch;
  head = api.head;
  urn_from_str = λ t. none;
  get_project = api.get_project;
  find_commit = api.find_commit;
  commit_of = api.commit_of;
  local_person = api.local_person;
  count_issues = api.count_issues;
  count_patches = api.count_patches;
  metadata = λ p. err (lit "not asked");
  tracked = api.tracked;
  PeerInfo = Peer;
  peer_of = λ p. p;
  peer_info = λ s p m. p;
  ssh_fingerprint = λ p. [];
  commit_fingerprint = api.commit_fingerprint;
}

urn_of_alias-resolve_project_example :
    (to_option (urn_of_alias named_repo nameless Server.disk (lit "acme") []).0
      ≡ to_option (resolve_project named_repo Server.disk (lit "acme.git") []).0)
    × ((urn_of_alias named_repo nameless Server.disk (lit "acme") []).1
        ≡ (resolve_project named_repo Server.disk (lit "acme.git") []).1)
urn_of_alias-resolve_project_example =
    urn_of_alias-resolve_project named_repo nameless Server.disk (lit "acme.git") (lit "acme") []
      has_suffix refl refl
