-- ===== src/Checks/Runs.antt =====
-- A life of the HTTP API: a client signs in, the fingerprints are filled, and commits are shown.
use radicle_client_services.Base.{
  Text, lit, get, keep, pos, Option, some, List, [], ◌∷◌, ok, ◌≡◌, refl,
}
use radicle_client_services.Base.Action.{for_each}
use radicle_client_services.HttpApi.Auth.{authorized}
use radicle_client_services.HttpApi.Sessions.Verified.{IsProven}
use radicle_client_services.HttpApi.Routes.{Handler}
use radicle_client_services.HttpApi.Reply.{Body, Reply, reply}
use radicle_client_services.HttpApi.Server.{handle, populate}
use radicle_client_services.HttpApi.Server.Runs.{Run, start, serve, fill_round, Run-IsProven}
use radicle_client_services.HttpApi.Server.Shown.{commit_handler-signed, history_handler-signed}
use radicle_client_services.HttpApi.Server.{respond}
use radicle_client_services.HttpApi.Server.Stability.{respond-authorized}
use radicle_client_services.HttpApi.Browse.{browse, revision_of, error_of_source}
use radicle_client_services.HttpApi.Commits.{
  Header, history, collect, teaser_of, committer_of, find_committer, default_per_page, is_within,
}
use radicle_client_services.HttpApi.Pages.{page_of}
use radicle_client_services.HttpApi.Source.Signed.{AllSignedBy}
use radicle_client_services.HttpApi.Source.{commit_handler, history_handler, start_of, list_from}
use radicle_client_services.HttpApi.Fingerprints
use radicle_client_services.HttpApi.Fingerprints.{
  populate_fingerprints, add_identity, add_project, insert_peers, tracked, peer_ids,
}
use radicle_client_services.Checks.Toy.{Peer, alice, repo}
use radicle_client_services.Checks.Sessions.{siwe, session}
use radicle_client_services.Checks.Jobs.{signed, disk}
use radicle_client_services.Checks.Surf.{surf, cobs}
use radicle_client_services.Checks.Web.{
  Call, axum, ApiContext, empty, outside, later, fresh, post, put, look, step, runs,
}

-- the client signs in, and then the job fills the fingerprints
abbrev opened : ApiContext
opened = (step post empty).1

abbrev signed_in : ApiContext
signed_in = (step put opened).1

abbrev filled : ApiContext
filled = populate repo signed surf cobs siwe axum (lit "0") (lit "x") disk signed_in

abbrev handed : List (Text × Text)
handed = (lit "id", lit "n1") ∷ []

opened-Run :
    Run repo signed surf cobs siwe axum
      (lit "0")
      (lit "x")
      (lit "/git")
      alice
      (lit "dark")
      handed
      opened
unfolding runs
opened-Run = serve [] empty disk outside post start

signed_in-Run :
    Run repo signed surf cobs siwe axum
      (lit "0")
      (lit "x")
      (lit "/git")
      alice
      (lit "dark")
      handed
      signed_in
unfolding runs
signed_in-Run = serve handed opened disk outside put opened-Run

filled-Run :
    Run repo signed surf cobs siwe axum
      (lit "0")
      (lit "x")
      (lit "/git")
      alice
      (lit "dark")
      handed
      filled
filled-Run = fill_round handed signed_in disk signed_in-Run

holds : get (lit "id") filled.sessions ≡ some (authorized session)
unfolding runs populate
holds = refl

Run-IsProven_example : IsProven siwe handed (lit "id") session
Run-IsProven_example =
    Run-IsProven repo signed surf cobs siwe axum (lit "0") (lit "x") (lit "/git") alice (lit "dark")
      handed filled (lit "id") session filled-Run holds

-- the commit and the listing that the API shows, with alice
abbrev get_commit : Call
get_commit = record look { pattern = lit "/v1/projects/:project/commits/:sha"; id = lit "urn" }

abbrev shown_commit : Reply signed cobs siwe
shown_commit = reply signed cobs siwe 200 (Body.commit (5, some alice))

shows_commit :
    (handle repo signed surf cobs siwe axum
      (lit "0")
      (lit "x")
      disk
      outside
      get_commit
      (lit "urn")
      Handler.commit_handler
      filled).0
    ≡ ok shown_commit
unfolding runs populate Fingerprints.populate_round populate_fingerprints add_identity add_project
    insert_peers tracked peer_ids Fingerprints.put for_each commit_handler browse revision_of
    error_of_source committer_of find_committer
shows_commit = refl

commit_handler-signed_example :
    signed.commit_fingerprint disk (surf.sha1_of 5) ≡ ok (some (signed.ssh_fingerprint alice))
commit_handler-signed_example =
    commit_handler-signed repo signed surf cobs siwe axum (lit "0") (lit "x") (lit "/git") alice
      (lit "dark") handed filled disk outside get_commit (lit "urn") shown_commit 5 alice filled-Run
      shows_commit refl

abbrev get_listing : Call
get_listing = record look { pattern = lit "/v1/projects/:project/commits"; id = lit "urn" }

abbrev listed : List (Header × Option Peer)
listed =
    (record { sha1 = lit "1"; committer_time = pos 3 }, some alice)
    ∷ (record { sha1 = lit "1"; committer_time = pos 7 }, some alice)
    ∷ []

abbrev shown_listing : Reply signed cobs siwe
shown_listing = reply signed cobs siwe 200 (Body.listing (listed, tt))

shows_listing :
    (handle repo signed surf cobs siwe axum
      (lit "0")
      (lit "x")
      disk
      outside
      get_listing
      (lit "urn")
      Handler.history_handler
      filled).0
    ≡ ok shown_listing
unfolding runs populate Fingerprints.populate_round populate_fingerprints add_identity add_project
    insert_peers tracked peer_ids Fingerprints.put for_each history_handler start_of list_from
    browse revision_of error_of_source history collect teaser_of committer_of find_committer
    default_per_page page_of is_within keep
shows_listing = refl

history_handler-signed_example : AllSignedBy repo signed surf disk listed
history_handler-signed_example =
    history_handler-signed repo signed surf cobs siwe axum (lit "0") (lit "x") (lit "/git") alice
      (lit "dark") handed filled disk outside get_listing (lit "urn") shown_listing listed tt
      filled-Run shows_listing refl

-- Somebody puts the message again.
abbrev put_again : ApiContext
put_again = (respond repo signed surf cobs siwe axum (lit "0") (lit "x") disk later put filled).1

respond-authorized_example : get (lit "id") put_again.sessions ≡ some (authorized session)
respond-authorized_example =
    respond-authorized repo signed surf cobs siwe axum (lit "0") (lit "x") disk later put filled
      (lit "id") session fresh holds
