-- ===== src/Checks/Jobs.antt =====
-- The jobs of the HTTP API at concrete states.
use radicle_client_services.Base.{
  Text, lit, ℕ, ◌+◌, ◌≤◌, ◌<◌, eq_iff, get, none, some, [], ◌∷◌, ok, ◌≡◌, inl, inr, refl, arith,
}
use radicle_client_services.Base.Action.{for_each}
use radicle_client_services.Extern.Identity.{SomeIdentity, project}
use radicle_client_services.Extern.Api.{Api, HasPeers, direct}
use radicle_client_services.HttpApi.Sessions.Job.{
  cleanup_interval, tick, NoneEnded, cleanup_sessions_job, cleanup_sessions_job-live,
}
use radicle_client_services.HttpApi.Fingerprints.{
  Fingerprints, peer_ids, tracked, add_project, add_identity, populate_fingerprints,
}
use radicle_client_services.HttpApi.Fingerprints.Complete.{populate_fingerprints-finds}
use radicle_client_services.Checks.Toy.{Peer, alice, peers, encode, Disk, repo, empty_disk}
use radicle_client_services.Checks.Api.{api}
use radicle_client_services.Checks.Sessions.{siwe, used, used-Unique, id}

-- the key of a peer is its own fingerprint, and every commit is signed by alice
abbrev pub signed : Api repo
signed = record api {
  tracked = λ s u. ok (ok none ∷ ok (some alice) ∷ []);
  ssh_fingerprint = encode;
  commit_fingerprint = λ s t. ok (some (lit "alice"));
}

signed-HasPeers : HasPeers signed
signed-HasPeers = record { urn_eq_iff = eq_iff; peer_of-peer_info = λ s p meta. refl }

abbrev listed : SomeIdentity peers Text
listed = project (lit "urn") (lit "acme") none []

abbrev pub disk : Disk
disk = record empty_disk { documents = (0, listed) ∷ [] }

populates : (populate_fingerprints repo signed disk (λ u. none)).0 ≡ ok tt
unfolding populate_fingerprints add_identity add_project tracked peer_ids for_each
populates = refl

populate_fingerprints-finds_example :
    (fps : Fingerprints repo signed) × (p : Peer) × ((populate_fingerprints repo signed disk
          (λ u. none)).1
        (lit "urn")
      ≡ some fps)
    × (get (encode alice) fps ≡ some p)
populate_fingerprints-finds_example =
    populate_fingerprints-finds repo signed signed-HasPeers disk (λ u. none) (ok listed ∷ [])
      (lit "urn") (lit "acme") none []
      (record { urn = lit "urn"; default_branch = lit "main"; delegates = direct alice ∷ [] })
      (ok none ∷ ok (some alice) ∷ []) alice refl (inl refl) refl refl (inr (inl refl)) populates

-- the sessions end at 9, and the round that is due at 65 has removed them
cleanup_sessions_job-live_example :
    (n : ℕ) × (9 ≤ tick cleanup_interval 5 n)
    × (tick cleanup_interval 5 n < 9 + cleanup_interval)
    × NoneEnded siwe 9 id
        (cleanup_sessions_job siwe (λ n s. s) (λ n i. i) cleanup_interval 5 n used)
cleanup_sessions_job-live_example =
    cleanup_sessions_job-live siwe (λ n s. s) (λ n i. i) 5 used 9 id (λ n s u. u) used-Unique
      (omega arith)
