-- ===== src/HttpApi/Fingerprints.antt =====
-- Who signed a commit: `populate_fingerprints`, its job and `commit_ssh_fingerprint` of
-- http-api/src/lib.rs, with `tracked` of http-api/src/project.rs.
pub mod Sound
pub mod Complete
use radicle_client_services.Base.{
  Text, lit, Assoc, get, insert, map, if◌then◌else◌, get_or_else, Option, none, some, List, [], ◌∷◌,
  Outcome, ok, err, panic, map_err, ◌>>=◌,
}
use radicle_client_services.Base.Action.{Action, pure, lift, for_each, resume}
use radicle_client_services.Base.Action
use radicle_client_services.Extern.Peers.{Peers}
use radicle_client_services.Extern.Identity.{SomeIdentity, person, project, unknown}
use radicle_client_services.Extern.Monorepo.{Monorepo}
use radicle_client_services.Extern.Api.{Api, Metadata}
use radicle_client_services.HttpApi.Error.{
  Error, Result, not_found, tracking, identities, project_error, pool, io,
}

-- `collect` of the peers that are tracked, up to the first error, and the `filter_map`
unfoldable pub peer_ids : {A : Type 0} → List (Outcome Text (Option A)) → Result (List A)
peer_ids [] = ok []
peer_ids (ok (some id) ∷ ts) = do ids ← peer_ids ts; ok (id ∷ ids)
peer_ids (ok none ∷ ts) = peer_ids ts
peer_ids (err e ∷ ts) = err (tracking e)
peer_ids (panic ∷ ts) = panic

module _ {P : Peers} (G : Monorepo P) (X : Api G) where
  -- The maps of fingerprints to peers, by project.
  abbrev pub Fingerprints : Type 0
  Fingerprints = Assoc X.PeerInfo

  abbrev pub Projects : Type 0
  Projects = G.Urn → Option Fingerprints

  unfoldable pub put : G.Urn → Fingerprints → Projects → Projects
  put urn fps m = λ other. if G.urn_eq urn other then some fps else m other

  -- project::tracked
  unfoldable pub tracked : G.Store → Metadata G → Result (List X.PeerInfo)
  tracked s meta = do
    ts ← map_err (λ _. not_found) (X.tracked s meta.urn)
    ids ← peer_ids ts
    ok (map (λ id. X.peer_info s id meta) ids)

  -- the loop over the peers
  unfoldable pub insert_peers : List X.PeerInfo → Fingerprints → Fingerprints
  insert_peers [] fps = fps
  insert_peers (p ∷ ps) fps = insert_peers ps (insert (X.ssh_fingerprint (X.peer_of p)) p fps)

  -- `map.entry(urn).or_default()`, and what happens to the entry
  unfoldable pub add_project : G.Store → Metadata G → Action Projects Error (Unit {0})
  add_project s meta m =
      let fps = get_or_else (m meta.urn) [] in
      resume (tracked s meta) (λ peers m'. (ok tt, put meta.urn (insert_peers peers fps) m'))
        (put meta.urn fps m)

  -- the body of the loop over the identities
  unfoldable pub add_identity :
      G.Store → Outcome Text (SomeIdentity P G.Urn) → Action Projects Error (Unit {0})
  add_identity s (ok (project urn name branch ds)) m =
      resume (map_err project_error (X.metadata (project urn name branch ds))) (add_project s) m
  add_identity s _ m = (ok tt, m)

  unfoldable pub populate_fingerprints : G.Store → Action Projects Error (Unit {0})
  populate_fingerprints s m =
      resume (map_err identities (G.list_identities s)) (for_each (add_identity s)) m

  -- an error is logged
  abbrev pub logged : Outcome Error (Unit {0}) → Outcome Error (Unit {0})
  logged (err e) = ok tt
  logged r = r

  -- a round of `populate_fingerprints_job`, for the repository as the round finds it
  unfoldable pub populate_round : G.Store → Action Projects Error (Unit {0})
  populate_round s m =
      resume (map_err pool (G.pool_get s))
        (λ _ m'. (logged (populate_fingerprints s m').0, (populate_fingerprints s m').1)) m

  -- the job: an error of the pool ends it
  unfoldable pub populate_fingerprints_job : List G.Store → Action Projects Error (Unit {0})
  populate_fingerprints_job stores = for_each populate_round stores
