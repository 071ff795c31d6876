-- ===== src/GitServer/Hooks/Delegates.antt =====
-- The delegates in the environment and in an identity document: `PostReceive::from_stdin` and
-- `track_identity` of git-server/src/hooks/post_receive.rs, and `get_meta` of git-server/src/lib.rs.
use radicle_client_services.Base.{
  Text, split, Option, none, some, List, [], ◌∷◌, ◌++◌, map, ok, err, panic,
}
use radicle_client_services.Extern.Peers.{Peers}
use radicle_client_services.Extern.Identity.{
  Delegation, direct, indirect, SomeIdentity, person, project, unknown,
}
use radicle_client_services.GitServer.Error.{Result, invalid_peer_id}

module _ (P : Peers) where
  -- `keys.split(',').map(PeerId::from_str).collect::<Result<_, _>>()`
  unfoldable pub parse_peers : List Text → Result (List P.PeerId)
  parse_peers [] = ok []
  parse_peers (k ∷ ks) = elim (P.from_str k) [
    | none ↦ err invalid_peer_id
    | some peer ↦ elim (parse_peers ks) [
      | ok peers ↦ ok (peer ∷ peers)
      | err e ↦ err e
      | panic ↦ panic
    ]
  ]

  unfoldable pub parse_delegates : Option Text → Result (List P.PeerId)
  parse_delegates none = ok []
  parse_delegates (some keys) = parse_peers (split b',' keys)

  -- the peers that `track_identity` collects from an identity document
  unfoldable pub delegation_peers : {Urn : Type 0} → List (Delegation P Urn) → List P.PeerId
  delegation_peers [] = []
  delegation_peers (direct key ∷ ds) = P.from_public_key key ∷ delegation_peers ds
  delegation_peers (indirect urn keys ∷ ds) = map P.from_public_key keys ++ delegation_peers ds

  unfoldable pub identity_peers : {Urn : Type 0} → SomeIdentity P Urn → List P.PeerId
  unfolding delegation_peers
  identity_peers (person urn name keys) = map P.from_public_key keys
  identity_peers (project urn name branch delegations) = delegation_peers delegations
  identity_peers (unknown urn) = []
