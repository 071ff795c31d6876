-- ===== src/Extern/Api.antt =====
-- What the HTTP API uses besides the repository: the radicle-common, radicle-surf and librad crates.
use radicle_client_services.Base.{Text, ℕ, Option, List, Bool, true, Outcome, ◌≡◌, ◌↔◌}
use radicle_client_services.Extern.Peers.{Peers}
use radicle_client_services.Extern.Identity.{SomeIdentity}
use radicle_client_services.Extern.Monorepo.{Monorepo}

-- radicle_common::project::Delegate; the ids of an indirect delegate, as it iterates over them
module _ (P : Peers) where
  pub data Delegate : Type 0 where
    direct : P.PeerId → Delegate
    indirect : List P.PeerId → Delegate

-- radicle_common::project::Metadata, the fields that the API reads
pub record Metadata {P : Peers} (G : Monorepo P) : Type 0 where
  pub urn : G.Urn
  pub default_branch : Text
  pub delegates : List (Delegate P)

pub record Api {P : Peers} (G : Monorepo P) : Type 1 where
  -- Namespace::try_from(urn) and One::try_from(branch), if they succeed
  pub is_namespace : G.Urn → Bool
  pub is_branch : Text → Bool
  -- Reference::head(namespace, peer, branch).to_string()
  pub head : G.Urn → Option P.PeerId → Text → Text
  -- Urn::from_str, identities::project::get
  pub urn_from_str : Text → Option G.Urn
  pub get_project : G.Store → G.Urn → Outcome Text (Option (SomeIdentity P G.Urn))
  -- Repository::find_commit, and radicle-surf's commit of it
  pub find_commit : G.Store → G.Oid → Outcome Text (Unit {0})
  pub commit_of : G.Store → G.Oid → Outcome Text (Unit {0})
  -- person::local(storage), and the counts of the stores of issues and patches
  pub local_person : G.Store → Outcome Text (Unit {0})
  pub count_issues : G.Store → G.Urn → Outcome Text ℕ
  pub count_patches : G.Store → G.Urn → Outcome Text ℕ
  -- project::Metadata::try_from
  pub metadata : SomeIdentity P G.Urn → Outcome Text (Metadata G)
  -- tracking::tracked and its entries, the peer of each if it has one; PeerInfo::get
  pub tracked : G.Store → G.Urn → Outcome Text (List (Outcome Text (Option P.PeerId)))
  pub PeerInfo : Type 0
  pub peer_of : PeerInfo → P.PeerId
  pub peer_info : G.Store → P.PeerId → Metadata G → PeerInfo
  -- keys::to_ssh_fingerprint, git::commit_ssh_fingerprint
  pub ssh_fingerprint : P.PeerId → Text
  pub commit_fingerprint : G.Store → Text → Outcome Text (Option Text)

-- `PartialEq` of urns is equality, and the information on a peer is about that peer.
pub record HasPeers {P : Peers} {G : Monorepo P} (X : Api G) : Type 0 where
  pub urn_eq_iff : (u v : G.Urn) → (G.urn_eq u v ≡ true) ↔ (u ≡ v)
  pub peer_of-peer_info :
      (s : G.Store) (id : P.PeerId) (meta : Metadata G) → X.peer_of (X.peer_info s id meta) ≡ id
