-- ===== src/Extern/Surf.antt =====
-- What the handlers that browse a project use: librad's references, radicle-surf and radicle-source.
use radicle_client_services.Base.{Text, ℤ, Option, some, List, Outcome, ◌≡◌}
use radicle_client_services.Extern.Peers.{Peers}
use radicle_client_services.Extern.Monorepo.{Monorepo}
use radicle_client_services.HttpApi.Commits.{Header}

-- radicle_source::error::Error, as far as it is matched on
pub data SourceError : Type 0 where
  path_not_found other : Text → SourceError

pub record Surf {P : Peers} (G : Monorepo P) : Type 1 where
  -- Reference<Single> of librad, Reference::head(Namespace::from(urn), peer, name), and its fields
  pub Reference : Type 0
  pub head : G.Urn → Option P.PeerId → Text → Reference
  pub namespace_of : Reference → Option Text
  pub name_of : Reference → Text
  pub remote_of : Reference → Option P.PeerId
  -- One::from_str
  pub one_from_str : Text → Option Text
  -- git::Namespace::try_from, git::Oid::from_str, git::Branch::remote, and Rev::try_from of both
  pub Namespace : Type 0
  pub Branch : Type 0
  pub Oid : Type 0
  pub Rev : Type 0
  pub namespace_from : Text → Outcome Text Namespace
  pub oid_from_str : Text → Option Oid
  pub remote : Text → Text → Branch
  pub rev_of_oid : Oid → Option Rev
  pub rev_of_branch : Branch → Option Rev
  -- git::Repository::new, git::Browser::new_with_namespace
  pub Browser : Type 0
  pub open_repository : G.Store → Outcome Text (Unit {0})
  pub new_with_namespace : G.Store → Namespace → Rev → Outcome Text Browser
  -- what the handlers ask of a browser, in it or through radicle_source
  pub Commit : Type 0
  pub Stats : Type 0
  pub Tree : Type 0
  pub Blob : Type 0
  pub sha1_of : Commit → Text
  pub oid : Browser → Text → Outcome SourceError Oid
  pub commit : Browser → Oid → Outcome SourceError Commit
  pub commits : Browser → Outcome SourceError (List Header × Stats)
  pub tree : Browser → Text → Outcome SourceError Tree
  pub get_stats : Browser → Outcome SourceError Stats
  pub blob : Browser → Text → Option Text → Outcome SourceError Blob
  -- the times of the commits of Browser::get
  pub times : Browser → List ℤ
  -- Repository::references, and references_glob: the name and the target of each that can be read
  pub references : G.Store → Outcome Text (Unit {0})
  pub references_glob :
      G.Store → Text → Outcome Text (List (Outcome Text (Option Text × Option G.Oid)))

-- A head has the namespace, the peer and the name that it was made of.
pub record HasHeads {P : Peers} {G : Monorepo P} (S : Surf G) : Type 0 where
  pub namespace : G.Urn → Text
  pub namespace_of-head :
      (u : G.Urn) (p : Option P.PeerId) (n : Text)
      → S.namespace_of (S.head u p n) ≡ some (namespace u)
  pub name_of-head : (u : G.Urn) (p : Option P.PeerId) (n : Text) → S.name_of (S.head u p n) ≡ n
  pub remote_of-head : (u : G.Urn) (p : Option P.PeerId) (n : Text) → S.remote_of (S.head u p n) ≡ p
