-- ===== src/Extern/Identity.antt =====
-- librad's identity documents, as far as the services look at them.
use radicle_client_services.Base.{Text, Option, List}
use radicle_client_services.Extern.Peers.{Peers}

module _ (P : Peers) (Urn : Type 0) where
  -- the delegations of a project: `Either::Left(key)` and `Either::Right(indirect)`
  pub data Delegation : Type 0 where
    direct : P.PublicKey → Delegation
    indirect : Urn → List P.PublicKey → Delegation

  -- librad::identities::SomeIdentity: its urn, the name in its payload, what it delegates to
  pub data SomeIdentity : Type 0 where
    person : Urn → Text → List P.PublicKey → SomeIdentity
    project : Urn → Text → Option Text → List Delegation → SomeIdentity
    unknown : Urn → SomeIdentity

  abbrev pub urn_of : SomeIdentity → Urn
  urn_of (person u n ks) = u
  urn_of (project u n b ds) = u
  urn_of (unknown u) = u
