-- ===== src/Extern/Monorepo.antt =====
-- git2's repository and librad's storage of identities and tracking, over an abstract store.
use radicle_client_services.Base.{
  Text, Lacks, Option, some, List, Bool, true, Outcome, ok, ◌≡◌, ◌≢◌,
}
use radicle_client_services.Extern.Peers.{Peers}
use radicle_client_services.Extern.Identity.{SomeIdentity}

pub record Monorepo (P : Peers) : Type 1 where
  -- git2::Oid
  pub Oid : Type 0
  pub oid_from_str : Text → Outcome Text Oid
  pub oid_is_zero : Oid → Bool
  pub oid_to_string : Oid → Text
  -- librad::git::Urn
  pub Urn : Type 0
  pub urn_eq : Urn → Urn → Bool
  pub try_from_id : Text → Option Urn
  pub encode_id : Urn → Text
  -- the repository on disk, which the calls below read and change
  pub Store : Type 0
  -- Repository::open_bare, Repository::set_namespace (of the handle, not of the disk)
  pub open_bare : Store → Text → Outcome Text (Unit {0})
  pub set_namespace : Store → Text → Outcome Text (Unit {0})
  -- Repository::find_reference and Reference::target: the target is none of a symbolic reference
  pub find_reference : Store → Text → Outcome Text (Option Oid)
  -- Repository::reference(name, oid, force, message)
  pub reference : Text → Oid → Bool → Text → Store → Outcome Text Oid × Store
  -- Repository::reference_symbolic(name, target, force, message)
  pub reference_symbolic : Text → Text → Bool → Text → Store → Outcome Text (Unit {0}) × Store
  -- the target of a symbolic reference
  pub symbolic_target : Store → Text → Option Text
  -- the paths of Profile::from_root(root, None), or of Profile::load() without a root
  pub Paths : Type 0
  pub profile_paths : Store → Option Text → Outcome Text Paths
  -- Paths::git_dir
  pub git_dir_of : Paths → Text
  -- ReadOnly::open(paths) of librad
  pub open_storage : Store → Paths → Outcome Text (Unit {0})
  -- identities().some_identity(oid), identities().verify(oid) of a person and of a project
  pub some_identity : Store → Oid → Outcome Text (SomeIdentity P Urn)
  pub verify_person : Store → Oid → Outcome Text (Unit {0})
  pub verify_project : Store → Oid → Outcome Text (Unit {0})
  -- identities::any::get, identities::any::list
  pub get_identity : Store → Urn → Outcome Text (Option (SomeIdentity P Urn))
  pub list_identities : Store → Outcome Text (List (Outcome Text (SomeIdentity P Urn)))
  -- Pool::get
  pub pool_get : Store → Outcome Text (Unit {0})
  -- tracking::track(storage, urn, Some(peer), Config::default(), Track::Any)
  -- with the error of the tracking, or the error of the guard inside
  pub track : Urn → P.PeerId → Store → Outcome Text (Outcome Text (Unit {0})) × Store
  pub tracks : Store → Urn → P.PeerId → Bool

-- git2 on references: a forced write sets the name that it is given and no other name, whatever it
-- returns, and a symbolic reference is not followed.
pub record HasRefs {P : Peers} (G : Monorepo P) : Type 0 where
  pub reference-found :
      (n : Text) (o : G.Oid) (m : Text) (s : G.Store) {x : G.Oid}
      → (G.reference n o true m s).0 ≡ ok x
      → G.find_reference (G.reference n o true m s).1 n ≡ ok (some o)
  pub reference-found_ne :
      (n : Text) (o : G.Oid) (m : Text) (s : G.Store) (k : Text)
      → n ≢ k
      → G.find_reference (G.reference n o true m s).1 k ≡ G.find_reference s k
  pub reference-target_ne :
      (n : Text) (o : G.Oid) (m : Text) (s : G.Store) (k : Text)
      → n ≢ k
      → G.symbolic_target (G.reference n o true m s).1 k ≡ G.symbolic_target s k
  pub symbolic-target :
      (n t : Text) (m : Text) (s : G.Store)
      → (G.reference_symbolic n t true m s).0 ≡ ok tt
      → G.symbolic_target (G.reference_symbolic n t true m s).1 n ≡ some t
  pub symbolic-found_ne :
      (n t : Text) (m : Text) (s : G.Store) (k : Text)
      → n ≢ k
      → G.find_reference (G.reference_symbolic n t true m s).1 k ≡ G.find_reference s k

-- Tracking that returned is recorded, and no call of it forgets a peer.
pub record HasTracking {P : Peers} (G : Monorepo P) : Type 0 where
  pub track-tracks :
      (u : G.Urn) (a : P.PeerId) (s : G.Store)
      → (G.track u a s).0 ≡ ok (ok tt)
      → G.tracks (G.track u a s).1 u a ≡ true
  pub track-keeps :
      (u v : G.Urn) (a b : P.PeerId) (s : G.Store)
      → G.tracks s v b ≡ true
      → G.tracks (G.track u a s).1 v b ≡ true

-- An object id is read back from its text, which has no blank.
pub record HasOids {P : Peers} (G : Monorepo P) : Type 0 where
  pub from-to : (o : G.Oid) → G.oid_from_str (G.oid_to_string o) ≡ ok o
  pub no_blank : (o : G.Oid) → Lacks b' ' (G.oid_to_string o)
