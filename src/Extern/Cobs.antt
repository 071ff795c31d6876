-- ===== src/Extern/Cobs.antt =====
-- radicle_common's collaborative objects, with what radicle-surf and radicle-source are asked about
-- the revisions of a patch.
use radicle_client_services.Base.{Text, Bool, Option, List, Outcome, panic, ◌≢◌}
use radicle_client_services.Base.Action.{Action}
use radicle_client_services.Extern.Peers.{Peers}
use radicle_client_services.Extern.Monorepo.{Monorepo}
use radicle_client_services.Extern.Surf.{Surf, SourceError}
use radicle_client_services.HttpApi.Commits.{Header}
use radicle_client_services.HttpApi.Changeset.{Diff}

-- the types of the parts of an object that the handlers only pass on
pub record Parts : Type 1 where
  pub RevisionId : Type 0
  pub Comment : Type 0
  pub Discussion : Type 0
  pub Reviews : Type 0
  pub Timestamp : Type 0
  pub Title : Type 0
  pub State : Type 0
  pub Target : Type 0
  pub Labels : Type 0

module _ (T : Parts) (Oid : Type 0) where
  -- patch::Merge
  pub record Merge (Peer : Type 0) : Type 0 where
    pub peer : Peer
    pub commit : Oid
    pub timestamp : T.Timestamp

  -- patch::Revision, whose peer is the one that its patch has for it
  pub record Revision (RevisionPeer Changeset Peer : Type 0) : Type 0 where
    pub id : T.RevisionId
    pub peer : RevisionPeer
    pub oid : Oid
    pub base : Oid
    pub comment : T.Comment
    pub discussion : T.Discussion
    pub reviews : T.Reviews
    pub timestamp : T.Timestamp
    pub changeset : Changeset
    pub merges : List (Merge Peer)

  -- patch::Patch; its revisions are a NonEmpty
  pub record Patch (Author RevisionPeer Changeset Peer : Type 0) : Type 0 where
    pub author : Author
    pub title : T.Title
    pub state : T.State
    pub target : T.Target
    pub labels : T.Labels
    pub timestamp : T.Timestamp
    pub revisions :
        Revision RevisionPeer Changeset Peer × List (Revision RevisionPeer Changeset Peer)

pub record Cobs {P : Peers} {G : Monorepo P} (S : Surf G) : Type 1 where
  pub parts : Parts
  pub Author : Type 0
  pub RevisionPeer : Type 0
  pub author_peer : Author → P.PeerId
  pub ObjectId : Type 0
  pub Issue : Type 0
  -- PatchStore::get, PatchStore::all and Patch::resolve, which changes the patch as far as it gets
  pub patch :
      G.Store
      → G.Urn
      → ObjectId
      → Outcome Text (Option (Patch parts S.Oid Author RevisionPeer (Unit {0}) P.PeerId))
  pub patches :
      G.Store
      → G.Urn
      → Outcome Text (List (ObjectId × Patch parts S.Oid Author RevisionPeer (Unit {0}) P.PeerId))
  pub resolve_patch :
      G.Store
      → Patch parts S.Oid Author RevisionPeer (Unit {0}) P.PeerId
      → Outcome Text (Unit {0}) × Patch parts S.Oid Author RevisionPeer (Unit {0}) P.PeerId
  -- the same of issues
  pub issue : G.Store → G.Urn → ObjectId → Outcome Text (Option Issue)
  pub issues : G.Store → G.Urn → Outcome Text (List (ObjectId × Issue))
  pub resolve_issue : G.Store → Issue → Outcome Text (Unit {0}) × Issue
  -- Browser::new_with_namespace at a branch, Browser::rev, Browser::diff
  pub browse_branch : G.Store → S.Namespace → S.Branch → Outcome Text S.Browser
  pub set_rev : S.Oid → Action S.Browser Text (Unit {0})
  pub diff : S.Browser → S.Oid → S.Oid → Outcome Text Diff
  -- radicle_source::commits and radicle_source::commit, which may move the browser; the id of a
  -- header, and `PartialEq` of ids
  pub commits : Action S.Browser SourceError (List Header)
  pub commit : S.Oid → Action S.Browser SourceError S.Commit
  pub id_of : Header → S.Oid
  pub oid_eq : S.Oid → S.Oid → Bool

-- None of the calls on a revision panics.
pub record NeverPanics {P : Peers} {G : Monorepo P} {S : Surf G} (C : Cobs S) : Type 0 where
  pub set_rev-returns : (oid : S.Oid) (b : S.Browser) → (C.set_rev oid b).0 ≢ panic
  pub diff-returns : (b : S.Browser) (base oid : S.Oid) → C.diff b base oid ≢ panic
  pub commits-returns : (b : S.Browser) → (C.commits b).0 ≢ panic
  pub commit-returns : (oid : S.Oid) (b : S.Browser) → (C.commit oid b).0 ≢ panic
