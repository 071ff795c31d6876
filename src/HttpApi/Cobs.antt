-- ===== src/HttpApi/Cobs.antt =====
-- The handlers of patches and issues of http-api/src/v1/projects.rs.
pub mod Revisions
use radicle_client_services.Base.{
  Text, lit, if◌then◌else◌, not, Bool, true, false, map, Option, none, some, List, [], ◌∷◌, Outcome,
  ok, err, panic, ok_or, map_err, ◌>>=◌, ◌>>◌,
}
use radicle_client_services.Base.Action.{Action, resume}
use radicle_client_services.Extern.Peers.{Peers}
use radicle_client_services.Extern.Monorepo.{Monorepo}
use radicle_client_services.Extern.Api.{Api, Metadata}
use radicle_client_services.Extern.Surf.{Surf, SourceError}
use radicle_client_services.Extern.Cobs.{Cobs, Merge, Revision, Patch}
use radicle_client_services.HttpApi.Error.{
  Error, Result, surf, pool, identities, not_found, project_error, local_identity, cobs,
  missing_namespace,
}
use radicle_client_services.HttpApi.Commits.{Header, collect}
use radicle_client_services.HttpApi.Changeset.{Diff, Stats, stats}
use radicle_client_services.HttpApi.Browse.{remote_branch}

-- `Iterator::take_while`
unfoldable pub take_while : {A : Type 0} → (A → Bool) → List A → List A
take_while p [] = []
take_while p (x ∷ xs) = let rest = take_while p xs in if p x then x ∷ rest else []

-- `try_into().unwrap()`, from a Vec to a NonEmpty
unfoldable pub unwrap_nonempty : {A : Type 0} → List A → Result (A × List A)
unwrap_nonempty [] = panic
unwrap_nonempty (x ∷ xs) = ok (x, xs)

-- a failure to resolve is logged, and the object is as it was left
abbrev pub resolved : {A : Type 0} → Outcome Text (Unit {0}) × A → Result A
resolved (panic, a) = panic
resolved (_, a) = ok a

module _ {P : Peers} (G : Monorepo P) (X : Api G) (S : Surf G) (C : Cobs S) where
  -- the patches of the store, and those of a response
  abbrev pub Stored : Type 0
  Stored = Patch C.parts S.Oid C.Author C.RevisionPeer (Unit {0}) P.PeerId

  pub record Changeset : Type 0 where
    pub commits : List S.Commit
    pub diff : Diff
    pub stats : Stats

  unfoldable pub new_changeset : List S.Commit → Diff → Changeset
  new_changeset commits diff = record { commits = commits; diff = diff; stats = stats diff }

  abbrev pub Shown : Type 0
  Shown = Patch C.parts S.Oid C.Author C.RevisionPeer (Option Changeset) X.PeerInfo

  abbrev pub OldRevision : Type 0
  OldRevision = Revision C.parts S.Oid C.RevisionPeer (Unit {0}) P.PeerId

  abbrev pub NewRevision : Type 0
  NewRevision = Revision C.parts S.Oid C.RevisionPeer (Option Changeset) X.PeerInfo

  -- the closure over the merges
  unfoldable pub resolve_merge :
      G.Store → Metadata G → Merge C.parts S.Oid P.PeerId → Merge C.parts S.Oid X.PeerInfo
  resolve_merge s meta merge = record {
    peer = X.peer_info s merge.peer meta;
    commit = merge.commit;
    timestamp = merge.timestamp;
  }

  -- the filter_map over the headers: a commit that is not found is left out
  unfoldable pub read_commits : List Header → Action S.Browser Error (List S.Commit)
  read_commits [] b = (ok [], b)
  read_commits (h ∷ hs) b =
      let (rest, b') = read_commits hs (C.commit (C.id_of h) b).1 in
      elim (C.commit (C.id_of h) b).0 [
        | ok c ↦ (rest >>= λ cs. ok (c ∷ cs), b')
        | err e ↦ (rest, b')
        | panic ↦ (panic, (C.commit (C.id_of h) b).1)
      ]

  -- the match on the commits, the diff and the flag
  unfoldable pub changeset_from :
      OldRevision
      → Bool
      → Outcome SourceError (List Header)
      → Outcome Text Diff
      → Action S.Browser Error (Option Changeset)
  changeset_from revision include_changeset panic diff b = (panic, b)
  changeset_from revision include_changeset (err e) panic b = (panic, b)
  changeset_from revision include_changeset (err e) _ b = (ok none, b)
  changeset_from revision include_changeset (ok headers) panic b = (panic, b)
  changeset_from revision include_changeset (ok headers) (err e) b = (ok none, b)
  changeset_from revision false (ok headers) (ok diff) b = (ok none, b)
  changeset_from revision true (ok headers) (ok diff) b =
      let before = take_while (λ h. not (C.oid_eq (C.id_of h) revision.base)) headers in
      let (commits, b') = read_commits before b in
      (commits >>= λ cs. ok (some (new_changeset cs diff)), b')

  -- the changeset of a revision, at which the browser is set
  unfoldable pub changeset_of : Bool → OldRevision → Action S.Browser Error (Option Changeset)
  changeset_of include_changeset revision b = elim (C.set_rev revision.oid b).0 [
    | err e ↦ (ok none, (C.set_rev revision.oid b).1)
    | panic ↦ (panic, (C.set_rev revision.oid b).1)
    | ok u ↦
        let (listed, b') = C.commits (C.set_rev revision.oid b).1 in
        changeset_from revision include_changeset listed (C.diff b' revision.base revision.oid) b'
  ]

  unfoldable pub resolve_revision :
      G.Store → Metadata G → Bool → OldRevision → Action S.Browser Error NewRevision
  resolve_revision s meta include_changeset revision b =
      resume (changeset_of include_changeset revision b).0
        (λ changeset b'. (
          ok (record {
            id = revision.id;
            peer = revision.peer;
            oid = revision.oid;
            base = revision.base;
            comment = revision.comment;
            discussion = revision.discussion;
            reviews = revision.reviews;
            timestamp = revision.timestamp;
            changeset = changeset;
            merges = map (resolve_merge s meta) revision.merges;
          }),
          b',
        ))
        (changeset_of include_changeset revision b).1

  -- the map over the revisions
  unfoldable pub resolve_each :
      G.Store → Metadata G → Bool → List OldRevision → Action S.Browser Error (List NewRevision)
  resolve_each s meta include_changeset [] b = (ok [], b)
  resolve_each s meta include_changeset (r ∷ rs) b =
      let (first, b') = resolve_revision s meta include_changeset r b in
      resume first
        (λ new b₁.
          let (rest, b₂) = resolve_each s meta include_changeset rs b₁ in
          (rest >>= λ news. ok (new ∷ news), b₂))
        b'

  unfoldable pub resolve_revisions : G.Store → Metadata G → Bool → Stored → S.Browser → Result Shown
  resolve_revisions s meta include_changeset patch browser = do
    news ← (resolve_each s meta include_changeset (patch.revisions.0 ∷ patch.revisions.1) browser).0
    revisions ← unwrap_nonempty news
    ok (record {
      author = patch.author;
      title = patch.title;
      state = patch.state;
      target = patch.target;
      labels = patch.labels;
      timestamp = patch.timestamp;
      revisions = revisions;
    })

  -- Cob: an object with its id
  unfoldable pub patch_handler : G.Store → G.Urn → C.ObjectId → Result (C.ObjectId × Shown)
  patch_handler s urn patch_id = do
    map_err surf (S.open_repository s)
    map_err pool (G.pool_get s)
    found ← map_err identities (X.get_project s urn)
    p ← ok_or not_found found
    meta ← map_err project_error (X.metadata p)
    map_err local_identity (X.local_person s)
    stored ← map_err cobs (C.patch s urn patch_id)
    patch ← ok_or not_found stored
    patch ← resolved (C.resolve_patch s patch)
    namespace ← map_err (λ _. missing_namespace) (S.namespace_from (G.encode_id urn))
    browser ← map_err surf (
        C.browse_branch s namespace
          (remote_branch G S meta.default_branch (C.author_peer patch.author)))
    shown ← resolve_revisions s meta true patch browser
    ok (patch_id, shown)

  unfoldable pub patches_handler : G.Store → G.Urn → Result (List (C.ObjectId × Stored))
  patches_handler s urn = do
    map_err pool (G.pool_get s)
    map_err local_identity (X.local_person s)
    all ← map_err cobs (C.patches s urn)
    collect (λ o. resolved (C.resolve_patch s o.1) >>= λ patch. ok (o.0, patch)) all

  unfoldable pub issues_handler : G.Store → G.Urn → Result (List (C.ObjectId × C.Issue))
  issues_handler s project = do
    map_err pool (G.pool_get s)
    map_err local_identity (X.local_person s)
    all ← map_err cobs (C.issues s project)
    collect (λ o. resolved (C.resolve_issue s o.1) >>= λ issue. ok (o.0, issue)) all

  unfoldable pub issue_handler : G.Store → G.Urn → C.ObjectId → Result (C.ObjectId × C.Issue)
  issue_handler s project issue_id = do
    map_err pool (G.pool_get s)
    map_err local_identity (X.local_person s)
    stored ← map_err cobs (C.issue s project issue_id)
    issue ← ok_or not_found stored
    issue ← resolved (C.resolve_issue s issue)
    ok (issue_id, issue)
