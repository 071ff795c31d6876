-- ===== src/HttpApi/Cobs/Revisions.antt =====
-- What a patch is shown with: all of its revisions, and the changes of each.
use radicle_client_services.Base.{
  Text, not, Bool, true, false, map, Option, none, some, List, [], ◌∷◌, ok, err, ◌≡◌,
}
use radicle_client_services.Extern.Peers.{Peers}
use radicle_client_services.Extern.Monorepo.{Monorepo}
use radicle_client_services.Extern.Api.{Api, Metadata}
use radicle_client_services.Extern.Surf.{Surf, SourceError}
use radicle_client_services.Extern.Cobs.{Cobs, NeverPanics}
use radicle_client_services.HttpApi.Commits.{Header}
use radicle_client_services.HttpApi.Changeset.{stats}
use radicle_client_services.HttpApi.Cobs.{
  take_while, Changeset, OldRevision, NewRevision, resolve_merge,
}

module _ {P : Peers} (G : Monorepo P) (X : Api G) (S : Surf G) (C : Cobs S) (N : NeverPanics C)
    (s : G.Store) (meta : Metadata G) (include_changeset : Bool) where
  -- The commits that are read for headers: one for each, in order, but for those that are not found.
  pub data AreRead : List Header → List S.Commit → Type 0 where
    all_read : AreRead [] []
    commit_read :
        (h : Header) (hs : List Header) (c : S.Commit) (cs : List S.Commit) (b : S.Browser)
        → (C.commit (C.id_of h) b).0 ≡ ok c
        → AreRead hs cs
        → AreRead (h ∷ hs) (c ∷ cs)
    commit_missing :
        (h : Header) (hs : List Header) (cs : List S.Commit) (b : S.Browser) (e : SourceError)
        → (C.commit (C.id_of h) b).0 ≡ err e
        → AreRead hs cs
        → AreRead (h ∷ hs) cs

  -- The changeset of a revision: it was asked for, its difference is that of the revision to its
  -- base, its statistics are counted in that, and its commits are read for the headers that are
  -- listed in front of the base.
  pub record IsChangeset (r : OldRevision G X S C) (c : Changeset G X S C) : Type 0 where
    pub asked : include_changeset ≡ true
    pub from : S.Browser
    pub differs : C.diff from r.base r.oid ≡ ok c.diff
    pub counted : c.stats ≡ stats c.diff
    pub headers : List Header
    pub listing : S.Browser
    pub listed : (C.commits listing).0 ≡ ok headers
    pub read : AreRead (take_while (λ h. not (C.oid_eq (C.id_of h) r.base)) headers) c.commits

  -- Why a revision has no changeset.
  pub data IsMissing (r : OldRevision G X S C) : Type 0 where
    not_asked : include_changeset ≡ false → IsMissing r
    not_found : (b : S.Browser) (e : Text) → (C.set_rev r.oid b).0 ≡ err e → IsMissing r
    not_listed : (b : S.Browser) (e : SourceError) → (C.commits b).0 ≡ err e → IsMissing r
    not_compared : (b : S.Browser) (e : Text) → C.diff b r.base r.oid ≡ err e → IsMissing r

  -- The changeset of a revision, or why it has none.
  pub Describes : OldRevision G X S C → Option (Changeset G X S C) → Type 0
  Describes r none = IsMissing r
  Describes r (some c) = IsChangeset r c

  -- How a revision is shown.
  pub record IsShown (r : OldRevision G X S C) (new : NewRevision G X S C) : Type 0 where
    pub same_id : new.id ≡ r.id
    pub same_oid : new.oid ≡ r.oid
    pub same_base : new.base ≡ r.base
    pub merged : new.merges ≡ map (resolve_merge G X S C s meta) r.merges
    pub changed : Describes r new.changeset

  -- The revisions are shown one by one, in order.
  pub AllShown : List (OldRevision G X S C) → List (NewRevision G X S C) → Type 0
  AllShown [] [] = Unit {0}
  AllShown (r ∷ rs) (n ∷ ns) = IsShown r n × AllShown rs ns
  AllShown _ _ = ⊥
