-- ===== src/HttpApi/Source/Signed.antt =====
-- Whose commits the handlers of http-api/src/v1/projects.rs show, from signed fingerprints.
use radicle_client_services.Base.{
  Text, Option, none, some, All, List, [], ◌∷◌, ok, get_or_else, Bool, false, Bool-cases, ◌>>=◌,
  >>=-eq-ok, ok-injective, ok_or, ◌≡◌, inl, inr, subst,
}
use radicle_client_services.Extern.Peers.{Peers}
use radicle_client_services.Extern.Monorepo.{Monorepo}
use radicle_client_services.Extern.Api.{Api}
use radicle_client_services.Extern.Surf.{Surf}
use radicle_client_services.HttpApi.Error.{not_found}
use radicle_client_services.HttpApi.Browse.{browse}
use radicle_client_services.HttpApi.Commits.{
  Header, CommitsQuery, committer_of, teaser_of, history, collect,
}
use radicle_client_services.HttpApi.Fingerprints.{Projects}
use radicle_client_services.HttpApi.Fingerprints.Sound.{AllSigned, committer_of-AllSigned}
use radicle_client_services.HttpApi.Source.{
  Listing, commit_handler, history_handler, start_of, list_from,
}

module _ {P : Peers} (G : Monorepo P) (X : Api G) (S : Surf G) where
  -- If a committer is shown, the commit is signed with the key of that peer.
  unfoldable pub IsSignedBy : G.Store → Text → Option X.PeerInfo → Type 0
  IsSignedBy s sha1 none = Unit {0}
  IsSignedBy s sha1 (some p) =
      X.commit_fingerprint s sha1 ≡ ok (some (X.ssh_fingerprint (X.peer_of p)))

  committer_of-IsSignedBy :
      (m : Projects G X) (s : G.Store) (urn : G.Urn) (sha1 : Text) (committer : Option X.PeerInfo)
      → AllSigned G X m
      → committer_of (X.commit_fingerprint s) (m urn) sha1 ≡ ok committer
      → IsSignedBy s sha1 committer
  unfolding IsSignedBy
  committer_of-IsSignedBy m s urn sha1 none signed h = tt
  committer_of-IsSignedBy m s urn sha1 (some p) signed h =
      committer_of-AllSigned G X m s urn sha1 p signed h

  -- Every header of a listing is shown with nobody, or with the peer who signed it.
  abbrev pub AllSignedBy : G.Store → List (Header × Option X.PeerInfo) → Type 0
  AllSignedBy s headers =
      All (λ (h : Header × Option X.PeerInfo). IsSignedBy s h.0.sha1 h.1) headers

  teaser_of-IsSignedBy :
      (m : Projects G X) (s : G.Store) (urn : G.Urn) (q : CommitsQuery) (header : Header)
      (teaser : Header × Option X.PeerInfo)
      → AllSigned G X m
      → teaser_of (X.commit_fingerprint s) (m urn) q header ≡ ok teaser
      → IsSignedBy s teaser.0.sha1 teaser.1
  unfolding teaser_of IsSignedBy
  teaser_of-IsSignedBy m s urn q header teaser signed h =
      elim (Bool-cases (get_or_else q.verified false)) [
        | inl verified ↦
            let (committer, found, h₁) =
              >>=-eq-ok (committer_of (X.commit_fingerprint s) (m urn) header.sha1) _
                (rw (teaser_of, verified) at h) in
            subst (λ (t : Header × Option X.PeerInfo). IsSignedBy s t.0.sha1 t.1) (ok-injective h₁)
              (committer_of-IsSignedBy m s urn header.sha1 committer signed found)
        | inr plain ↦
            subst (λ (t : Header × Option X.PeerInfo). IsSignedBy s t.0.sha1 t.1)
              (ok-injective (rw (teaser_of, plain) at h)) tt
      ]

  collect-AllSignedBy :
      (m : Projects G X) (s : G.Store) (urn : G.Urn) (q : CommitsQuery) (headers : List Header)
      (teasers : List (Header × Option X.PeerInfo))
      → AllSigned G X m
      → collect (teaser_of (X.commit_fingerprint s) (m urn) q) headers ≡ ok teasers
      → AllSignedBy s teasers
  unfolding collect
  collect-AllSignedBy m s urn q [] teasers signed h =
      subst (λ (ts : List (Header × Option X.PeerInfo)). AllSignedBy s ts) (ok-injective h) tt
  collect-AllSignedBy m s urn q (header ∷ headers) teasers signed h =
      let (teaser, first, h₁) =
        >>=-eq-ok (teaser_of (X.commit_fingerprint s) (m urn) q header) _ h in
      let (rest, others, h₂) =
        >>=-eq-ok (collect (teaser_of (X.commit_fingerprint s) (m urn) q) headers) _ h₁ in
      subst (λ (ts : List (Header × Option X.PeerInfo)). AllSignedBy s ts) (ok-injective h₂)
        (
          teaser_of-IsSignedBy m s urn q header teaser signed first,
          collect-AllSignedBy m s urn q headers rest signed others,
        )

  list_from-AllSignedBy :
      (m : Projects G X) (s : G.Store) (urn : G.Urn) (q : CommitsQuery) (from : Text × Bool)
      (listed : Listing G X S)
      → AllSigned G X m
      → list_from G X S s m urn q from ≡ ok listed
      → AllSignedBy s listed.1
  unfolding list_from history
  list_from-AllSignedBy m s urn q (sha, fallback) listed signed h =
      let (name, _, h₁) = >>=-eq-ok (ok_or not_found (S.one_from_str sha)) _ h in
      let (commits, _, h₂) = >>=-eq-ok (browse G S s (S.head urn none name) S.commits) _ h₁ in
      let (headers, shown, h₃) =
        >>=-eq-ok (history (X.commit_fingerprint s) (m urn) q commits.0) _ h₂ in
      subst (λ (l : Listing G X S). AllSignedBy s l.1) (ok-injective h₃)
        (collect-AllSignedBy m s urn q _ headers signed shown)

  pub history_handler-AllSignedBy :
      (m : Projects G X) (s : G.Store) (git_dir : Text) (urn : G.Urn) (parent : Option Text)
      (q : CommitsQuery) (listed : Listing G X S)
      → AllSigned G X m
      → history_handler G X S s git_dir m urn parent q ≡ ok listed
      → AllSignedBy s listed.1
  unfolding history_handler
  history_handler-AllSignedBy m s git_dir urn parent q listed signed h =
      let (from, _, h₁) = >>=-eq-ok (start_of G X S s git_dir urn parent) _ h in
      list_from-AllSignedBy m s urn q from listed signed h₁

  pub commit_handler-IsSignedBy :
      (m : Projects G X) (s : G.Store) (urn : G.Urn) (sha : Text)
      (shown : S.Commit × Option X.PeerInfo)
      → AllSigned G X m
      → commit_handler G X S s m urn sha ≡ ok shown
      → IsSignedBy s (S.sha1_of shown.0) shown.1
  unfolding commit_handler
  commit_handler-IsSignedBy m s urn sha shown signed h =
      let (commit, _, h₁) =
        >>=-eq-ok (browse G S s (S.head urn none sha) (λ b. S.oid b sha >>= S.commit b)) _ h in
      let (committer, found, h₂) =
        >>=-eq-ok (committer_of (X.commit_fingerprint s) (m urn) (S.sha1_of commit)) _ h₁ in
      subst (λ (c : S.Commit × Option X.PeerInfo). IsSignedBy s (S.sha1_of c.0) c.1)
        (ok-injective h₂)
        (committer_of-IsSignedBy m s urn (S.sha1_of commit) committer signed found)
