-- ===== src/HttpApi/Source/Readme.antt =====
-- Which file is the readme of a project.
use radicle_client_services.Base.{
  Text, none, List, [], ◌∷◌, ◌++◌, All, Outcome-cases, ok, err, ◌≡◌, ◌↔◌, inl, inr, refl, ap, sym,
  subst, arith,
}
use radicle_client_services.Extern.Peers.{Peers}
use radicle_client_services.Extern.Monorepo.{Monorepo}
use radicle_client_services.Extern.Surf.{Surf, HasHeads, SourceError}
use radicle_client_services.HttpApi.Browse.Revision.{IsAt, browse_iff}
use radicle_client_services.HttpApi.Source.{first_blob, readme_paths, readme_handler}

module _ {P : Peers} (G : Monorepo P) (S : Surf G) where
  -- There is no blob at this path.
  abbrev pub Fails : S.Browser → Text → Type 0
  Fails b path = (e : SourceError) × (S.blob b path none ≡ err e)

  -- This blob is at a path of the list, and there is none at the paths before it.
  pub record IsFirst (b : S.Browser) (paths : List Text) (blob : S.Blob) : Type 0 where
    pub before : List Text
    pub path : Text
    pub after : List Text
    pub listed : paths ≡ before ++ path ∷ after
    pub missing : All (Fails b) before
    pub found : S.blob b path none ≡ ok blob

  first_blob-IsFirst :
      (b : S.Browser) (paths : List Text) (blob : S.Blob)
      → first_blob G S b paths ≡ ok blob
      → IsFirst b paths blob
  unfolding first_blob
  first_blob-IsFirst b [] blob h = cc
  first_blob-IsFirst b (p ∷ ps) blob h = elim (Outcome-cases (S.blob b p none)) [
    | inl (other, here) ↦ record {
      before = [];
      path = p;
      after = ps;
      listed = refl;
      missing = tt;
      found = ground arith;
    }
    | inr (inl (e, bad)) ↦
        let later = first_blob-IsFirst b ps blob (ground arith) in
        record {
          before = p ∷ later.before;
          path = later.path;
          after = later.after;
          listed = ap (λ l. p ∷ l) later.listed;
          missing = ((e, bad), later.missing);
          found = later.found;
        }
    | inr (inr bad) ↦ absurd (ground arith)
  ]

  first_blob-found :
      (b : S.Browser) (before : List Text) (path : Text) (after : List Text) (blob : S.Blob)
      → All (Fails b) before
      → S.blob b path none ≡ ok blob
      → first_blob G S b (before ++ path ∷ after) ≡ ok blob
  unfolding first_blob
  first_blob-found b [] path after blob missing found = ground arith
  first_blob-found b (p ∷ ps) path after blob ((e, bad), missing) found =
      let later = first_blob-found b ps path after blob missing found in ground arith

  -- The readme of a project at a commit is the file with the first of the six names that is there:
  -- the handler returns it exactly when the commit is browsed and some name is there.
  pub readme_handler_iff :
      (H : HasHeads S) (s : G.Store) (project : G.Urn) (sha : Text) (blob : S.Blob)
      → (readme_handler G S s project sha ≡ ok blob)
        ↔ ((b : S.Browser) × IsAt G S H s project sha b × IsFirst b readme_paths blob)
  unfolding readme_handler
  readme_handler_iff H s project sha blob = (
    λ h.
        let (b, at, done) =
          (browse_iff G S H s project sha (λ b. first_blob G S b readme_paths) blob).0 h in
        (b, at, first_blob-IsFirst b readme_paths blob done),
    λ (b, at, first). (browse_iff G S H s project sha (λ b. first_blob G S b readme_paths) blob).1 (
      b,
      at,
      subst (λ l. first_blob G S b l ≡ ok blob) (sym first.listed)
          (first_blob-found b first.before first.path first.after blob first.missing first.found),
    ),
  )
