-- ===== src/HttpApi/Fingerprints/Sound.antt =====
-- A fingerprint leads to a peer that has it.
use radicle_client_services.Base.{
  Text, lit, eq_iff, ◌==◌, Assoc, get, insert, get-insert, Bool-cases, Option-cases, get_or_else,
  Option, none, some, List, [], ◌∷◌, Outcome, ok, err, panic, map_err, map_err-eq-ok, >>=-eq-ok,
  ok-injective, ◌≡◌, ◌∙◌, refl, ap, sym, subst, inl, inr, arith,
}
use radicle_client_services.Base.Action.{resume-inv, for_each-inv}
use radicle_client_services.Extern.Peers.{Peers}
use radicle_client_services.Extern.Identity.{SomeIdentity, person, project, unknown}
use radicle_client_services.Extern.Monorepo.{Monorepo}
use radicle_client_services.Extern.Api.{Api, Metadata}
use radicle_client_services.HttpApi.Error.{identities, project_error, pool, io}
use radicle_client_services.HttpApi.Commits.{find_committer, committer_of}
use radicle_client_services.HttpApi.Fingerprints.{
  Fingerprints, Projects, put, tracked, insert_peers, add_project, add_identity,
  populate_fingerprints, populate_round, populate_fingerprints_job,
}

find_committer-eq-some :
    {A : Type 0} (fingerprints : Option (Assoc A)) (fp : Option Text) (p : A)
    → find_committer fingerprints fp ≡ some p
    → (fps : Assoc A) × (key : Text) × (fingerprints ≡ some fps)
      × (fp ≡ some key)
      × (get key fps ≡ some p)
unfolding find_committer
find_committer-eq-some (some fps) (some key) p h = (fps, key, refl, refl, h)
find_committer-eq-some (some fps) none p h = cc
find_committer-eq-some none (some key) p h = cc
find_committer-eq-some none none p h = cc

module _ {P : Peers} (G : Monorepo P) (X : Api G) where
  -- Each entry of a map leads to a peer with this fingerprint.
  Signed : Fingerprints G X → Type 0
  Signed fps =
      (fp : Text) (p : X.PeerInfo) → get fp fps ≡ some p → X.ssh_fingerprint (X.peer_of p) ≡ fp

  pub AllSigned : Projects G X → Type 0
  AllSigned m = (urn : G.Urn) (fps : Fingerprints G X) → m urn ≡ some fps → Signed fps

  insert_peers-Signed :
      (ps : List X.PeerInfo) (fps : Fingerprints G X)
      → Signed fps
      → Signed (insert_peers G X ps fps)
  unfolding Signed insert_peers
  insert_peers-Signed [] fps h = h
  insert_peers-Signed (p ∷ ps) fps h =
      insert_peers-Signed ps (insert (X.ssh_fingerprint (X.peer_of p)) p fps) (λ fp q found.
        elim (Bool-cases (X.ssh_fingerprint (X.peer_of p) == fp)) [
          | inl same ↦ ground (
            arith,
            get-insert (X.ssh_fingerprint (X.peer_of p)) fp p fps,
            eq_iff (X.ssh_fingerprint (X.peer_of p)) fp,
          )
          | inr other ↦
              h fp q (ground (arith, get-insert (X.ssh_fingerprint (X.peer_of p)) fp p fps))
        ])

  put-AllSigned :
      (urn : G.Urn) (fps : Fingerprints G X) (m : Projects G X)
      → Signed fps
      → AllSigned m
      → AllSigned (put G X urn fps m)
  unfolding AllSigned put Signed
  put-AllSigned urn fps m h hs other found held = elim (Bool-cases (G.urn_eq urn other)) [
    | inl same ↦ subst Signed (ground arith) h
    | inr differs ↦ hs other found (ground arith)
  ]

  get_or_else-Signed :
      (m : Projects G X) (urn : G.Urn) → AllSigned m → Signed (get_or_else (m urn) [])
  unfolding AllSigned Signed get
  get_or_else-Signed m urn h fp p found = elim (Option-cases (m urn)) [
    | inl missing ↦ absurd (ground arith)
    | inr (fps, held) ↦ h urn fps held fp p (rw held at found)
  ]

  add_project-AllSigned :
      (s : G.Store) (meta : Metadata G) (m : Projects G X)
      → AllSigned m
      → AllSigned (add_project G X s meta m).1
  unfolding add_project
  add_project-AllSigned s meta m h =
      let fps = get_or_else (m meta.urn) [] in
      let start = get_or_else-Signed m meta.urn h in
      let entry = put-AllSigned meta.urn fps m start h in
      resume-inv AllSigned (tracked G X s meta) _ (put G X meta.urn fps m) entry (λ peers _.
        put-AllSigned meta.urn (insert_peers G X peers fps) (put G X meta.urn fps m)
          (insert_peers-Signed peers fps start) entry)

  add_identity-AllSigned :
      (s : G.Store) (id : Outcome Text (SomeIdentity P G.Urn)) (m : Projects G X)
      → AllSigned m
      → AllSigned (add_identity G X s id m).1
  unfolding add_identity
  add_identity-AllSigned s (ok (project urn name branch ds)) m h =
      resume-inv AllSigned (map_err project_error (X.metadata (project urn name branch ds)))
        (add_project G X s) m h (λ meta _. add_project-AllSigned s meta m h)
  add_identity-AllSigned s (ok (person urn name keys)) m h = h
  add_identity-AllSigned s (ok (unknown urn)) m h = h
  add_identity-AllSigned s (err e) m h = h
  add_identity-AllSigned s panic m h = h

  populate_fingerprints-AllSigned :
      (s : G.Store) (m : Projects G X) → AllSigned m → AllSigned (populate_fingerprints G X s m).1
  unfolding populate_fingerprints
  populate_fingerprints-AllSigned s m h =
      resume-inv AllSigned (map_err identities (G.list_identities s)) _ m h (λ ids _.
        for_each-inv AllSigned (add_identity G X s) ids (λ id t _. add_identity-AllSigned s id t) m
          h)

  pub populate_round-AllSigned :
      (s : G.Store) (m : Projects G X) → AllSigned m → AllSigned (populate_round G X s m).1
  unfolding populate_round
  populate_round-AllSigned s m h =
      resume-inv AllSigned (map_err pool (G.pool_get s)) _ m h
        (λ _ _. populate_fingerprints-AllSigned s m h)

  pub nothing-AllSigned : AllSigned (λ urn. none)
  unfolding AllSigned
  nothing-AllSigned urn fps found = absurd (ground arith)

  job-AllSigned :
      (stores : List G.Store) → AllSigned (populate_fingerprints_job G X stores (λ urn. none)).1
  unfolding populate_fingerprints_job
  job-AllSigned stores =
      for_each-inv AllSigned (populate_round G X) stores (λ s t _. populate_round-AllSigned s t)
        (λ urn. none) nothing-AllSigned

  -- In a signed map the committer that is found is the peer whose key signed the commit.
  pub committer_of-AllSigned :
      (m : Projects G X) (s : G.Store) (urn : G.Urn) (sha1 : Text) (p : X.PeerInfo)
      → AllSigned m
      → committer_of (X.commit_fingerprint s) (m urn) sha1 ≡ ok (some p)
      → X.commit_fingerprint s sha1 ≡ ok (some (X.ssh_fingerprint (X.peer_of p)))
  unfolding committer_of AllSigned Signed
  committer_of-AllSigned m s urn sha1 p good h =
      let (fp, signature, h₁) =
        >>=-eq-ok
          (map_err (io (lit "failed to get commit's ssh fingerprint"))
            (X.commit_fingerprint s sha1))
          _ h in
      let (fps, key, held, shown, found) = find_committer-eq-some (m urn) fp p (ok-injective h₁) in
      map_err-eq-ok _ (X.commit_fingerprint s sha1) signature
      ∙ ap ok (shown ∙ ap some (sym (good urn fps held key p found)))

  -- A commit is shown as a peer's only if its signature has the fingerprint of that peer's key,
  -- whatever the rounds of the job found and wherever they failed.
  pub committer_of-signed :
      (stores : List G.Store) (s : G.Store) (urn : G.Urn) (sha1 : Text) (p : X.PeerInfo)
      → committer_of
          (X.commit_fingerprint s)
          ((populate_fingerprints_job G X stores (λ u. none)).1 urn)
          sha1
        ≡ ok (some p)
      → X.commit_fingerprint s sha1 ≡ ok (some (X.ssh_fingerprint (X.peer_of p)))
  committer_of-signed stores s urn sha1 p h =
      committer_of-AllSigned (populate_fingerprints_job G X stores (λ u. none)).1 s urn sha1 p
        (job-AllSigned stores) h
