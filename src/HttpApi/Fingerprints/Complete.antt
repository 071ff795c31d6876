-- ===== src/HttpApi/Fingerprints/Complete.antt =====
-- Every peer that is tracked is found by its fingerprint.
use radicle_client_services.Base.{
  Text, eq_refl, ◌==◌, Has, map, get, insert, get-insert, Bool-cases, get_or_else, Option, none,
  some, List, [], ◌∷◌, Outcome, ok, err, panic, map_err, map_err-eq-ok, >>=-eq-ok, ok-injective,
  ◌≡◌, ◌∙◌, refl, ap, sym, subst, inl, inr,
}
use radicle_client_services.Base.Action.{resume-inv, resume-eq-ok, for_each-Has}
use radicle_client_services.Extern.Peers.{Peers}
use radicle_client_services.Extern.Identity.{SomeIdentity, person, project, unknown, Delegation}
use radicle_client_services.Extern.Monorepo.{Monorepo}
use radicle_client_services.Extern.Api.{Api, Metadata, HasPeers}
use radicle_client_services.HttpApi.Error.{not_found, project_error}
use radicle_client_services.HttpApi.Fingerprints.{
  Fingerprints, Projects, put, peer_ids, tracked, insert_peers, add_project, add_identity,
  populate_fingerprints,
}

Has-map : {A B : Type 0} (f : A → B) (x : A) (xs : List A) → Has x xs → Has (f x) (map f xs)
Has-map f x [] h = absurd h
Has-map f x (y ∷ ys) (inl same) = inl (ap f same)
Has-map f x (y ∷ ys) (inr later) = inr (Has-map f x ys later)

peer_ids-Has :
    {A : Type 0} (id : A) (ts : List (Outcome Text (Option A))) (ids : List A)
    → peer_ids ts ≡ ok ids
    → Has (ok (some id)) ts
    → Has id ids
unfolding peer_ids
peer_ids-Has id [] ids h found = absurd found
peer_ids-Has id (ok (some other) ∷ ts) ids h found =
    let (rest, read, same) = >>=-eq-ok (peer_ids ts) _ h in
    subst (Has id) (ok-injective same)
      (elim found [ inl here ↦ inl (cc) | inr later ↦ inr (peer_ids-Has id ts rest read later) ])
peer_ids-Has id (ok none ∷ ts) ids h (inl here) = cc
peer_ids-Has id (ok none ∷ ts) ids h (inr later) = peer_ids-Has id ts ids h later
peer_ids-Has id (err e ∷ ts) ids h found = cc
peer_ids-Has id (panic ∷ ts) ids h found = cc

module _ {P : Peers} (G : Monorepo P) (X : Api G) where
  -- A peer is found by this fingerprint.
  Finds : Text → Fingerprints G X → Type 0
  Finds key fps = (p : X.PeerInfo) × (get key fps ≡ some p)

  Knows : Text → G.Urn → Projects G X → Type 0
  Knows key urn m = (fps : Fingerprints G X) × (m urn ≡ some fps) × Finds key fps

  insert-Finds :
      (key fp : Text) (p : X.PeerInfo) (fps : Fingerprints G X)
      → Finds key fps
      → Finds key (insert fp p fps)
  unfolding Finds
  insert-Finds key fp p fps (q, found) = elim (Bool-cases (fp == key)) [
    | inl same ↦ (p, get-insert fp key p fps ∙ rw same refl)
    | inr other ↦ (q, get-insert fp key p fps ∙ rw other found)
  ]

  insert_peers-keeps :
      (key : Text) (ps : List X.PeerInfo) (fps : Fingerprints G X)
      → Finds key fps
      → Finds key (insert_peers G X ps fps)
  unfolding insert_peers
  insert_peers-keeps key [] fps h = h
  insert_peers-keeps key (p ∷ ps) fps h =
      insert_peers-keeps key ps _ (insert-Finds key (X.ssh_fingerprint (X.peer_of p)) p fps h)

  insert_peers-Finds :
      (q : X.PeerInfo) (ps : List X.PeerInfo) (fps : Fingerprints G X)
      → Has q ps
      → Finds (X.ssh_fingerprint (X.peer_of q)) (insert_peers G X ps fps)
  unfolding insert_peers Finds
  insert_peers-Finds q [] fps h = absurd h
  insert_peers-Finds q (p ∷ ps) fps (inl same) =
      let fp = X.ssh_fingerprint (X.peer_of p) in
      subst (λ r. Finds (X.ssh_fingerprint (X.peer_of r)) (insert_peers G X (p ∷ ps) fps))
        (sym same)
        (insert_peers-keeps fp ps (insert fp p fps)
          (p, get-insert fp fp p fps ∙ rw (eq_refl fp) refl))
  insert_peers-Finds q (p ∷ ps) fps (inr later) =
      insert_peers-Finds q ps (insert (X.ssh_fingerprint (X.peer_of p)) p fps) later

  module _ (H : HasPeers X) where
    put_self-Knows :
        (key : Text) (urn : G.Urn) (fps : Fingerprints G X) (m : Projects G X)
        → Finds key fps
        → Knows key urn (put G X urn fps m)
    unfolding Knows put
    put_self-Knows key urn fps m h = (fps, rw ((H.urn_eq_iff urn urn).1 refl) refl, h)

    -- An entry that takes the place of one, and has what that had.
    put-Knows :
        (key : Text) (urn other : G.Urn) (fps : Fingerprints G X) (m : Projects G X)
        → (Finds key (get_or_else (m other) []) → Finds key fps)
        → Knows key urn m
        → Knows key urn (put G X other fps m)
    unfolding Knows put
    put-Knows key urn other fps m keeps (old, held, found) =
        elim (Bool-cases (G.urn_eq other urn)) [
          | inl same ↦
              let entry = ap m ((H.urn_eq_iff other urn).0 same) ∙ held in
              (fps, rw same refl, keeps (rw entry found))
          | inr differs ↦ (old, rw differs held, found)
        ]

    start-Finds :
        (key : Text) (urn : G.Urn) (fps : Fingerprints G X) (m : Projects G X)
        → Finds key (get_or_else (put G X urn fps m urn) [])
        → Finds key fps
    unfolding put
    start-Finds key urn fps m h = rw ((H.urn_eq_iff urn urn).1 refl) at h

    add_project-keeps :
        (key : Text) (urn : G.Urn) (s : G.Store) (meta : Metadata G) (m : Projects G X)
        → Knows key urn m
        → Knows key urn (add_project G X s meta m).1
    unfolding add_project
    add_project-keeps key urn s meta m h =
        let fps = get_or_else (m meta.urn) [] in
        let entry = put G X meta.urn fps m in
        let kept = put-Knows key urn meta.urn fps m (λ f. f) h in
        resume-inv (Knows key urn) (tracked G X s meta) _ entry kept (λ peers _.
          put-Knows key urn meta.urn (insert_peers G X peers fps) entry
            (λ f. insert_peers-keeps key peers fps (start-Finds key meta.urn fps m f)) kept)

    add_identity-keeps :
        (key : Text) (urn : G.Urn) (s : G.Store) (id : Outcome Text (SomeIdentity P G.Urn))
        (m : Projects G X)
        → Knows key urn m
        → Knows key urn (add_identity G X s id m).1
    unfolding add_identity
    add_identity-keeps key urn s (ok (project u name branch ds)) m h =
        resume-inv (Knows key urn) (map_err project_error (X.metadata (project u name branch ds)))
          (add_project G X s) m h (λ meta _. add_project-keeps key urn s meta m h)
    add_identity-keeps key urn s (ok (person u name keys)) m h = h
    add_identity-keeps key urn s (ok (unknown u)) m h = h
    add_identity-keeps key urn s (err e) m h = h
    add_identity-keeps key urn s panic m h = h

    tracked-Has :
        (s : G.Store) (meta : Metadata G) (ts : List (Outcome Text (Option P.PeerId)))
        (id : P.PeerId) (peers : List X.PeerInfo)
        → X.tracked s meta.urn ≡ ok ts
        → Has (ok (some id)) ts
        → tracked G X s meta ≡ ok peers
        → Has (X.peer_info s id meta) peers
    unfolding tracked
    tracked-Has s meta ts id peers listed found h =
        let (ts', read, h₁) = >>=-eq-ok (map_err (λ _. not_found) (X.tracked s meta.urn)) _ h in
        let (ids, ided, h₂) = >>=-eq-ok (peer_ids ts') _ h₁ in
        let same = ok-injective (sym (map_err-eq-ok _ (X.tracked s meta.urn) read) ∙ listed) in
        subst (Has (X.peer_info s id meta)) (ok-injective h₂) (
          Has-map (λ i. X.peer_info s i meta) id ids
            (peer_ids-Has id ts ids (subst (λ l. peer_ids l ≡ ok ids) same ided) found))

    add_project-Knows :
        (s : G.Store) (meta : Metadata G) (ts : List (Outcome Text (Option P.PeerId)))
        (id : P.PeerId) (m : Projects G X)
        → X.tracked s meta.urn ≡ ok ts
        → Has (ok (some id)) ts
        → (add_project G X s meta m).0 ≡ ok tt
        → Knows (X.ssh_fingerprint id) meta.urn (add_project G X s meta m).1
    unfolding add_project
    add_project-Knows s meta ts id m listed found h =
        let fps = get_or_else (m meta.urn) [] in
        let (peers, read, h₁) = resume-eq-ok (tracked G X s meta) _ (put G X meta.urn fps m) h in
        let known =
          insert_peers-Finds (X.peer_info s id meta) peers fps
            (tracked-Has s meta ts id peers listed found read) in
        let named =
          subst (λ i. Finds (X.ssh_fingerprint i) (insert_peers G X peers fps))
            (H.peer_of-peer_info s id meta) known in
        rw read (
          put_self-Knows (X.ssh_fingerprint id) meta.urn (insert_peers G X peers fps)
            (put G X meta.urn fps m) named)

    add_identity-Knows :
        (s : G.Store) (u : G.Urn) (name : Text) (branch : Option Text)
        (ds : List (Delegation P G.Urn)) (meta : Metadata G)
        (ts : List (Outcome Text (Option P.PeerId))) (id : P.PeerId) (m : Projects G X)
        → X.metadata (project u name branch ds) ≡ ok meta
        → X.tracked s meta.urn ≡ ok ts
        → Has (ok (some id)) ts
        → (add_identity G X s (ok (project u name branch ds)) m).0 ≡ ok tt
        → Knows
            (X.ssh_fingerprint id)
            meta.urn
            (add_identity G X s (ok (project u name branch ds)) m).1
    unfolding add_identity
    add_identity-Knows s u name branch ds meta ts id m described listed found h =
        rw described (add_project-Knows s meta ts id m listed found (rw described at h))

    -- After a round that returns, each peer that is tracked for a project among the identities is
    -- found by the fingerprint of its key among those of the project.
    pub populate_fingerprints-finds :
        (s : G.Store) (m : Projects G X) (ids : List (Outcome Text (SomeIdentity P G.Urn)))
        (u : G.Urn) (name : Text) (branch : Option Text) (ds : List (Delegation P G.Urn))
        (meta : Metadata G) (ts : List (Outcome Text (Option P.PeerId))) (id : P.PeerId)
        → G.list_identities s ≡ ok ids
        → Has (ok (project u name branch ds)) ids
        → X.metadata (project u name branch ds) ≡ ok meta
        → X.tracked s meta.urn ≡ ok ts
        → Has (ok (some id)) ts
        → (populate_fingerprints G X s m).0 ≡ ok tt
        → (fps : Fingerprints G X) × (p : X.PeerInfo) × ((populate_fingerprints G X s m).1 meta.urn
            ≡ some fps)
          × (get (X.ssh_fingerprint id) fps ≡ some p)
    unfolding populate_fingerprints Knows Finds
    populate_fingerprints-finds s m ids u name branch ds meta ts id listed among described tracks
          found h =
        let key = X.ssh_fingerprint id in
        let (fps, held, (p, got)) : Knows key meta.urn (populate_fingerprints G X s m).1 =
          rw listed (
            for_each-Has (Knows key meta.urn) (add_identity G X s) (ok (project u name branch ds))
              ids (λ other t k. add_identity-keeps key meta.urn s other t k)
              (λ t k. add_identity-Knows s u name branch ds meta ts id t described tracks found k)
              among m (rw listed at h)) in
        (fps, p, held, got)
