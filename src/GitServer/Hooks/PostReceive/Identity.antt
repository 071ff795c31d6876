-- ===== src/GitServer/Hooks/PostReceive/Identity.antt =====
-- What `set_identity_ref`, `update_identity` and `initialize_identity` of post_receive.rs let into
-- `rad/id`.
use radicle_client_services.Base.{
  Text, lit, All, Has, all, find, ends_with, true, some, ◌++◌, Outcome, ok, all_iff, find-eq-some,
  Bool-cases, Option-cases, Outcome-cases, ◌≡◌, ◌≢◌, ◌⊎◌, ◌↔◌, inl, inr, arith,
}
use radicle_client_services.Extern.Peers.{Peers}
use radicle_client_services.Extern.Identity.{SomeIdentity, person, project, unknown, urn_of}
use radicle_client_services.Extern.Monorepo.{Monorepo}
use radicle_client_services.GitServer.Hooks.Updates.{Update}
use radicle_client_services.GitServer.Hooks.PostReceive.{
  PostReceive, rad_id_ref, namespace_ref, verify, set_identity_ref, find_identity_update,
  initialize_identity,
}

module _ {P : Peers} (G : Monorepo P) where
  -- The verification that fits the kind of the document.
  abbrev pub Passes : G.Store → G.Oid → SomeIdentity P G.Urn → Type 0
  Passes s oid (person urn name keys) = G.verify_person s oid ≡ ok tt
  Passes s oid (project urn name branch ds) = G.verify_project s oid ≡ ok tt
  Passes s oid (unknown urn) = ⊥

  -- The commit holds an identity document of this urn that librad verifies.
  pub record IsVerified (s : G.Store) (p : PostReceive G) (oid : G.Oid) : Type 0 where
    pub opened : G.open_storage s p.paths ≡ ok tt
    pub identity : SomeIdentity P G.Urn
    pub found : G.some_identity s oid ≡ ok identity
    pub same_urn : G.urn_eq (urn_of P G.Urn identity) p.urn ≡ true
    pub passes : Passes s oid identity

  verify_iff :
      (s : G.Store) (oid : G.Oid) (d : SomeIdentity P G.Urn)
      → (verify G s oid d ≡ ok tt) ↔ Passes s oid d
  unfolding verify
  verify_iff s oid (person urn name keys) = ground arith
  verify_iff s oid (project urn name branch ds) = ground arith
  verify_iff s oid (unknown urn) = ground arith

  -- the write of `rad/id`
  abbrev pub rad_id_write : PostReceive G → G.Oid → G.Store → Outcome Text G.Oid × G.Store
  rad_id_write p oid =
      G.reference (namespace_ref G p rad_id_ref) oid true
        (lit "set-id (" ++ p.key_fingerprint ++ lit ")")

  -- `rad/id` is written only with a commit that is verified; otherwise the store is as it was, and
  -- the result is no success.
  pub set_identity_ref_lem :
      (p : PostReceive G) (oid : G.Oid) (s : G.Store)
      → (IsVerified s p oid × ((set_identity_ref G p oid s).1 ≡ (rad_id_write p oid s).1))
        ⊎ (((set_identity_ref G p oid s).1 ≡ s) × ((set_identity_ref G p oid s).0 ≢ ok tt))
  unfolding set_identity_ref
  set_identity_ref_lem p oid s = elim (Outcome-cases (G.open_storage s p.paths)) [
    | inl (u, opened) ↦ elim (Outcome-cases (G.some_identity s oid)) [
      | inl (d, found) ↦ elim (Bool-cases (G.urn_eq (urn_of P G.Urn d) p.urn)) [
        | inl same ↦ elim (Outcome-cases (verify G s oid d)) [
          | inl (v, verified) ↦ inl (
            record {
              opened = opened;
              identity = d;
              found = found;
              same_urn = same;
              passes = (verify_iff s oid d).0 verified;
            },
            ground arith,
          )
          | inr bad ↦ inr (ground arith, ground arith)
        ]
        | inr other ↦ inr (ground arith, ground arith)
      ]
      | inr bad ↦ inr (ground arith, ground arith)
    ]
    | inr bad ↦ inr (ground arith, ground arith)
  ]

  -- The commit that a pushed reference with a name that ends in rad/id now has.
  pub record IsPushed (p : PostReceive G) (oid : G.Oid) : Type 0 where
    pub update : Update G
    pub listed : Has update p.updates
    pub named : ends_with rad_id_ref update.0 ≡ true
    pub target : update.2 ≡ oid

  find_identity_update-IsPushed :
      (p : PostReceive G) (oid : G.Oid) → find_identity_update G p ≡ some oid → IsPushed p oid
  unfolding find_identity_update
  find_identity_update-IsPushed p oid h =
      elim (Option-cases (find (λ u. ends_with rad_id_ref u.0) p.updates)) [
        | inl missing ↦ ground arith
        | inr (u, found) ↦
            let (listed, named) = find-eq-some _ p.updates u found in
            record { update = u; listed = listed; named = named; target = ground arith }
      ]

  -- An identity is initialised, or nothing is written: on success all pushed references are new,
  -- one of them ends in rad/id, and its commit is verified and is what rad/id is set to. On any
  -- other outcome before that write, the store is as it was.
  pub initialize_identity_lem :
      (p : PostReceive G) (s : G.Store)
      → ((oid : G.Oid) × IsPushed p oid
          × All (λ u. G.oid_is_zero u.1 ≡ true) p.updates
          × IsVerified s p oid
          × ((initialize_identity G p s).1 ≡ (rad_id_write p oid s).1))
        ⊎ (((initialize_identity G p s).1 ≡ s) × ((initialize_identity G p s).0 ≢ ok tt))
  unfolding initialize_identity
  initialize_identity_lem p s = elim (Option-cases (find_identity_update G p)) [
    | inl missing ↦ inr (ground arith, ground arith)
    | inr (oid, found) ↦ elim (Bool-cases (all (λ u. G.oid_is_zero u.1) p.updates)) [
      | inl fresh ↦ elim (set_identity_ref_lem p oid s) [
        | inl (verified, written) ↦ inl (
          oid,
          find_identity_update-IsPushed p oid found,
          (all_iff _ p.updates).0 fresh,
          verified,
          ground arith,
        )
        | inr (same, refused) ↦ inr (ground arith, ground arith)
      ]
      | inr stale ↦ inr (ground arith, ground arith)
    ]
  ]
