-- ===== src/GitServer/Hooks/PostReceive/Tracking.antt =====
-- Which peers post_receive.rs tracks.
use radicle_client_services.Base.{
  Text, Has, Has-append_left, Has-append_right, map, ap, subst, refl, ◌⊎◌, Outcome, err, panic,
  List, [], ◌∷◌, some, none, ok, Outcome-cases, ◌≡◌, inl, inr, true, arith,
}
use radicle_client_services.Base.Action.{resume-eq-ok, for_each, for_each-inv}
use radicle_client_services.Extern.Peers.{Peers}
use radicle_client_services.Extern.Identity.{
  Delegation, direct, indirect, SomeIdentity, person, project, unknown,
}
use radicle_client_services.Extern.Monorepo.{Monorepo, HasTracking}
use radicle_client_services.GitServer.Storage.{open_storage}
use radicle_client_services.GitServer.Hooks.Delegates.{delegation_peers, identity_peers}
use radicle_client_services.GitServer.Hooks.PostReceive.{
  PostReceive, flatten_track, track_peer, track_identity,
}

module _ (P : Peers) (Urn : Type 0) where
  -- The keys that a document delegates to.
  abbrev pub IsDelegated : P.PublicKey → SomeIdentity P Urn → Type 0
  IsDelegated key (person urn name keys) = Has key keys
  IsDelegated key (project urn name branch ds) =
      Has (direct key) ds
      ⊎ ((u : Urn) × (keys : List P.PublicKey) × Has (indirect u keys) ds × Has key keys)
  IsDelegated key (unknown urn) = ⊥

  Has-map :
      (key : P.PublicKey) (keys : List P.PublicKey)
      → Has key keys
      → Has (P.from_public_key key) (map P.from_public_key keys)
  Has-map key [] h = h
  Has-map key (k ∷ keys) (inl e) = inl (ap P.from_public_key e)
  Has-map key (k ∷ keys) (inr h) = inr (Has-map key keys h)

  direct-Has :
      (key : P.PublicKey) (ds : List (Delegation P Urn))
      → Has (direct key) ds
      → Has (P.from_public_key key) (delegation_peers P ds)
  unfolding delegation_peers
  direct-Has key [] h = h
  direct-Has key (direct k ∷ ds) (inl e) = inl (ap P.from_public_key (cc))
  direct-Has key (direct k ∷ ds) (inr h) = inr (direct-Has key ds h)
  direct-Has key (indirect u ks ∷ ds) (inl e) = cc
  direct-Has key (indirect u ks ∷ ds) (inr h) =
      Has-append_right _ (map P.from_public_key ks) _ (direct-Has key ds h)

  indirect-Has :
      (key : P.PublicKey) (u : Urn) (keys : List P.PublicKey) (ds : List (Delegation P Urn))
      → Has (indirect u keys) ds
      → Has key keys
      → Has (P.from_public_key key) (delegation_peers P ds)
  unfolding delegation_peers
  indirect-Has key u keys [] h m = absurd h
  indirect-Has key u keys (direct k ∷ ds) (inl e) m = cc
  indirect-Has key u keys (direct k ∷ ds) (inr h) m = inr (indirect-Has key u keys ds h m)
  indirect-Has key u keys (indirect v ks ∷ ds) (inl e) m =
      let same : keys ≡ ks = cc in
      Has-append_left _ (map P.from_public_key ks) _
        (Has-map key ks (subst (λ (l : List P.PublicKey). Has key l) same m))
  indirect-Has key u keys (indirect v ks ∷ ds) (inr h) m =
      Has-append_right _ (map P.from_public_key ks) _ (indirect-Has key u keys ds h m)

  pub IsDelegated-Has :
      (key : P.PublicKey) (d : SomeIdentity P Urn)
      → IsDelegated key d
      → Has (P.from_public_key key) (identity_peers P d)
  unfolding identity_peers
  IsDelegated-Has key (person urn name keys) h = Has-map key keys h
  IsDelegated-Has key (project urn name branch ds) (inl h) = direct-Has key ds h
  IsDelegated-Has key (project urn name branch ds) (inr (u, keys, h, m)) =
      indirect-Has key u keys ds h m
  IsDelegated-Has key (unknown urn) h = absurd h

module _ {P : Peers} (G : Monorepo P) (T : HasTracking G) (p : PostReceive G) where
  flatten_track-eq-ok :
      (r : Outcome Text (Outcome Text (Unit {0}))) → flatten_track G r ≡ ok tt → r ≡ ok (ok tt)
  flatten_track-eq-ok (ok (ok u)) h = refl
  flatten_track-eq-ok (ok (err e)) h = cc
  flatten_track-eq-ok (ok panic) h = cc
  flatten_track-eq-ok (err e) h = cc
  flatten_track-eq-ok panic h = cc

  track_peer-keeps :
      (us : List P.PeerId) (b : P.PeerId) (s : G.Store)
      → G.tracks s p.urn b ≡ true
      → G.tracks (for_each (track_peer G p) us s).1 p.urn b ≡ true
  track_peer-keeps us b s h =
      for_each-inv (λ t. G.tracks t p.urn b ≡ true) (track_peer G p) us
        (λ a t m k. T.track-keeps p.urn p.urn a b t k) s h

  track_all :
      (us : List P.PeerId) (b : P.PeerId) (s : G.Store)
      → Has b us
      → (for_each (track_peer G p) us s).0 ≡ ok tt
      → G.tracks (for_each (track_peer G p) us s).1 p.urn b ≡ true
  unfolding for_each
  track_all [] b s m h = absurd m
  track_all (a ∷ us) b s (inl e) h =
      let (_, first, rest) = resume-eq-ok (track_peer G p a s).0 _ _ h in
      rw first (
        track_peer-keeps us b (track_peer G p a s).1
          (rw e (T.track-tracks p.urn a s (flatten_track-eq-ok _ first))))
  track_all (a ∷ us) b s (inr k) h =
      let (_, first, rest) = resume-eq-ok (track_peer G p a s).0 _ _ h in
      rw first (track_all us b (track_peer G p a s).1 k rest)

  -- When `track_identity` returns without a peer, every peer with a key that the identity document
  -- of the project delegates to is tracked: a key of a person, and of a project a direct key or one
  -- of an indirect delegation.
  pub track_identity-delegates :
      (s : G.Store) (d : SomeIdentity P G.Urn) (key : P.PublicKey)
      → G.get_identity s p.urn ≡ ok (some d)
      → IsDelegated P G.Urn key d
      → (track_identity G p none s).0 ≡ ok tt
      → G.tracks (track_identity G p none s).1 p.urn (P.from_public_key key) ≡ true
  unfolding track_identity open_storage
  track_identity-delegates s d key found m h =
      elim (Outcome-cases (G.open_bare s (G.git_dir_of p.paths))) [
        | inl (v, bare) ↦ elim (Outcome-cases (G.open_storage s p.paths)) [
          | inl (u, opened) ↦ rw bare (
              rw opened (
                rw found (
                  track_all (identity_peers P d) (P.from_public_key key) s
                    (IsDelegated-Has P G.Urn key d m) (rw found at (rw opened at (rw bare at h))))))
          | inr bad ↦ absurd (ground arith)
        ]
        | inr bad ↦ absurd (ground arith)
      ]
