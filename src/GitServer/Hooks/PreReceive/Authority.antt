-- ===== src/GitServer/Hooks/PreReceive/Authority.antt =====
-- When `authorize_ref_updates` of pre_receive.rs lets a push through: every reference that it
-- updates belongs to the peer whose key signed the certificate.
use radicle_client_services.Base.{
  Text, lit, ◌==◌, eq_iff, strip_prefix, strip_prefix-append, strip_prefix-eq-some, All, Bool-cases,
  Outcome-cases, some, List, [], ◌∷◌, ◌++◌, ok, ok_or-bind, ◌≡◌, ◌↔◌, inl, inr, refl, arith,
}
use radicle_client_services.Extern.Peers.{Peers}
use radicle_client_services.Extern.Monorepo.{Monorepo}
use radicle_client_services.GitServer.RefName.{
  parse_ref, IsRefOf, parse_ref_sound, parse_ref_complete,
}
use radicle_client_services.GitServer.Hooks.Updates.{Update}
use radicle_client_services.GitServer.Hooks.PreReceive.{
  PreReceive, to_ssh_fingerprint, authorize_refs, authorize_ref_updates,
}

module _ {P : Peers} (G : Monorepo P) where
  -- The reference is refs/remotes/<peer>/<rest> for a peer whose key has this fingerprint.
  pub record IsOwn (fingerprint : Text) (update : Update G) : Type 0 where
    pub peer : P.PeerId
    pub rest : Text
    pub named : IsRefOf P update.0 peer rest
    pub same : fingerprint ≡ to_ssh_fingerprint P peer

  authorize_refs_sound :
      (fingerprint actual : Text) (updates : List (Update G))
      → authorize_refs G fingerprint actual updates ≡ ok tt
      → All (IsOwn fingerprint) updates
  unfolding authorize_refs
  authorize_refs_sound fingerprint actual [] h = tt
  authorize_refs_sound fingerprint actual ((refname, old, new) ∷ updates) h =
      elim (Outcome-cases (parse_ref P refname)) [
        | inl ((peer, rest), parsed) ↦
            elim (Bool-cases (fingerprint == to_ssh_fingerprint P peer)) [
              | inl same ↦ (
                record {
                  peer = peer;
                  rest = rest;
                  named = parse_ref_sound P refname peer rest parsed;
                  same = (eq_iff _ _).0 same;
                },
                authorize_refs_sound fingerprint actual updates (ground arith),
              )
              | inr other ↦ ground arith
            ]
        | inr (inl (e, bad)) ↦ ground arith
        | inr (inr bad) ↦ ground arith
      ]

  authorize_refs_complete :
      (fingerprint actual : Text) (updates : List (Update G))
      → All (IsOwn fingerprint) updates
      → authorize_refs G fingerprint actual updates ≡ ok tt
  unfolding authorize_refs
  authorize_refs_complete fingerprint actual [] h = refl
  authorize_refs_complete fingerprint actual ((refname, old, new) ∷ updates) (own, owns) =
      rw (parse_ref_complete P refname own.peer own.rest own.named) (
        rw ((eq_iff fingerprint (to_ssh_fingerprint P own.peer)).1 own.same)
          (authorize_refs_complete fingerprint actual updates owns))

  -- The fingerprint of the key is the base64 text of a digest, which owns every reference.
  pub record OwnsAll (p : PreReceive G) : Type 0 where
    pub digest : Text
    pub fingerprint : Text
    pub prefixed : p.key_fingerprint ≡ lit "SHA256:" ++ digest
    pub decoded : P.base64_decode digest ≡ some fingerprint
    pub owned : All (IsOwn fingerprint) p.updates

  pub authorize_ref_updates_iff :
      (p : PreReceive G) → (authorize_ref_updates G p ≡ ok tt) ↔ OwnsAll p
  unfolding authorize_ref_updates
  authorize_ref_updates_iff p = (
    λ h.
        let (digest, stripped, h₁) =
          ok_or-bind _ (strip_prefix (lit "SHA256:") p.key_fingerprint) _ h in
        let (fingerprint, decoded, h₂) = ok_or-bind _ (P.base64_decode digest) _ h₁ in
        record {
          digest = digest;
          fingerprint = fingerprint;
          prefixed = strip_prefix-eq-some (lit "SHA256:") p.key_fingerprint digest stripped;
          decoded = decoded;
          owned = authorize_refs_sound fingerprint p.key_fingerprint p.updates h₂;
        },
    λ o.
        rw (o.prefixed, strip_prefix-append (lit "SHA256:") o.digest)
          (rw o.decoded (authorize_refs_complete o.fingerprint _ p.updates o.owned)),
  )
