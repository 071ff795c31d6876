-- ===== src/GitServer/Hooks/PreReceive/Refusal.antt =====
-- How the pre-receive hook refuses a push at the first reference that is not the signer's.
use radicle_client_services.Base.{
  Text, eq_iff, All, List, [], ◌∷◌, ◌++◌, ok, err, ◌≡◌, ◌≢◌, refl, arith,
}
use radicle_client_services.Extern.Peers.{Peers}
use radicle_client_services.Extern.Monorepo.{Monorepo}
use radicle_client_services.GitServer.Error.{Error, invalid_ref_pushed, key_mismatch}
use radicle_client_services.GitServer.RefName.{parse_ref, parse_ref_complete}
use radicle_client_services.GitServer.Hooks.Updates.{Update}
use radicle_client_services.GitServer.Hooks.PreReceive.{to_ssh_fingerprint, authorize_refs}
use radicle_client_services.GitServer.Hooks.PreReceive.Authority.{IsOwn}

module _ {P : Peers} (G : Monorepo P) where
  module _ (fingerprint actual : Text) where
    -- References of the signer in front are passed over.
    authorize_refs-append :
        (own rest : List (Update G))
        → All (IsOwn G fingerprint) own
        → authorize_refs G fingerprint actual (own ++ rest)
          ≡ authorize_refs G fingerprint actual rest
    unfolding authorize_refs
    authorize_refs-append [] rest h = refl
    authorize_refs-append ((refname, old, new) ∷ own) rest (h, hs) =
        rw (parse_ref_complete P refname h.peer h.rest h.named) (
          rw ((eq_iff fingerprint (to_ssh_fingerprint P h.peer)).1 h.same)
            (authorize_refs-append own rest hs))

    -- Behind references of the signer, a name that is no reference of a peer is refused by name,
    -- whatever follows.
    pub authorize_refs-invalid :
        (own rest : List (Update G)) (u : Update G) (e : Error)
        → All (IsOwn G fingerprint) own
        → parse_ref P u.0 ≡ err e
        → authorize_refs G fingerprint actual (own ++ u ∷ rest) ≡ err (invalid_ref_pushed u.0)
    unfolding authorize_refs
    authorize_refs-invalid own rest (refname, old, new) e h bad =
        rw (authorize_refs-append own ((refname, old, new) ∷ rest) h) (rw bad)

    -- Behind references of the signer, a reference of a peer with another fingerprint is refused
    -- with both fingerprints, whatever follows.
    pub authorize_refs-mismatch :
        (own rest : List (Update G)) (u : Update G) (peer : P.PeerId) (name : Text)
        → All (IsOwn G fingerprint) own
        → parse_ref P u.0 ≡ ok (peer, name)
        → fingerprint ≢ to_ssh_fingerprint P peer
        → authorize_refs G fingerprint actual (own ++ u ∷ rest)
          ≡ err (key_mismatch actual (P.base64_encode (to_ssh_fingerprint P peer)))
    unfolding authorize_refs
    authorize_refs-mismatch own rest (refname, old, new) peer name h parsed other =
        rw (authorize_refs-append own ((refname, old, new) ∷ rest) h)
          (rw parsed (ground (arith, eq_iff fingerprint (to_ssh_fingerprint P peer))))
