-- ===== src/GitServer/RefName.antt =====
-- `parse_ref` of git-server/src/lib.rs: the peer and the rest of a pushed reference.
use radicle_client_services.Base.{
  Text, lit, strip_prefix, split_once, some, ok, ok_or, ◌>>=◌, ok_or-bind, ◌≡◌, ◌∙◌, ap, ◌++◌, ◌∷◌,
  arith, strip_prefix-append, split_once-append, strip_prefix-eq-some, split_once-eq-some, Lacks,
}
use radicle_client_services.Extern.Peers.{Peers}
use radicle_client_services.GitServer.Error.{io, invalid_input, Result}

module _ (P : Peers) where
  unfoldable pub parse_ref : Text → Result (P.PeerId × Text)
  parse_ref input = do
    suffix ← ok_or (io invalid_input) (strip_prefix (lit "refs/remotes/") input)
    parts ← ok_or (io invalid_input) (split_once b'/' suffix)
    peer_id ← ok_or (io invalid_input) (P.from_default_encoding parts.0)
    ok (peer_id, parts.1)

  -- The references of a peer: refs/remotes/<peer>/<rest>.
  pub record IsRefOf (input : Text) (peer : P.PeerId) (rest : Text) : Type 0 where
    pub remote : Text
    pub shape : input ≡ lit "refs/remotes/" ++ remote ++ b'/' ∷ rest
    pub no_slash : Lacks b'/' remote
    pub decoded : P.from_default_encoding remote ≡ some peer

  parse_ref-parts :
      (input : Text) (peer : P.PeerId) (rest : Text)
      → parse_ref input ≡ ok (peer, rest)
      → (suffix : Text) × (remote : Text) × (strip_prefix (lit "refs/remotes/") input ≡ some suffix)
        × (split_once b'/' suffix ≡ some (remote, rest))
        × (P.from_default_encoding remote ≡ some peer)
  unfolding parse_ref
  parse_ref-parts input peer rest h =
      let (suffix, e, h₁) =
        ok_or-bind (io invalid_input) (strip_prefix (lit "refs/remotes/") input) _ h in
      let (parts, e₁, h₂) = ok_or-bind (io invalid_input) (split_once b'/' suffix) _ h₁ in
      let (p, e₂, h₃) = ok_or-bind (io invalid_input) (P.from_default_encoding parts.0) _ h₂ in
      (suffix, parts.0, e, ground arith, ground arith)

  pub parse_ref_sound :
      (input : Text) (peer : P.PeerId) (rest : Text)
      → parse_ref input ≡ ok (peer, rest)
      → IsRefOf input peer rest
  parse_ref_sound input peer rest h =
      let (suffix, remote, stripped, parted, decoded) = parse_ref-parts input peer rest h in
      let (shape, lacks) = split_once-eq-some b'/' suffix remote rest parted in
      record {
        remote = remote;
        shape =
            strip_prefix-eq-some (lit "refs/remotes/") input suffix stripped
            ∙ ap (λ t. lit "refs/remotes/" ++ t) shape;
        no_slash = lacks;
        decoded = decoded;
      }

  pub parse_ref_complete :
      (input : Text) (peer : P.PeerId) (rest : Text)
      → IsRefOf input peer rest
      → parse_ref input ≡ ok (peer, rest)
  unfolding parse_ref
  parse_ref_complete input peer rest h =
      rw (h.shape, strip_prefix-append (lit "refs/remotes/"))
        (rw (split_once-append b'/' h.remote rest h.no_slash) (rw h.decoded))
