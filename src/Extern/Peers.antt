-- ===== src/Extern/Peers.antt =====
-- librad's peer ids and keys, and the base64 and sha2 crates.
use radicle_client_services.Base.{Text, Lacks, Option, some, Bool, true, ◌≡◌, ◌↔◌}

pub record Peers : Type 1 where
  -- librad::PeerId, librad::PublicKey
  pub PeerId : Type 0
  pub PublicKey : Type 0
  pub peer_eq : PeerId → PeerId → Bool
  -- PeerId::from_default_encoding, PeerId::from_str, PeerId::default_encoding
  pub from_default_encoding : Text → Option PeerId
  pub from_str : Text → Option PeerId
  pub default_encoding : PeerId → Text
  -- PeerId::as_public_key, PeerId::from(PublicKey), and the key's bytes
  pub as_public_key : PeerId → PublicKey
  pub from_public_key : PublicKey → PeerId
  pub key_bytes : PublicKey → Text
  -- base64::decode, base64::encode, sha2::Sha256::digest
  pub base64_decode : Text → Option Text
  pub base64_encode : Text → Text
  pub sha256 : Text → Text

-- `PartialEq` of peer ids is equality.
pub record HasEq (P : Peers) : Type 0 where
  pub eq_iff : (a b : P.PeerId) → (P.peer_eq a b ≡ true) ↔ (a ≡ b)

-- Both parsers undo the default encoding, a base-32 text, which has no comma.
pub record HasEncoding (P : Peers) : Type 0 where
  pub decode-encode : (a : P.PeerId) → P.from_default_encoding (P.default_encoding a) ≡ some a
  pub from_str-encode : (a : P.PeerId) → P.from_str (P.default_encoding a) ≡ some a
  pub no_comma : (a : P.PeerId) → Lacks b',' (P.default_encoding a)
