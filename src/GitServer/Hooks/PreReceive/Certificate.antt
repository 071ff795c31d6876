-- ===== src/GitServer/Hooks/PreReceive/Certificate.antt =====
-- When `verify_certificate` and `check_authorized_key` of pre_receive.rs let a push through.
use radicle_client_services.Base.{
  Text, ℕ, ◌∷◌, lit, eq_iff, contains_iff, Has, get_or_else, Option-cases, ◌==◌, true, Option, none,
  some, [], ok, ◌≡◌, ◌↔◌, ◌⊎◌, inl, inr, arith,
}
use radicle_client_services.Extern.Peers.{Peers}
use radicle_client_services.Extern.Monorepo.{Monorepo}
use radicle_client_services.GitServer.Hooks.CertStatus.{
  CertNonceStatus, nonce_status_from_str, cert_status_from_str, is_ok,
}
use radicle_client_services.GitServer.Hooks.PreReceive.{
  PreReceive, verify_certificate, check_authorized_key,
}

cert_status-is_ok_iff :
    (s : Text) → (is_ok (cert_status_from_str s) ≡ true) ↔ ((s ≡ lit "G") ⊎ (s ≡ lit "U"))
unfolding is_ok cert_status_from_str
cert_status-is_ok_iff s = ground (
  arith,
  eq_iff s (lit "G"),
  eq_iff s (lit "U"),
  eq_iff s (lit "X"),
  eq_iff s (lit "Y"),
  eq_iff s (lit "R"),
  eq_iff s (lit "B"),
  eq_iff s (lit "E"),
  eq_iff s (lit "N"),
)

nonce_status-ok_iff : (s : Text) → (nonce_status_from_str s ≡ CertNonceStatus.ok) ↔ (s ≡ lit "OK")
unfolding nonce_status_from_str
nonce_status-ok_iff s = ground (
  arith,
  eq_iff s (lit "UNSOLICITED"),
  eq_iff s (lit "MISSING"),
  eq_iff s (lit "BAD"),
  eq_iff s (lit "OK"),
  eq_iff s (lit "SLOP"),
)

-- The default `""` stands for none of the texts that are asked for.
get_or_else-eq_cons_iff :
    (o : Option Text) (c : ℕ) (t : Text) → (get_or_else o [] ≡ c ∷ t) ↔ (o ≡ some (c ∷ t))
get_or_else-eq_cons_iff none c t = ground arith
get_or_else-eq_cons_iff (some s) c t = ground arith

module _ {P : Peers} {G : Monorepo P} where
  -- The certificate is good, with a known or an unknown validity, and the nonce is the one that
  -- was asked for.
  pub record IsSigned (p : PreReceive G) : Type 0 where
    pub certificate : (p.env.cert_status ≡ some (lit "G")) ⊎ (p.env.cert_status ≡ some (lit "U"))
    pub nonce : p.env.cert_nonce_status ≡ some (lit "OK")

  pub verify_certificate_iff : (p : PreReceive G) → (verify_certificate G p ≡ ok tt) ↔ IsSigned p
  unfolding verify_certificate
  verify_certificate_iff p = ground (
    arith,
    cert_status-is_ok_iff (get_or_else p.env.cert_status []),
    nonce_status-ok_iff (get_or_else p.env.cert_nonce_status []),
    get_or_else-eq_cons_iff p.env.cert_status b'G' [],
    get_or_else-eq_cons_iff p.env.cert_status b'U' [],
    get_or_else-eq_cons_iff p.env.cert_nonce_status b'O' (lit "K"),
  )

  -- The key is set, and it is in the keyring unless every key is allowed.
  pub record IsAllowed (p : PreReceive G) : Type 0 where
    pub key : Text
    pub signed : p.env.cert_key ≡ some key
    pub allowed : (p.env.allow_unauthorized_keys ≡ some true) ⊎ Has key p.authorized_keys

  pub check_authorized_key_iff :
      (p : PreReceive G) → (check_authorized_key G p ≡ ok tt) ↔ IsAllowed p
  unfolding check_authorized_key
  check_authorized_key_iff p = elim (Option-cases p.env.cert_key) [
    | inl missing ↦ (λ h. ground arith, λ a. ground (arith, a.signed))
    | inr (key, signed) ↦ (
      λ h. record {
        key = key;
        signed = signed;
        allowed = ground (arith, contains_iff ◌==◌ eq_iff key p.authorized_keys);
      },
      λ a. ground (arith, a.signed, a.allowed, contains_iff ◌==◌ eq_iff key p.authorized_keys),
    )
  ]
