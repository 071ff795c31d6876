-- ===== src/GitServer/Hooks/CertStatus.antt =====
-- git-server/src/hooks/types.rs: the status of a push certificate and of its nonce, as git reports
-- them.
use radicle_client_services.Base.{Text, lit, ◌==◌, if◌then◌else◌, Bool, true, false}

pub data CertNonceStatus : Type 0 where
  unsolicited missing bad ok slop unknown : CertNonceStatus

pub data CertStatus : Type 0 where
  good_valid good_unknown good_expired_signature good_expired_key good_revoked_key : CertStatus
  bad error no_signature unknown : CertStatus

-- CertNonceStatus::from_str, which always returns `Ok`
unfoldable pub nonce_status_from_str : Text → CertNonceStatus
nonce_status_from_str s =
    if s == lit "UNSOLICITED"
    then CertNonceStatus.unsolicited
    else if s == lit "MISSING"
    then CertNonceStatus.missing
    else if s == lit "BAD"
    then CertNonceStatus.bad
    else if s == lit "OK"
    then CertNonceStatus.ok
    else if s == lit "SLOP"
    then CertNonceStatus.slop
    else CertNonceStatus.unknown

-- CertStatus::from_str, which always returns `Ok`
unfoldable pub cert_status_from_str : Text → CertStatus
cert_status_from_str s =
    if s == lit "G"
    then CertStatus.good_valid
    else if s == lit "U"
    then CertStatus.good_unknown
    else if s == lit "X"
    then CertStatus.good_expired_signature
    else if s == lit "Y"
    then CertStatus.good_expired_key
    else if s == lit "R"
    then CertStatus.good_revoked_key
    else if s == lit "B"
    then CertStatus.bad
    else if s == lit "E"
    then CertStatus.error
    else if s == lit "N"
    then CertStatus.no_signature
    else CertStatus.unknown

-- CertStatus::is_ok
unfoldable pub is_ok : CertStatus → Bool
is_ok CertStatus.good_valid = true
is_ok CertStatus.good_unknown = true
is_ok _ = false
