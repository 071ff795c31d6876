-- ===== src/HttpApi/Sessions/Signin.antt =====
-- When signing in succeeds, and what it changes.
use radicle_client_services.Base.{
  Text, ℕ, lit, ◌==◌, eq_iff, get, insert, get-insert, eq_refl, Bool, true, false, Option-cases,
  Outcome-cases, some, Outcome, ok, err, map_err, ensure, ◌>>◌, ok_or-bind, >>=-eq-ok,
  map_err-eq-ok, ok-injective, ◌≡◌, ◌↔◌, ◌⊎◌, ◌∙◌, refl, ap, inl, inr, arith,
}
use radicle_client_services.HttpApi.Error.{auth, env, siwe_parse, siwe_verification}
use radicle_client_services.HttpApi.Auth.{
  Siwe, AuthRequest, Session, AuthState, authorized, unauthorized, verify_message, try_from,
}
use radicle_client_services.HttpApi.Sessions.{Sessions, session_get, signin_state, session_signin}

ensure-bind :
    {E A : Type 0} (b : Bool) (e : E) (m : Outcome E A) {a : A}
    → (ensure b e >> m) ≡ ok a
    → (b ≡ true) × (m ≡ ok a)
ensure-bind true e m h = (refl, h)
ensure-bind false e m h = cc

module _ (W : Siwe) (domain : Outcome Text Text) (now : ℕ) (request : AuthRequest W) where
  -- The message is one of the siwe standard with this nonce, for the host of the server, and its
  -- signature verifies; the session says what the message says.
  pub record IsVerified (nonce : Text) (session : Session W) : Type 0 where
    pub message : W.Message
    pub host : Text
    pub authority : W.Authority
    pub parsed : W.from_str request.message ≡ ok message
    pub served : domain ≡ ok host
    pub same_nonce : nonce ≡ W.nonce message
    pub valid_host : W.authority host ≡ some authority
    pub same_domain : W.is_domain authority message ≡ true
    pub signed : W.verify now message request.signature ≡ ok tt
    pub copied : try_from W message ≡ ok session

  pub verify_message_iff :
      (nonce : Text) (session : Session W)
      → (verify_message W domain now nonce request ≡ ok session) ↔ IsVerified nonce session
  unfolding verify_message
  verify_message_iff nonce session = (
    λ h.
        let (message, parsed, h₁) =
          >>=-eq-ok (map_err siwe_parse (W.from_str request.message)) _ h in
        let (host, served, h₂) = >>=-eq-ok (map_err env domain) _ h₁ in
        let (same_nonce, h₃) = ensure-bind (nonce == W.nonce message) _ _ h₂ in
        let (authority, valid_host, h₄) = ok_or-bind _ (W.authority host) _ h₃ in
        let (same_domain, h₅) = ensure-bind (W.is_domain authority message) _ _ h₄ in
        let (u, signed, copied) =
          >>=-eq-ok (map_err siwe_verification (W.verify now message request.signature)) _ h₅ in
        record {
          message = message;
          host = host;
          authority = authority;
          parsed = map_err-eq-ok siwe_parse (W.from_str request.message) parsed;
          served = map_err-eq-ok env domain served;
          same_nonce = (eq_iff _ _).0 same_nonce;
          valid_host = valid_host;
          same_domain = same_domain;
          signed = map_err-eq-ok siwe_verification (W.verify now message request.signature) signed;
          copied = copied;
        },
    λ v. rw v.parsed (
        rw v.served (
          rw ((eq_iff nonce (W.nonce v.message)).1 v.same_nonce)
            (rw v.valid_host (rw v.same_domain (rw v.signed v.copied))))),
  )

  -- The id is of a session that nobody signed into, and the request is verified for its nonce.
  pub record IsSignedIn (id : Text) (m : Sessions W) (session : Session W) : Type 0 where
    pub nonce : Text
    pub expiration_time : ℕ
    pub found : get id m ≡ some (unauthorized nonce expiration_time)
    pub verified : IsVerified nonce session

  signin_state-eq-ok :
      (id : Text) (state : AuthState W) (m : Sessions W) (session : Session W)
      → (signin_state W domain now id request state m).0 ≡ ok session
      → (nonce : Text) × (t : ℕ) × (state ≡ unauthorized nonce t)
        × (verify_message W domain now nonce request ≡ ok session)
  unfolding session_signin
  signin_state-eq-ok id (authorized old) m session h = cc
  signin_state-eq-ok id (unauthorized nonce t) m session h =
      elim (Outcome-cases (verify_message W domain now nonce request)) [
        | inl (a, good) ↦ (nonce, t, refl, good ∙ ap ok (ok-injective (rw good at h)))
        | inr (inl (e, bad)) ↦ absurd (ground arith)
        | inr (inr bad) ↦ absurd (ground arith)
      ]

  -- Signing in gives a session exactly when the id is of a session that nobody signed into and the
  -- request is verified for its nonce.
  pub session_signin_iff :
      (id : Text) (m : Sessions W) (session : Session W)
      → ((session_signin W domain now id request m).0 ≡ ok session) ↔ IsSignedIn id m session
  unfolding session_signin session_get
  session_signin_iff id m session = (
    λ h. elim (Option-cases (get id m)) [
      | inl missing ↦ absurd (ground arith)
      | inr (state, found) ↦
          let (nonce, t, same, good) = signin_state-eq-ok id state m session (rw found at h) in
          record {
            nonce = nonce;
            expiration_time = t;
            found = found ∙ ap some same;
            verified = (verify_message_iff nonce session).0 good;
          }
    ],
    λ d. rw d.found (rw ((verify_message_iff d.nonce session).1 d.verified) refl),
  )

  pub session_signin-ok :
      (id : Text) (m : Sessions W) (session : Session W)
      → (session_signin W domain now id request m).0 ≡ ok session
      → session_signin W domain now id request m ≡ (ok session, insert id (authorized session) m)
  unfolding session_signin session_get
  session_signin-ok id m session h =
      let d = (session_signin_iff id m session).0 h in
      rw d.found (rw ((verify_message_iff d.nonce session).1 d.verified) refl)

  pub session_signin-authorized :
      (id : Text) (m : Sessions W) (session : Session W)
      → get id m ≡ some (authorized session)
      → session_signin W domain now id request m
        ≡ (err (auth (lit "Session already authorized")), m)
  unfolding session_signin session_get
  session_signin-authorized id m session found = rw found refl

  -- Whatever signing in returns, it changes no session but the one signed into, and that one only
  -- to an authorized session that is also the result.
  pub session_signin_lem :
      (id : Text) (m : Sessions W)
      → (((session : Session W) × (session_signin W domain now id request m
              ≡ (ok session, insert id (authorized session) m)))
          ⊎ ((session_signin W domain now id request m).1 ≡ m))
  unfolding session_signin session_get
  session_signin_lem id m = elim (Option-cases (get id m)) [
    | inl missing ↦ inr (rw missing refl)
    | inr (authorized old, found) ↦ inr (rw found refl)
    | inr (unauthorized nonce t, found) ↦
        elim (Outcome-cases (verify_message W domain now nonce request)) [
          | inl (session, good) ↦ inl (session, rw found (rw good refl))
          | inr (inl (e, bad)) ↦ inr (rw found (rw bad refl))
          | inr (inr bad) ↦ inr (rw found (rw bad refl))
        ]
  ]

module _ (W : Siwe) where
  -- A session is signed into once: right after that, any request for its id is refused and changes
  -- nothing, so that a message cannot be used again.
  pub session_signin-once :
      (domain : Outcome Text Text) (now : ℕ) (request : AuthRequest W)
      (later_domain : Outcome Text Text) (later : ℕ) (again : AuthRequest W) (id : Text)
      (m : Sessions W) (session : Session W)
      → (session_signin W domain now id request m).0 ≡ ok session
      → session_signin W later_domain later id again (session_signin W domain now id request m).1
        ≡ (
          err (auth (lit "Session already authorized")),
          (session_signin W domain now id request m).1,
        )
  session_signin-once domain now request later_domain later again id m session h =
      session_signin-authorized W later_domain later again id
        (session_signin W domain now id request m).1 session
        (ap (λ r. get id r.1) (session_signin-ok W domain now request id m session h)
          ∙ rw (get-insert id id (authorized session) m, eq_refl id) refl)
