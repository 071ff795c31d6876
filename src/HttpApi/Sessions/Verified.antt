-- ===== src/HttpApi/Sessions/Verified.antt =====
-- Where the sessions that are signed into come from.
use radicle_client_services.Base.{
  Text, ℕ, Has, ◌==◌, eq_iff, get, insert, remove, get-insert, get-remove, Bool-cases, some, List,
  [], ◌∷◌, Outcome, ◌≡◌, inl, inr, ap, sym, subst, arith,
}
use radicle_client_services.HttpApi.Auth.{Siwe, AuthRequest, Session, authorized, unauthorized}
use radicle_client_services.HttpApi.Sessions.{
  Sessions, create_session, session_signin, cleanup_sessions, remove_all, expired,
}
use radicle_client_services.HttpApi.Sessions.Signin.{
  session_signin_lem, session_signin_iff, IsVerified,
}
use radicle_client_services.HttpApi.Sessions.Lifecycle.{
  Reachable, start, create, signin, cleanup, nonce_of, Reachable-issued,
}

module _ (W : Siwe) where
  -- Somebody was handed out the nonce for the id, and a message with it was verified at some time.
  pub record IsProven (issued : List (Text × Text)) (id : Text) (session : Session W) : Type 0 where
    pub domain : Outcome Text Text
    pub now : ℕ
    pub request : AuthRequest W
    pub nonce : Text
    pub handed_out : Has (id, nonce) issued
    pub verified : IsVerified W domain now request nonce session

  Proven : List (Text × Text) → Sessions W → Type 0
  Proven issued m =
      (id : Text) (session : Session W)
      → get id m ≡ some (authorized session)
      → IsProven issued id session

  later :
      (issued : List (Text × Text)) (pair : Text × Text) (id : Text) (session : Session W)
      → IsProven issued id session
      → IsProven (pair ∷ issued) id session
  later issued pair id session p = record {
    domain = p.domain;
    now = p.now;
    request = p.request;
    nonce = p.nonce;
    handed_out = inr p.handed_out;
    verified = p.verified;
  }

  Proven-create :
      (issued : List (Text × Text)) (m : Sessions W) (nonce id : Text) (t : ℕ)
      → Proven issued m
      → Proven ((id, nonce) ∷ issued) (insert id (unauthorized nonce t) m)
  unfolding Proven
  Proven-create issued m nonce id t held k session found = elim (Bool-cases (id == k)) [
    | inl same ↦ absurd (ground (arith, get-insert id k (unauthorized nonce t) m))
    | inr other ↦
        later issued (id, nonce) k session
          (held k session (ground (arith, get-insert id k (unauthorized nonce t) m)))
  ]

  Proven-remove_all :
      (issued : List (Text × Text)) (ids : List Text) (m : Sessions W)
      → Proven issued m
      → Proven issued (remove_all W ids m)
  unfolding Proven remove_all
  Proven-remove_all issued [] m held = held
  Proven-remove_all issued (id ∷ ids) m held =
      Proven-remove_all issued ids (remove id m)
        (λ k session found. held k session (ground (arith, get-remove id k m)))

  authorized-injective : {a b : Session W} → authorized a ≡ authorized b → a ≡ b
  authorized-injective h = cc

  Proven-insert :
      (issued : List (Text × Text)) (m : Sessions W) (id : Text) (session : Session W)
      → IsProven issued id session
      → Proven issued m
      → Proven issued (insert id (authorized session) m)
  unfolding Proven
  Proven-insert issued m id session proven held k other found = elim (Bool-cases (id == k)) [
    | inl same ↦
        let replaced : authorized session ≡ authorized other =
          ground (arith, get-insert id k (authorized session) m) in
        subst (λ (j : Text). IsProven issued j other) ((eq_iff id k).0 same)
          (subst (λ (t : Session W). IsProven issued id t) (authorized-injective replaced) proven)
    | inr other_id ↦ held k other (ground (arith, get-insert id k (authorized session) m))
  ]

  Proven-signin :
      (issued : List (Text × Text)) (m : Sessions W) (domain : Outcome Text Text) (now : ℕ)
      (id : Text) (request : AuthRequest W)
      → Reachable W issued m
      → Proven issued m
      → Proven issued (session_signin W domain now id request m).1
  unfolding nonce_of
  Proven-signin issued m domain now id request r held =
      elim (session_signin_lem W domain now request id m) [
        | inl (session, done) ↦
            let d = (session_signin_iff W domain now request id m session).0 (ap (λ x. x.0) done) in
            let proven : IsProven issued id session = record {
              domain = domain;
              now = now;
              request = request;
              nonce = d.nonce;
              handed_out =
                  Reachable-issued W issued m id (unauthorized d.nonce d.expiration_time) r d.found;
              verified = d.verified;
            } in
            subst (λ (n : Sessions W). Proven issued n) (sym (ap (λ x. x.1) done))
              (Proven-insert issued m id session proven held)
        | inr same ↦ subst (λ (n : Sessions W). Proven issued n) (sym same) held
      ]

  Reachable-Proven :
      (issued : List (Text × Text)) (m : Sessions W) → Reachable W issued m → Proven issued m
  unfolding Proven create_session cleanup_sessions get
  Reachable-Proven _ _ start = λ id session found. absurd (ground arith)
  Reachable-Proven _ _ (create issued m nonce id t r) =
      Proven-create issued m nonce id t (Reachable-Proven issued m r)
  Reachable-Proven _ _ (cleanup issued m clock r) =
      Proven-remove_all issued (expired W clock 0 m) m (Reachable-Proven issued m r)
  Reachable-Proven _ _ (signin issued m domain now id request r) =
      Proven-signin issued m domain now id request r (Reachable-Proven issued m r)

  -- In every reachable state, a session that is signed into is there because a message with a nonce
  -- that was handed out for its id was verified, and it says what that message says.
  pub Reachable-IsProven :
      (issued : List (Text × Text)) (m : Sessions W) (id : Text) (session : Session W)
      → Reachable W issued m
      → get id m ≡ some (authorized session)
      → IsProven issued id session
  unfolding Proven
  Reachable-IsProven issued m id session r found = Reachable-Proven issued m r id session found
