-- ===== src/HttpApi/Sessions/Lifecycle.antt =====
-- The life of the sessions: every state that the handlers and the cleanup job can reach.
use radicle_client_services.Base.{
  Text, ℕ, Has, ◌==◌, eq_iff, get, insert, remove, get-insert, get-remove, Unique, insert-Unique,
  remove-Unique, Bool-cases, some, List, [], ◌∷◌, Outcome, ok-injective, ◌≡◌, inl, inr, ◌∙◌, ap,
  sym, subst, arith,
}
use radicle_client_services.HttpApi.Auth.{
  Siwe, AuthRequest, Session, AuthState, authorized, unauthorized, try_from,
}
use radicle_client_services.HttpApi.Sessions.{
  Sessions, create_session, session_signin, cleanup_sessions, remove_all, expired,
}
use radicle_client_services.HttpApi.Sessions.Signin.{
  session_signin_lem, session_signin_iff, IsVerified,
}

module _ (W : Siwe) where
  -- The sessions, and the ids and nonces that were handed out.
  pub data Reachable : List (Text × Text) → Sessions W → Type 0 where
    start : Reachable [] []
    create :
        (issued : List (Text × Text)) (m : Sessions W) (nonce id : Text) (expiration_time : ℕ)
        → Reachable issued m
        → Reachable ((id, nonce) ∷ issued) (create_session W nonce id expiration_time m).1
    signin :
        (issued : List (Text × Text)) (m : Sessions W) (domain : Outcome Text Text) (now : ℕ)
        (id : Text) (request : AuthRequest W)
        → Reachable issued m
        → Reachable issued (session_signin W domain now id request m).1
    cleanup :
        (issued : List (Text × Text)) (m : Sessions W) (clock : ℕ → ℕ)
        → Reachable issued m
        → Reachable issued (cleanup_sessions W clock m)

  unfoldable pub nonce_of : AuthState W → Text
  nonce_of (authorized session) = session.nonce
  nonce_of (unauthorized nonce t) = nonce

  -- One entry for each id, and each state has a nonce that was handed out for its id.
  Good : List (Text × Text) → Sessions W → Type 0
  Good issued m =
      Unique m
      × ((id : Text) (state : AuthState W)
          → get id m ≡ some state
          → Has (id, nonce_of state) issued)

  found_none : (id : Text) (state : AuthState W) → get id [] ≡ some state → ⊥
  unfolding get
  found_none id state found = cc

  IsVerified-nonce :
      (domain : Outcome Text Text) (now : ℕ) (request : AuthRequest W) (nonce : Text)
      (session : Session W)
      → IsVerified W domain now request nonce session
      → nonce ≡ session.nonce
  unfolding try_from
  IsVerified-nonce domain now request nonce session v =
      v.same_nonce ∙ ap (λ (s : Session W). s.nonce) (ok-injective v.copied)

  Good-create :
      (issued : List (Text × Text)) (m : Sessions W) (nonce id : Text) (t : ℕ)
      → Good issued m
      → Good ((id, nonce) ∷ issued) (insert id (unauthorized nonce t) m)
  unfolding Good nonce_of
  Good-create issued m nonce id t (u, held) = (
    insert-Unique id (unauthorized nonce t) m u,
    λ k state found. elim (Bool-cases (id == k)) [
      | inl same ↦ inl (ground (arith, get-insert id k (unauthorized nonce t) m, eq_iff id k))
      | inr other ↦ inr (held k state (ground (arith, get-insert id k (unauthorized nonce t) m)))
    ],
  )

  Good-signin :
      (issued : List (Text × Text)) (m : Sessions W) (nonce id : Text) (t : ℕ) (session : Session W)
      → Good issued m
      → get id m ≡ some (unauthorized nonce t)
      → nonce ≡ session.nonce
      → Good issued (insert id (authorized session) m)
  unfolding Good nonce_of
  Good-signin issued m nonce id t session (u, held) before same_nonce = (
    insert-Unique id (authorized session) m u,
    λ k state found. elim (Bool-cases (id == k)) [
      | inl same ↦
          let replaced : authorized session ≡ state =
            ground (arith, get-insert id k (authorized session) m) in
          subst (λ (s : AuthState W). Has (k, nonce_of s) issued) replaced
            (subst (λ (j : Text). Has (j, session.nonce) issued) ((eq_iff id k).0 same)
              (subst (λ (n : Text). Has (id, n) issued) same_nonce
                (held id (unauthorized nonce t) before)))
      | inr other ↦ held k state (ground (arith, get-insert id k (authorized session) m))
    ],
  )

  Good-remove :
      (issued : List (Text × Text)) (m : Sessions W) (k : Text)
      → Good issued m
      → Good issued (remove k m)
  unfolding Good
  Good-remove issued m k (u, held) =
      (remove-Unique k m u, λ j state found. held j state (ground (arith, get-remove k j m)))

  Good-remove_all :
      (issued : List (Text × Text)) (ids : List Text) (m : Sessions W)
      → Good issued m
      → Good issued (remove_all W ids m)
  unfolding remove_all
  Good-remove_all issued [] m good = good
  Good-remove_all issued (id ∷ ids) m good =
      Good-remove_all issued ids (remove id m) (Good-remove issued m id good)

  Reachable-Good :
      (issued : List (Text × Text)) (m : Sessions W) → Reachable issued m → Good issued m
  unfolding Good nonce_of create_session cleanup_sessions
  Reachable-Good _ _ start = (tt, λ id state found. absurd (found_none id state found))
  Reachable-Good _ _ (create issued m nonce id t r) =
      Good-create issued m nonce id t (Reachable-Good issued m r)
  Reachable-Good _ _ (cleanup issued m clock r) =
      Good-remove_all issued (expired W clock 0 m) m (Reachable-Good issued m r)
  Reachable-Good _ _ (signin issued m domain now id request r) =
      elim (session_signin_lem W domain now request id m) [
        | inl (session, done) ↦
            let d = (session_signin_iff W domain now request id m session).0 (ap (λ r. r.0) done) in
            subst (λ (n : Sessions W). Good issued n) (sym (ap (λ r. r.1) done))
              (Good-signin issued m d.nonce id d.expiration_time session (Reachable-Good issued m r)
                d.found (IsVerified-nonce domain now request d.nonce session d.verified))
        | inr same ↦
            subst (λ (n : Sessions W). Good issued n) (sym same) (Reachable-Good issued m r)
      ]

  -- Every session that can be reached, authorized or not, has the nonce that was handed out for its
  -- id when it was created.
  pub Reachable-issued :
      (issued : List (Text × Text)) (m : Sessions W) (id : Text) (state : AuthState W)
      → Reachable issued m
      → get id m ≡ some state
      → Has (id, nonce_of state) issued
  unfolding Good
  Reachable-issued issued m id state r found = (Reachable-Good issued m r).1 id state found

  -- Every reachable map of sessions has one entry for each id.
  pub Reachable-Unique :
      (issued : List (Text × Text)) (m : Sessions W) → Reachable issued m → Unique m
  unfolding Good
  Reachable-Unique issued m r = (Reachable-Good issued m r).0
