-- ===== src/HttpApi/Sessions.antt =====
-- http-api/src/v1/sessions.rs, and `cleanup_sessions` of http-api/src/lib.rs: how a session is
-- created, signed into, read and removed.
pub mod Signin
pub mod Cleanup
pub mod Job
pub mod Lifecycle
pub mod Verified
use radicle_client_services.Base.{
  Text, ℕ, suc, lit, leb, ◌==◌, Assoc, get, insert, remove, if◌then◌else◌, Bool, false, Option,
  none, some, List, [], ◌∷◌, Outcome, ok, err, ok_or, map_err, ensure,
}
use radicle_client_services.Base.Action.{Action, lift, gets, pure, raise, resume, ◌>>=◌, ◌>>◌}
use radicle_client_services.HttpApi.Error.{
  Error, not_found, auth, env, siwe_parse, siwe_verification,
}
use radicle_client_services.HttpApi.Auth.{
  Siwe, AuthRequest, Session, AuthState, authorized, unauthorized, verify_message,
}

module _ (W : Siwe) where
  abbrev pub Sessions : Type 0
  Sessions = Assoc (AuthState W)

  -- create_session, with the nonce and the id that the generators give
  unfoldable pub create_session : Text → Text → ℕ → Sessions → (Text × Text) × Sessions
  create_session nonce id expiration_time map =
      ((id, nonce), insert id (unauthorized nonce expiration_time) map)

  -- session_get_handler; the response is the state
  unfoldable pub session_get : Text → Action Sessions Error (AuthState W)
  session_get id = gets (λ sessions. ok_or not_found (get id sessions))

  signin_state :
      Outcome Text Text → ℕ → Text → AuthRequest W → AuthState W → Action Sessions Error (Session W)
  signin_state domain now id request (unauthorized nonce expiration_time) = do
    session ← lift (verify_message W domain now nonce request)
    λ sessions. (ok session, insert id (authorized session) sessions)
  signin_state domain now id request (authorized session) =
      raise (auth (lit "Session already authorized"))

  -- session_signin_handler
  unfoldable pub session_signin :
      Outcome Text Text → ℕ → Text → AuthRequest W → Action Sessions Error (Session W)
  unfolding signin_state
  session_signin domain now id request = do
    state ← session_get id
    signin_state domain now id request state

  unfoldable pub is_expired : ℕ → AuthState W → Bool
  is_expired now (authorized session) = elim session.expiration_time [
    | none ↦ false
    | some t ↦ leb t now
  ]
  is_expired now (unauthorized nonce t) = leb t now

  -- the first loop of `cleanup_sessions`: the clock is read once for each entry
  unfoldable pub expired : (ℕ → ℕ) → ℕ → Sessions → List Text
  expired clock i [] = []
  expired clock i ((id, state) ∷ map) =
      let rest = expired clock (suc i) map in if is_expired (clock i) state then id ∷ rest else rest

  unfoldable pub remove_all : List Text → Sessions → Sessions
  remove_all [] map = map
  remove_all (id ∷ ids) map = remove_all ids (remove id map)

  unfoldable pub cleanup_sessions : (ℕ → ℕ) → Sessions → Sessions
  cleanup_sessions clock map = remove_all (expired clock 0 map) map
