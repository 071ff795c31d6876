-- ===== src/HttpApi/Server/Runs.antt =====
-- The life of the API: what holds in every state that requests and the two jobs reach.
use radicle_client_services.Base.{
  Text, ℕ, ◌+◌, get, Option, none, some, List, [], ◌∷◌, ok, err, panic, Outcome-cases, ◌≡◌, inl,
  inr, refl, ap, sym, subst, ◌∙◌,
}
use radicle_client_services.Extern.Peers.{Peers}
use radicle_client_services.Extern.Monorepo.{Monorepo}
use radicle_client_services.Extern.Api.{Api}
use radicle_client_services.Extern.Surf.{Surf}
use radicle_client_services.Extern.Cobs.{Cobs}
use radicle_client_services.Extern.Axum.{Axum}
use radicle_client_services.HttpApi.Auth.{Siwe, Session, authorized}
use radicle_client_services.HttpApi.Sessions.{Sessions, create_session}
use radicle_client_services.HttpApi.Sessions.Lifecycle.{Reachable}
use radicle_client_services.HttpApi.Sessions.Lifecycle
use radicle_client_services.HttpApi.Sessions.Verified.{IsProven, Reachable-IsProven}
use radicle_client_services.HttpApi.Routes.{Handler, route}
use radicle_client_services.HttpApi.Reply.{Reply, Answer}
use radicle_client_services.HttpApi.Server.{
  session_time, session_create_handler, Outside, Context, new, respond, handle, sent, cleanup,
  populate,
}
use radicle_client_services.HttpApi.Server.Answers.{made_in, made_by, IsAnswered}
use radicle_client_services.HttpApi.Server.Statuses.{handle-IsAnswered}
use radicle_client_services.HttpApi.Server.Effects.{
  Effect, keeps, creates, signs, refuses, handle-Effect,
}

module _ {P : Peers} (G : Monorepo P) (X : Api G) (S : Surf G) (C : Cobs S) (W : Siwe)
    (A : Axum C W) (version git_head : Text) where
  -- the ids and nonces that were handed out before a reply, and those in it
  abbrev add_pair : Option (Text × Text) → List (Text × Text) → List (Text × Text)
  add_pair (some pair) issued = pair ∷ issued
  add_pair none issued = issued

  abbrev handed_out : Option (Reply X C W) → List (Text × Text) → List (Text × Text)
  handed_out (some rep) issued = add_pair (made_in G X S C W A version git_head rep.content) issued
  handed_out none issued = issued

  -- The ids and nonces that were handed out, and the state: requests come in any order, and rounds
  -- of the jobs between them. The three maps are behind locks, and no handler writes to two.
  pub data Run (git_dir : Text) (peer_id : P.PeerId) (theme : Text)
      : List (Text × Text) → Context G X S C W A version git_head → Type 0 where
    start : Run git_dir peer_id theme [] (new G X S C W A version git_head git_dir peer_id theme)
    serve :
        (issued : List (Text × Text)) (c : Context G X S C W A version git_head) (s : G.Store)
        (o : Outside) (r : A.Request)
        → Run git_dir peer_id theme issued c
        → Run git_dir peer_id theme
            (handed_out (respond G X S C W A version git_head s o r c).0 issued)
            (respond G X S C W A version git_head s o r c).1
    cleanup_round :
        (issued : List (Text × Text)) (c : Context G X S C W A version git_head) (clock : ℕ → ℕ)
        → Run git_dir peer_id theme issued c
        → Run git_dir peer_id theme issued (cleanup G X S C W A version git_head clock c)
    fill_round :
        (issued : List (Text × Text)) (c : Context G X S C W A version git_head) (s : G.Store)
        → Run git_dir peer_id theme issued c
        → Run git_dir peer_id theme issued (populate G X S C W A version git_head s c)

  handed_out-none :
      (r : A.Request) (answer : Answer X C W) (issued : List (Text × Text))
      → IsAnswered G X S C W A version git_head r none answer
      → handed_out (sent G X S C W A version git_head answer) issued ≡ issued
  unfolding IsAnswered
  handed_out-none r (ok rep) issued (known, made) = ap (λ o. add_pair o issued) made
  handed_out-none r (err rep) issued (known, made) = ap (λ o. add_pair o issued) made
  handed_out-none r panic issued known = refl

  handed_out-create :
      (s : G.Store) (o : Outside) (r : A.Request) (params : A.Params)
      (c : Context G X S C W A version git_head) (issued : List (Text × Text))
      → handed_out
          (sent G X S C W A version git_head
            (handle G X S C W A version git_head s o r params Handler.session_create_handler c).0)
          issued
        ≡ (o.id, o.nonce) ∷ issued
  unfolding handle session_create_handler create_session
  handed_out-create s o r params c issued = refl

  handled-none :
      (s : G.Store) (o : Outside) (r : A.Request) (params : A.Params) (h : Handler)
      (c : Context G X S C W A version git_head) (issued : List (Text × Text))
      → made_by o h ≡ none
      → handed_out
          (sent G X S C W A version git_head
            (handle G X S C W A version git_head s o r params h c).0)
          issued
        ≡ add_pair (made_by o h) issued
  handled-none s o r params h c issued made =
      let answer = (handle G X S C W A version git_head s o r params h c).0 in
      handed_out-none r answer issued (
        subst (λ m. IsAnswered G X S C W A version git_head r m answer) made
          (handle-IsAnswered G X S C W A version git_head s o r params h c))
      ∙ ap (λ m. add_pair m issued) (sym made)

  handled-eq :
      (s : G.Store) (o : Outside) (r : A.Request) (params : A.Params) (h : Handler)
      (c d : Context G X S C W A version git_head) (issued : List (Text × Text))
      → Effect G X S C W A version git_head o c h d
      → handed_out
          (sent G X S C W A version git_head
            (handle G X S C W A version git_head s o r params h c).0)
          issued
        ≡ add_pair (made_by o h) issued
  handled-eq s o r params h c d issued (keeps silent made sessions projects) =
      handled-none s o r params h c issued made
  handled-eq s o r params h c d issued (creates same changed) =
      subst
        (λ g.
          handed_out
            (sent G X S C W A version git_head
              (handle G X S C W A version git_head s o r params g c).0)
            issued
          ≡ add_pair (made_by o g) issued)
        (sym same) (handed_out-create s o r params c issued)
  handled-eq s o r params h c d issued (signs same id request changed) =
      handled-none s o r params h c issued (ap (made_by o) same)
  handled-eq s o r params h c d issued (refuses same changed) =
      handled-none s o r params h c issued (ap (made_by o) same)

  Reachable-along :
      (made : Option (Text × Text)) (o : Outside) (h : Handler) (issued : List (Text × Text))
      (m n : Sessions W)
      → made_by o h ≡ made
      → n ≡ m
      → Reachable W (add_pair made issued) m
      → Reachable W (add_pair (made_by o h) issued) n
  Reachable-along made o h issued m n same changed reached =
      subst (λ k. Reachable W (add_pair (made_by o h) issued) k) (sym changed)
        (subst (λ k. Reachable W (add_pair k issued) m) (sym same) reached)

  -- What a handler does to the sessions is a step of their life.
  Effect-Reachable :
      (o : Outside) (h : Handler) (c d : Context G X S C W A version git_head)
      (issued : List (Text × Text))
      → Effect G X S C W A version git_head o c h d
      → Reachable W issued c.sessions
      → Reachable W (add_pair (made_by o h) issued) d.sessions
  Effect-Reachable o h c d issued (keeps silent made sessions projects) reached =
      Reachable-along none o h issued c.sessions d.sessions made sessions reached
  Effect-Reachable o h c d issued (creates same changed) reached =
      Reachable-along (some (o.id, o.nonce)) o h issued _ d.sessions (ap (made_by o) same)
        (ap (λ (x : Context G X S C W A version git_head). x.sessions) changed)
        (Lifecycle.create issued c.sessions o.nonce o.id (o.now + session_time) reached)
  Effect-Reachable o h c d issued (signs same id request changed) reached =
      Reachable-along none o h issued _ d.sessions (ap (made_by o) same)
        (ap (λ (x : Context G X S C W A version git_head). x.sessions) changed)
        (Lifecycle.signin issued c.sessions o.domain o.now id request reached)
  Effect-Reachable o h c d issued (refuses same changed) reached =
      Reachable-along none o h issued c.sessions d.sessions (ap (made_by o) same)
        (ap (λ (x : Context G X S C W A version git_head). x.sessions) changed) reached

  respond-Reachable :
      (s : G.Store) (o : Outside) (r : A.Request) (c : Context G X S C W A version git_head)
      (issued : List (Text × Text))
      → Reachable W issued c.sessions
      → Reachable W
          (handed_out (respond G X S C W A version git_head s o r c).0 issued)
          (respond G X S C W A version git_head s o r c).1.sessions
  unfolding respond
  respond-Reachable s o r c issued reached = elim (Outcome-cases (route A r)) [
    | inl ((h, params), routed) ↦
        let d = (handle G X S C W A version git_head s o r params h c).1 in
        let effect = handle-Effect G X S C W A version git_head s o r params h c in
        rw (respond, routed)
          (subst (λ k. Reachable W k d.sessions) (sym (handled-eq s o r params h c d issued effect))
            (Effect-Reachable o h c d issued effect reached))
    | inr (inl (code, unrouted)) ↦ rw (respond, unrouted) reached
    | inr (inr broken) ↦ rw (respond, broken) reached
  ]

  Run-Reachable :
      (git_dir : Text) (peer_id : P.PeerId) (theme : Text) (issued : List (Text × Text))
      (c : Context G X S C W A version git_head)
      → Run git_dir peer_id theme issued c
      → Reachable W issued c.sessions
  unfolding new cleanup populate
  Run-Reachable git_dir peer_id theme _ _ start = Lifecycle.start
  Run-Reachable git_dir peer_id theme _ _ (serve issued c s o r run) =
      respond-Reachable s o r c issued (Run-Reachable git_dir peer_id theme issued c run)
  Run-Reachable git_dir peer_id theme _ _ (cleanup_round issued c clock run) =
      Lifecycle.cleanup issued c.sessions clock (Run-Reachable git_dir peer_id theme issued c run)
  Run-Reachable git_dir peer_id theme _ _ (fill_round issued c s run) =
      Run-Reachable git_dir peer_id theme issued c run

  -- Whatever requests the API serves, in any order and between any rounds of its jobs: a session that
  -- is signed into is there because a message was verified, with a nonce that a reply of the API
  -- handed out for the id of the session, and the session says what that message says.
  pub Run-IsProven :
      (git_dir : Text) (peer_id : P.PeerId) (theme : Text) (issued : List (Text × Text))
      (c : Context G X S C W A version git_head) (id : Text) (session : Session W)
      → Run git_dir peer_id theme issued c
      → get id c.sessions ≡ some (authorized session)
      → IsProven W issued id session
  Run-IsProven git_dir peer_id theme issued c id session run found =
      Reachable-IsProven W issued c.sessions id session
        (Run-Reachable git_dir peer_id theme issued c run) found
