-- ===== src/HttpApi/Server/Shown.antt =====
-- Whose commits the API shows, in every state that it reaches.
use radicle_client_services.Base.{
  Text, Option, some, List, ok, err, panic, Outcome-cases, map_err, >>=-eq-ok, map_err-eq-ok,
  ok-injective, ◌≡◌, inl, inr, refl, ap, sym, subst, ◌∙◌,
}
use radicle_client_services.Extern.Peers.{Peers}
use radicle_client_services.Extern.Monorepo.{Monorepo}
use radicle_client_services.Extern.Api.{Api}
use radicle_client_services.Extern.Surf.{Surf}
use radicle_client_services.Extern.Cobs.{Cobs}
use radicle_client_services.Extern.Axum.{Axum}
use radicle_client_services.HttpApi.Error.{Result}
use radicle_client_services.HttpApi.Auth.{Siwe}
use radicle_client_services.HttpApi.Commits.{Header}
use radicle_client_services.HttpApi.Fingerprints.{Projects}
use radicle_client_services.HttpApi.Fingerprints.Sound.{
  AllSigned, nothing-AllSigned, populate_round-AllSigned,
}
use radicle_client_services.HttpApi.Source.Signed.{
  IsSignedBy, AllSignedBy, commit_handler-IsSignedBy, history_handler-AllSignedBy,
}
use radicle_client_services.HttpApi.Source.{commit_handler, history_handler}
use radicle_client_services.HttpApi.Routes.{Handler, route}
use radicle_client_services.HttpApi.Reply.{Body, Reply, failed, path, query, json}
use radicle_client_services.HttpApi.Server.{
  Outside, Context, new, respond, handle, cleanup, populate,
}
use radicle_client_services.HttpApi.Server.Effects.{handle-Effect, Effect-projects}
use radicle_client_services.HttpApi.Server.Runs.{Run, start, serve, cleanup_round, fill_round}

module _ {P : Peers} (G : Monorepo P) (X : Api G) (S : Surf G) (C : Cobs S) (W : Siwe)
    (A : Axum C W) (version git_head : Text) where
  respond-projects :
      (s : G.Store) (o : Outside) (r : A.Request) (c : Context G X S C W A version git_head)
      → (respond G X S C W A version git_head s o r c).1.projects ≡ c.projects
  unfolding respond
  respond-projects s o r c = elim (Outcome-cases (route A r)) [
    | inl ((h, params), routed) ↦
        rw (respond, routed)
          (Effect-projects G X S C W A version git_head o c h
            (handle G X S C W A version git_head s o r params h c).1
            (handle-Effect G X S C W A version git_head s o r params h c))
    | inr (inl (code, unrouted)) ↦ rw (respond, unrouted) refl
    | inr (inr broken) ↦ rw (respond, broken) refl
  ]

  -- In every state that is reached, each fingerprint leads to the peer whose key has it.
  pub Run-AllSigned :
      (git_dir : Text) (peer_id : P.PeerId) (theme : Text) (issued : List (Text × Text))
      (c : Context G X S C W A version git_head)
      → Run G X S C W A version git_head git_dir peer_id theme issued c
      → AllSigned G X c.projects
  unfolding new cleanup populate
  Run-AllSigned git_dir peer_id theme _ _ start = nothing-AllSigned G X
  Run-AllSigned git_dir peer_id theme _ _ (serve issued c s o r run) =
      subst (λ (m : Projects G X). AllSigned G X m) (sym (respond-projects s o r c))
        (Run-AllSigned git_dir peer_id theme issued c run)
  Run-AllSigned git_dir peer_id theme _ _ (cleanup_round issued c clock run) =
      Run-AllSigned git_dir peer_id theme issued c run
  Run-AllSigned git_dir peer_id theme _ _ (fill_round issued c s run) =
      populate_round-AllSigned G X s c.projects (Run-AllSigned git_dir peer_id theme issued c run)

  json-eq-ok :
      {T : Type 0} (body : T → Body X C W) (result : Result T) (rep : Reply X C W)
      → json X C W body result ≡ ok rep
      → (t : T) × (result ≡ ok t) × (body t ≡ rep.content)
  unfolding json
  json-eq-ok body (ok t) rep h = (t, refl, ap (λ (x : Reply X C W). x.content) (ok-injective h))
  json-eq-ok body (err e) rep h = cc
  json-eq-ok body panic rep h = cc

  commit-injective :
      {a b : S.Commit × Option X.PeerInfo}
      → ◌≡◌ {A = Body X C W} (Body.commit a) (Body.commit b)
      → a ≡ b
  commit-injective h = cc

  listing-injective :
      {a b : List (Header × Option X.PeerInfo) × S.Stats}
      → ◌≡◌ {A = Body X C W} (Body.listing a) (Body.listing b)
      → a ≡ b
  listing-injective h = cc

  -- Whatever requests the API has served, and whatever its jobs found: if it shows a commit as a
  -- peer's, then the commit is signed with the key of that peer.
  pub commit_handler-signed :
      (git_dir : Text) (peer_id : P.PeerId) (theme : Text) (issued : List (Text × Text))
      (c : Context G X S C W A version git_head) (s : G.Store) (o : Outside) (r : A.Request)
      (params : A.Params) (rep : Reply X C W) (commit : S.Commit) (p : X.PeerInfo)
      → Run G X S C W A version git_head git_dir peer_id theme issued c
      → (handle G X S C W A version git_head s o r params Handler.commit_handler c).0 ≡ ok rep
      → rep.content ≡ Body.commit (commit, some p)
      → X.commit_fingerprint s (S.sha1_of commit) ≡ ok (some (X.ssh_fingerprint (X.peer_of p)))
  unfolding handle IsSignedBy
  commit_handler-signed git_dir peer_id theme issued c s o r params rep commit p run h content =
      let (args, _, h₁) = >>=-eq-ok (path X C W (A.path_urn_sha params)) _ h in
      let (shown, found, same) =
        json-eq-ok Body.commit (commit_handler G X S s c.projects args.0 args.1) rep h₁ in
      subst (λ (t : S.Commit × Option X.PeerInfo). IsSignedBy G X S s (S.sha1_of t.0) t.1)
        (commit-injective (same ∙ content))
        (commit_handler-IsSignedBy G X S c.projects s args.0 args.1 shown
          (Run-AllSigned git_dir peer_id theme issued c run) found)

  -- Whatever requests the API has served, and whatever its jobs found: if it lists the history of a
  -- project, then each commit of the listing is shown with nobody, or with a peer whose key signed
  -- it.
  pub history_handler-signed :
      (git_dir : Text) (peer_id : P.PeerId) (theme : Text) (issued : List (Text × Text))
      (c : Context G X S C W A version git_head) (s : G.Store) (o : Outside) (r : A.Request)
      (params : A.Params) (rep : Reply X C W) (headers : List (Header × Option X.PeerInfo))
      (stats : S.Stats)
      → Run G X S C W A version git_head git_dir peer_id theme issued c
      → (handle G X S C W A version git_head s o r params Handler.history_handler c).0 ≡ ok rep
      → rep.content ≡ Body.listing (headers, stats)
      → AllSignedBy G X S s headers
  unfolding handle
  history_handler-signed git_dir peer_id theme issued c s o r params rep headers stats run h
        content =
      let (project, _, h₁) = >>=-eq-ok (path X C W (A.path_urn params)) _ h in
      let (qs, _, h₂) = >>=-eq-ok (query X C W (A.query_commits r)) _ h₁ in
      let listing = history_handler G X S s c.git_dir c.projects project qs.0 qs.1 in
      let (listed, found, sent_reply) = >>=-eq-ok (map_err (failed X C W) listing) _ h₂ in
      let same = ap (λ (x : Reply X C W). x.content) (ok-injective sent_reply) in
      subst (λ (t : List (Header × Option X.PeerInfo) × S.Stats). AllSignedBy G X S s t.0)
        (listing-injective (same ∙ content))
        (history_handler-AllSignedBy G X S c.projects s c.git_dir project qs.0 qs.1 listed
          (Run-AllSigned git_dir peer_id theme issued c run)
          (map_err-eq-ok (failed X C W) listing found))
