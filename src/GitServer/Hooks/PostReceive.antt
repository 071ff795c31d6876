-- ===== src/GitServer/Hooks/PostReceive.antt =====
-- git-server/src/hooks/post_receive.rs: what happens after the references of a push are updated.
pub mod Identity
pub mod Head
pub mod Target
pub mod Tracking
use radicle_client_services.Base.{
  Text, lit, ◌==◌, split, strip_prefix, ends_with, contains, length, head?, find, all, eqb, not,
  if◌then◌else◌, Bool, true, false, Option, none, some, List, [], ◌∷◌, ◌++◌, map, Outcome, ok, err,
  panic, ok_or, map_err,
}
use radicle_client_services.Base.Action.{Action, pure, raise, lift, gets, ◌>>=◌, ◌>>◌, for_each}
use radicle_client_services.Extern.Peers.{Peers}
use radicle_client_services.Extern.Identity.{
  Delegation, direct, indirect, SomeIdentity, person, project, unknown, urn_of,
}
use radicle_client_services.Extern.Monorepo.{Monorepo}
use radicle_client_services.Extern.Vars.{Vars}
use radicle_client_services.Extern.Process.{Process}
use radicle_client_services.GitServer.Error.{
  Error, Result, IoErrorKind, not_found, io, git2_error, invalid_id, invalid_peer_id, profile,
  post_receive, init, namespace_not_found, verify_identity, identities, track, previous_error,
  custom_hook,
}
use radicle_client_services.GitServer.RefName.{parse_ref}
use radicle_client_services.GitServer.Storage.{open_storage}
use radicle_client_services.GitServer.Hooks.Types.{ReceivePackEnv, init_from_env}
use radicle_client_services.GitServer.Hooks.Delegates.{parse_delegates, identity_peers}
use radicle_client_services.GitServer.Hooks.Updates.{Line, Update, read_updates}

abbrev pub rad_id_ref : Text
rad_id_ref = lit "rad/id"

-- `Result::is_ok`
abbrev found_ok : {E A : Type 0} → Outcome E A → Bool
found_ok (ok a) = true
found_ok (err e) = false
found_ok panic = false

module _ {P : Peers} (G : Monorepo P) where
  pub record PostReceive : Type 0 where
    pub urn : G.Urn
    pub delegates : List P.PeerId
    pub paths : G.Paths
    pub key_fingerprint : Text
    pub updates : List (Update G)
    pub env : ReceivePackEnv P

  abbrev pub Hook : Type 0 → Type 0
  Hook A = Action G.Store Error A

  -- an operation of git2 that changes the repository
  abbrev pub git2 : {A : Type 0} → (G.Store → Outcome Text A × G.Store) → Hook A
  git2 m s = (map_err git2_error (m s).0, (m s).1)

  unfoldable pub from_stdin : (V : Vars P) → List Line → V.Env → Hook PostReceive
  from_stdin V lines e = do
    updates ← lift (read_updates G lines)
    env ← lift (init_from_env P V e)
    urn ← lift (ok_or invalid_id (G.try_from_id env.git_namespace))
    paths ← gets (λ s. map_err profile (G.profile_paths s env.root))
    delegates ← lift (parse_delegates P env.delegates)
    key_fingerprint ←
        lift (ok_or (post_receive (lit "push certificate is not available")) env.cert_key)
    pure (record {
      urn = urn;
      delegates = delegates;
      paths = paths;
      key_fingerprint = key_fingerprint;
      updates = updates;
      env = env;
    })

  abbrev pub namespace_ref : PostReceive → Text → Text
  namespace_ref p refname = lit "refs/namespaces/" ++ p.env.git_namespace ++ lit "/refs/" ++ refname

  -- refs/namespaces/<namespace>, and the references of `set_head` below it
  abbrev pub namespace_path : PostReceive → Text
  namespace_path p = lit "refs/namespaces/" ++ G.encode_id p.urn

  abbrev pub head_ref : PostReceive → Text
  head_ref p = namespace_path p ++ lit "/HEAD"

  abbrev pub local_branch_ref : PostReceive → Text → Text
  local_branch_ref p branch = namespace_path p ++ (lit "/refs/heads/" ++ branch)

  unfoldable pub set_head : PostReceive → Text → Text → Hook G.Oid
  set_head p branch_ref branch = do
    target ←
        gets (λ s. map_err git2_error (G.find_reference s (namespace_path p ++ b'/' ∷ branch_ref)))
    oid ← lift (elim target [ none ↦ panic | some oid ↦ ok oid ])
    _ ← git2 (G.reference (local_branch_ref p branch) oid true (lit "set-local-branch (radicle)"))
    _ ← git2 (
        G.reference_symbolic (head_ref p) (local_branch_ref p branch) true
          (lit "set-head (radicle)"))
    pure oid

  -- the body of the loop of `update_refs`; `continue` is a return
  unfoldable pub update_ref : PostReceive → Text → Update G → Hook (Unit {0})
  update_ref p default_branch (refname, from, new) = do
    parsed ← lift (parse_ref P refname)
    if not (contains P.peer_eq parsed.0 p.delegates)
        then pure tt
        else if not (parsed.1 == lit "heads/" ++ default_branch)
        then pure tt
        else if eqb (length p.delegates) 1
        then (set_head p refname default_branch >>= λ _. pure tt)
        else pure tt

  -- without a default branch a personal identity is pushed
  update_branch : PostReceive → Option Text → Hook (Unit {0})
  update_branch p none = pure tt
  update_branch p (some branch) = for_each (update_ref p branch) p.updates

  unfoldable pub update_refs : PostReceive → Hook (Unit {0})
  unfolding update_branch
  update_refs p = update_branch p p.env.default_branch

  unfoldable pub find_identity_update : PostReceive → Option G.Oid
  find_identity_update p = elim (find (λ u. ends_with rad_id_ref u.0) p.updates) [
    | none ↦ none
    | some u ↦ some u.2
  ]

  -- the `match identity` of `set_identity_ref`
  unfoldable pub verify : G.Store → G.Oid → SomeIdentity P G.Urn → Result (Unit {0})
  verify s oid (person urn name keys) = map_err verify_identity (G.verify_person s oid)
  verify s oid (project urn name branch ds) = map_err verify_identity (G.verify_project s oid)
  verify s oid (unknown urn) = err (post_receive (lit "unknown identity type"))

  unfoldable pub set_identity_ref : PostReceive → G.Oid → Hook (Unit {0})
  set_identity_ref p oid = do
    _ ← gets (λ s. map_err init (G.open_storage s p.paths))
    identity ← gets (λ s. map_err (λ _. namespace_not_found) (G.some_identity s oid))
    lift (
        if G.urn_eq (urn_of P G.Urn identity) p.urn
        then ok tt
        else err (post_receive (lit "identity document doesn't match project id")))
    gets (λ s. verify s oid identity)
    _ ← git2 (
        G.reference (namespace_ref p rad_id_ref) oid true
          (lit "set-id (" ++ p.key_fingerprint ++ lit ")"))
    pure tt

  unfoldable pub update_identity : PostReceive → Hook (Unit {0})
  update_identity p = elim (find_identity_update p) [
    | none ↦ pure tt
    | some oid ↦ set_identity_ref p oid
  ]

  unfoldable pub initialize_identity : PostReceive → Hook (Unit {0})
  initialize_identity p = elim (find_identity_update p) [
    | none ↦ raise (post_receive (lit "identity ref 'rad/id' not found in updates"))
    | some oid ↦
        if not (all (λ u. G.oid_is_zero u.1) p.updates)
        then raise (post_receive (lit "identity old ref already exists"))
        else set_identity_ref p oid
  ]

  -- `??` on what tracking::track returns
  abbrev pub flatten_track : Outcome Text (Outcome Text (Unit {0})) → Result (Unit {0})
  flatten_track (ok inner) = map_err previous_error inner
  flatten_track (err e) = err (track e)
  flatten_track panic = panic

  abbrev pub track_peer : PostReceive → P.PeerId → Hook (Unit {0})
  track_peer p peer s = (flatten_track (G.track p.urn peer s).0, (G.track p.urn peer s).1)

  unfoldable pub track_identity : PostReceive → Option P.PeerId → Hook (Unit {0})
  track_identity p (some peer) = do open_storage G p.paths; track_peer p peer
  track_identity p none = do
    open_storage G p.paths
    found ← gets (λ s. map_err identities (G.get_identity s p.urn))
    identity ← lift (ok_or (post_receive (lit "identity could not be found")) found)
    for_each (track_peer p) (identity_peers P identity)

  module _ (C : Process G.Store) where
    -- an update of a branch, on the standard input of the custom hook
    unfoldable pub hook_line : Update G → Result (Option Text)
    hook_line (refname, old, new) = elim (parse_ref P refname) [
      | ok parsed ↦ ok (elim (strip_prefix (lit "heads/") parsed.1) [
        | none ↦ none
        | some branch ↦ some (
            P.default_encoding parsed.0
            ++ lit " "
            ++ G.oid_to_string old
            ++ lit " "
            ++ G.oid_to_string new
            ++ lit " "
            ++ branch)
      ])
      | err e ↦ err e
      | panic ↦ panic
    ]

    unfoldable pub write_update : Update G → Hook (Unit {0})
    write_update u = do
      line ← lift (hook_line u)
      elim line [
        | none ↦ pure tt
        | some text ↦ λ s. (map_err io (C.write_line text s).0, (C.write_line text s).1)
      ]

    unfoldable pub run_child : PostReceive → Hook (Unit {0})
    run_child p = do
      for_each write_update p.updates
      status ← λ s. (map_err io (C.wait s).0, (C.wait s).1)
      pure tt

    -- a hook that is not there is skipped
    unfoldable pub spawned : Outcome IoErrorKind (Unit {0}) → PostReceive → Hook (Unit {0})
    spawned (ok u) p = run_child p
    spawned (err not_found) p = pure tt
    spawned (err kind) p = raise (custom_hook kind)
    spawned panic p = lift panic

    unfoldable pub receive_hook : PostReceive → Hook (Unit {0})
    receive_hook p = elim p.env.receive_hook [
      | none ↦ pure tt
      | some path ↦ λ s. spawned (C.spawn path s).0 p (C.spawn path s).1
    ]

    unfoldable pub exists_identity : PostReceive → Hook (Unit {0})
    exists_identity p = do
      update_refs p
      elim (head? p.updates) [
        | none ↦ pure tt
        | some u ↦ do
          parsed ← lift (parse_ref P u.0)
          track_identity p (some parsed.0)
          update_identity p
          receive_hook p
      ]

    -- PostReceive::hook
    unfoldable pub hook : (V : Vars P) → List Line → V.Env → Hook (Unit {0})
    hook V lines e = do
      p ← from_stdin V lines e
      gets (λ s. map_err git2_error (G.open_bare s p.env.git_dir))
      exists ← gets (λ s. ok (found_ok (G.find_reference s (namespace_ref p rad_id_ref))))
      if exists then exists_identity p else (initialize_identity p >> track_identity p none)
