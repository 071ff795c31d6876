-- ===== src/GitServer/Context.antt =====
-- `Context` of git-server/src/lib.rs: the options of the server, the keys that it loads for a push,
-- and what it knows of an identity.
pub mod Keys
use radicle_client_services.Base.{
  Text, contains, ◌==◌, Bool, Option, none, some, List, [], ◌∷◌, Outcome, ok, err, panic, ok_or,
  map_err, ◌>>=◌, if◌then◌else◌,
}
use radicle_client_services.Extern.Peers.{Peers}
use radicle_client_services.Extern.Identity.{SomeIdentity, person, project, unknown}
use radicle_client_services.Extern.Monorepo.{Monorepo}
use radicle_client_services.Extern.Backend.{Backend}
use radicle_client_services.GitServer.Error.{
  Error, Result, IoErrorKind, not_found, io, pool, identities, no_default_branch,
}
use radicle_client_services.GitServer.Hooks.Updates.{Line, read, failed}
use radicle_client_services.GitServer.Hooks.Delegates.{identity_peers}

-- The fields that requests read; `root` is the path of `LnkHome::Root`, if it is one.
pub record Context : Type 0 where
  pub root : Option Text
  pub git_receive_pack : Bool
  pub cert_nonce_seed : Option Text
  pub git_receive_hook : Text
  pub allow_unauthorized_keys : Bool

-- HashSet::insert
abbrev insert_key : Text → List Text → List Text
insert_key key keys = if contains ◌==◌ key keys then keys else key ∷ keys

-- the loop over the lines of the file
collect_keys : List Text → List Line → Result (List Text)
collect_keys keys [] = ok keys
collect_keys keys (failed k ∷ lines) = err (io k)
collect_keys keys (read [] ∷ lines) = collect_keys keys lines
collect_keys keys (read (c ∷ key) ∷ lines) = collect_keys (insert_key (c ∷ key) keys) lines

-- the match on the opened file: any error in opening it is logged and gives no keys
keys_of_file : Outcome IoErrorKind (List Line) → Result (List Text)
keys_of_file (ok lines) = collect_keys [] lines
keys_of_file (err kind) = ok []
keys_of_file panic = panic

unfoldable pub load_authorized_keys : Backend → Result (List Text)
unfolding keys_of_file collect_keys
load_authorized_keys B = do
  authorized_keys ← keys_of_file B.authorized_keys_file
  ok (B.iterate authorized_keys)

module _ {P : Peers} (G : Monorepo P) where
  -- name, peers and default branch
  abbrev pub Meta : Type 0
  Meta = Option Text × List P.PeerId × Option Text

  meta_of : Option (SomeIdentity P G.Urn) → Result Meta
  meta_of none = ok (none, [], none)
  meta_of (some (person urn name keys)) =
      ok (some name, identity_peers P (person urn name keys), none)
  meta_of (some (project urn name branch delegations)) = do
    default_branch ← ok_or no_default_branch branch
    ok (some name, identity_peers P (project urn name branch delegations), some default_branch)
  meta_of (some (unknown urn)) = ok (none, [], none)

  unfoldable pub get_meta : G.Store → G.Urn → Result Meta
  unfolding meta_of
  get_meta s urn = do
    u ← map_err pool (G.pool_get s)
    doc ← map_err identities (G.get_identity s urn)
    meta_of doc
