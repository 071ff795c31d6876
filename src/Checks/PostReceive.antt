-- ===== src/Checks/PostReceive.antt =====
-- The post-receive hook at concrete pushes.
use radicle_client_services.Base.{
  lit, ◌==◌, split, strip_prefix, split_once, contains, ends_with, all, any, find, All, some, none,
  List, [], ◌∷◌, ok, ◌≡◌, ◌≢◌, ◌⊎◌, inl, inr, refl, true,
}
use radicle_client_services.Base.Action.{for_each}
use radicle_client_services.Extern.Identity.{project, direct}
use radicle_client_services.GitServer.RefName.{parse_ref, parse_ref_sound, parse_ref_complete}
use radicle_client_services.GitServer.Hooks.Types.{ReceivePackEnv, init_from_env}
use radicle_client_services.GitServer.Hooks.Updates.{Update, parse_update, read_updates}
use radicle_client_services.GitServer.Hooks.Delegates.{parse_delegates, parse_peers, identity_peers}
use radicle_client_services.GitServer.Hooks.PostReceive.{
  PostReceive, from_stdin, set_head, update_ref, update_refs, find_identity_update, verify,
  set_identity_ref, update_identity, initialize_identity, track_identity, hook_line, write_update,
  run_child, spawned, receive_hook, exists_identity, hook,
}
use radicle_client_services.GitServer.Hooks.PostReceive.Identity.{
  IsVerified, IsPushed, rad_id_write, set_identity_ref_lem, initialize_identity_lem,
}
use radicle_client_services.GitServer.Storage.{open_storage}
use radicle_client_services.GitServer.Hooks.PostReceive.Head.{IsHeadUpdate, update_refs-keeps}
use radicle_client_services.GitServer.Hooks.PostReceive.Target.{Follows, update_refs-Follows}
use radicle_client_services.GitServer.Hooks.PostReceive.Tracking.{track_identity-delegates}
use radicle_client_services.Checks.Toy.{
  peers, peers-HasEq, repo, repo-HasRefs, repo-HasTracking, alice, bob, Disk, lookup, decode,
  empty_disk,
}

runs : Unit {0}
unfolding hook exists_identity receive_hook spawned run_child write_update hook_line track_identity
    open_storage identity_peers initialize_identity update_identity set_identity_ref verify
    find_identity_update update_refs update_ref set_head from_stdin parse_delegates parse_peers
    read_updates parse_update init_from_env parse_ref strip_prefix split_once split contains
    ends_with all any find for_each lookup decode ◌==◌
runs = tt

abbrev env : ReceivePackEnv peers
env = record {
  cert = none;
  cert_signer = none;
  cert_key = some (lit "SHA256:k");
  cert_status = none;
  cert_nonce = none;
  cert_nonce_status = none;
  authorized_keys = none;
  delegates = some (lit "alice");
  allow_unauthorized_keys = none;
  name = none;
  peer_id = none;
  receive_hook = none;
  default_branch = some (lit "master");
  root = none;
  git_namespace = lit "hnrk";
  remote_user = none;
  remote_addr = none;
  git_committer_name = none;
  git_committer_email = none;
  content_type = [];
  query_string = [];
  git_dir = lit "/git";
}

abbrev push_of : List (Update repo) → PostReceive repo
push_of updates = record {
  urn = lit "hnrk";
  delegates = alice ∷ [];
  paths = tt;
  key_fingerprint = lit "SHA256:k";
  updates = updates;
  env = env;
}

abbrev master_of_alice : Update repo
master_of_alice = (lit "refs/remotes/alice/heads/master", 0, 7)

abbrev master_of_bob : Update repo
master_of_bob = (lit "refs/remotes/bob/heads/master", 0, 7)

-- the disk when the hook runs: git has updated the reference
abbrev disk : Disk
disk = record empty_disk {
  refs = (lit "refs/namespaces/hnrk/refs/remotes/alice/heads/master", 7) ∷ [];
  documents = (7, project (lit "hnrk") (lit "p") none (direct alice ∷ direct bob ∷ [])) ∷ [];
}

head_is_set :
    (update_refs repo (push_of (master_of_alice ∷ [])) disk).1.links
    ≡ (lit "refs/namespaces/hnrk/HEAD", lit "refs/namespaces/hnrk/refs/heads/master") ∷ []
unfolding runs
head_is_set = refl

alice_is_head : IsHeadUpdate repo (push_of (master_of_alice ∷ [])) (lit "master") master_of_alice
unfolding runs
alice_is_head = record {
  peer = alice;
  named = parse_ref_sound peers _ alice (lit "heads/master") refl;
  sole = refl;
}

update_refs-Follows_example :
    Follows repo repo-HasRefs peers-HasEq
      (push_of (master_of_alice ∷ []))
      (lit "master")
      (update_refs repo (push_of (master_of_alice ∷ [])) disk).1
unfolding runs
update_refs-Follows_example =
    update_refs-Follows repo repo-HasRefs peers-HasEq (push_of (master_of_alice ∷ []))
      (lit "master") disk master_of_alice refl (inl refl) alice_is_head refl

bob_is_no_head : ¬ IsHeadUpdate repo (push_of (master_of_bob ∷ [])) (lit "master") master_of_bob
unfolding runs
bob_is_no_head h =
    cc (h.sole, parse_ref_complete peers master_of_bob.0 h.peer (lit "heads/master") h.named)

update_refs-keeps_example : (update_refs repo (push_of (master_of_bob ∷ [])) disk).1 ≡ disk
update_refs-keeps_example =
    update_refs-keeps repo peers-HasEq (push_of (master_of_bob ∷ [])) (lit "master") disk refl
      (bob_is_no_head, tt)

set_identity_ref_lem_example :
    (IsVerified repo disk (push_of []) 7
      × ((set_identity_ref repo (push_of []) 7 disk).1 ≡ (rad_id_write repo (push_of []) 7 disk).1))
    ⊎ (((set_identity_ref repo (push_of []) 7 disk).1 ≡ disk)
        × ((set_identity_ref repo (push_of []) 7 disk).0 ≢ ok tt))
set_identity_ref_lem_example = set_identity_ref_lem repo (push_of []) 7 disk

track_identity-delegates_example :
    repo.tracks (track_identity repo (push_of []) none disk).1 (lit "hnrk") bob ≡ true
unfolding runs
track_identity-delegates_example =
    track_identity-delegates repo repo-HasTracking (push_of []) disk
      (project (lit "hnrk") (lit "p") none (direct alice ∷ direct bob ∷ [])) bob refl
      (inl (inr (inl refl))) refl

abbrev rad_id_of_alice : Update repo
rad_id_of_alice = (lit "refs/remotes/alice/rad/id", 0, 7)

initialize_identity_lem_example :
    ((oid : repo.Oid) × IsPushed repo (push_of (rad_id_of_alice ∷ [])) oid
      × All (λ u. repo.oid_is_zero u.1 ≡ true) (rad_id_of_alice ∷ [])
      × IsVerified repo disk (push_of (rad_id_of_alice ∷ [])) oid
      × ((initialize_identity repo (push_of (rad_id_of_alice ∷ [])) disk).1
          ≡ (rad_id_write repo (push_of (rad_id_of_alice ∷ [])) oid disk).1))
    ⊎ (((initialize_identity repo (push_of (rad_id_of_alice ∷ [])) disk).1 ≡ disk)
        × ((initialize_identity repo (push_of (rad_id_of_alice ∷ [])) disk).0 ≢ ok tt))
initialize_identity_lem_example = initialize_identity_lem repo (push_of (rad_id_of_alice ∷ [])) disk
