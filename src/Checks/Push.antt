-- ===== src/Checks/Push.antt =====
-- A push to a server that lists one key, from the request to the verdict of the hook.
use radicle_client_services.Base.{
  Text, or_else-none, lit, get, All, Lacks, get_or_else, ◌==◌, contains, true, false, subst, none,
  some, ◌↔◌, List, [], ◌∷◌, ◌++◌, join, ok, ◌≡◌, ◌∙◌, refl, sym, arith,
}
use radicle_client_services.Extern.Vars.{LoadsOptional, LoadsUnset, LoadsFlag, Inherits}
use radicle_client_services.Extern.Backend.{Backend, IteratesAll}
use radicle_client_services.GitServer.Context.{Context, load_authorized_keys}
use radicle_client_services.GitServer.Handler.{
  content_type, is_receive_pack, keys_for, join_root, request_env, command_env,
}
use radicle_client_services.GitServer.Hooks.Updates.{read}
use radicle_client_services.GitServer.Programs.{exit_code, pre_receive_main}
use radicle_client_services.GitServer.Push.{IsAuthorized, pre_receive_main-IsAuthorized}
use radicle_client_services.GitServer.Push.Taken.{pre_receive_main_iff}
use radicle_client_services.GitServer.Hooks.Types.{ReceivePackEnv, init_from_env}
use radicle_client_services.GitServer.Hooks.PreReceive.Acceptance.{Opens}
use radicle_client_services.Checks.Toy.{peers, repo, vars, lookup, empty_disk}
use radicle_client_services.Checks.PreReceive.{alice_key, to_alice, runs}
use radicle_client_services.Checks.Server.{backend, context, request}

vars-LoadsOptional : LoadsOptional peers vars
vars-LoadsOptional = record { load_lem = λ e name. refl }

vars-LoadsUnset : LoadsUnset peers vars
vars-LoadsUnset = record { load_optional_bool-unset = λ e name h. rw h refl }

abbrev server : Backend
server = record backend { authorized_keys_file = ok (read alice_key ∷ []) }

server-IteratesAll : IteratesAll server
server-IteratesAll = record { iterate_iff = λ k ks. (λ h. h, λ h. h) }

abbrev strict : Context
strict = record (context true) { allow_unauthorized_keys = false }

abbrev given : List (Text × Text)
given =
    command_env repo strict (alice_key ∷ []) (none, [], none) none (lit "/git") (lit "hnrk") request

-- what git adds for its hooks
abbrev added : List (Text × Text)
added =
    (lit "GIT_PUSH_CERT_KEY", alice_key)
    ∷ (lit "GIT_PUSH_CERT_STATUS", lit "U")
    ∷ (lit "GIT_PUSH_CERT_NONCE_STATUS", lit "OK")
    ∷ (lit "GIT_DIR", lit "/git")
    ∷ []

lookup-get : (name : Text) (e : List (Text × Text)) → lookup name e ≡ get name e
unfolding lookup get
lookup-get name [] = refl
lookup-get name ((k, v) ∷ e) = rw (lookup-get name e) refl

skips_added :
    (name rest : Text)
    → lit "RADICLE_" ++ rest ≡ name
    → lookup name (added ++ given) ≡ get name given
unfolding lookup ◌==◌
skips_added name rest h =
    subst (λ n. lookup n (added ++ given) ≡ get n given) h
      (lookup-get (lit "RADICLE_" ++ rest) given)

inherits : Inherits peers vars (λ name. none) (λ name. get name given) (added ++ given)
inherits = record { inherited = λ name rest h. skips_added name rest h ∙ sym (or_else-none _) }

passed : keys_for strict server request.path (get_or_else request.query []) ≡ ok (alice_key ∷ [])
unfolding keys_for is_receive_pack load_authorized_keys contains ◌==◌
passed = refl

plain : All (Lacks b',') (alice_key ∷ [])
plain = ground arith

accepted : pre_receive_main repo vars to_alice (added ++ given) empty_disk ≡ 0
unfolding pre_receive_main exit_code runs command_env request_env content_type join_root join
accepted = refl

pre_receive_main-IsAuthorized_example :
    IsAuthorized repo vars to_alice (added ++ given) strict server request
pre_receive_main-IsAuthorized_example =
    pre_receive_main-IsAuthorized repo vars to_alice (added ++ given) vars-LoadsOptional
      vars-LoadsUnset (λ name. none) strict server server-IteratesAll (alice_key ∷ [])
      (none, [], none) none (lit "/git") (lit "hnrk") request inherits passed plain empty_disk refl
      refl accepted

vars-LoadsFlag : LoadsFlag peers vars
unfolding ◌==◌
vars-LoadsFlag = record { load_optional_bool-set = λ e name h. rw h refl }

-- what the hook reads of its environment
abbrev hook_env : ReceivePackEnv peers
hook_env = record {
  cert = none;
  cert_signer = none;
  cert_key = some alice_key;
  cert_status = some (lit "U");
  cert_nonce = none;
  cert_nonce_status = some (lit "OK");
  authorized_keys = some alice_key;
  delegates = none;
  allow_unauthorized_keys = none;
  name = none;
  peer_id = none;
  receive_hook = some (lit "/hook");
  default_branch = none;
  root = none;
  git_namespace = lit "hnrk";
  remote_user = some (lit "1.2.3.4");
  remote_addr = some (lit "1.2.3.4:5");
  git_committer_name = none;
  git_committer_email = none;
  content_type = [];
  query_string = lit "service=git-receive-pack";
  git_dir = lit "/git";
}

reads : init_from_env peers vars (added ++ given) ≡ ok hook_env
unfolding runs command_env request_env content_type join_root join
reads = refl

opens : Opens repo vars to_alice (added ++ given) empty_disk hook_env
opens = record { bare = refl; namespaced = refl }

pre_receive_main_iff_example :
    (pre_receive_main repo vars to_alice (added ++ given) empty_disk ≡ 0)
    ↔ IsAuthorized repo vars to_alice (added ++ given) strict server request
pre_receive_main_iff_example =
    pre_receive_main_iff repo vars to_alice (added ++ given) vars-LoadsOptional vars-LoadsUnset
      vars-LoadsFlag (λ name. none) strict server server-IteratesAll (alice_key ∷ [])
      (none, [], none) none (lit "/git") (lit "hnrk") request inherits passed plain empty_disk
      hook_env refl refl reads opens
