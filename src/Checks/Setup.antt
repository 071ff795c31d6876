-- ===== src/Checks/Setup.antt =====
-- A disk of files and one profile: the start of the services on it.
use radicle_client_services.Base.{
  Text, lit, ℕ, Assoc, get, insert, get-insert, eq_refl, is_utf8, Option, none, some, [], ok, err,
  Outcome, true, false, ◌≡◌, ◌∙◌, refl, ap,
}
use radicle_client_services.Extern.Keystore.{Keystore, KeepsFiles}
use radicle_client_services.Shared.{
  home_of, find_or_create, signer_from, finish_profile, with_profile, profile, generate, signer,
  plain, private_mode,
}
use radicle_client_services.Shared.Profiles.{profile-active}
use radicle_client_services.Shared.KeyFiles.{IsPrivate, generate-signer}
use radicle_client_services.GitServer.Context.{Context}
use radicle_client_services.GitServer.Alias.{populate_aliases}
use radicle_client_services.GitServer.Config.{
  configure, set_root_git_config, set_cert_nonce_seed, set_cert_nonce_slop, advertise_push_options,
  disable_signers_file, disable_gc,
}
use radicle_client_services.GitServer.Start.{
  Options, World, context_from, create_context, fill_aliases, set_config, start,
}
use radicle_client_services.GitServer.Start.Ready.{IsReady, start-IsReady}
use radicle_client_services.Checks.Toy.{repo}
use radicle_client_services.Checks.Start.{config, config-KeepsFields, before}
use radicle_client_services.Checks.Server.{disk}

record Files : Type 0 where
  contents : Assoc Text
  modes : Assoc ℕ
  profiles : Option Text

abbrev read : Option Text → Outcome Text Text
read none = err (lit "not found")
read (some t) = ok t

abbrev keystore : Keystore
keystore = record {
  Disk = Files;
  IoError = Text;
  invalid_data = λ t. t;
  permission_denied = λ t. t;
  read_file = λ d path. read (get path d.contents);
  create_file = λ path d. (ok tt, record d { contents = insert path [] d.contents });
  metadata = λ d path. ok tt;
  set_mode = λ path m d. (ok tt, record d { modes = insert path m d.modes });
  write_all = λ path t d. (ok tt, record d { contents = insert path t d.contents });
  content = λ d path. get path d.contents;
  mode = λ d path. get path d.modes;
  SecretKey = Text;
  from_bytes = λ t. ok t;
  bytes = λ t. t;
  new_key = lit "key";
  get_key = λ d path pass. ok (lit "key");
  Home = Text;
  Profile = Text;
  root_home = λ t. t;
  default_home = lit "/home";
  canonicalize = λ d t. ok t;
  active = λ d home. ok d.profiles;
  Hash = Text;
  pwhash = λ t. t;
  create = λ home hash d. (ok (lit "new"), record d { profiles = some (lit "new") });
  Socket = Unit {0};
  BoxedSigner = Text;
  load_secret_key = λ d p pass. ok (lit "key");
  ssh_auth_sock = λ d. err (lit "no agent");
  signer_of_key = λ key p. ok key;
  signer_of_socket = λ d sock p. err (lit "no agent");
}

get_inserted : {A : Type 0} (k : Text) (a : A) (m : Assoc A) → get k (insert k a m) ≡ some a
get_inserted k a m = get-insert k k a m ∙ rw (eq_refl k) refl

get_read : (k a : Text) (m : Assoc Text) → read (get k (insert k a m)) ≡ ok a
get_read k a m = ap read (get_inserted k a m)

ok_some :
    (a b : Text)
    → ◌≡◌ {A = Outcome Text Text} (ok a) (ok b)
    → ◌≡◌ {A = Outcome Text (Option Text)} (ok (some a)) (ok (some b))
ok_some a b h = cc

keystore-KeepsFiles : KeepsFiles keystore
keystore-KeepsFiles = record {
  create-active = λ home hash d p h. ok_some (lit "new") p h;
  from_bytes-bytes = λ key. refl;
  create_file-content = λ path d h. get_inserted path [] d.contents;
  set_mode-mode = λ path m d h. get_inserted path m d.modes;
  set_mode-content = λ path m d. refl;
  write_all-mode = λ path t d. refl;
  write_all-read = λ path t d h. get_read path t d.contents;
}

abbrev files : Files
files = record { contents = []; modes = []; profiles = none }

abbrev pass : Option Text
pass = some (lit "pass")

creates : (profile keystore none pass files).0 ≡ ok (lit "/home", lit "new", lit "key")
unfolding profile home_of with_profile find_or_create finish_profile signer_from
creates = refl

profile-active_example :
    (home_of keystore files none ≡ ok (lit "/home"))
    × (keystore.active (profile keystore none pass files).1 (lit "/home") ≡ ok (some (lit "new")))
profile-active_example =
    profile-active keystore keystore-KeepsFiles none pass files (lit "/home") (lit "new")
      (lit "key") creates

generates : (generate keystore (lit "id") files).0 ≡ ok tt
unfolding generate
generates = refl

generate-signer_example :
    (signer keystore (generate keystore (lit "id") files).1 (plain (lit "id")) ≡ ok (lit "key"))
    × (keystore.mode (generate keystore (lit "id") files).1 (lit "id") ≡ some private_mode)
    × ((d : Files) × IsPrivate keystore keystore-KeepsFiles (lit "id") d
        × ((generate keystore (lit "id") files).1
            ≡ (keystore.write_all (lit "id") (lit "key") d).1))
generate-signer_example = generate-signer keystore keystore-KeepsFiles (lit "id") files generates

abbrev options : Options
options = record {
  root = none;
  passphrase = pass;
  listen = lit "0.0.0.0:8778";
  tls_cert = none;
  tls_key = none;
  git_receive_pack = true;
  cert_nonce_seed = some (lit "seed");
  allow_unauthorized_keys = false;
}

abbrev world : World repo config keystore
world = record { disk = files; config = before; aliases = [] }

abbrev context : Context
context = record {
  root = none;
  git_receive_pack = true;
  cert_nonce_seed = some (lit "seed");
  git_receive_hook = lit "/git/hooks/post-receive-ok";
  allow_unauthorized_keys = false;
}

abbrev git_dir : Files → Text → Outcome Text Text
git_dir d p = ok (lit "/git")

abbrev root_of : Text → Option Text
root_of home = none

starts :
    (start repo config keystore git_dir root_of (ok (lit "git 2")) disk options world).0
    ≡ ok context
unfolding start create_context context_from fill_aliases set_config is_utf8 profile home_of
    with_profile find_or_create finish_profile signer_from populate_aliases configure
    set_cert_nonce_seed set_cert_nonce_slop advertise_push_options disable_signers_file disable_gc
    set_root_git_config
starts = refl

start-IsReady_example :
    IsReady repo config keystore config-KeepsFields git_dir root_of disk options world
      (start repo config keystore git_dir root_of (ok (lit "git 2")) disk options world).1
      context
start-IsReady_example =
    start-IsReady repo config keystore config-KeepsFields git_dir root_of (ok (lit "git 2")) disk
      options world context starts
