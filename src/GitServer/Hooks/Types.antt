-- ===== src/GitServer/Hooks/Types.antt =====
-- git-server/src/hooks/types.rs: the environment that git-http-backend and the server hand to the
-- hooks.
pub mod Loaded
use radicle_client_services.Base.{Text, lit, Bool, Option, ok, map_err, ◌>>=◌}
use radicle_client_services.Extern.Peers.{Peers}
use radicle_client_services.Extern.Vars.{Vars}
use radicle_client_services.GitServer.Error.{Result, env_config_error}

module _ (P : Peers) where
  pub record ReceivePackEnv : Type 0 where
    pub cert : Option Text
    pub cert_signer : Option Text
    pub cert_key : Option Text
    pub cert_status : Option Text
    pub cert_nonce : Option Text
    pub cert_nonce_status : Option Text
    pub authorized_keys : Option Text
    pub delegates : Option Text
    pub allow_unauthorized_keys : Option Bool
    pub name : Option Text
    pub peer_id : Option P.PeerId
    pub receive_hook : Option Text
    pub default_branch : Option Text
    pub root : Option Text
    pub git_namespace : Text
    pub remote_user : Option Text
    pub remote_addr : Option Text
    pub git_committer_name : Option Text
    pub git_committer_email : Option Text
    pub content_type : Text
    pub query_string : Text
    pub git_dir : Text

  module _ (V : Vars P) where
    abbrev pub optional : V.Env → Text → Result (Option Text)
    optional e name = map_err env_config_error (V.load_optional_var e name)

    abbrev pub required : V.Env → Text → Result Text
    required e name = map_err env_config_error (V.load_var e name)

    -- ReceivePackEnv::init_from_env: each field from the variable that its attribute names
    unfoldable pub init_from_env : V.Env → Result ReceivePackEnv
    init_from_env e = do
      cert ← optional e (lit "GIT_PUSH_CERT")
      cert_signer ← optional e (lit "GIT_PUSH_CERT_SIGNER")
      cert_key ← optional e (lit "GIT_PUSH_CERT_KEY")
      cert_status ← optional e (lit "GIT_PUSH_CERT_STATUS")
      cert_nonce ← optional e (lit "GIT_PUSH_CERT_NONCE")
      cert_nonce_status ← optional e (lit "GIT_PUSH_CERT_NONCE_STATUS")
      authorized_keys ← optional e (lit "RADICLE_AUTHORIZED_KEYS")
      delegates ← optional e (lit "RADICLE_DELEGATES")
      allow ←
          map_err env_config_error (V.load_optional_bool e (lit "RADICLE_ALLOW_UNAUTHORIZED_KEYS"))
      name ← optional e (lit "RADICLE_NAME")
      peer_id ← map_err env_config_error (V.load_optional_peer e (lit "RADICLE_PEER_ID"))
      receive_hook ← optional e (lit "RADICLE_RECEIVE_HOOK")
      default_branch ← optional e (lit "RADICLE_DEFAULT_BRANCH")
      root ← optional e (lit "RADICLE_ROOT")
      git_namespace ← required e (lit "GIT_NAMESPACE")
      remote_user ← optional e (lit "REMOTE_USER")
      remote_addr ← optional e (lit "REMOTE_ADDR")
      git_committer_name ← optional e (lit "GIT_COMMITTER_NAME")
      git_committer_email ← optional e (lit "GIT_COMMITTER_EMAIL")
      content_type ← required e (lit "CONTENT_TYPE")
      query_string ← required e (lit "QUERY_STRING")
      git_dir ← required e (lit "GIT_DIR")
      ok (record {
        cert = cert;
        cert_signer = cert_signer;
        cert_key = cert_key;
        cert_status = cert_status;
        cert_nonce = cert_nonce;
        cert_nonce_status = cert_nonce_status;
        authorized_keys = authorized_keys;
        delegates = delegates;
        allow_unauthorized_keys = allow;
        name = name;
        peer_id = peer_id;
        receive_hook = receive_hook;
        default_branch = default_branch;
        root = root;
        git_namespace = git_namespace;
        remote_user = remote_user;
        remote_addr = remote_addr;
        git_committer_name = git_committer_name;
        git_committer_email = git_committer_email;
        content_type = content_type;
        query_string = query_string;
        git_dir = git_dir;
      })
