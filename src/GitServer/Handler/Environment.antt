-- ===== src/GitServer/Handler/Environment.antt =====
-- What the hooks find in the environment that `git` of git-server/src/lib.rs hands down.
use radicle_client_services.Base.{
  Text, lit, Lacks, All, Has, get, ◌==◌, split-join, Bool, true, false, Option, none, some, List,
  [], ◌∷◌, ◌++◌, map, ok, ◌≡◌, ◌≢◌, ◌↔◌, ◌∙◌, refl, ap,
}
use radicle_client_services.Extern.Peers.{Peers, HasEncoding}
use radicle_client_services.Extern.Monorepo.{Monorepo}
use radicle_client_services.Extern.Backend.{Backend, IteratesAll}
use radicle_client_services.GitServer.Context.{Context, Meta, load_authorized_keys}
use radicle_client_services.GitServer.Context.Keys.{load_authorized_keys_iff}
use radicle_client_services.GitServer.Hooks.Updates.{Line, read}
use radicle_client_services.GitServer.Hooks.PreReceive.{keyring}
use radicle_client_services.GitServer.Hooks.Delegates.{parse_peers, parse_delegates}
use radicle_client_services.GitServer.Handler.{
  Request, Env, var_if, var_of, var_list, encoded, request_env, command_env,
}

-- A variable of another name is passed over.
pub get-var_list_ne :
    (k j : Text) (xs : List Text) (n : Env)
    → (j == k) ≡ false
    → get k (var_list j xs ++ n) ≡ get k n
unfolding get
get-var_list_ne k j [] n h = refl
get-var_list_ne k j (x ∷ xs) n h = rw h

pub get-var_of_ne :
    (k j : Text) (o : Option Text) (n : Env) → (j == k) ≡ false → get k (var_of j o ++ n) ≡ get k n
unfolding get
get-var_of_ne k j none n h = refl
get-var_of_ne k j (some v) n h = rw h

get-var_if_ne :
    (k j v : Text) (b : Bool) (n : Env) → (j == k) ≡ false → get k (var_if b j v ++ n) ≡ get k n
unfolding get
get-var_if_ne k j v false n h = refl
get-var_if_ne k j v true n h = rw h

-- The name of none of the variables behind the two lists of keys.
abbrev IsOther : Text → Type 0
IsOther k =
    ((lit "RADICLE_ALLOW_UNAUTHORIZED_KEYS" == k) ≡ false)
    × ((lit "RADICLE_NAME" == k) ≡ false)
    × ((lit "RADICLE_PEER_ID" == k) ≡ false)
    × ((lit "RADICLE_DEFAULT_BRANCH" == k) ≡ false)
    × ((lit "RADICLE_ROOT" == k) ≡ false)

get-rest :
    (root : Option Text) (allow : Bool) (name peer branch : Option Text) (n : Env) (k : Text)
    → IsOther k
    → get k (
        var_if allow (lit "RADICLE_ALLOW_UNAUTHORIZED_KEYS") (lit "true")
        ++ (var_of (lit "RADICLE_NAME") name
            ++ (var_of (lit "RADICLE_PEER_ID") peer
                ++ (var_of (lit "RADICLE_DEFAULT_BRANCH") branch
                    ++ (var_of (lit "RADICLE_ROOT") root ++ (n))))))
      ≡ get k n
get-rest root allow name peer branch n k (h₁, h₂, h₃, h₄, h₅) =
    get-var_if_ne k (lit "RADICLE_ALLOW_UNAUTHORIZED_KEYS") (lit "true") allow
      (var_of (lit "RADICLE_NAME") name
        ++ (var_of (lit "RADICLE_PEER_ID") peer
            ++ (var_of (lit "RADICLE_DEFAULT_BRANCH") branch
                ++ (var_of (lit "RADICLE_ROOT") root ++ (n)))))
      h₁
    ∙ get-var_of_ne k (lit "RADICLE_NAME") name
        (var_of (lit "RADICLE_PEER_ID") peer
          ++ (var_of (lit "RADICLE_DEFAULT_BRANCH") branch
              ++ (var_of (lit "RADICLE_ROOT") root ++ (n))))
        h₂
    ∙ get-var_of_ne k (lit "RADICLE_PEER_ID") peer
        (var_of (lit "RADICLE_DEFAULT_BRANCH") branch ++ (var_of (lit "RADICLE_ROOT") root ++ (n)))
        h₃
    ∙ get-var_of_ne k (lit "RADICLE_DEFAULT_BRANCH") branch
        (var_of (lit "RADICLE_ROOT") root ++ (n)) h₄
    ∙ get-var_of_ne k (lit "RADICLE_ROOT") root n h₅

module _ {P : Peers} (G : Monorepo P) where
  -- The variable of the keys is the list of them, if there are any.
  get-keys :
      (ctx : Context) (keys : List Text) (meta : Meta G) (peer : Option P.PeerId) (dir : Text)
      (urn : G.Urn) (r : Request)
      → get (lit "RADICLE_AUTHORIZED_KEYS") (command_env G ctx keys meta peer dir urn r)
        ≡ get (lit "RADICLE_AUTHORIZED_KEYS") (var_list (lit "RADICLE_AUTHORIZED_KEYS") keys)
  unfolding command_env request_env get ◌==◌
  get-keys ctx (k ∷ keys) (name, delegates, branch) peer dir urn r = refl
  get-keys ctx [] (name, delegates, branch) peer dir urn r =
      get-var_list_ne (lit "RADICLE_AUTHORIZED_KEYS") (lit "RADICLE_DELEGATES")
        (map P.default_encoding delegates)
        (var_if ctx.allow_unauthorized_keys (lit "RADICLE_ALLOW_UNAUTHORIZED_KEYS") (lit "true")
          ++ (var_of (lit "RADICLE_NAME") name
              ++ (var_of (lit "RADICLE_PEER_ID") (encoded G peer)
                  ++ (var_of (lit "RADICLE_DEFAULT_BRANCH") branch
                      ++ (var_of (lit "RADICLE_ROOT") ctx.root
                          ++ (request_env ctx dir (G.encode_id urn) r))))))
        refl
      ∙ get-rest ctx.root ctx.allow_unauthorized_keys name (encoded G peer) branch
          (request_env ctx dir (G.encode_id urn) r) (lit "RADICLE_AUTHORIZED_KEYS")
          (refl, refl, refl, refl, refl)

  -- The same of the delegates, behind the keys.
  get-delegates :
      (ctx : Context) (keys : List Text) (name branch : Option Text) (delegates : List P.PeerId)
      (peer : Option P.PeerId) (dir : Text) (urn : G.Urn) (r : Request)
      → get
          (lit "RADICLE_DELEGATES")
          (command_env G ctx keys (name, delegates, branch) peer dir urn r)
        ≡ get
            (lit "RADICLE_DELEGATES")
            (var_list (lit "RADICLE_DELEGATES") (map P.default_encoding delegates))
  unfolding command_env request_env get ◌==◌
  get-delegates ctx [] name branch (d ∷ delegates) peer dir urn r = refl
  get-delegates ctx (k ∷ keys) name branch (d ∷ delegates) peer dir urn r = refl
  get-delegates ctx [] name branch [] peer dir urn r =
      get-rest ctx.root ctx.allow_unauthorized_keys name (encoded G peer) branch
        (request_env ctx dir (G.encode_id urn) r) (lit "RADICLE_DELEGATES")
        (refl, refl, refl, refl, refl)
  get-delegates ctx (k ∷ keys) name branch [] peer dir urn r =
      get-rest ctx.root ctx.allow_unauthorized_keys name (encoded G peer) branch
        (request_env ctx dir (G.encode_id urn) r) (lit "RADICLE_DELEGATES")
        (refl, refl, refl, refl, refl)

  keyring-var_list :
      (keys : List Text)
      → All (Lacks b',') keys
      → keyring
          (get (lit "RADICLE_AUTHORIZED_KEYS") (var_list (lit "RADICLE_AUTHORIZED_KEYS") keys))
        ≡ keys
  unfolding keyring get ◌==◌
  keyring-var_list [] plain = refl
  keyring-var_list (k ∷ keys) plain = split-join b',' k keys plain

  -- The pre-receive hook's keyring is the list of keys that the server passes on, if no key has a
  -- comma.
  pub keyring-command_env :
      (ctx : Context) (keys : List Text) (meta : Meta G) (peer : Option P.PeerId) (dir : Text)
      (urn : G.Urn) (r : Request)
      → All (Lacks b',') keys
      → keyring (get (lit "RADICLE_AUTHORIZED_KEYS") (command_env G ctx keys meta peer dir urn r))
        ≡ keys
  unfolding keyring get
  keyring-command_env ctx keys meta peer dir urn r plain =
      ap keyring (get-keys ctx keys meta peer dir urn r) ∙ keyring-var_list keys plain

  -- What the hook's keyring holds after the server has loaded its file is what the file lists: the
  -- file opens and is read, no key has a comma, and the key asked for is not empty.
  pub keyring-load_authorized_keys_iff :
      (ctx : Context) (B : Backend)
      → IteratesAll B
      → (lines : List Line) (keys : List Text) (meta : Meta G) (peer : Option P.PeerId) (dir : Text)
        (urn : G.Urn) (r : Request) (key : Text)
      → B.authorized_keys_file ≡ ok lines
      → load_authorized_keys B ≡ ok keys
      → All (Lacks b',') keys
      → key ≢ []
      → Has key (
          keyring
            (get (lit "RADICLE_AUTHORIZED_KEYS") (command_env G ctx keys meta peer dir urn r)))
        ↔ Has (read key) lines
  keyring-load_authorized_keys_iff ctx B I lines keys meta peer dir urn r key opened loaded plain
        n =
      rw (keyring-command_env ctx keys meta peer dir urn r plain)
        (load_authorized_keys_iff B I lines keys key opened loaded n)

  parse_peers-map :
      HasEncoding P
      → (delegates : List P.PeerId)
      → parse_peers P (map P.default_encoding delegates) ≡ ok delegates
  unfolding parse_peers
  parse_peers-map E [] = refl
  parse_peers-map E (d ∷ ds) = rw (E.from_str-encode d, parse_peers-map E ds) refl

  encoded-Lacks :
      HasEncoding P
      → (delegates : List P.PeerId) → All (Lacks b',') (map P.default_encoding delegates)
  encoded-Lacks E [] = tt
  encoded-Lacks E (d ∷ ds) = (E.no_comma d, encoded-Lacks E ds)

  parse_delegates-var_list :
      HasEncoding P
      → (delegates : List P.PeerId)
      → parse_delegates P (
          get
            (lit "RADICLE_DELEGATES")
            (var_list (lit "RADICLE_DELEGATES") (map P.default_encoding delegates)))
        ≡ ok delegates
  unfolding parse_delegates get ◌==◌
  parse_delegates-var_list E [] = refl
  parse_delegates-var_list E (d ∷ ds) =
      ap (parse_peers P) (
        split-join b',' (P.default_encoding d) (map P.default_encoding ds)
          (encoded-Lacks E (d ∷ ds)))
      ∙ parse_peers-map E (d ∷ ds)

  -- The post-receive hook reads back the peers of the identity that the server looked up, if the
  -- encoding of peer ids is read back and has no comma.
  pub parse_delegates-command_env :
      HasEncoding P
      → (ctx : Context) (keys : List Text) (name branch : Option Text) (delegates : List P.PeerId)
        (peer : Option P.PeerId) (dir : Text) (urn : G.Urn) (r : Request)
      → parse_delegates P (
          get
            (lit "RADICLE_DELEGATES")
            (command_env G ctx keys (name, delegates, branch) peer dir urn r))
        ≡ ok delegates
  parse_delegates-command_env E ctx keys name branch delegates peer dir urn r =
      ap (parse_delegates P) (get-delegates ctx keys name branch delegates peer dir urn r)
      ∙ parse_delegates-var_list E delegates
