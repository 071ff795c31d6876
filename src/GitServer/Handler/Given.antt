-- ===== src/GitServer/Handler/Given.antt =====
-- What `git` of git-server/src/lib.rs gives to git-http-backend: its variables, and its input.
use radicle_client_services.Base.{
  Text, lit, ◌==◌, get, get_or_else, or_else, or_else-none, if◌then◌else◌, map, join, Bool, true,
  false, Option, none, some, List, [], ◌∷◌, ◌++◌, ok, Bool-cases, eq_iff, ◌≡◌, ◌≢◌, ◌⊎◌, inl, inr,
  ◌∙◌, refl, ap, arith,
}
use radicle_client_services.Extern.Peers.{Peers}
use radicle_client_services.Extern.Monorepo.{Monorepo}
use radicle_client_services.Extern.Backend.{Backend, IsBuf}
use radicle_client_services.GitServer.Context.{Context, Meta}
use radicle_client_services.GitServer.Body.{copy_body}
use radicle_client_services.GitServer.Body.Copying.{copy_rounds-Ended}
use radicle_client_services.GitServer.Handler.{
  Request, Env, is_gzip, content_type, join_root, var_if, var_of, var_list, request_env, encoded,
  command_env,
}

-- Texts behind one another with commas between them, if there are any.
abbrev pub joined : List Text → Option Text
joined [] = none
joined (x ∷ xs) = some (join b',' (x ∷ xs))

-- The text of a header, which is empty without the header, or if it is no text.
abbrev pub header_text : Request → Text → Text
header_text r name = get_or_else (get_or_else (r.header name) none) []

-- the variables that are set
abbrev set : List (Text × Option Text) → Env
set [] = []
set ((k, none) ∷ l) = set l
set ((k, some v) ∷ l) = (k, v) ∷ set l

-- the value of a variable, the first that is set
abbrev value_in : Text → List (Text × Option Text) → Option Text
value_in k [] = none
value_in k ((j, o) ∷ l) = let behind = value_in k l in if j == k then or_else o behind else behind

get-set : (k : Text) (l : List (Text × Option Text)) → get k (set l) ≡ value_in k l
unfolding get
get-set k [] = refl
get-set k ((j, none) ∷ l) = elim (Bool-cases (j == k)) [
  | inl same ↦ rw same (get-set k l)
  | inr other ↦ rw other (get-set k l)
]
get-set k ((j, some v) ∷ l) = elim (Bool-cases (j == k)) [
  | inl same ↦ rw same refl
  | inr other ↦ rw other (get-set k l)
]

of_step :
    (k : Text) (o : Option Text) (m : Env) (l : List (Text × Option Text))
    → m ≡ set l
    → var_of k o ++ m ≡ set ((k, o) ∷ l)
of_step k none m l h = h
of_step k (some v) m l h = ap (λ t. (k, v) ∷ t) h

list_step :
    (k : Text) (xs : List Text) (m : Env) (l : List (Text × Option Text))
    → m ≡ set l
    → var_list k xs ++ m ≡ set ((k, joined xs) ∷ l)
list_step k [] m l h = h
list_step k (x ∷ xs) m l h = ap (λ t. (k, join b',' (x ∷ xs)) ∷ t) h

if_step :
    (k : Text) (b : Bool) (v : Text) (m : Env) (l : List (Text × Option Text))
    → m ≡ set l
    → var_if b k v ++ m ≡ set ((k, if b then some v else none) ∷ l)
if_step k true v m l h = ap (λ t. (k, v) ∷ t) h
if_step k false v m l h = h

module _ {P : Peers} (G : Monorepo P) where
  abbrev pub peer_text : Option P.PeerId → Option Text
  peer_text none = none
  peer_text (some peer) = some (P.default_encoding peer)

  peer_step :
      (k : Text) (o : Option P.PeerId) (m : Env) (l : List (Text × Option Text))
      → m ≡ set l
      → var_of k (encoded G o) ++ m ≡ set ((k, peer_text o) ∷ l)
  peer_step k none m l h = h
  peer_step k (some peer) m l h = ap (λ t. (k, P.default_encoding peer) ∷ t) h

  -- What git finds in the environment.
  pub record IsGiven (ctx : Context) (ks : List Text) (name : Option Text)
      (delegates : List P.PeerId) (branch : Option Text) (peer : Option P.PeerId) (dir : Text)
      (urn : G.Urn) (r : Request) (env : Env) : Type 0 where
    pub keys : get (lit "RADICLE_AUTHORIZED_KEYS") env ≡ joined ks
    pub delegate_ids : get (lit "RADICLE_DELEGATES") env ≡ joined (map P.default_encoding delegates)
    pub allow :
        get (lit "RADICLE_ALLOW_UNAUTHORIZED_KEYS") env
        ≡ (if ctx.allow_unauthorized_keys then some (lit "true") else none)
    pub project_name : get (lit "RADICLE_NAME") env ≡ name
    pub peer_id : get (lit "RADICLE_PEER_ID") env ≡ peer_text peer
    pub default_branch : get (lit "RADICLE_DEFAULT_BRANCH") env ≡ branch
    pub root : get (lit "RADICLE_ROOT") env ≡ ctx.root
    pub receive_hook : get (lit "RADICLE_RECEIVE_HOOK") env ≡ some ctx.git_receive_hook
    pub request_method : get (lit "REQUEST_METHOD") env ≡ some r.method
    pub project_root : get (lit "GIT_PROJECT_ROOT") env ≡ some dir
    pub namespace : get (lit "GIT_NAMESPACE") env ≡ some (G.encode_id urn)
    pub path_info : get (lit "PATH_INFO") env ≡ some (join_root r.path)
    pub content_type : get (lit "CONTENT_TYPE") env ≡ some (header_text r (lit "Content-Type"))
    pub remote_user : get (lit "REMOTE_USER") env ≡ some r.remote_ip
    pub remote_addr : get (lit "REMOTE_ADDR") env ≡ some r.remote
    pub query_string : get (lit "QUERY_STRING") env ≡ some (get_or_else r.query [])
    pub export_all : get (lit "GIT_HTTP_EXPORT_ALL") env ≡ some []

  abbrev table :
      Context
      → List Text
      → Meta G
      → Option P.PeerId
      → Text
      → G.Urn
      → Request
      → List (Text × Option Text)
  table ctx ks (name, delegates, branch) peer dir urn r =
      (lit "RADICLE_AUTHORIZED_KEYS", joined ks)
      ∷ (lit "RADICLE_DELEGATES", joined (map P.default_encoding delegates))
      ∷ (
        lit "RADICLE_ALLOW_UNAUTHORIZED_KEYS",
        if ctx.allow_unauthorized_keys then some (lit "true") else none,
      )
      ∷ (lit "RADICLE_NAME", name)
      ∷ (lit "RADICLE_PEER_ID", peer_text peer)
      ∷ (lit "RADICLE_DEFAULT_BRANCH", branch)
      ∷ (lit "RADICLE_ROOT", ctx.root)
      ∷ (lit "RADICLE_RECEIVE_HOOK", some ctx.git_receive_hook)
      ∷ (lit "REQUEST_METHOD", some r.method)
      ∷ (lit "GIT_PROJECT_ROOT", some dir)
      ∷ (lit "GIT_NAMESPACE", some (G.encode_id urn))
      ∷ (lit "PATH_INFO", some (join_root r.path))
      ∷ (lit "CONTENT_TYPE", some (header_text r (lit "Content-Type")))
      ∷ (lit "REMOTE_USER", some r.remote_ip)
      ∷ (lit "REMOTE_ADDR", some r.remote)
      ∷ (lit "QUERY_STRING", some (get_or_else r.query []))
      ∷ (lit "GIT_HTTP_EXPORT_ALL", some [])
      ∷ []

  command_env-set :
      (ctx : Context) (ks : List Text) (meta : Meta G) (peer : Option P.PeerId) (dir : Text)
      (urn : G.Urn) (r : Request)
      → command_env G ctx ks meta peer dir urn r ≡ set (table ctx ks meta peer dir urn r)
  unfolding command_env request_env content_type
  command_env-set ctx ks (name, delegates, branch) peer dir urn r = list_step _ ks _ _ (
      list_step _ (map P.default_encoding delegates) _ _ (
        if_step _ ctx.allow_unauthorized_keys _ _ _ (
          of_step _ name _ _
            (peer_step _ peer _ _ (of_step _ branch _ _ (of_step _ ctx.root _ _ refl))))))

  pub command_env-IsGiven :
      (ctx : Context) (ks : List Text) (name : Option Text) (delegates : List P.PeerId)
      (branch : Option Text) (peer : Option P.PeerId) (dir : Text) (urn : G.Urn) (r : Request)
      → IsGiven ctx ks name delegates branch peer dir urn r
          (command_env G ctx ks (name, delegates, branch) peer dir urn r)
  unfolding ◌==◌
  command_env-IsGiven ctx ks name delegates branch peer dir urn r =
      let meta : Meta G = (name, delegates, branch) in
      let found = λ (k : Text).
        ap (get k) (command_env-set ctx ks meta peer dir urn r)
        ∙ get-set k (table ctx ks meta peer dir urn r) in
      record {
        keys = found (lit "RADICLE_AUTHORIZED_KEYS") ∙ or_else-none _;
        delegate_ids = found (lit "RADICLE_DELEGATES") ∙ or_else-none _;
        allow = found (lit "RADICLE_ALLOW_UNAUTHORIZED_KEYS") ∙ or_else-none _;
        project_name = found (lit "RADICLE_NAME") ∙ or_else-none _;
        peer_id = found (lit "RADICLE_PEER_ID") ∙ or_else-none _;
        default_branch = found (lit "RADICLE_DEFAULT_BRANCH") ∙ or_else-none _;
        root = found (lit "RADICLE_ROOT") ∙ or_else-none _;
        receive_hook = found (lit "RADICLE_RECEIVE_HOOK");
        request_method = found (lit "REQUEST_METHOD");
        project_root = found (lit "GIT_PROJECT_ROOT");
        namespace = found (lit "GIT_NAMESPACE");
        path_info = found (lit "PATH_INFO");
        content_type = found (lit "CONTENT_TYPE");
        remote_user = found (lit "REMOTE_USER");
        remote_addr = found (lit "REMOTE_ADDR");
        query_string = found (lit "QUERY_STRING");
        export_all = found (lit "GIT_HTTP_EXPORT_ALL");
      }

module _ (B : Backend) (I : IsBuf B) where
  -- The input of git: what the body unpacks to if its encoding is gzip, and else the body itself.
  abbrev pub IsInput : Request → B.Body → Text → Type 0
  IsInput r body input =
      ((header_text r (lit "Content-Encoding") ≡ lit "gzip") × (B.gunzip body ≡ ok input))
      ⊎ ((header_text r (lit "Content-Encoding") ≢ lit "gzip") × (input ≡ I.contents body))

  copied-contents :
      (body : B.Body) (input : Text) → copy_body B body ≡ ok input → input ≡ I.contents body
  unfolding copy_body
  copied-contents body input h = elim (copy_rounds-Ended B I body) [
    | inl all ↦ ground (arith, all)
    | inr (inl (e, written, chunk, ended, bad)) ↦ absurd (ground (arith, ended))
    | inr (inr (written, chunk, ended, bad)) ↦ absurd (ground (arith, ended))
  ]

  pub copied-IsInput :
      (r : Request) (body : B.Body) (input : Text)
      → (if is_gzip r then B.gunzip body else copy_body B body) ≡ ok input
      → IsInput r body input
  unfolding is_gzip
  copied-IsInput r body input h = elim (Bool-cases (is_gzip r)) [
    | inl packed ↦ inl ((eq_iff _ _).0 packed, rw packed at h)
    | inr plain ↦ inr (
      λ e. absurd (ground (arith, eq_iff (header_text r (lit "Content-Encoding")) (lit "gzip"))),
      copied-contents body input (rw plain at h),
    )
  ]
