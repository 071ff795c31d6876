-- ===== src/Checks/Server.antt =====
-- The handler of the git server on concrete requests.
use radicle_client_services.Base.{
  Text, ℕ, sym, append-nil, drop_all, ◌<◌, lit, ◌==◌, Assoc, get, insert, if◌then◌else◌, Bool, true,
  false, none, some, List, [], ◌∷◌, ok, contains, All, Lacks, strip_suffix, split_once, slice,
  split, is_utf8, is_boundary, remove, length, drop, ◌≡◌, ◌≢◌, ◌↔◌, refl, arith,
}
use radicle_client_services.Extern.Identity.{SomeIdentity, project}
use radicle_client_services.Extern.Monorepo.{Monorepo}
use radicle_client_services.Extern.Backend.{Backend, IteratesAll, IsBuf}
use radicle_client_services.GitServer.Context.{Context, load_authorized_keys}
use radicle_client_services.GitServer.Alias.{resolve_project}
use radicle_client_services.GitServer.Response.{
  Headers, parse_reply, reply_status, status_in, read_headers, header_line, strip_cr, push_header,
}
use radicle_client_services.GitServer.Response.Values.{IsCode, first, values, listed}
use radicle_client_services.GitServer.Response.Roundtrip.{IsHeader, render, parse_reply-render}
use radicle_client_services.GitServer.Hooks.Updates.{Line, read}
use radicle_client_services.GitServer.Hooks.Delegates.{parse_delegates}
use radicle_client_services.GitServer.Handler.{Request, is_receive_pack, command_env, git}
use radicle_client_services.GitServer.Handler.Environment.{parse_delegates-command_env}
use radicle_client_services.GitServer.Handler.Gate.{IsServed, git_iff}
use radicle_client_services.GitServer.Server.{serve_all}
use radicle_client_services.GitServer.Server.Stability.{serve_all-alias}
use radicle_client_services.Checks.Toy.{
  alice, bob, peers, peers-HasEncoding, Disk, repo, empty_disk,
}

abbrev lines : List Line
lines = read (lit "k1") ∷ read [] ∷ read (lit "k2") ∷ read (lit "k1") ∷ []

abbrev reply_text : Text
reply_text = render ((lit "Status", lit "404 Not Found") ∷ (lit "A", lit "x") ∷ []) (lit "body")

abbrev pub backend : Backend
backend = record {
  authorized_keys_file = ok lines;
  iterate = λ ks. ks;
  iterate_headers = λ hs. hs;
  canonical_git_dir = ok (lit "/git");
  spawn = λ e. ok tt;
  Body = Text;
  has_remaining = λ b. elim b [ [] ↦ false | x ∷ xs ↦ true ];
  remaining = length;
  chunk = λ b. b;
  advance = drop;
  write_chunk = λ w c. ok tt;
  gunzip = λ b. ok b;
  wait_with_output = λ e b. ok (record { success = true; stdout = reply_text; stderr = [] });
  parse_status = λ t. if t == lit "404" then some 404 else none;
  header_name = λ t. some t;
  header_value = λ t. some t;
}

backend-IteratesAll : IteratesAll backend
backend-IteratesAll = record { iterate_iff = λ k ks. (λ h. h, λ h. h) }

pub none_remaining : (b : Text) → backend.has_remaining b ≡ false → b ≡ []
none_remaining [] h = refl
none_remaining (x ∷ xs) h = ground arith

pub chunk-length : (b : Text) → backend.has_remaining b ≡ true → 0 < length b
chunk-length [] h = ground arith
chunk-length (x ∷ xs) h = omega arith

abbrev pub backend-IsBuf : IsBuf backend
backend-IsBuf = record {
  contents = λ b. b;
  rest = λ b. [];
  remaining-length = λ b. refl;
  contents-chunk = λ b. sym (append-nil b);
  advance-rest = λ b. drop_all (length b) b (omega arith);
  none_remaining = none_remaining;
  chunk-length = chunk-length;
}

abbrev pub context : Bool → Context
context enabled = record {
  root = none;
  git_receive_pack = enabled;
  cert_nonce_seed = none;
  git_receive_hook = lit "/hook";
  allow_unauthorized_keys = true;
}

abbrev pub request : Request
request = record {
  method = lit "POST";
  header = λ n. none;
  remote_ip = lit "1.2.3.4";
  remote = lit "1.2.3.4:5";
  project_id = lit "acme.git";
  path = lit "/git-receive-pack";
  query = some (lit "service=git-receive-pack");
}

abbrev document : SomeIdentity peers Text
document = project (lit "urn") (lit "acme") (some (lit "main")) []

abbrev pub disk : Disk
disk = record empty_disk { documents = (0, document) ∷ [] }

-- no text is a urn, so that names are aliases
abbrev pub named_repo : Monorepo peers
named_repo = record repo { try_from_id = λ t. none }

loaded : load_authorized_keys backend ≡ ok (lit "k2" ∷ lit "k1" ∷ [])
unfolding load_authorized_keys contains ◌==◌
loaded = refl

plain : All (Lacks b',') (lit "k2" ∷ lit "k1" ∷ [])
plain = ground arith

nonempty : lit "k2" ≢ []
nonempty = ground arith

parse_delegates-command_env_example :
    parse_delegates peers (
      get (lit "RADICLE_DELEGATES") (
        command_env repo
          (context true)
          (lit "k1" ∷ [])
          (some (lit "acme"), alice ∷ bob ∷ [], none)
          none
          (lit "/git")
          (lit "urn")
          request))
    ≡ ok (alice ∷ bob ∷ [])
parse_delegates-command_env_example =
    parse_delegates-command_env repo peers-HasEncoding (context true) (lit "k1" ∷ [])
      (some (lit "acme")) none (alice ∷ bob ∷ []) none (lit "/git") (lit "urn") request

git_iff_example :
    (git repo (context true) backend disk (lit "urn") none request (lit "pack")
      ≡ ok (404, (lit "A", lit "x" ∷ []) ∷ [], lit "body"))
    ↔ IsServed repo
        (context true)
        backend
        backend-IsBuf
        disk
        (lit "urn")
        none
        request
        (lit "pack")
        (404, (lit "A", lit "x" ∷ []) ∷ [], lit "body")
git_iff_example =
    git_iff repo (context true) backend backend-IsBuf disk (lit "urn") none request (lit "pack")
      (404, (lit "A", lit "x" ∷ []) ∷ [], lit "body")

-- what axum hands over of the path has a slash in front, so that only the query tells of a push
is_push : is_receive_pack request.path (lit "service=git-receive-pack") ≡ true
unfolding is_receive_pack ◌==◌
is_push = refl

is_no_push : is_receive_pack request.path [] ≡ false
unfolding is_receive_pack ◌==◌
is_no_push = refl

abbrev headers : List (Text × Text)
headers = (lit "Status", lit "404 Not Found") ∷ (lit "A", lit "x") ∷ []

headers-IsHeader : All IsHeader headers
unfolding is_utf8 is_boundary
headers-IsHeader = ground arith

parse_reply-render_example :
    (code : ℕ) × (hs : Headers) × (parse_reply backend.parse_status (render headers (lit "body"))
      ≡ ok (code, hs, lit "body"))
    × IsCode backend.parse_status (first (values (lit "Status") headers)) code
    × ((name : Text)
        → get name hs ≡ (if lit "Status" == name then none else listed (values name headers)))
parse_reply-render_example =
    parse_reply-render backend.parse_status headers (lit "body") headers-IsHeader

-- the status, the headers and the body of that reply
replies :
    parse_reply backend.parse_status reply_text ≡ ok (404, (lit "A", lit "x" ∷ []) ∷ [], lit "body")
unfolding parse_reply read_headers header_line strip_cr is_utf8 ◌==◌ split_once slice is_boundary
    push_header get insert remove reply_status status_in split
replies = refl

pub has_suffix : strip_suffix (lit ".git") (lit "acme.git") ≡ some (lit "acme")
unfolding strip_suffix ◌==◌
has_suffix = refl

abbrev pub cache : Assoc Text
cache = (lit "acme", lit "cached") ∷ []

is_cached : get (lit "acme") cache ≡ some (lit "cached")
unfolding get ◌==◌
is_cached = refl

-- the alias, behind a request for it and a state of the repository without the project
abbrev calls : List (Disk × Request × Text)
calls = (empty_disk, request, lit "pack") ∷ (disk, request, lit "pack") ∷ []

serve_all-alias_example :
    (resolve_project named_repo empty_disk
      (lit "acme.git")
      (serve_all named_repo (context true) backend calls cache)).0
    ≡ ok (lit "cached")
serve_all-alias_example =
    serve_all-alias named_repo (lit "acme") (lit "cached") (context true) backend calls empty_disk
      (lit "acme.git") cache has_suffix refl is_cached
