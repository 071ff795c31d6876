-- ===== src/Extern/Backend.antt =====
-- What the HTTP handler of the git server uses besides the repository: files, the git process, and
-- the http, flate2 and std crates.
use radicle_client_services.Base.{
  Text, ℕ, Bool, Option, List, Outcome, Has, Assoc, ◌↔◌, length, ◌++◌, [], ◌≡◌, ◌<◌, true, false,
}
use radicle_client_services.GitServer.Error.{IoErrorKind}
use radicle_client_services.GitServer.Hooks.Updates.{Line}

-- std::process::Output
pub record Output : Type 0 where
  pub success : Bool
  pub stdout : Text
  pub stderr : Text

pub record Backend : Type 1 where
  -- File::open of the authorized keys file, and its lines
  pub authorized_keys_file : Outcome IoErrorKind (List Line)
  -- the order in which a HashSet gives its elements back
  pub iterate : List Text → List Text
  -- the order in which a HashMap gives its entries back
  pub iterate_headers : Assoc (List Text) → Assoc (List Text)
  -- paths.git_dir().canonicalize()
  pub canonical_git_dir : Outcome IoErrorKind Text
  -- Command::spawn with this environment
  pub spawn : List (Text × Text) → Outcome IoErrorKind (Unit {0})
  -- bytes::Buf of a body: whether bytes remain, how many, the next ones, and stepping over some
  pub Body : Type 0
  pub has_remaining : Body → Bool
  pub remaining : Body → ℕ
  pub chunk : Body → Text
  pub advance : ℕ → Body → Body
  -- io::copy of a chunk into the child's standard input, behind what was copied before it
  pub write_chunk : Text → Text → Outcome IoErrorKind (Unit {0})
  -- what reaches it of a body through GzDecoder
  pub gunzip : Body → Outcome IoErrorKind Text
  -- Child::wait_with_output for this environment and input
  pub wait_with_output : List (Text × Text) → Text → Outcome IoErrorKind Output
  -- StatusCode::from_str
  pub parse_status : Text → Option ℕ
  -- HeaderName::try_from, HeaderValue::from_str
  pub header_name : Text → Option Text
  pub header_value : Text → Option Text

-- A HashSet gives back what it holds.
pub record IteratesAll (B : Backend) : Type 0 where
  pub iterate_iff : (k : Text) (ks : List Text) → Has k (B.iterate ks) ↔ Has k ks

-- The contract of bytes::Buf: the next bytes are the first of those that remain, there are some as
-- long as any remain, and stepping over them leaves the rest.
pub record IsBuf (B : Backend) : Type 0 where
  pub contents : B.Body → Text
  pub rest : B.Body → Text
  pub remaining-length : (b : B.Body) → B.remaining b ≡ length (contents b)
  pub contents-chunk : (b : B.Body) → contents b ≡ B.chunk b ++ rest b
  pub advance-rest : (b : B.Body) → contents (B.advance (length (B.chunk b)) b) ≡ rest b
  pub none_remaining : (b : B.Body) → B.has_remaining b ≡ false → contents b ≡ []
  pub chunk-length : (b : B.Body) → B.has_remaining b ≡ true → 0 < length (B.chunk b)
