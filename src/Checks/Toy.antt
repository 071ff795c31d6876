-- ===== src/Checks/Toy.antt =====
-- Two peers, a repository in memory and an environment as a list: the interfaces, with their laws.
use radicle_client_services.Base.{
  Text, Lacks, lit, ℕ, ◌+◌, ◌-◌, ◌==◌, eq_iff, if◌then◌else◌, Bool, true, false, any, ◌&&◌, eq_refl,
  Option, some, none, List, [], ◌∷◌, Outcome, ok, err, ◌≡◌, ◌≢◌, ◌↔◌, refl, ap, map, arith,
}
use radicle_client_services.Extern.Peers.{Peers, HasEq, HasEncoding}
use radicle_client_services.Extern.Identity.{SomeIdentity}
use radicle_client_services.Extern.Monorepo.{Monorepo, HasRefs, HasTracking, HasOids}
use radicle_client_services.Extern.Process.{Process}
use radicle_client_services.Extern.Vars.{Vars}

pub data Peer : Type 0 where
  alice bob : Peer

abbrev pub same : Peer → Peer → Bool
same alice alice = true
same alice bob = false
same bob alice = false
same bob bob = true

same_iff : (a b : Peer) → (same a b ≡ true) ↔ (a ≡ b)
same_iff alice alice = ground arith
same_iff alice bob = ground arith
same_iff bob alice = ground arith
same_iff bob bob = ground arith

abbrev pub encode : Peer → Text
encode alice = lit "alice"
encode bob = lit "bob"

unfoldable pub decode : Text → Option Peer
unfolding ◌==◌
decode t = if t == lit "alice" then some alice else if t == lit "bob" then some bob else none

abbrev pub peers : Peers
peers = record {
  PeerId = Peer;
  PublicKey = Peer;
  peer_eq = same;
  from_default_encoding = decode;
  from_str = decode;
  default_encoding = encode;
  as_public_key = λ p. p;
  from_public_key = λ p. p;
  key_bytes = encode;
  base64_decode = λ t. some t;
  base64_encode = λ t. t;
  sha256 = λ t. t;
}

pub peers-HasEq : HasEq peers
peers-HasEq = record { eq_iff = same_iff }

decode-encode : (a : Peer) → decode (encode a) ≡ some a
unfolding decode
decode-encode alice = refl
decode-encode bob = refl

no_comma : (a : Peer) → Lacks b',' (encode a)
no_comma alice = ground arith
no_comma bob = ground arith

pub peers-HasEncoding : HasEncoding peers
peers-HasEncoding = record {
  decode-encode = decode-encode;
  from_str-encode = decode-encode;
  no_comma = no_comma;
}

-- An association list, the latest entry first.
unfoldable pub lookup {ℓ} : {A : Type ℓ} → Text → List (Text × A) → Option A
lookup k [] = none
lookup k ((j, a) ∷ m) = if j == k then some a else lookup k m

pub record Disk : Type 0 where
  pub refs : List (Text × ℕ)
  pub links : List (Text × Text)
  pub documents : List (ℕ × SomeIdentity peers Text)
  pub tracked : List (Text × Peer)

-- one digit
abbrev digit : Text → Outcome Text ℕ
digit [] = err (lit "empty")
digit (c ∷ []) = ok (c - 48)
digit (c ∷ d ∷ s) = err (lit "too long")

abbrev resolve : Option ℕ → Option Text → Outcome Text (Option ℕ)
resolve (some o) t = ok (some o)
resolve none (some t) = ok none
resolve none none = err (lit "not found")

abbrev pub find_on : Disk → Text → Outcome Text (Option ℕ)
find_on s n = resolve (lookup n s.refs) (lookup n s.links)

abbrev first_document : List (ℕ × SomeIdentity peers Text) → Outcome Text (SomeIdentity peers Text)
first_document [] = err (lit "no document")
first_document ((o, d) ∷ ds) = ok d

abbrev pub repo : Monorepo peers
repo = record {
  Oid = ℕ;
  oid_from_str = digit;
  oid_is_zero = λ o. elim o [ ℕ.zero ↦ true | ℕ.suc n ↦ false ];
  oid_to_string = λ o. (o + 48) ∷ [];
  Urn = Text;
  urn_eq = ◌==◌;
  try_from_id = λ t. some t;
  encode_id = λ u. u;
  Store = Disk;
  open_bare = λ s d. ok tt;
  set_namespace = λ s n. ok tt;
  find_reference = find_on;
  reference = λ n o f m s. (ok o, record s { refs = (n, o) ∷ s.refs });
  reference_symbolic = λ n t f m s. (ok tt, record s { links = (n, t) ∷ s.links });
  symbolic_target = λ s n. lookup n s.links;
  Paths = Unit {0};
  profile_paths = λ s r. ok tt;
  git_dir_of = λ p. lit "/git";
  open_storage = λ s p. ok tt;
  some_identity = λ s o. first_document s.documents;
  verify_person = λ s o. ok tt;
  verify_project = λ s o. ok tt;
  get_identity = λ s u. elim (first_document s.documents) [
    | ok d ↦ ok (some d)
    | err e ↦ ok none
    | Outcome.panic ↦ Outcome.panic
  ];
  list_identities = λ s. ok (map (λ d. ok d.1) s.documents);
  pool_get = λ s. ok tt;
  track = λ u p s. (ok (ok tt), record s { tracked = (u, p) ∷ s.tracked });
  tracks = λ s u p. any (λ e. e.0 == u && same e.1 p) s.tracked;
}

module _ {ℓ} {A : Type ℓ} where
  lookup_self : (k : Text) (a : A) (m : List (Text × A)) → lookup k ((k, a) ∷ m) ≡ some a
  unfolding lookup
  lookup_self k a m = rw eq_refl

  lookup_ne :
      (k j : Text) (a : A) (m : List (Text × A)) → j ≢ k → lookup k ((j, a) ∷ m) ≡ lookup k m
  unfolding lookup
  lookup_ne k j a m h = ground (arith, eq_iff j k)

pub repo-HasRefs : HasRefs repo
repo-HasRefs = record {
  reference-found = λ n o m s h. ap (λ r. resolve r (lookup n s.links)) (lookup_self n o s.refs);
  reference-found_ne =
      λ n o m s k h. ap (λ r. resolve r (lookup k s.links)) (lookup_ne k n o s.refs h);
  reference-target_ne = λ n o m s k h. refl;
  symbolic-target = λ n t m s h. lookup_self n t s.links;
  symbolic-found_ne =
      λ n t m s k h. ap (λ r. resolve (lookup k s.refs) r) (lookup_ne k n t s.links h);
}

track-tracks :
    (u : Text) (a : Peer) (es : List (Text × Peer))
    → any (λ e. e.0 == u && same e.1 a) ((u, a) ∷ es) ≡ true
unfolding any
track-tracks u a es = rw (eq_refl u, (same_iff a a).1 refl)

track-keeps :
    (u v : Text) (a b : Peer) (es : List (Text × Peer))
    → any (λ e. e.0 == v && same e.1 b) es ≡ true
    → any (λ e. e.0 == v && same e.1 b) ((u, a) ∷ es) ≡ true
unfolding any
track-keeps u v a b es h = ground arith

pub repo-HasTracking : HasTracking repo
repo-HasTracking = record {
  track-tracks = λ u a s h. track-tracks u a s.tracked;
  track-keeps = λ u v a b s h. track-keeps u v a b s.tracked h;
}

digit_of : (o : ℕ) → digit ((o + 48) ∷ []) ≡ ok o
digit_of o = ground arith

pub repo-HasOids : HasOids repo
repo-HasOids = record { from-to = digit_of; no_blank = λ o. (λ e. absurd (omega arith), tt) }

abbrev missing : Text
missing = lit "missing"

abbrev pub vars : Vars peers
vars = record {
  Env = List (Text × Text);
  var = λ e n. lookup n e;
  load_var = λ e n. elim (lookup n e) [ none ↦ err missing | some t ↦ ok t ];
  load_optional_var = λ e n. ok (lookup n e);
  load_optional_bool =
      λ e n. ok (elim (lookup n e) [ none ↦ none | some t ↦ some (t == lit "true") ]);
  load_optional_peer = λ e n. ok (elim (lookup n e) [ none ↦ none | some t ↦ decode t ]);
}

abbrev pub process : Process Disk
process = record {
  spawn = λ path s. (ok tt, s);
  write_line = λ line s. (ok tt, s);
  wait = λ s. (ok true, s);
}

abbrev pub empty_disk : Disk
empty_disk = record { refs = []; links = []; documents = []; tracked = [] }
