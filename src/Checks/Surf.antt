-- ===== src/Checks/Surf.antt =====
-- A browser that is the number of its revision, and objects made of it.
use radicle_client_services.Base.{
  Text, lit, ℕ, ℤ, pos, ◌==◌, if◌then◌else◌, eqb, Option, none, some, [], ◌∷◌, ok, err, refl, arith,
}
use radicle_client_services.Extern.Surf.{Surf, HasHeads, other}
use radicle_client_services.Extern.Cobs.{Parts, Cobs, NeverPanics, Revision, Patch}
use radicle_client_services.Checks.Toy.{Peer, alice, repo}
use radicle_client_services.Checks.Api.{headers}

pub record Ref : Type 0 where
  pub namespace : Text
  pub remote : Option Peer
  pub name : Text

abbrev pub surf : Surf repo
surf = record {
  Reference = Ref;
  head = λ u p n. record { namespace = u; remote = p; name = n };
  namespace_of = λ r. some r.namespace;
  name_of = λ r. r.name;
  remote_of = λ r. r.remote;
  one_from_str = λ t. some t;
  Namespace = Text;
  Branch = Text;
  Oid = ℕ;
  Rev = ℕ;
  namespace_from = λ t. ok t;
  oid_from_str = λ t. elim t [ [] ↦ none | c ∷ cs ↦ some c ];
  remote = λ b p. b;
  rev_of_oid = λ o. some o;
  rev_of_branch = λ b. none;
  Browser = ℕ;
  open_repository = λ s. ok tt;
  new_with_namespace = λ s n r. ok r;
  Commit = ℕ;
  Stats = Unit {0};
  Tree = Unit {0};
  Blob = Text;
  sha1_of = λ c. lit "1";
  oid = λ b t. ok 5;
  commit = λ b o. ok o;
  commits = λ b. ok (headers, tt);
  tree = λ b t. ok tt;
  get_stats = λ b. ok tt;
  blob = λ b path theme. if path == lit "README.md" then ok (lit "# acme") else err (other []);
  times = λ b. pos 3 ∷ pos 40000000 ∷ [];
  references = λ s. ok tt;
  references_glob = λ s g. ok (
      ok (some (lit "refs/namespaces/urn/refs/remotes/alice/heads/main"), some 7)
      ∷ ok (none, none)
      ∷ []);
}

abbrev pub surf-HasHeads : HasHeads surf
surf-HasHeads = record {
  namespace = λ u. u;
  namespace_of-head = λ u p n. refl;
  name_of-head = λ u p n. refl;
  remote_of-head = λ u p n. refl;
}

abbrev pub parts : Parts
parts = record {
  RevisionId = ℕ;
  Comment = Unit {0};
  Discussion = Unit {0};
  Reviews = Unit {0};
  Timestamp = ℕ;
  Title = Text;
  State = Unit {0};
  Target = Unit {0};
  Labels = Unit {0};
}

abbrev pub cobs : Cobs surf
cobs = record {
  parts = parts;
  Author = Peer;
  RevisionPeer = Peer;
  author_peer = λ a. a;
  ObjectId = ℕ;
  Issue = Text;
  patch = λ s u i. ok none;
  patches = λ s u. ok [];
  resolve_patch = λ s p. (ok tt, p);
  issue = λ s u i. ok none;
  issues = λ s u. ok [];
  resolve_issue = λ s i. (ok tt, i);
  browse_branch = λ s n b. ok 0;
  set_rev = λ o b. (ok tt, o);
  diff = λ b base o. ok (record { created = []; deleted = []; modified = [] });
  commits = λ b. (ok headers, b);
  commit = λ o b. (ok o, b);
  id_of = λ h. elim h.committer_time [ pos n ↦ n | ℤ.negsuc n ↦ 100 ];
  oid_eq = eqb;
}

pub cobs-NeverPanics : NeverPanics cobs
cobs-NeverPanics = record {
  set_rev-returns = λ o b h. absurd (ground arith);
  diff-returns = λ b base o h. absurd (ground arith);
  commits-returns = λ b h. absurd (ground arith);
  commit-returns = λ o b h. absurd (ground arith);
}

abbrev pub revision : Revision parts ℕ Peer (Unit {0}) Peer
revision = record {
  id = 1;
  peer = alice;
  oid = 3;
  base = 7;
  comment = tt;
  discussion = tt;
  reviews = tt;
  timestamp = 9;
  changeset = tt;
  merges = [];
}

abbrev pub patch : Patch parts ℕ Peer Peer (Unit {0}) Peer
patch = record {
  author = alice;
  title = lit "fix";
  state = tt;
  target = tt;
  labels = tt;
  timestamp = 9;
  revisions = (revision, revision ∷ []);
}
