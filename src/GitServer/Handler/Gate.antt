-- ===== src/GitServer/Handler/Gate.antt =====
-- When `git` of git-server/src/lib.rs serves a request: pushes only if they are enabled.
use radicle_client_services.Base.{
  Text, ℕ, lit, get_or_else, if◌then◌else◌, Bool, true, false, Option, List, [], Bool-cases, ok,
  err, map_err, >>=-eq-ok, >>=-of-ok, ◌∙◌, map_err-eq-ok, ◌≡◌, ◌↔◌, refl, ap, sym, ok-injective,
  Outcome, panic, inl, inr, arith,
}
use radicle_client_services.Extern.Peers.{Peers}
use radicle_client_services.Extern.Monorepo.{Monorepo}
use radicle_client_services.Extern.Backend.{Backend, Output, IsBuf}
use radicle_client_services.GitServer.Error.{IoErrorKind, service_unavailable, io}
use radicle_client_services.GitServer.Context.{Context, Meta, get_meta, load_authorized_keys}
use radicle_client_services.GitServer.Body.{copy_body}
use radicle_client_services.GitServer.Response.{Headers, parse_reply}
use radicle_client_services.GitServer.Handler.{
  Request, is_gzip, is_receive_pack, keys_for, command_env, reply_of, git,
}
use radicle_client_services.GitServer.Handler.Given.{
  IsGiven, IsInput, command_env-IsGiven, copied-IsInput,
}

-- The keys are loaded for a push and only if pushes are enabled, and none are passed on otherwise.
abbrev pub Gated : Context → Backend → Bool → List Text → Type 0
Gated ctx B true keys = (ctx.git_receive_pack ≡ true) × (load_authorized_keys B ≡ ok keys)
Gated ctx B false keys = keys ≡ []

pub keys_for_iff :
    (ctx : Context) (B : Backend) (path query : Text) (keys : List Text)
    → (keys_for ctx B path query ≡ ok keys) ↔ Gated ctx B (is_receive_pack path query) keys
unfolding keys_for
keys_for_iff ctx B path query keys = elim (Bool-cases (is_receive_pack path query)) [
  | inl push ↦ elim (Bool-cases ctx.git_receive_pack) [
    | inl enabled ↦ rw push (rw enabled (λ h. (refl, h), λ h. h.1))
    | inr disabled ↦ rw push (rw disabled (λ h. absurd (cc), λ h. absurd (cc)))
  ]
  | inr fetch ↦ rw fetch (λ h. sym (ok-injective h), λ h. ap ok (sym h))
]

reply_of-eq-ok :
    (B : Backend) (waited : Outcome IoErrorKind Output) (reply : ℕ × Headers × Text)
    → reply_of B waited ≡ ok reply
    → (output : Output) × (waited ≡ ok output)
      × (output.success ≡ true)
      × (parse_reply B.parse_status output.stdout ≡ ok reply)
unfolding reply_of
reply_of-eq-ok B (ok output) reply h = elim (Bool-cases output.success) [
  | inl success ↦ (output, refl, success, rw success at h)
  | inr failure ↦ absurd (ground arith)
]
reply_of-eq-ok B (err kind) reply h = cc
reply_of-eq-ok B panic reply h = cc

reply_of-success :
    (B : Backend) (output : Output) (reply : ℕ × Headers × Text)
    → output.success ≡ true
    → parse_reply B.parse_status output.stdout ≡ ok reply
    → reply_of B (ok output) ≡ ok reply
unfolding reply_of
reply_of-success B output reply success parsed = rw success parsed

module _ {P : Peers} (G : Monorepo P) where
  -- A push to a server that does not take pushes is refused as unavailable, before anything else
  -- is looked at.
  pub git-disabled :
      (ctx : Context) (B : Backend) (s : G.Store) (urn : G.Urn) (peer : Option P.PeerId)
      (r : Request) (body : B.Body)
      → is_receive_pack r.path (get_or_else r.query []) ≡ true
      → ctx.git_receive_pack ≡ false
      → git G ctx B s urn peer r body ≡ err (service_unavailable (lit "git-receive-pack"))
  unfolding git keys_for
  git-disabled ctx B s urn peer r body push disabled = rw push (rw disabled refl)

  -- How a request is served: git runs with the keys that pass the gate, with what is known of the
  -- identity, and with the body; it exits with success, and its output is the reply.
  pub record IsServed (ctx : Context) (B : Backend) (I : IsBuf B) (s : G.Store) (urn : G.Urn)
      (peer : Option P.PeerId) (r : Request) (body : B.Body) (reply : ℕ × Headers × Text)
      : Type 0 where
    pub keys : List Text
    pub meta : Meta G
    pub dir : Text
    pub input : Text
    pub output : Output
    pub gated : Gated ctx B (is_receive_pack r.path (get_or_else r.query [])) keys
    pub known : get_meta G s urn ≡ ok meta
    pub located : B.canonical_git_dir ≡ ok dir
    pub spawned : B.spawn (command_env G ctx keys meta peer dir urn r) ≡ ok tt
    pub copied : (if is_gzip r then B.gunzip body else copy_body B body) ≡ ok input
    -- what git finds in this environment, and what this input is
    pub given :
        IsGiven G ctx keys meta.0 meta.1 meta.2 peer dir urn r
          (command_env G ctx keys meta peer dir urn r)
    pub taken : IsInput B I r body input
    pub waited : B.wait_with_output (command_env G ctx keys meta peer dir urn r) input ≡ ok output
    pub exited : output.success ≡ true
    pub parsed : parse_reply B.parse_status output.stdout ≡ ok reply

  -- A request gets a reply exactly when the keys pass the gate, what is known of the identity is
  -- found, git-http-backend is spawned, is given the input and exits with success, and its output is
  -- parsed into the reply. In its environment it then finds, under their names, the keys, the
  -- delegates, the flag for every key and the rest of what is known of the identity, if there are
  -- any, and the parts of the request; its input is what the body unpacks to if the header
  -- Content-Encoding is gzip, and else the whole body. The body keeps the contract of bytes::Buf.
  pub git_iff :
      (ctx : Context) (B : Backend) (I : IsBuf B) (s : G.Store) (urn : G.Urn)
      (peer : Option P.PeerId) (r : Request) (body : B.Body) (reply : ℕ × Headers × Text)
      → (git G ctx B s urn peer r body ≡ ok reply) ↔ IsServed ctx B I s urn peer r body reply
  unfolding git reply_of
  git_iff ctx B I s urn peer r body reply = (
    λ h.
        let (keys, gate, h₁) = >>=-eq-ok (keys_for ctx B r.path (get_or_else r.query [])) _ h in
        let (meta, known, h₂) = >>=-eq-ok (get_meta G s urn) _ h₁ in
        let (dir, located, h₃) = >>=-eq-ok (map_err io B.canonical_git_dir) _ h₂ in
        let (u, spawned, h₄) =
          >>=-eq-ok (map_err io (B.spawn (command_env G ctx keys meta peer dir urn r))) _ h₃ in
        let (input, copied, h₅) =
          >>=-eq-ok (map_err io (if is_gzip r then B.gunzip body else copy_body B body)) _ h₄ in
        let (output, waited, exited, parsed) =
          reply_of-eq-ok B (B.wait_with_output (command_env G ctx keys meta peer dir urn r) input)
            reply h₅ in
        record {
          keys = keys;
          meta = meta;
          dir = dir;
          input = input;
          output = output;
          gated = (keys_for_iff ctx B r.path (get_or_else r.query []) keys).0 gate;
          known = known;
          located = map_err-eq-ok io B.canonical_git_dir located;
          spawned = map_err-eq-ok io (B.spawn (command_env G ctx keys meta peer dir urn r)) spawned;
          copied = map_err-eq-ok io (if is_gzip r then B.gunzip body else copy_body B body) copied;
          given = command_env-IsGiven G ctx keys meta.0 meta.1 meta.2 peer dir urn r;
          taken =
              copied-IsInput B I r body input
                (map_err-eq-ok io (if is_gzip r then B.gunzip body else copy_body B body) copied);
          waited = waited;
          exited = exited;
          parsed = parsed;
        },
    λ d.
        let env = command_env G ctx d.keys d.meta peer d.dir urn r in
        let copied = (if is_gzip r then B.gunzip body else copy_body B body) in
        >>=-of-ok (keys_for ctx B r.path (get_or_else r.query [])) _
          ((keys_for_iff ctx B r.path (get_or_else r.query []) d.keys).1 d.gated)
          (>>=-of-ok (get_meta G s urn) _ d.known (
            >>=-of-ok (map_err io B.canonical_git_dir) _ (ap (map_err io) d.located) (
              >>=-of-ok (map_err io (B.spawn env)) _ (ap (map_err io) d.spawned) (
                >>=-of-ok (map_err io copied) _ (ap (map_err io) d.copied) (
                  ap (reply_of B) d.waited
                  ∙ reply_of-success B d.output reply d.exited d.parsed))))),
  )
