-- ===== src/GitServer/Hooks/PostReceive/Target.antt =====
-- Where the HEAD of a project points after `update_refs` of post_receive.rs.
use radicle_client_services.Base.{
  Text, lit, append_cancel_left, Has, ◌++◌, some, none, List, [], ◌∷◌, Outcome, ok, Outcome-cases,
  ◌≡◌, ◌≢◌, inl, inr, refl, subst, sym, ap, ◌∙◌, arith, true,
}
use radicle_client_services.Base.Action.{resume-eq-ok, for_each}
use radicle_client_services.Extern.Peers.{Peers, HasEq}
use radicle_client_services.Extern.Monorepo.{Monorepo, HasRefs}
use radicle_client_services.GitServer.RefName.{IsRefOf}
use radicle_client_services.GitServer.Hooks.Updates.{Update}
use radicle_client_services.GitServer.Hooks.PostReceive.{
  PostReceive, namespace_path, head_ref, local_branch_ref, set_head, update_ref, update_refs,
}
use radicle_client_services.GitServer.Hooks.PostReceive.Head.{
  IsHeadUpdate, head_round, head_round-keeps, update_ref_cases, update_ref_head,
  update_refs-eq-loop,
}

module _ {P : Peers} (G : Monorepo P) (R : HasRefs G) where
  -- the full name of a pushed reference
  abbrev pub pushed_ref : PostReceive G → Text → Text
  pushed_ref p refname = namespace_path G p ++ b'/' ∷ refname

  -- HEAD points to the local branch, which is at the commit of the pushed reference.
  pub record PointsTo (p : PostReceive G) (branch refname : Text) (s : G.Store) : Type 0 where
    pub oid : G.Oid
    pub source : G.find_reference s (pushed_ref p refname) ≡ ok (some oid)
    pub local : G.find_reference s (local_branch_ref G p branch) ≡ ok (some oid)
    pub head : G.symbolic_target s (head_ref G p) ≡ some (local_branch_ref G p branch)

  local-ne-head : (p : PostReceive G) (b : Text) → head_ref G p ≢ local_branch_ref G p b
  local-ne-head p b e =
      ground
        (arith, append_cancel_left (namespace_path G p) (lit "/HEAD") (lit "/refs/heads/" ++ b) e)

  module _ (p : PostReceive G) (rest refname : Text) (peer : P.PeerId)
      (n : IsRefOf P refname peer rest) where
    local-ne-pushed : (b : Text) → local_branch_ref G p b ≢ pushed_ref p refname
    local-ne-pushed b e = ground (
      arith,
      append_cancel_left (namespace_path G p) (lit "/refs/heads/" ++ b) (b'/' ∷ refname) e,
      n.shape,
    )

    head-ne-pushed : head_ref G p ≢ pushed_ref p refname
    head-ne-pushed e =
        ground
          (arith, append_cancel_left (namespace_path G p) (lit "/HEAD") (b'/' ∷ refname) e, n.shape)

  -- the two writes of `set_head`
  abbrev local_write : PostReceive G → Text → G.Oid → G.Store → Outcome Text G.Oid × G.Store
  local_write p b oid =
      G.reference (local_branch_ref G p b) oid true (lit "set-local-branch (radicle)")

  abbrev head_write : PostReceive G → Text → G.Store → Outcome Text (Unit {0}) × G.Store
  head_write p b =
      G.reference_symbolic (head_ref G p) (local_branch_ref G p b) true (lit "set-head (radicle)")

  -- What a `set_head` that returned has done.
  record IsHeadSet (p : PostReceive G) (branch refname : Text) (s : G.Store) : Type 0 where
    oid : G.Oid
    result : G.Oid
    source : G.find_reference s (pushed_ref p refname) ≡ ok (some oid)
    wrote_local : (local_write p branch oid s).0 ≡ ok result
    wrote_head : (head_write p branch (local_write p branch oid s).1).0 ≡ ok tt
    final :
        (set_head G p refname branch s).1 ≡ (head_write p branch (local_write p branch oid s).1).1

  set_head-IsHeadSet :
      (p : PostReceive G) (branch refname : Text) (s : G.Store) (oid : G.Oid)
      → (set_head G p refname branch s).0 ≡ ok oid
      → IsHeadSet p branch refname s
  unfolding set_head
  set_head-IsHeadSet p branch refname s oid h =
      elim (Outcome-cases (G.find_reference s (pushed_ref p refname))) [
        | inl (none, found) ↦ absurd (ground arith)
        | inl (some o, found) ↦ elim (Outcome-cases (local_write p branch o s).0) [
          | inl (x, wrote) ↦
              elim (Outcome-cases (head_write p branch (local_write p branch o s).1).0) [
                | inl (u, linked) ↦ record {
                  oid = o;
                  result = x;
                  source = found;
                  wrote_local = wrote;
                  wrote_head = linked;
                  final = ground arith;
                }
                | inr bad ↦ absurd (ground arith)
              ]
          | inr bad ↦ absurd (ground arith)
        ]
        | inr bad ↦ absurd (ground arith)
      ]

  pub set_head-PointsTo :
      (p : PostReceive G) (branch refname rest : Text) (peer : P.PeerId) (s : G.Store) (oid : G.Oid)
      → IsRefOf P refname peer rest
      → (set_head G p refname branch s).0 ≡ ok oid
      → PointsTo p branch refname (set_head G p refname branch s).1
  set_head-PointsTo p branch refname rest peer s oid n h =
      let d = set_head-IsHeadSet p branch refname s oid h in
      rw d.final (record {
        oid = d.oid;
        source =
            R.symbolic-found_ne _ _ _ _ _ (head-ne-pushed p rest refname peer n)
            ∙ R.reference-found_ne _ _ _ _ _ (local-ne-pushed p rest refname peer n branch)
            ∙ d.source;
        local =
            R.symbolic-found_ne _ _ _ _ _ (local-ne-head p branch)
            ∙ R.reference-found _ _ _ _ d.wrote_local;
        head = R.symbolic-target _ _ _ _ d.wrote_head;
      })

  module _ (E : HasEq P) (p : PostReceive G) (branch : Text) where
    -- HEAD follows some head update of the push.
    pub record Follows (s : G.Store) : Type 0 where
      pub update : Update G
      pub listed : Has update p.updates
      pub shape : IsHeadUpdate G p branch update
      pub points : PointsTo p branch update.0 s

    head_round-Follows :
        (u : Update G) (s : G.Store)
        → Has u p.updates
        → IsHeadUpdate G p branch u
        → (head_round G E p branch u s).0 ≡ ok tt
        → Follows (head_round G E p branch u s).1
    head_round-Follows u s m h done =
        let (oid, set, _) = resume-eq-ok (set_head G p u.0 branch s).0 _ _ done in
        record {
          update = u;
          listed = m;
          shape = h;
          points =
              rw (head_round-keeps G E p branch u s)
                (set_head-PointsTo p branch u.0 _ h.peer s oid h.named set);
        }

    -- A later round keeps HEAD where it is, or sets it again.
    update_ref-Follows :
        (u : Update G) (s : G.Store)
        → Has u p.updates
        → (update_ref G p branch u s).0 ≡ ok tt
        → Follows s
        → Follows (update_ref G p branch u s).1
    update_ref-Follows u s m done f = elim (update_ref_cases G E p branch u s) [
      | inl same ↦ rw same f
      | inr (h, round) ↦ rw round (head_round-Follows u s m h (rw round at done))
    ]

    loop-keeps-Follows :
        (us : List (Update G)) (s : G.Store)
        → ((u : Update G) → Has u us → Has u p.updates)
        → (for_each (update_ref G p branch) us s).0 ≡ ok tt
        → Follows s
        → Follows (for_each (update_ref G p branch) us s).1
    unfolding for_each
    loop-keeps-Follows [] s sub done f = f
    loop-keeps-Follows (u ∷ us) s sub done f =
        let (_, first, rest) = resume-eq-ok (update_ref G p branch u s).0 _ _ done in
        rw first (
          loop-keeps-Follows us _ (λ v m. sub v (inr m)) rest
            (update_ref-Follows u s (sub u (inl refl)) first f))

    loop-Follows :
        (us : List (Update G)) (s : G.Store) (u : Update G)
        → ((v : Update G) → Has v us → Has v p.updates)
        → Has u us
        → IsHeadUpdate G p branch u
        → (for_each (update_ref G p branch) us s).0 ≡ ok tt
        → Follows (for_each (update_ref G p branch) us s).1
    unfolding for_each
    loop-Follows [] s u sub m h done = absurd m
    loop-Follows (v ∷ us) s u sub (inl e) h done =
        let (_, first, rest) = resume-eq-ok (update_ref G p branch v s).0 _ _ done in
        let h' : IsHeadUpdate G p branch v = subst (IsHeadUpdate G p branch) e h in
        rw first (
          loop-keeps-Follows us _ (λ w m. sub w (inr m)) rest
            (rw (update_ref_head G E p branch v s h') (
              head_round-Follows v s (sub v (inl refl)) h'
                (rw (update_ref_head G E p branch v s h') at first))))
    loop-Follows (v ∷ us) s u sub (inr m) h done =
        let (_, first, rest) = resume-eq-ok (update_ref G p branch v s).0 _ _ done in
        rw first (loop-Follows us _ u (λ w k. sub w (inr k)) m h rest)

    -- If a push updates the default branch of the only delegate and `update_refs` returns, HEAD
    -- points to the local default branch, which is at the commit of such a pushed branch.
    pub update_refs-Follows :
        (s : G.Store) (u : Update G)
        → p.env.default_branch ≡ some branch
        → Has u p.updates
        → IsHeadUpdate G p branch u
        → (update_refs G p s).0 ≡ ok tt
        → Follows (update_refs G p s).1
    update_refs-Follows s u d m h done =
        let e = update_refs-eq-loop G E p branch s d in
        rw e (loop-Follows p.updates s u (λ v k. k) m h (ap (λ r. r.0) (sym e) ∙ done))
