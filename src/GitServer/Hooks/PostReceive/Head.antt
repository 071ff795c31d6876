-- ===== src/GitServer/Hooks/PostReceive/Head.antt =====
-- What `update_refs` and `set_head` of post_receive.rs do to the HEAD of a project.
use radicle_client_services.Base.{
  Text, lit, ◌==◌, eq_iff, All, length, eqb, contains, contains_iff, eq_refl, All-Has, true, some,
  List, [], ◌∷◌, ◌++◌, Bool-cases, Outcome-cases, ◌≡◌, ◌⊎◌, inl, inr, refl, ap, ◌∙◌, arith,
}
use radicle_client_services.Base.Action.{Action, pure, resume, for_each, for_each-inv}
use radicle_client_services.Extern.Peers.{Peers, HasEq}
use radicle_client_services.Extern.Monorepo.{Monorepo}
use radicle_client_services.GitServer.Error.{Error}
use radicle_client_services.GitServer.RefName.{
  parse_ref, IsRefOf, parse_ref_sound, parse_ref_complete,
}
use radicle_client_services.GitServer.Hooks.Updates.{Update}
use radicle_client_services.GitServer.Hooks.PostReceive.{
  PostReceive, set_head, update_ref, update_branch, update_refs,
}

module _ {P : Peers} (G : Monorepo P) where
  -- The update is of the default branch of a peer that is the only delegate.
  pub record IsHeadUpdate (p : PostReceive G) (branch : Text) (u : Update G) : Type 0 where
    pub peer : P.PeerId
    pub named : IsRefOf P u.0 peer (lit "heads/" ++ branch)
    pub sole : p.delegates ≡ peer ∷ []

module _ {P : Peers} (G : Monorepo P) (E : HasEq P) where
  sole_delegate :
      (peer : P.PeerId) (ds : List P.PeerId)
      → contains P.peer_eq peer ds ≡ true
      → eqb (length ds) 1 ≡ true
      → ds ≡ peer ∷ []
  unfolding contains
  sole_delegate peer [] h k = cc
  sole_delegate peer (d ∷ []) h k = ground (arith, E.eq_iff peer d)
  sole_delegate peer (d ∷ e ∷ ds) h k = absurd (ground arith)

  -- `set_head` as the last step of a round
  abbrev pub head_round : PostReceive G → Text → Update G → Action G.Store Error (Unit {0})
  head_round p branch u s =
      resume (set_head G p u.0 branch s).0 (λ _. pure tt) (set_head G p u.0 branch s).1

  -- One round of the loop does nothing, or it is `set_head` for a head update.
  pub update_ref_cases :
      (p : PostReceive G) (branch : Text) (u : Update G) (s : G.Store)
      → ((update_ref G p branch u s).1 ≡ s)
        ⊎ (IsHeadUpdate G p branch u × (update_ref G p branch u s ≡ head_round p branch u s))
  unfolding update_ref
  update_ref_cases p branch (refname, from, new) s = elim (Outcome-cases (parse_ref P refname)) [
    | inl ((peer, rest), parsed) ↦ elim (Bool-cases (contains P.peer_eq peer p.delegates)) [
      | inl member ↦ elim (Bool-cases (rest == lit "heads/" ++ branch)) [
        | inl same ↦ elim (Bool-cases (eqb (length p.delegates) 1)) [
          | inl single ↦ inr (
            record {
              peer = peer;
              named =
                  rw ((eq_iff rest (lit "heads/" ++ branch)).0 same) at
                    (parse_ref_sound P refname peer rest parsed);
              sole = sole_delegate peer p.delegates member single;
            },
            rw parsed (rw member (rw same (rw single))),
          )
          | inr several ↦ inl (ground arith)
        ]
        | inr other ↦ inl (ground arith)
      ]
      | inr stranger ↦ inl (ground arith)
    ]
    | inr bad ↦ inl (ground arith)
  ]

  pub head_round-keeps :
      (p : PostReceive G) (branch : Text) (u : Update G) (s : G.Store)
      → (head_round p branch u s).1 ≡ (set_head G p u.0 branch s).1
  head_round-keeps p branch u s = elim (Outcome-cases (set_head G p u.0 branch s).0) [
    | inl (oid, done) ↦ rw done
    | inr (inl (e, bad)) ↦ rw bad
    | inr (inr bad) ↦ rw bad
  ]

  -- A round for a head update is `set_head`.
  pub update_ref_head :
      (p : PostReceive G) (branch : Text) (u : Update G) (s : G.Store)
      → IsHeadUpdate G p branch u
      → update_ref G p branch u s ≡ head_round p branch u s
  unfolding update_ref
  update_ref_head p branch (refname, from, new) s h =
      let member : contains P.peer_eq h.peer p.delegates ≡ true =
        (contains_iff P.peer_eq E.eq_iff h.peer p.delegates).1 (rw h.sole (inl refl)) in
      let single : eqb (length p.delegates) 1 ≡ true = rw h.sole in
      rw (parse_ref_complete P refname h.peer (lit "heads/" ++ branch) h.named)
        (rw member (rw (eq_refl (lit "heads/" ++ branch)) (rw single)))

  pub update_refs-eq-loop :
      (p : PostReceive G) (branch : Text) (s : G.Store)
      → p.env.default_branch ≡ some branch
      → update_refs G p s ≡ for_each (update_ref G p branch) p.updates s
  unfolding update_refs
  update_refs-eq-loop p branch s h = ap (λ d. update_branch G p d s) h

  -- The store is changed by nothing but updates of the default branch by the only delegate.
  pub update_refs-keeps :
      (p : PostReceive G) (branch : Text) (s : G.Store)
      → p.env.default_branch ≡ some branch
      → All (λ u. ¬ IsHeadUpdate G p branch u) p.updates
      → (update_refs G p s).1 ≡ s
  update_refs-keeps p branch s h others =
      ap (λ r. r.1) (update_refs-eq-loop p branch s h)
      ∙ for_each-inv (λ t. t ≡ s) (update_ref G p branch) p.updates
          (λ u t m kept. elim (update_ref_cases p branch u t) [
            | inl same ↦ same ∙ kept
            | inr (found, _) ↦
                absurd (All-Has (λ v. ¬ IsHeadUpdate G p branch v) p.updates u others m found)
          ])
          s refl
