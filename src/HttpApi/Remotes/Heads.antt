-- ===== src/HttpApi/Remotes/Heads.antt =====
-- The branches that are shown of a peer are its references, and all of them.
use radicle_client_services.Base.{
  Text, lit, Assoc, get, insert, get-insert, eq_iff, ◌==◌, strip_prefix, strip_prefix-eq-some,
  strip_prefix-append, Bool-cases, Has, Option, Option-cases, none, some, List, [], ◌∷◌, ◌++◌,
  Outcome, ok, err, panic, map_err, >>=-eq-ok, ok-injective, ◌≡◌, ◌⊎◌, inl, inr, ◌∙◌, refl, ap, sym,
  subst, arith,
}
use radicle_client_services.Extern.Peers.{Peers}
use radicle_client_services.Extern.Monorepo.{Monorepo}
use radicle_client_services.Extern.Surf.{Surf}
use radicle_client_services.HttpApi.Error.{git}
use radicle_client_services.HttpApi.Remotes.{
  Listed, unwrap, heads_prefix, branch_of, branches_of, collect_map, remote_handler,
}

unwrap-eq-ok : {E A : Type 0} (r : Outcome E A) {a : A} → unwrap r ≡ ok a → r ≡ ok a
unwrap-eq-ok (ok b) h = cc
unwrap-eq-ok (err e) h = cc
unwrap-eq-ok panic h = cc

module _ {P : Peers} (G : Monorepo P) (S : Surf G) where
  -- A reference of this name and target is listed.
  abbrev pub IsListed : Text → Text → Listed G S → Text → Type 0
  IsListed prefix name refs target =
      (oid : G.Oid) × Has (ok (some (prefix ++ name), some oid)) refs
      × (G.oid_to_string oid ≡ target)

  branch_of-eq-some :
      (prefix name target : Text) (r : Option Text × Option G.Oid)
      → branch_of G S prefix r ≡ some (name, target)
      → (oid : G.Oid) × (r ≡ (some (prefix ++ name), some oid)) × (G.oid_to_string oid ≡ target)
  unfolding branch_of
  branch_of-eq-some prefix name target (some full, some oid) h =
      elim (Option-cases (strip_prefix prefix full)) [
        | inl foreign ↦ absurd (ground arith)
        | inr (branch, stripped) ↦
            let same : ◌≡◌ {A = Option (Text × Text)} (some (branch, G.oid_to_string oid))
                (some (name, target)) =
              rw (branch_of, stripped) at h in
            let whole = strip_prefix-eq-some prefix full branch stripped in (oid, cc, cc)
      ]
  branch_of-eq-some prefix name target (some full, none) h = cc
  branch_of-eq-some prefix name target (none, t) h = cc

  branches_of-skip :
      (prefix : Text) (r : Option Text × Option G.Oid) (rs : Listed G S)
      → branch_of G S prefix r ≡ none
      → branches_of G S prefix (ok r ∷ rs) ≡ branches_of G S prefix rs
  unfolding branches_of
  branches_of-skip prefix r rs h = rw (branches_of, h) refl

  branches_of-keep :
      (prefix : Text) (r : Option Text × Option G.Oid) (rs : Listed G S) (branch : Text × Text)
      → branch_of G S prefix r ≡ some branch
      → branches_of G S prefix (ok r ∷ rs) ≡ branch ∷ branches_of G S prefix rs
  unfolding branches_of
  branches_of-keep prefix r rs branch h = rw (branches_of, h) refl

  branches_of-IsListed :
      (prefix name target : Text) (refs : Listed G S)
      → Has (name, target) (branches_of G S prefix refs)
      → IsListed prefix name refs target
  unfolding branches_of
  branches_of-IsListed prefix name target [] h = absurd h
  branches_of-IsListed prefix name target (ok r ∷ rs) h =
      elim (Option-cases (branch_of G S prefix r)) [
        | inl skipped ↦
            let (oid, among, shown) =
              branches_of-IsListed prefix name target rs
                (subst (Has (name, target)) (branches_of-skip prefix r rs skipped) h) in
            (oid, inr among, shown)
        | inr (branch, read) ↦
            let first : ◌⊎◌ ((name, target) ≡ branch)
                (Has (name, target) (branches_of G S prefix rs)) =
              subst (Has (name, target)) (branches_of-keep prefix r rs branch read) h in
            elim first [
              | inl here ↦
                  let (oid, same, shown) =
                    branch_of-eq-some prefix name target r (read ∙ ap some (sym here)) in
                  (oid, inl (ap ok (sym same)), shown)
              | inr later ↦
                  let (oid, among, shown) = branches_of-IsListed prefix name target rs later in
                  (oid, inr among, shown)
            ]
      ]
  branches_of-IsListed prefix name target (err e ∷ rs) h =
      let (oid, among, shown) = branches_of-IsListed prefix name target rs h in
      (oid, inr among, shown)
  branches_of-IsListed prefix name target (panic ∷ rs) h =
      let (oid, among, shown) = branches_of-IsListed prefix name target rs h in
      (oid, inr among, shown)

  get-collect_map :
      (name target : Text) (bs : List (Text × Text)) (m : Assoc Text)
      → get name (collect_map G S bs m) ≡ some target
      → Has (name, target) bs ⊎ (get name m ≡ some target)
  unfolding collect_map
  get-collect_map name target [] m h = inr h
  get-collect_map name target ((n, t) ∷ bs) m h =
      elim (get-collect_map name target bs (insert n t m) h) [
        | inl later ↦ inl (inr later)
        | inr before ↦ elim (Bool-cases (n == name)) [
          | inl same ↦ inl (inl (ground (arith, get-insert n name t m, eq_iff n name)))
          | inr other ↦ inr (ground (arith, get-insert n name t m))
        ]
      ]

  -- A reference of the peer is kept, and its name is shown.
  branch_of-listed :
      (prefix name : Text) (oid : G.Oid)
      → branch_of G S prefix (some (prefix ++ name), some oid) ≡ some (name, G.oid_to_string oid)
  unfolding branch_of
  branch_of-listed prefix name oid = rw (branch_of, strip_prefix-append prefix name) refl

  branches_of-Has :
      (prefix name : Text) (oid : G.Oid) (refs : Listed G S)
      → Has (ok (some (prefix ++ name), some oid)) refs
      → Has (name, G.oid_to_string oid) (branches_of G S prefix refs)
  unfolding branches_of
  branches_of-Has prefix name oid [] h = absurd h
  branches_of-Has prefix name oid (ok r ∷ rs) (inl same) =
      let here : (some (prefix ++ name), some oid) ≡ r = ok-injective same in
      let read = ap (branch_of G S prefix) (sym here) ∙ branch_of-listed prefix name oid in
      subst (Has (name, G.oid_to_string oid)) (sym (branches_of-keep prefix r rs _ read)) (inl refl)
  branches_of-Has prefix name oid (ok r ∷ rs) (inr later) =
      let rest = branches_of-Has prefix name oid rs later in
      elim (Option-cases (branch_of G S prefix r)) [
        | inl skipped ↦
            subst (Has (name, G.oid_to_string oid)) (sym (branches_of-skip prefix r rs skipped))
              rest
        | inr (branch, read) ↦
            subst (Has (name, G.oid_to_string oid)) (sym (branches_of-keep prefix r rs branch read))
              (inr rest)
      ]
  branches_of-Has prefix name oid (err e ∷ rs) (inl same) = absurd (cc)
  branches_of-Has prefix name oid (err e ∷ rs) (inr later) =
      branches_of-Has prefix name oid rs later
  branches_of-Has prefix name oid (panic ∷ rs) (inl same) = absurd (cc)
  branches_of-Has prefix name oid (panic ∷ rs) (inr later) =
      branches_of-Has prefix name oid rs later

  -- Something is shown for this name.
  abbrev pub IsShown : Text → Assoc Text → Type 0
  IsShown name m = (target : Text) × (get name m ≡ some target)

  insert-IsShown : (name n t : Text) (m : Assoc Text) → IsShown name m → IsShown name (insert n t m)
  insert-IsShown name n t m (old, found) = elim (Bool-cases (n == name)) [
    | inl same ↦ (t, get-insert n name t m ∙ rw same refl)
    | inr other ↦ (old, get-insert n name t m ∙ rw other found)
  ]

  collect_map-keeps :
      (name : Text) (bs : List (Text × Text)) (m : Assoc Text)
      → IsShown name m
      → IsShown name (collect_map G S bs m)
  unfolding collect_map
  collect_map-keeps name [] m h = h
  collect_map-keeps name ((n, t) ∷ bs) m h =
      collect_map-keeps name bs (insert n t m) (insert-IsShown name n t m h)

  collect_map-IsShown :
      (name target : Text) (bs : List (Text × Text)) (m : Assoc Text)
      → Has (name, target) bs
      → IsShown name (collect_map G S bs m)
  unfolding collect_map
  collect_map-IsShown name target [] m h = absurd h
  collect_map-IsShown name target ((n, t) ∷ bs) m (inl same) =
      let named : n ≡ name = cc in
      collect_map-keeps name bs (insert n t m)
        (t, get-insert n name t m ∙ rw ((eq_iff n name).1 named) refl)
  collect_map-IsShown name target ((n, t) ∷ bs) m (inr later) =
      collect_map-IsShown name target bs (insert n t m) later

  -- What the handler returns: git lists references, and the branches of the map are those of the peer
  -- in the namespace of the project. Each entry is the target of a listed reference of the full name,
  -- and each listed reference with a target whose name has the prefix of the peer has an entry.
  pub remote_handler-IsListed :
      (s : G.Store) (git_dir : Text) (project : G.Urn) (peer_id : P.PeerId) (heads : Assoc Text)
      → remote_handler G S s git_dir project peer_id ≡ ok heads
      → (refs : Listed G S) × (S.references_glob s (heads_prefix G S project peer_id ++ lit "*")
          ≡ ok refs)
        × ((name target : Text)
            → get name heads ≡ some target
            → IsListed (heads_prefix G S project peer_id) name refs target)
        × ((name : Text) (oid : G.Oid)
            → Has (ok (some (heads_prefix G S project peer_id ++ name), some oid)) refs
            → IsShown name heads)
  unfolding remote_handler get
  remote_handler-IsListed s git_dir project peer_id heads h =
      let prefix = heads_prefix G S project peer_id in
      let (u₁, opened, h₁) = >>=-eq-ok (map_err git (G.open_bare s git_dir)) _ h in
      let (u₂, read, h₂) = >>=-eq-ok (map_err git (S.references s)) _ h₁ in
      let (refs, listed, h₃) = >>=-eq-ok (unwrap (S.references_glob s (prefix ++ lit "*"))) _ h₂ in
      let made : collect_map G S (branches_of G S prefix refs) [] ≡ heads = ok-injective h₃ in
      (
        refs,
        unwrap-eq-ok (S.references_glob s (prefix ++ lit "*")) listed,
        λ name target shown.
            branches_of-IsListed prefix name target refs
              (elim (get-collect_map name target (branches_of G S prefix refs) []
                (ap (get name) made ∙ shown)) [
                  | inl among ↦ among
                  | inr absent ↦ absurd (ground arith)
                ]),
        λ name oid among. subst (IsShown name) made (
            collect_map-IsShown name (G.oid_to_string oid) (branches_of G S prefix refs) []
              (branches_of-Has prefix name oid refs among)),
      )
