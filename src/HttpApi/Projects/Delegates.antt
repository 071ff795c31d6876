-- ===== src/HttpApi/Projects/Delegates.antt =====
-- Which projects are listed of a delegate.
use radicle_client_services.Base.{
  Text, ℕ, ◌≤◌, length, take, drop, zero, suc, any, Has, get_or_else, Bool, Bool-cases, true,
  Option, Option-cases, some, List, [], ◌∷◌, Outcome, Outcome-cases, ok, err, panic, map_err,
  map_err-eq-ok, >>=-eq-ok, ok-injective, ◌≡◌, inl, inr, ◌∙◌, refl, ap, sym, subst, arith,
}
use radicle_client_services.Extern.Peers.{Peers}
use radicle_client_services.Extern.Identity.{
  Delegation, direct, indirect, SomeIdentity, person, project, unknown,
}
use radicle_client_services.Extern.Monorepo.{Monorepo}
use radicle_client_services.Extern.Api.{Api, Metadata}
use radicle_client_services.HttpApi.Error.{Result, git, local_identity, identities, pool}
use radicle_client_services.HttpApi.Pages.{page_of, query_page}
use radicle_client_services.HttpApi.Commits.{collect}
use radicle_client_services.HttpApi.Projects.{
  Info, Identities, filter_map, info_of, names, is_delegate, delegate_info, delegates_projects,
}
use radicle_client_services.HttpApi.Projects.Counts.{length-query_page}

module _ {A : Type 0} where
  Has-take : (n : ℕ) (x : A) (xs : List A) → Has x (take n xs) → Has x xs
  Has-take zero x xs h = absurd h
  Has-take (suc n) x [] h = absurd h
  Has-take (suc n) x (y ∷ ys) (inl same) = inl same
  Has-take (suc n) x (y ∷ ys) (inr later) = inr (Has-take n x ys later)

  Has-drop : (n : ℕ) (x : A) (xs : List A) → Has x (drop n xs) → Has x xs
  Has-drop zero x xs h = h
  Has-drop (suc n) x [] h = absurd h
  Has-drop (suc n) x (y ∷ ys) h = inr (Has-drop n x ys h)

  Has-query_page :
      (page per_page : Option ℕ) (x : A) (xs : List A)
      → Has x (query_page page per_page xs)
      → Has x xs
  unfolding query_page page_of
  Has-query_page page per_page x xs h = Has-drop _ x xs (Has-take _ x _ h)

  -- What is collected was among the results.
  Has-collect :
      (rs : List (Result A)) (ys : List A) (y : A)
      → collect (λ r. r) rs ≡ ok ys
      → Has y ys
      → Has (ok y) rs
  unfolding collect
  Has-collect [] ys y h found = subst (Has y) (sym (ok-injective h)) found
  Has-collect (r ∷ rs) ys y h found =
      let (z, first, h₁) = >>=-eq-ok r _ h in
      let (zs, rest, h₂) = >>=-eq-ok (collect (λ r. r) rs) _ h₁ in
      elim (subst (Has y) (sym (ok-injective h₂)) found) [
        | inl here ↦ inl (ap ok here ∙ sym first)
        | inr later ↦ inr (Has-collect rs zs y rest later)
      ]

Has-filter_map :
    {A B : Type 0} (f : A → Option B) (y : B) (xs : List A)
    → Has y (filter_map f xs)
    → (x : A) × Has x xs × (f x ≡ some y)
unfolding filter_map
Has-filter_map f y [] h = absurd h
Has-filter_map f y (x ∷ xs) h = elim (Option-cases (f x)) [
  | inl skipped ↦
      let (z, among, same) = Has-filter_map f y xs (rw (filter_map, skipped) at h) in
      (z, inr among, same)
  | inr (v, kept) ↦ elim (rw (filter_map, kept) at h) [
    | inl here ↦ (x, inl refl, kept ∙ ap some (sym here))
    | inr later ↦ let (z, among, same) = Has-filter_map f y xs later in (z, inr among, same)
  ]
]

any-Has :
    {A : Type 0} (p : A → Bool) (xs : List A) → any p xs ≡ true → (x : A) × Has x xs × (p x ≡ true)
unfolding any
any-Has p [] h = cc
any-Has p (x ∷ xs) h = elim (Bool-cases (p x)) [
  | inl passes ↦ (x, inl refl, passes)
  | inr fails ↦
      let (y, among, passes) = any-Has p xs (rw (any, fails) at h) in (y, inr among, passes)
]

module _ {P : Peers} (G : Monorepo P) (X : Api G) (s : G.Store) (delegate : G.Urn) where
  -- The information on a project that is listed and delegates to this delegate indirectly.
  pub record IsDelegated (ids : Identities G X) (info : Info G X) : Type 0 where
    pub urn : G.Urn
    pub name : Text
    pub branch : Option Text
    pub delegations : List (Delegation P G.Urn)
    pub listed : Has (ok (project urn name branch delegations)) ids
    pub through : G.Urn
    pub keys : List P.PublicKey
    pub delegates : Has (indirect through keys) delegations
    pub same : G.urn_eq through delegate ≡ true
    pub meta : Metadata G
    pub described : X.metadata (project urn name branch delegations) ≡ ok meta
    pub counted : info_of G X s meta ≡ ok info

  indirect_of :
      (ds : List (Delegation P G.Urn)) (d : Delegation P G.Urn)
      → Has d ds
      → names G X delegate d ≡ true
      → (u : G.Urn) × (keys : List P.PublicKey) × Has (indirect u keys) ds
        × (G.urn_eq u delegate ≡ true)
  indirect_of ds (direct key) among h = cc
  indirect_of ds (indirect u keys) among h = (u, keys, among, h)

  is_delegate-Has :
      (ds : List (Delegation P G.Urn))
      → is_delegate G X delegate ds ≡ true
      → (u : G.Urn) × (keys : List P.PublicKey) × Has (indirect u keys) ds
        × (G.urn_eq u delegate ≡ true)
  unfolding is_delegate
  is_delegate-Has ds h =
      let (d, among, same) = any-Has (names G X delegate) ds h in indirect_of ds d among same

  delegate_info-IsDelegated :
      (ids : Identities G X) (id : Outcome Text (SomeIdentity P G.Urn)) (info : Info G X)
      → Has id ids
      → delegate_info G X s delegate id ≡ some (ok info)
      → IsDelegated ids info
  unfolding delegate_info
  delegate_info-IsDelegated ids (ok (project urn name branch ds)) info among h =
      elim (Bool-cases (is_delegate G X delegate ds)) [
        | inr other ↦ absurd (ground arith)
        | inl is ↦ elim (Outcome-cases (X.metadata (project urn name branch ds))) [
          | inr (inl (e, bad)) ↦ absurd (ground arith)
          | inr (inr bad) ↦ absurd (ground arith)
          | inl (meta, described) ↦ elim (Outcome-cases (info_of G X s meta)) [
            | inr (inl (e, bad)) ↦ absurd (ground arith)
            | inr (inr bad) ↦ absurd (ground arith)
            | inl (made, counted) ↦
                let (through, keys, delegates, same) = is_delegate-Has ds is in
                record {
                  urn = urn;
                  name = name;
                  branch = branch;
                  delegations = ds;
                  listed = among;
                  through = through;
                  keys = keys;
                  delegates = delegates;
                  same = same;
                  meta = meta;
                  described = described;
                  counted = ground arith;
                }
          ]
        ]
      ]
  delegate_info-IsDelegated ids (ok (person urn name keys)) info among h = cc
  delegate_info-IsDelegated ids (ok (unknown urn)) info among h = cc
  delegate_info-IsDelegated ids (err e) info among h = cc
  delegate_info-IsDelegated ids panic info among h = cc

  -- If the projects of a delegate are returned, they are no more than were asked for, or ten, and
  -- each is the information on a project of the storage that has the delegate among its indirect
  -- delegations.
  pub delegates_projects-IsDelegated :
      (git_dir : Text) (page per_page : Option ℕ) (infos : List (Info G X))
      → delegates_projects G X s git_dir delegate page per_page ≡ ok infos
      → (length infos ≤ get_or_else per_page 10)
        × ((ids : Identities G X) × (G.list_identities s ≡ ok ids)
            × ((info : Info G X) → Has info infos → IsDelegated ids info))
  unfolding delegates_projects
  delegates_projects-IsDelegated git_dir page per_page infos h =
      let (u₁, pooled, h₁) = >>=-eq-ok (map_err pool (G.pool_get s)) _ h in
      let (u₂, opened, h₂) = >>=-eq-ok (map_err git (G.open_bare s git_dir)) _ h₁ in
      let (u₃, whoami, h₃) = >>=-eq-ok (map_err local_identity (X.local_person s)) _ h₂ in
      let (ids, listed, h₄) = >>=-eq-ok (map_err identities (G.list_identities s)) _ h₃ in
      let results = filter_map (delegate_info G X s delegate) ids in
      (
        length-query_page G X (λ r. r) page per_page results infos h₄,
        (
          ids,
          map_err-eq-ok identities (G.list_identities s) listed,
          λ info among.
              let paged = Has-collect (query_page page per_page results) infos info h₄ among in
              let found = Has-query_page page per_page (ok info) results paged in
              let (id, has, same) =
                Has-filter_map (delegate_info G X s delegate) (ok info) ids found in
              delegate_info-IsDelegated ids id info has same,
        ),
      )
