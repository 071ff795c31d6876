-- ===== src/HttpApi/Projects/Counts.antt =====
-- What the lists and counts of projects hold.
use native.Mathlib.Nat.{le_trans, le_of_eq}
use radicle_client_services.Base.{
  Text, ℕ, suc, ◌+◌, ◌≤◌, length, map, get_or_else, Option, List, [], ◌∷◌, ok, err, panic, map_err,
  >>=-eq-ok, ok-injective, ◌≡◌, refl, ap, sym, arith,
}
use radicle_client_services.Extern.Peers.{Peers}
use radicle_client_services.Extern.Identity.{person, project, unknown}
use radicle_client_services.Extern.Monorepo.{Monorepo}
use radicle_client_services.Extern.Api.{Api}
use radicle_client_services.HttpApi.Error.{Result, identities, pool}
use radicle_client_services.HttpApi.Pages.{page_of, query_page}
use radicle_client_services.HttpApi.Commits.{collect}
use radicle_client_services.HttpApi.Commits.History.{length-take, length-collect}
use radicle_client_services.HttpApi.Projects.{
  Info, Identities, projects_of, oks, get_project_info, get_projects_info, count_identities,
}

module _ {P : Peers} (G : Monorepo P) (X : Api G) where
  -- The statistics count every identity once, as a project or as a person.
  pub count_identities-total :
      (ids : Identities G X) (projects persons : ℕ)
      → count_identities G X ids ≡ ok (projects, persons)
      → projects + persons ≡ length ids
  unfolding count_identities
  count_identities-total [] projects persons h = ground arith
  count_identities-total (ok (project urn name branch ds) ∷ ids) projects persons h =
      let (counts, rest, same) = >>=-eq-ok (count_identities G X ids) _ h in
      let pair : (suc counts.0, counts.1) ≡ (projects, persons) = ok-injective same in
      omega (
        arith,
        count_identities-total ids counts.0 counts.1 rest,
        ap (λ (c : ℕ × ℕ). c.0) pair,
        ap (λ (c : ℕ × ℕ). c.1) pair,
      )
  count_identities-total (ok (person urn name keys) ∷ ids) projects persons h =
      let (counts, rest, same) = >>=-eq-ok (count_identities G X ids) _ h in
      let pair : (counts.0, suc counts.1) ≡ (projects, persons) = ok-injective same in
      omega (
        arith,
        count_identities-total ids counts.0 counts.1 rest,
        ap (λ (c : ℕ × ℕ). c.0) pair,
        ap (λ (c : ℕ × ℕ). c.1) pair,
      )
  count_identities-total (ok (unknown urn) ∷ ids) projects persons h = cc
  count_identities-total (err e ∷ ids) projects persons h = cc
  count_identities-total (panic ∷ ids) projects persons h = cc

  length-oks : {A : Type 0} (rs : List (Result A)) → length (oks rs) ≤ length rs
  unfolding oks
  length-oks [] = omega arith
  length-oks (ok a ∷ rs) = omega (arith, length-oks rs)
  length-oks (err e ∷ rs) = omega (arith, length-oks rs)
  length-oks (panic ∷ rs) = omega (arith, length-oks rs)

  length-map : {A B : Type 0} (f : A → B) (xs : List A) → length (map f xs) ≡ length xs
  length-map f [] = refl
  length-map f (x ∷ xs) = ap suc (length-map f xs)

  pub length-query_page :
      {A B : Type 0} (f : A → Result B) (page per_page : Option ℕ) (xs : List A) (ys : List B)
      → collect f (query_page page per_page xs) ≡ ok ys
      → length ys ≤ get_or_else per_page 10
  unfolding query_page page_of
  length-query_page f page per_page xs ys h =
      le_trans (le_of_eq (length-collect f (query_page page per_page xs) ys h)) (length-take _ _)

  -- A page of the projects of the node has at most as many as were asked for, or ten.
  pub length-get_projects_info :
      (s : G.Store) (git_dir : Text) (page per_page : Option ℕ) (infos : List (Info G X))
      → get_projects_info G X s git_dir page per_page ≡ ok infos
      → length infos ≤ get_or_else per_page 10
  unfolding get_projects_info
  length-get_projects_info s git_dir page per_page infos h =
      let (u, pooled, h₁) = >>=-eq-ok (map_err pool (G.pool_get s)) _ h in
      let (ids, listed, h₂) = >>=-eq-ok (map_err identities (G.list_identities s)) _ h₁ in
      let (projects, read, h₃) =
        >>=-eq-ok (collect (λ r. r) (query_page page per_page (projects_of G X ids))) _ h₂ in
      let results = map (get_project_info G X s git_dir) projects in
      le_trans (le_of_eq (ap length (sym (ok-injective h₃)))) (
        le_trans (length-oks results) (
          le_trans (le_of_eq (length-map (get_project_info G X s git_dir) projects))
            (length-query_page (λ r. r) page per_page (projects_of G X ids) projects read)))
