-- ===== src/HttpApi/Source/Activity.antt =====
-- Which commits are the activity of a project.
use radicle_client_services.Base.{
  Text, ℕ, ◌+◌, ◌<◌, ℤ, pos, minus, ltb_int, keep, Has, Has-keep, some, ok, ok_or, >>=-eq-ok,
  ok_or-eq-ok, Option-cases, inl, inr, ap, List, ok-injective, true, ◌≡◌, ◌↔◌, ◌∙◌, subst, arith,
}
use radicle_client_services.Extern.Peers.{Peers}
use radicle_client_services.Extern.Monorepo.{Monorepo}
use radicle_client_services.Extern.Api.{Api}
use radicle_client_services.Extern.Surf.{Surf, HasHeads}
use radicle_client_services.HttpApi.Error.{not_found}
use radicle_client_services.HttpApi.Projects.{Info, project_info}
use radicle_client_services.HttpApi.Browse.Revision.{IsAt, browse_iff}
use radicle_client_services.HttpApi.Source.{head_text, activity_handler, one_year}

minus-lt_iff : (m k n : ℕ) → (ltb_int (minus m k) (pos n) ≡ true) ↔ (m < n + k)
unfolding minus
minus-lt_iff m k n = ground arith

recent :
    (now n : ℕ) (times : List ℤ)
    → Has (pos n) (keep (λ t. ltb_int (minus now one_year) t) times)
      ↔ (Has (pos n) times × (now < n + one_year))
recent now n times =
    let kept = Has-keep (λ t. ltb_int (minus now one_year) t) (pos n) times in
    let within = minus-lt_iff now one_year n in
    (λ h. ((kept.0 h).0, within.0 (kept.0 h).1), λ h. kept.1 (h.0, within.1 h.1))

module _ {P : Peers} (G : Monorepo P) (X : Api G) (S : Surf G) (H : HasHeads S) (s : G.Store)
    (git_dir : Text) where
  head_text-eq-ok :
      (info : Info G X) (text : Text)
      → head_text G X S info ≡ ok text
      → (head : G.Oid) × (info.head ≡ some head) × (G.oid_to_string head ≡ text)
  unfolding head_text
  head_text-eq-ok info text h = elim (Option-cases info.head) [
    | inl unset ↦ absurd (ground arith)
    | inr (head, set) ↦ (head, set, ground arith)
  ]

  -- If the handler returns, then the project has a head, and a time since 1970 is among those that
  -- it returns exactly when a commit that is reached from the head has it and less than a year of 52
  -- weeks has gone by since.
  pub activity_handler_iff :
      (now : ℕ) (project : G.Urn) (times : List ℤ)
      → activity_handler G X S s git_dir now project ≡ ok times
      → (info : Info G X) × (head : G.Oid) × (name : Text) × (b : S.Browser) × (project_info G X s
            git_dir project
          ≡ ok info)
        × (info.head ≡ some head)
        × (S.one_from_str (G.oid_to_string head) ≡ some name)
        × IsAt G S H s project name b
        × ((n : ℕ) → Has (pos n) times ↔ (Has (pos n) (S.times b) × (now < n + one_year)))
  unfolding activity_handler head_text
  activity_handler_iff now project times h =
      let (info, known, h₁) = >>=-eq-ok (project_info G X s git_dir project) _ h in
      let (text, headed, h₂) = >>=-eq-ok (head_text G X S info) _ h₁ in
      let (name, named, h₃) = >>=-eq-ok (ok_or not_found (S.one_from_str text)) _ h₂ in
      let (b, at, done) = (browse_iff G S H s project name _ times).0 h₃ in
      let (head, set, shown) = head_text-eq-ok info text headed in
      (
        info,
        head,
        name,
        b,
        known,
        set,
        ap S.one_from_str shown ∙ ok_or-eq-ok not_found (S.one_from_str text) named,
        at,
        λ n.
            subst (λ l. Has (pos n) l ↔ (Has (pos n) (S.times b) × (now < n + one_year)))
              (ok-injective done) (recent now n (S.times b)),
      )
