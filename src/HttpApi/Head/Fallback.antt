-- ===== src/HttpApi/Head/Fallback.antt =====
-- Which commit is the head of a project: that of the local branch, else that of the only delegate.
use radicle_client_services.Base.{
  Text, Option, none, some, List, [], ◌∷◌, Outcome, ok, err, map_err, ensure, >>=-eq-ok, ok_or-bind,
  map_err-eq-ok, ok-injective, ◌≡◌, ◌∙◌, refl, subst, panic, ap,
}
use radicle_client_services.Extern.Peers.{Peers}
use radicle_client_services.Extern.Monorepo.{Monorepo}
use radicle_client_services.Extern.Api.{Api, Delegate, direct, indirect}
use radicle_client_services.HttpApi.Error.{git, surf}
use radicle_client_services.HttpApi.Head.{default_delegate, find_head, get_head_commit}

module _ {P : Peers} (G : Monorepo P) (X : Api G) (s : G.Store) (urn : G.Urn) (branch : Text) where
  -- The delegates come down to one peer: a single one, direct or with a single key.
  pub data IsOnly : List (Delegate P) → P.PeerId → Type 0 where
    only_direct : (id : P.PeerId) → IsOnly (direct id ∷ []) id
    only_indirect : (id : P.PeerId) → IsOnly (indirect (id ∷ []) ∷ []) id

  default_delegate-IsOnly :
      (delegates : List (Delegate P)) (id : P.PeerId)
      → default_delegate delegates ≡ ok id
      → IsOnly delegates id
  unfolding default_delegate
  default_delegate-IsOnly [] id h = cc
  default_delegate-IsOnly (direct i ∷ []) id h =
      subst (IsOnly (direct i ∷ [])) (ok-injective h) (only_direct i)
  default_delegate-IsOnly (indirect [] ∷ []) id h = cc
  default_delegate-IsOnly (indirect (i ∷ []) ∷ []) id h =
      subst (IsOnly (indirect (i ∷ []) ∷ [])) (ok-injective h) (only_indirect i)
  default_delegate-IsOnly (indirect (i ∷ j ∷ is) ∷ []) id h = cc
  default_delegate-IsOnly (d ∷ e ∷ ds) id h = cc

  -- Where the head comes from: the local reference, or that of the only delegate if git does not
  -- find the local one.
  pub data IsHead (delegates : List (Delegate P)) (oid : G.Oid) : Type 0 where
    local_head : G.find_reference s (X.head urn none branch) ≡ ok (some oid) → IsHead delegates oid
    remote_head :
        (e : Text) (id : P.PeerId)
        → G.find_reference s (X.head urn none branch) ≡ err e
        → IsOnly delegates id
        → G.find_reference s (X.head urn (some id) branch) ≡ ok (some oid)
        → IsHead delegates oid

  find_head-IsHead :
      (delegates : List (Delegate P)) (oid : G.Oid) (r : Outcome Text (Option G.Oid))
      → G.find_reference s (X.head urn none branch) ≡ r
      → find_head G X s urn branch delegates r ≡ ok (some oid)
      → IsHead delegates oid
  unfolding get_head_commit
  find_head-IsHead delegates oid (ok head) found h = local_head (found ∙ ap ok (ok-injective h))
  find_head-IsHead delegates oid panic found h = cc
  find_head-IsHead delegates oid (err e) found h =
      let (id, only, h₁) = >>=-eq-ok (default_delegate delegates) _ h in
      remote_head e id found (default_delegate-IsOnly delegates id only)
        (map_err-eq-ok _ (G.find_reference s (X.head urn (some id) branch)) h₁)

  -- If there is a head commit, it is the target of the local branch, or, if git does not find that,
  -- of the branch of the only delegate; a symbolic reference has no target.
  pub get_head_commit-IsHead :
      (delegates : List (Delegate P)) (oid : G.Oid)
      → get_head_commit G X s urn branch delegates ≡ ok oid
      → IsHead delegates oid
  unfolding get_head_commit
  get_head_commit-IsHead delegates oid h =
      let (u₁, named, h₁) = >>=-eq-ok (ensure (X.is_namespace urn) _) _ h in
      let (u₂, valid, h₂) = >>=-eq-ok (ensure (X.is_branch branch) _) _ h₁ in
      let (head, found, h₃) =
        >>=-eq-ok
          (find_head G X s urn branch delegates (G.find_reference s (X.head urn none branch))) _
          h₂ in
      let (o, target, h₄) = ok_or-bind _ head _ h₃ in
      let (u₃, in_repo, h₅) = >>=-eq-ok (map_err git (X.find_commit s o)) _ h₄ in
      let (u₄, browsed, h₆) = >>=-eq-ok (map_err surf (X.commit_of s o)) _ h₅ in
      find_head-IsHead delegates oid (G.find_reference s (X.head urn none branch)) refl
        (found ∙ ap ok (target ∙ ap some (ok-injective h₆)))
