-- ===== src/HttpApi/Head.antt =====
-- `get_head_commit` of http-api/src/lib.rs: the commit at the head of a project.
pub mod Fallback
use radicle_client_services.Base.{
  Text, lit, Option, none, some, List, [], ◌∷◌, Outcome, ok, err, panic, ok_or, map_err, ensure,
  ◌>>=◌, ◌>>◌,
}
use radicle_client_services.Extern.Peers.{Peers}
use radicle_client_services.Extern.Monorepo.{Monorepo}
use radicle_client_services.Extern.Api.{Api, Delegate, direct, indirect}
use radicle_client_services.HttpApi.Error.{
  Error, Result, git, surf, missing_namespace, missing_default_branch, no_head,
}

-- the match on the delegates
unfoldable pub default_delegate : {P : Peers} → List (Delegate P) → Result P.PeerId
default_delegate (direct id ∷ []) = ok id
default_delegate (indirect (id ∷ []) ∷ []) = ok id
default_delegate (indirect _ ∷ []) = err (
    no_head (lit "project has single indirect delegate with zero or more than one direct delegate"))
default_delegate [] = err (no_head (lit "project has no delegates"))
default_delegate (_ ∷ _ ∷ _) = err (no_head (lit "project has multiple delegates"))

module _ {P : Peers} (G : Monorepo P) (X : Api G) where
  -- the match on the local head: any error falls back to the delegate
  find_head :
      G.Store
      → G.Urn
      → Text
      → List (Delegate P)
      → Outcome Text (Option G.Oid)
      → Result (Option G.Oid)
  find_head s urn branch delegates (ok head) = ok head
  find_head s urn branch delegates panic = panic
  find_head s urn branch delegates (err e) = do
    id ← default_delegate delegates
    map_err (λ _. no_head (lit "history lookup failed"))
        (G.find_reference s (X.head urn (some id) branch))

  unfoldable pub get_head_commit : G.Store → G.Urn → Text → List (Delegate P) → Result G.Oid
  unfolding find_head
  get_head_commit s urn default_branch delegates = do
    ensure (X.is_namespace urn) missing_namespace
    ensure (X.is_branch default_branch) missing_default_branch
    head ←
        find_head s urn default_branch delegates
          (G.find_reference s (X.head urn none default_branch))
    oid ← ok_or (no_head (lit "head target not found")) head
    map_err git (X.find_commit s oid)
    map_err surf (X.commit_of s oid)
    ok oid
