-- ===== src/HttpApi/Browse/Revision.antt =====
-- What a handler browses: the commit that its path names.
use radicle_client_services.Base.{
  Text, Option-cases, none, some, Outcome, ok, ok_or, ok_or-bind, ok_or-eq-ok, map_err,
  map_err-eq-ok, >>=-eq-ok, >>=-of-ok, ◌≡◌, ◌↔◌, ◌∙◌, refl, ap, sym, inl, inr, arith,
}
use radicle_client_services.Extern.Peers.{Peers}
use radicle_client_services.Extern.Monorepo.{Monorepo}
use radicle_client_services.Extern.Surf.{Surf, HasHeads, SourceError}
use radicle_client_services.HttpApi.Error.{surf, not_found, missing_namespace}
use radicle_client_services.HttpApi.Browse.{revision_of, browse, error_of_source}

module _ {P : Peers} (G : Monorepo P) (S : Surf G) (H : HasHeads S) (s : G.Store) where
  -- The browser that a path leads to: at the object id that the last part of it reads as.
  pub record IsAt (urn : G.Urn) (sha : Text) (browser : S.Browser) : Type 0 where
    pub id : S.Oid
    pub rev : S.Rev
    pub space : S.Namespace
    pub named : S.oid_from_str sha ≡ some id
    pub revised : S.rev_of_oid id ≡ some rev
    pub within : S.namespace_from (H.namespace urn) ≡ ok space
    pub opened : S.open_repository s ≡ ok tt
    pub browsed : S.new_with_namespace s space rev ≡ ok browser

  revision_of-head :
      (urn : G.Urn) (sha : Text) (rev : S.Rev)
      → revision_of G S (S.head urn none sha) ≡ ok rev
      → (id : S.Oid) × (S.oid_from_str sha ≡ some id) × (S.rev_of_oid id ≡ some rev)
  unfolding revision_of
  revision_of-head urn sha rev h = elim (Option-cases (S.oid_from_str sha)) [
    | inl missing ↦
        absurd (ground (arith, H.name_of-head urn none sha, H.remote_of-head urn none sha))
    | inr (id, found) ↦ (
      id,
      found,
      ok_or-eq-ok not_found (S.rev_of_oid id)
          (rw (revision_of, H.name_of-head urn none sha, found) at h),
    )
  ]

  revision_of-found :
      (urn : G.Urn) (sha : Text) (id : S.Oid) (rev : S.Rev)
      → S.oid_from_str sha ≡ some id
      → S.rev_of_oid id ≡ some rev
      → revision_of G S (S.head urn none sha) ≡ ok rev
  unfolding revision_of
  revision_of-found urn sha id rev found revised =
      rw (revision_of, H.name_of-head urn none sha, found, revised) refl

  -- A handler has its result exactly when the last part of the path reads as an object id, the
  -- repository is opened and browsed at it within the project, and the callback has that result
  -- for this browser. The name of a branch never leads to one.
  pub browse_iff :
      {T : Type 0} (urn : G.Urn) (sha : Text) (callback : S.Browser → Outcome SourceError T)
      (result : T)
      → (browse G S s (S.head urn none sha) callback ≡ ok result)
        ↔ ((browser : S.Browser) × IsAt urn sha browser × (callback browser ≡ ok result))
  unfolding browse
  browse_iff urn sha callback result = (
    λ h.
        let (name, spaced, h₁) =
          ok_or-bind missing_namespace (S.namespace_of (S.head urn none sha)) _ h in
        let (space, within, h₂) = >>=-eq-ok (map_err surf (S.namespace_from name)) _ h₁ in
        let (rev, revised, h₃) = >>=-eq-ok (revision_of G S (S.head urn none sha)) _ h₂ in
        let (u, opened, h₄) = >>=-eq-ok (map_err surf (S.open_repository s)) _ h₃ in
        let (browser, browsed, h₅) =
          >>=-eq-ok (map_err surf (S.new_with_namespace s space rev)) _ h₄ in
        let (id, found, same) = revision_of-head urn sha rev revised in
        let is_name : some name ≡ some (H.namespace urn) =
          sym spaced ∙ H.namespace_of-head urn none sha in
        (
          browser,
          record {
            id = id;
            rev = rev;
            space = space;
            named = found;
            revised = same;
            within = ap S.namespace_from (cc) ∙ map_err-eq-ok surf (S.namespace_from name) within;
            opened = map_err-eq-ok surf (S.open_repository s) opened;
            browsed = map_err-eq-ok surf (S.new_with_namespace s space rev) browsed;
          },
          map_err-eq-ok error_of_source (callback browser) h₅,
        ),
    λ (browser, at, done).
        >>=-of-ok (ok_or missing_namespace (S.namespace_of (S.head urn none sha))) _
          (ap (ok_or missing_namespace) (H.namespace_of-head urn none sha))
          (>>=-of-ok (map_err surf (S.namespace_from (H.namespace urn))) _
            (ap (map_err surf) at.within)
            (>>=-of-ok (revision_of G S (S.head urn none sha)) _
              (revision_of-found urn sha at.id at.rev at.named at.revised)
              (>>=-of-ok (map_err surf (S.open_repository s)) _ (ap (map_err surf) at.opened) (
                >>=-of-ok (map_err surf (S.new_with_namespace s at.space at.rev)) _
                  (ap (map_err surf) at.browsed) (ap (map_err error_of_source) done))))),
  )
