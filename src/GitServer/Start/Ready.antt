-- ===== src/GitServer/Start/Ready.antt =====
-- What holds once the git server listens.
use radicle_client_services.Base.{
  Text, get, or_else, is_utf8, Option, List, Outcome, ok, err, panic, map_err, map_err-eq-ok,
  ensure, subst, ◌≡◌, ◌∙◌, ap, sym, ok-injective,
}
use radicle_client_services.Shared.{profile}
use radicle_client_services.Base.Action.{resume, resume-eq-ok, >>-eq-ok, lift, gets, ◌>>=◌}
use radicle_client_services.Extern.Peers.{Peers}
use radicle_client_services.Extern.Identity.{SomeIdentity}
use radicle_client_services.Extern.Monorepo.{Monorepo}
use radicle_client_services.Extern.GitConfig.{GitConfig, KeepsFields}
use radicle_client_services.Extern.Keystore.{Keystore}
use radicle_client_services.GitServer.Error.{pool, identities}
use radicle_client_services.GitServer.Context.{Context}
use radicle_client_services.GitServer.Alias.{Aliases, populate_aliases}
use radicle_client_services.GitServer.Alias.Lookup.{first_project, get-add_projects}
use radicle_client_services.GitServer.Config.Settings.{Configured, configure-Configured}
use radicle_client_services.GitServer.Start.{
  Options, World, StartError, no_git, not_utf8, populating_aliases, setup_failed, expect,
  context_from, create_context, fill_aliases, set_config, start,
}

-- A step of a chain that returned: what it returned, and that the rest goes on behind it.
bind-eq-ok :
    {S E A B : Type 0} (m : S → Outcome E A × S) (f : A → S → Outcome E B × S) (s : S) {b : B}
    → ((m >>= f) s).0 ≡ ok b
    → (a : A) × ((m s).0 ≡ ok a) × ((m >>= f) s ≡ f a (m s).1) × ((f a (m s).1).0 ≡ ok b)
bind-eq-ok m f s h =
    let (a, done, h₁) = resume-eq-ok (m s).0 f (m s).1 h in
    (a, done, ap (λ r. resume r f (m s).1) done, h₁)

module _ {P : Peers} (G : Monorepo P) where
  populate_aliases-first :
      (s : G.Store) (m : Aliases G)
      → (populate_aliases G s m).0 ≡ ok tt
      → (ids : List (Outcome Text (SomeIdentity P G.Urn))) × (G.list_identities s ≡ ok ids)
        × ((k : Text)
            → get k (populate_aliases G s m).1 ≡ or_else (get k m) (first_project G k ids))
  unfolding populate_aliases
  populate_aliases-first s m h =
      let (u, pooled, h₁) = resume-eq-ok (map_err pool (G.pool_get s)) _ m h in
      let (ids, listed, h₂) = resume-eq-ok (map_err identities (G.list_identities s)) _ m h₁ in
      (
        ids,
        map_err-eq-ok identities (G.list_identities s) listed,
        λ k. rw (pooled, listed) (get-add_projects G k ids m),
      )

expect-eq-ok : {A E F : Type 0} (r : Outcome E A) {a : A} → expect {F = F} r ≡ ok a → r ≡ ok a
expect-eq-ok (ok b) h = cc
expect-eq-ok (err e) h = cc
expect-eq-ok panic h = cc

module _ {P : Peers} (G : Monorepo P) (F : GitConfig) (K : Keystore) (L : KeepsFields F)
    (canonicalize : K.Disk → K.Profile → Outcome Text Text) (root_of : K.Home → Option Text) where
  -- What holds of the server and of what it has changed.
  pub record IsReady (s : G.Store) (options : Options) (before after : World G F K) (ctx : Context)
      : Type 0 where
    pub identities : List (Outcome Text (SomeIdentity P G.Urn))
    pub listed : G.list_identities s ≡ ok identities
    pub same_seed : ctx.cert_nonce_seed ≡ options.cert_nonce_seed
    pub same_flag : ctx.git_receive_pack ≡ options.git_receive_pack
    pub aliased :
        (name : Text)
        → get name after.aliases
          ≡ or_else (get name before.aliases) (first_project G name identities)
    pub configured : Configured F L options.cert_nonce_seed before.config after.config

  context_from-options :
      (options : Options) (d : K.Disk) (ctx : Context)
      → (context_from G F K canonicalize root_of options d).0 ≡ ok ctx
      → (ctx.cert_nonce_seed ≡ options.cert_nonce_seed)
        × (ctx.git_receive_pack ≡ options.git_receive_pack)
  unfolding context_from
  context_from-options options d ctx h =
      let (found, made, e, h₁) = bind-eq-ok (profile K options.root options.passphrase) _ d h in
      let (git_root, at, e₁, h₂) = bind-eq-ok (gets (λ d. canonicalize d found.1)) _ _ h₁ in
      let same = ok-injective h₂ in
      (ap (λ c. c.cert_nonce_seed) (sym same), ap (λ c. c.git_receive_pack) (sym same))

  -- If the server gets to listening, then its cache has, of each name, what it had, else the first
  -- project of that name. The five settings of git have their values, the seed of the nonces being
  -- that of the options if they have one, and no other field has changed, names that differ only in
  -- case apart. Pushes are enabled if the options enable them.
  pub start-IsReady :
      (git_version : Outcome Text Text) (s : G.Store) (options : Options) (w : World G F K)
      (ctx : Context)
      → (start G F K canonicalize root_of git_version s options w).0 ≡ ok ctx
      → IsReady s options w (start G F K canonicalize root_of git_version s options w).1 ctx
  unfolding start create_context fill_aliases set_config
  start-IsReady git_version s options w ctx h =
      let (version, found, e₁, h₁) = bind-eq-ok (lift (map_err no_git git_version)) _ w h in
      let (valid, e₂) = >>-eq-ok (lift (ensure (is_utf8 version) not_utf8)) _ w h₁ in
      let (c, made, e₃, h₃) =
        bind-eq-ok (create_context G F K canonicalize root_of options) _ w
          (ap (λ r. r.0) (sym e₂) ∙ h₁) in
      let w₁ = (create_context G F K canonicalize root_of options w).1 in
      let (filled, e₄) = >>-eq-ok (fill_aliases G F K canonicalize root_of s) _ w₁ h₃ in
      let w₂ = (fill_aliases G F K canonicalize root_of s w₁).1 in
      let (set, e₅) =
        >>-eq-ok (set_config G F K canonicalize root_of c) _ w₂ (ap (λ r. r.0) (sym e₄) ∙ h₃) in
      let all = e₁ ∙ e₂ ∙ e₃ ∙ e₄ ∙ e₅ in
      let same : c ≡ ctx = ok-injective (ap (λ r. r.0) (sym all) ∙ h) in
      let (seed, flag) = context_from-options options w.disk c (expect-eq-ok _ made) in
      let (ids, listed, aliased) =
        populate_aliases-first G s w.aliases (map_err-eq-ok populating_aliases _ filled) in
      record {
        identities = ids;
        listed = listed;
        same_seed = ap (λ c. c.cert_nonce_seed) (sym same) ∙ seed;
        same_flag = ap (λ c. c.git_receive_pack) (sym same) ∙ flag;
        aliased = λ name. ap (λ r. get name r.1.aliases) all ∙ aliased name;
        configured =
            subst
              (λ o.
                Configured F L o w.config
                  (start G F K canonicalize root_of git_version s options w).1.config)
              seed
              (subst
                (λ (r : Outcome StartError Context × World G F K).
                  Configured F L c.cert_nonce_seed w.config r.1.config)
                (sym all)
                (configure-Configured F L c.cert_nonce_seed w.config
                  (map_err-eq-ok setup_failed _ set)));
      }
