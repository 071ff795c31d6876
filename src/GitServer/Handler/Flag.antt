-- ===== src/GitServer/Handler/Flag.antt =====
-- The variable that lets every key through, in the environment that `git` of git-server/src/lib.rs
-- hands down.
use radicle_client_services.Base.{
  Text, lit, get, ◌==◌, Bool, false, true, Option, none, some, List, ◌++◌, map, ◌≡◌, ◌∙◌, refl, ap,
}
use radicle_client_services.Extern.Peers.{Peers}
use radicle_client_services.Extern.Monorepo.{Monorepo}
use radicle_client_services.GitServer.Context.{Context, Meta}
use radicle_client_services.GitServer.Handler.{
  Request, Env, var_if, var_of, encoded, request_env, command_env,
}
use radicle_client_services.GitServer.Handler.Environment.{get-var_list_ne, get-var_of_ne}

abbrev flag : Text
flag = lit "RADICLE_ALLOW_UNAUTHORIZED_KEYS"

module _ {P : Peers} (G : Monorepo P) (ctx : Context) where
  -- the variables behind the flag
  abbrev after_flag : Meta G → Option P.PeerId → Text → G.Urn → Request → Env
  after_flag (name, delegates, branch) peer dir urn r =
      var_of (lit "RADICLE_NAME") name
      ++ (var_of (lit "RADICLE_PEER_ID") (encoded G peer)
          ++ (var_of (lit "RADICLE_DEFAULT_BRANCH") branch
              ++ (var_of (lit "RADICLE_ROOT") ctx.root
                  ++ (request_env ctx dir (G.encode_id urn) r))))

  get-after_flag :
      (meta : Meta G) (peer : Option P.PeerId) (dir : Text) (urn : G.Urn) (r : Request)
      → get flag (after_flag meta peer dir urn r) ≡ none
  unfolding get ◌==◌ request_env
  get-after_flag (name, delegates, branch) peer dir urn r =
      let request = request_env ctx dir (G.encode_id urn) r in
      get-var_of_ne flag (lit "RADICLE_NAME") name _ refl
      ∙ get-var_of_ne flag (lit "RADICLE_PEER_ID") (encoded G peer) _ refl
      ∙ get-var_of_ne flag (lit "RADICLE_DEFAULT_BRANCH") branch _ refl
      ∙ get-var_of_ne flag (lit "RADICLE_ROOT") ctx.root request refl

  -- What the flag is, behind the lists that are handed down.
  get-var_if :
      (keys : List Text) (meta : Meta G) (peer : Option P.PeerId) (dir : Text) (urn : G.Urn)
      (r : Request) (b : Bool)
      → ctx.allow_unauthorized_keys ≡ b
      → get (lit "RADICLE_ALLOW_UNAUTHORIZED_KEYS") (command_env G ctx keys meta peer dir urn r)
        ≡ get flag (var_if b flag (lit "true") ++ after_flag meta peer dir urn r)
  unfolding command_env ◌==◌
  get-var_if keys (name, delegates, branch) peer dir urn r b same =
      get-var_list_ne flag (lit "RADICLE_AUTHORIZED_KEYS") keys _ refl
      ∙ get-var_list_ne flag (lit "RADICLE_DELEGATES") (map P.default_encoding delegates) _ refl
      ∙ ap
          (λ b.
            get flag
              (var_if b flag (lit "true") ++ after_flag (name, delegates, branch) peer dir urn r))
          same

  -- The flag is not set unless the option is.
  pub get-flag :
      (keys : List Text) (meta : Meta G) (peer : Option P.PeerId) (dir : Text) (urn : G.Urn)
      (r : Request)
      → ctx.allow_unauthorized_keys ≡ false
      → get (lit "RADICLE_ALLOW_UNAUTHORIZED_KEYS") (command_env G ctx keys meta peer dir urn r)
        ≡ none
  get-flag keys meta peer dir urn r off =
      get-var_if keys meta peer dir urn r false off ∙ get-after_flag meta peer dir urn r

  -- With the option, the flag is the text `true`.
  pub get-flag_on :
      (keys : List Text) (meta : Meta G) (peer : Option P.PeerId) (dir : Text) (urn : G.Urn)
      (r : Request)
      → ctx.allow_unauthorized_keys ≡ true
      → get (lit "RADICLE_ALLOW_UNAUTHORIZED_KEYS") (command_env G ctx keys meta peer dir urn r)
        ≡ some (lit "true")
  unfolding get ◌==◌
  get-flag_on keys meta peer dir urn r on = get-var_if keys meta peer dir urn r true on ∙ refl
