-- ===== src/Extern/Vars.antt =====
-- The environment of a hook process, as the envconfig crate reads it.
use radicle_client_services.Base.{
  Text, lit, ◌++◌, Option, none, some, or_else, Bool, true, Outcome, ok, ◌≡◌,
}
use radicle_client_services.Extern.Peers.{Peers}

pub record Vars (P : Peers) : Type 1 where
  -- what the process finds in its environment
  pub Env : Type 0
  pub var : Env → Text → Option Text
  -- envconfig: a field of type String or PathBuf, of type Option<String> or Option<PathBuf>, of
  -- type Option<bool>, of type Option<PeerId>
  pub load_var : Env → Text → Outcome Text Text
  pub load_optional_var : Env → Text → Outcome Text (Option Text)
  pub load_optional_bool : Env → Text → Outcome Text (Option Bool)
  pub load_optional_peer : Env → Text → Outcome Text (Option P.PeerId)

-- An optional text is the variable, if it is set.
pub record LoadsOptional (P : Peers) (V : Vars P) : Type 0 where
  pub load_lem : (e : V.Env) (name : Text) → V.load_optional_var e name ≡ ok (V.var e name)

-- An optional flag is not set if the variable is not.
pub record LoadsUnset (P : Peers) (V : Vars P) : Type 0 where
  pub load_optional_bool-unset :
      (e : V.Env) (name : Text) → V.var e name ≡ none → V.load_optional_bool e name ≡ ok none

-- An optional flag is set by the text `true`, which the standard library reads as a bool.
pub record LoadsFlag (P : Peers) (V : Vars P) : Type 0 where
  pub load_optional_bool-set :
      (e : V.Env) (name : Text)
      → V.var e name ≡ some (lit "true")
      → V.load_optional_bool e name ≡ ok (some true)

-- The environment of a process that git starts, for the variables named RADICLE_…: git passes on
-- the environment that it was run with, which is what its command was given, over what the server
-- itself was run with.
pub record Inherits (P : Peers) (V : Vars P) (own given : Text → Option Text) (e : V.Env)
    : Type 0 where
  pub inherited :
      (name rest : Text)
      → lit "RADICLE_" ++ rest ≡ name
      → V.var e name ≡ or_else (given name) (own name)
