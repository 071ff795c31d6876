-- ===== src/Extern/GitConfig.antt =====
-- The configuration of git, as the git2 crate opens and changes it, and the fastrand crate.
use radicle_client_services.Base.{
  Text, ℕ, ◌+◌, leb, ◌&&◌, if◌then◌else◌, [], ◌∷◌, Option, some, Outcome, ok, ◌≡◌, ◌≢◌,
}

pub record GitConfig : Type 1 where
  -- the file `config` of the repository
  pub Config : Type 0
  -- Config::open
  pub open_config : Config → Outcome Text (Unit {0})
  -- Config::set_str
  pub set_str : Text → Text → Config → Outcome Text (Unit {0}) × Config
  -- what git reads for a field
  pub field : Config → Text → Option Text
  -- the draws of Rng::alphanumeric
  pub alphanumeric : ℕ → ℕ

-- A name with its capital letters made small.
abbrev pub to_lower : Text → Text
to_lower [] = []
to_lower (b ∷ name) = (if leb 65 b && leb b 90 then b + 32 else b) ∷ to_lower name

-- A field that was set has its value, and none changes whose name differs in more than the case of
-- its letters, whatever `set_str` returns: git does not tell the names of sections and of variables
-- apart by their case.
pub record KeepsFields (F : GitConfig) : Type 0 where
  pub set_str-field :
      (k v : Text) (c : F.Config)
      → (F.set_str k v c).0 ≡ ok tt
      → F.field (F.set_str k v c).1 k ≡ some v
  pub set_str-field_ne :
      (k v : Text) (c : F.Config) (j : Text)
      → to_lower k ≢ to_lower j
      → F.field (F.set_str k v c).1 j ≡ F.field c j
