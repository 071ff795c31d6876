-- ===== src/GitServer/Hooks/Updates.antt =====
-- The lines that both hooks read from their standard input, one for each reference to update.
pub mod Lines
use radicle_client_services.Base.{
  Text, ℕ, split, get_elem?, List, [], ◌∷◌, none, some, ok, err, panic, map_err, ◌>>=◌,
}
use radicle_client_services.Extern.Peers.{Peers}
use radicle_client_services.Extern.Monorepo.{Monorepo}
use radicle_client_services.GitServer.Error.{Result, io, IoErrorKind, git2_error}

-- What `stdin().lock().lines()` yields.
pub data Line : Type 0 where
  read : Text → Line
  failed : IoErrorKind → Line

-- `input[i]`, which panics out of bounds
abbrev pub index : List Text → ℕ → Result Text
index xs i = elim (get_elem? xs i) [ none ↦ panic | some x ↦ ok x ]

module _ {P : Peers} (G : Monorepo P) where
  -- (refname, old, new)
  abbrev pub Update : Type 0
  Update = Text × G.Oid × G.Oid

  unfoldable pub parse_update : Text → Result Update
  parse_update line = do
    let input = split b' ' line
    o ← index input 0
    old ← map_err git2_error (G.oid_from_str o)
    n ← index input 1
    new ← map_err git2_error (G.oid_from_str n)
    refname ← index input 2
    ok (refname, old, new)

  unfoldable pub read_updates : List Line → Result (List Update)
  read_updates [] = ok []
  read_updates (failed k ∷ lines) = err (io k)
  read_updates (read line ∷ lines) = do
    update ← parse_update line
    updates ← read_updates lines
    ok (update ∷ updates)
