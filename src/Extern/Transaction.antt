-- ===== src/Extern/Transaction.antt =====
-- The reference transactions of git2, and the guards of librad's reference database.
use radicle_client_services.Base.{Text, Option, Bool, Outcome}
use radicle_client_services.Extern.Peers.{Peers}
use radicle_client_services.Extern.Monorepo.{Monorepo}

-- refdb::PreviousValue: the values that the source names, and the others
pub data PreviousValue (Oid Other : Type 0) : Type 0 where
  any must_not_exist : PreviousValue Oid Other
  if_exists_must_match : Oid → PreviousValue Oid Other
  other_value : Other → PreviousValue Oid Other

pub record Transaction {P : Peers} (G : Monorepo P) : Type 1 where
  -- Repository::transaction; a transaction collects what `commit` does to the repository
  pub Txn : Type 0
  pub transaction : G.Store → Outcome Text Txn
  pub lock_ref : Text → Txn → Outcome Text (Unit {0}) × Txn
  pub set_target : Text → G.Oid → Text → Txn → Outcome Text (Unit {0}) × Txn
  pub remove : Text → Txn → Outcome Text (Unit {0}) × Txn
  pub commit : Txn → G.Store → Outcome Text (Unit {0}) × G.Store
  -- Repository::find_reference and Reference::target, its errors, is_not_found_err of librad, and
  -- what an error shows
  pub GitError : Type 0
  pub find_reference : G.Store → Text → Outcome GitError (Option G.Oid)
  pub is_not_found_err : GitError → Bool
  pub show_error : GitError → Text
  -- Repository::blob, and tracking's Config with its canonical form
  pub Config : Type 0
  pub canonical_form : Config → Outcome Text Text
  pub blob : Text → G.Store → Outcome Text G.Oid × G.Store
  -- the values of refdb::PreviousValue that the source does not name
  pub OtherValue : Type 0
  -- refdb::PreviousError, its DidNotExist
  pub PreviousError : Type 0
  pub did_not_exist : PreviousError
  -- PreviousValue::guard: none if the target is as it must be, which is when the action runs
  pub guard : PreviousValue G.Oid OtherValue → Option G.Oid → Option PreviousError
