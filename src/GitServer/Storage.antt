-- ===== src/GitServer/Storage.antt =====
-- git-server/src/hooks/storage.rs: opening the storage, looking up a reference, and `update`, the
-- transaction that writes and deletes references.
pub mod Verdicts
use radicle_client_services.Base.{
  Text, lit, Bool, true, false, if◌then◌else◌, Option, none, some, List, [], ◌∷◌, ◌++◌, Outcome, ok,
  err, panic, map_err, ok_or,
}
use radicle_client_services.Base.Action.{Action, pure, raise, lift, gets, resume, ◌>>=◌, ◌>>◌}
use radicle_client_services.Extern.Peers.{Peers}
use radicle_client_services.Extern.Monorepo.{Monorepo}
use radicle_client_services.Extern.Transaction.{
  Transaction, PreviousValue, any, must_not_exist, if_exists_must_match, other_value,
}
use radicle_client_services.GitServer.Error.{Error, git2_error, init}

-- error::Txn; the errors of git2 are their texts
pub data TxnError : Type 0 where
  acquire commit_failed read : Text → TxnError
  delete lock : Text → Text → TxnError
  symbolic_ref : TxnError
  write : Text → Text → Text → TxnError

module _ {P : Peers} (G : Monorepo P) where
  -- Storage::open: the repository and the storage of librad
  unfoldable pub open_storage : G.Paths → Action G.Store Error (Unit {0})
  open_storage paths = do
    gets (λ s. map_err git2_error (G.open_bare s (G.git_dir_of paths)))
    gets (λ s. map_err init (G.open_storage s paths))

module _ {P : Peers} {G : Monorepo P} (T : Transaction G) where
  -- Storage::reference: a reference that is not found is none
  unfoldable pub reference : G.Store → Text → Outcome Text (Option (Option G.Oid))
  reference s name = elim (T.find_reference s name) [
    | ok target ↦ ok (some target)
    | err e ↦ if T.is_not_found_err e then ok none else err (T.show_error e)
    | panic ↦ panic
  ]

  -- Result::unwrap and Result::expect
  abbrev unwrap : {A B : Type 0} → Outcome A B → Outcome Text B
  unwrap (ok b) = ok b
  unwrap _ = panic

  -- find_config, which is unimplemented!()
  unfoldable pub find_config : G.Store → G.Oid → Outcome Text (Option T.Config)
  find_config s oid = panic

  unfoldable pub write_config : T.Config → Action G.Store Text G.Oid
  write_config config s =
      resume (unwrap (T.canonical_form config))
        (λ form s'. (unwrap (T.blob form s').0, (T.blob form s').1)) s

  unfoldable pub modify_config : G.Oid → (T.Config → T.Config) → Action G.Store Text G.Oid
  modify_config oid f s =
      resume (unwrap (find_config s oid))
        (λ found.
          resume (unwrap (ok_or (lit "config should exist") found))
            (λ config. write_config (f config)))
        s

  abbrev pub Previous : Type 0
  Previous = PreviousValue G.Oid T.OtherValue

  -- refdb::Update, with the name as it is shown
  pub data Update : Type 0 where
    write_to : Text → G.Oid → Previous → Update
    delete_of : Text → Previous → Update

  -- refdb::Updated
  pub data Updated : Type 0 where
    written : Text → G.Oid → Updated
    deleted : Text → G.Oid → Updated

  -- refdb::Applied
  pub record Applied : Type 0 where
    pub updates : List Updated
    pub rejections : List T.PreviousError

  abbrev pub Steps : Type 0 → Type 0
  Steps A = Action T.Txn TxnError A

  -- a call of git2 that changes the transaction
  abbrev pub call :
      (Text → TxnError) → Action T.Txn Text (Unit {0}) → Action T.Txn TxnError (Unit {0})
  call e m t = (map_err e (m t).0, (m t).1)

  -- the closure `reject_or_update`
  abbrev pub accept : Updated → Applied → Applied
  accept u a = record a { updates = a.updates ++ u ∷ [] }

  abbrev pub reject : T.PreviousError → Applied → Applied
  reject e a = record a { rejections = a.rejections ++ e ∷ [] }

  -- the target that the guard sees: none without a reference, and of a symbolic one
  abbrev pub target_of : Option (Option G.Oid) → Option G.Oid
  target_of none = none
  target_of (some target) = target

  -- the arm of `Update::Write`, for what the guard says of the target
  unfoldable pub apply_write : Text → G.Oid → Option T.PreviousError → Applied → Steps Applied
  apply_write name target none a = do
    call (write name (G.oid_to_string target)) (
        T.set_target name target
          (lit "writing reference with target `" ++ (G.oid_to_string target ++ lit "`")))
    pure (accept (written name target) a)
  apply_write name target (some e) a = pure (reject e a)

  -- the same of `Update::Delete`, for a reference that is there; its target is asked for whether or
  -- not the guard rejects
  unfoldable pub apply_delete :
      Text → Option G.Oid → Option T.PreviousError → Applied → Steps Applied
  apply_delete name target none a = do
    call (delete name) (T.remove name)
    oid ← lift (ok_or symbolic_ref target)
    pure (accept (deleted name oid) a)
  apply_delete name target (some e) a = do _ ← lift (ok_or symbolic_ref target); pure (reject e a)

  -- the match on `previous` for the deletion of a reference that is not there
  unfoldable pub apply_missing : Previous → Applied → Applied
  apply_missing any a = a
  apply_missing must_not_exist a = a
  apply_missing (if_exists_must_match oid) a = a
  apply_missing (other_value v) a = reject T.did_not_exist a

  -- the matches on the reference
  unfoldable pub apply_found : Update → Option (Option G.Oid) → Applied → Steps Applied
  apply_found (write_to name target previous) found a =
      apply_write name target (T.guard previous (target_of found)) a
  apply_found (delete_of name previous) (some target) a =
      apply_delete name target (T.guard previous target) a
  apply_found (delete_of name previous) none a = pure (apply_missing previous a)

  abbrev pub name_of : Update → Text
  name_of (write_to name target previous) = name
  name_of (delete_of name previous) = name

  -- the body of the loop
  unfoldable pub apply : G.Store → Update → Applied → Steps Applied
  apply s u a = do
    call (lock (name_of u)) (T.lock_ref (name_of u))
    found ← lift (map_err read (reference s (name_of u)))
    apply_found u found a

  unfoldable pub apply_all : G.Store → List Update → Applied → Steps Applied
  apply_all s [] a = pure a
  apply_all s (u ∷ us) a = do a' ← apply s u a; apply_all s us a'

  finish : Outcome TxnError Applied → T.Txn → G.Store → Outcome TxnError Applied × G.Store
  finish (ok a) t s = resume (map_err commit_failed (T.commit t s).0) (λ _. pure a) (T.commit t s).1
  finish (err e) t s = (err e, s)
  finish panic t s = (panic, s)

  begin : Outcome Text T.Txn → List Update → G.Store → Outcome TxnError Applied × G.Store
  unfolding finish
  begin (ok t) us s =
      let done = apply_all s us (record { updates = []; rejections = [] }) t in
      finish done.0 done.1 s
  begin (err e) us s = (err (acquire e), s)
  begin panic us s = (panic, s)

  -- Storage::update
  unfoldable pub update : List Update → Action G.Store TxnError Applied
  unfolding begin
  update us s = begin (T.transaction s) us s
