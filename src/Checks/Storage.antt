-- ===== src/Checks/Storage.antt =====
-- A transaction of references on a store that is an association list.
use radicle_client_services.Base.{
  Text, lit, ℕ, eqb, ◌==◌, if◌then◌else◌, true, Option, none, some, List, [], ◌∷◌, ◌++◌, ok, err,
  ◌≡◌, refl,
}
use radicle_client_services.Extern.Transaction.{
  Transaction, any, must_not_exist, if_exists_must_match, other_value,
}
use radicle_client_services.GitServer.Storage.{
  Update, write_to, delete_of, written, Applied, apply, apply_all, apply_found, apply_missing,
  apply_write, apply_delete, reference, update,
}
use radicle_client_services.GitServer.Storage.Verdicts.{accepted, rejected, update-verdicts}
use radicle_client_services.Checks.Toy.{Disk, repo, lookup, empty_disk}

abbrev expect : ℕ → Option ℕ → Option Text
expect want none = some (lit "gone")
expect want (some have) = if eqb want have then none else some (lit "moved")

-- the references that the transaction will write; a guard is the target that is expected
abbrev transactions : Transaction repo
transactions = record {
  Txn = List (Text × ℕ);
  transaction = λ s. ok [];
  lock_ref = λ n t. (ok tt, t);
  set_target = λ n o m t. (ok tt, (n, o) ∷ t);
  remove = λ n t. (ok tt, t);
  commit = λ t s. (ok tt, record s { refs = t ++ s.refs });
  GitError = Unit {0};
  find_reference = λ s n. elim (lookup n s.refs) [ some target ↦ ok (some target) | none ↦ err tt ];
  is_not_found_err = λ e. true;
  show_error = λ e. [];
  Config = Text;
  canonical_form = λ c. ok c;
  blob = λ t s. (err [], s);
  OtherValue = ℕ;
  PreviousError = Text;
  did_not_exist = lit "missing";
  guard = λ p o. elim p [
    | any ↦ none
    | must_not_exist ↦ elim o [ none ↦ none | some have ↦ some (lit "there") ]
    | if_exists_must_match want ↦ expect want o
    | other_value want ↦ expect want o
  ];
}

abbrev disk : Disk
disk = record empty_disk { refs = (lit "a", 1) ∷ [] }

abbrev updates : List (Update transactions)
updates =
    write_to (lit "a") 2 (other_value 1)
    ∷ write_to (lit "b") 3 (other_value 1)
    ∷ delete_of (lit "c") (other_value 1)
    ∷ delete_of (lit "d") any
    ∷ []

abbrev applied : Applied transactions
applied = record {
  updates = written (lit "a") 2 ∷ [];
  rejections = lit "gone" ∷ lit "missing" ∷ [];
}

updated : (update transactions updates disk).0 ≡ ok applied
unfolding update reference apply apply_all apply_found apply_missing apply_write apply_delete lookup
    ◌==◌
updated = refl

update-verdicts_example :
    (applied.updates ≡ accepted transactions disk updates)
    × (applied.rejections ≡ rejected transactions disk updates)
update-verdicts_example = update-verdicts transactions updates disk applied updated
