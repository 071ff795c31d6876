-- ===== src/GitServer/Storage/Verdicts.antt =====
-- Which updates `Storage::update` applies and which it rejects.
use radicle_client_services.Base.{
  Text, lit, Option, none, some, List, [], ◌∷◌, ◌++◌, append_assoc, append-nil, Outcome, ok, err,
  panic, map_err, map_err-eq-ok, ok-injective, ◌≡◌, ◌∙◌, sym, ap, arith,
}
use radicle_client_services.Base.Action.{pure, resume-eq-ok}
use radicle_client_services.Extern.Peers.{Peers}
use radicle_client_services.Extern.Monorepo.{Monorepo}
use radicle_client_services.Extern.Transaction.{
  Transaction, any, must_not_exist, if_exists_must_match, other_value,
}
use radicle_client_services.GitServer.Storage.{
  TxnError, commit_failed, lock, read, write, delete, Update, write_to, delete_of, Updated, written,
  deleted, Applied, call, reference, target_of, accept, reject, apply_write, apply_delete,
  apply_found, apply_missing, Previous, name_of, apply, apply_all, finish, begin, update,
}

module _ {P : Peers} {G : Monorepo P} (T : Transaction G) where
  -- An update and the reference that the repository has before the transaction decide what is
  -- applied and what is rejected.
  accepted_write : Text → G.Oid → Option T.PreviousError → List (Updated T)
  accepted_write name target none = written name target ∷ []
  accepted_write name target (some e) = []

  accepted_delete : Text → Option G.Oid → Option T.PreviousError → List (Updated T)
  accepted_delete name (some oid) none = deleted name oid ∷ []
  accepted_delete name _ _ = []

  rejected_by : Option T.PreviousError → List T.PreviousError
  rejected_by none = []
  rejected_by (some e) = e ∷ []

  -- without a reference to delete, only the values that the source does not name are rejected
  rejected_missing : Previous T → List T.PreviousError
  rejected_missing any = []
  rejected_missing must_not_exist = []
  rejected_missing (if_exists_must_match oid) = []
  rejected_missing (other_value v) = T.did_not_exist ∷ []

  accepted_found : Update T → Option (Option G.Oid) → List (Updated T)
  accepted_found (write_to name target previous) found =
      accepted_write name target (T.guard previous (target_of T found))
  accepted_found (delete_of name previous) none = []
  accepted_found (delete_of name previous) (some target) =
      accepted_delete name target (T.guard previous target)

  rejected_found : Update T → Option (Option G.Oid) → List T.PreviousError
  rejected_found (write_to name target previous) found =
      rejected_by (T.guard previous (target_of T found))
  rejected_found (delete_of name previous) none = rejected_missing previous
  rejected_found (delete_of name previous) (some target) = rejected_by (T.guard previous target)

  -- one verdict after another is added to what there was
  abbrev Adds : Applied T → Applied T → List (Updated T) → List T.PreviousError → Type 0
  Adds a b us es = (b.updates ≡ a.updates ++ us) × (b.rejections ≡ a.rejections ++ es)

  keeps : (a b : Applied T) → a ≡ b → Adds a b [] []
  keeps a b same = (
    sym (ap (λ (c : Applied T). c.updates) same) ∙ sym (append-nil a.updates),
    sym (ap (λ (c : Applied T). c.rejections) same) ∙ sym (append-nil a.rejections),
  )

  accepts : (u : Updated T) (a b : Applied T) → accept T u a ≡ b → Adds a b (u ∷ []) []
  accepts u a b same = (
    sym (ap (λ (c : Applied T). c.updates) same),
    sym (ap (λ (c : Applied T). c.rejections) same) ∙ sym (append-nil a.rejections),
  )

  rejects : (e : T.PreviousError) (a b : Applied T) → reject T e a ≡ b → Adds a b [] (e ∷ [])
  rejects e a b same = (
    sym (ap (λ (c : Applied T). c.updates) same) ∙ sym (append-nil a.updates),
    sym (ap (λ (c : Applied T). c.rejections) same),
  )

  apply_write-Adds :
      (name : Text) (target : G.Oid) (guarded : Option T.PreviousError) (a b : Applied T)
      (t : T.Txn)
      → (apply_write T name target guarded a t).0 ≡ ok b
      → Adds a b (accepted_write name target guarded) (rejected_by guarded)
  unfolding apply_write accepted_write rejected_by
  apply_write-Adds name target none a b t h =
      let made =
        call T (write name (G.oid_to_string target))
          (T.set_target name target
            (lit "writing reference with target `" ++ (G.oid_to_string target ++ lit "`")))
          t in
      let (u, called, same) = resume-eq-ok made.0 _ made.1 h in
      accepts (written name target) a b (ok-injective same)
  apply_write-Adds name target (some e) a b t h = rejects e a b (ok-injective h)

  apply_delete-Adds :
      (name : Text) (target : Option G.Oid) (guarded : Option T.PreviousError) (a b : Applied T)
      (t : T.Txn)
      → (apply_delete T name target guarded a t).0 ≡ ok b
      → Adds a b (accepted_delete name target guarded) (rejected_by guarded)
  unfolding apply_delete accepted_delete rejected_by
  apply_delete-Adds name none none a b t h =
      let made = call T (delete name) (T.remove name) t in
      let (u, called, same) = resume-eq-ok made.0 _ made.1 h in absurd (ground arith)
  apply_delete-Adds name (some oid) none a b t h =
      let made = call T (delete name) (T.remove name) t in
      let (u, called, same) = resume-eq-ok made.0 _ made.1 h in
      accepts (deleted name oid) a b (ok-injective same)
  apply_delete-Adds name none (some e) a b t h = absurd (ground arith)
  apply_delete-Adds name (some oid) (some e) a b t h = rejects e a b (ok-injective h)

  apply_missing-Adds :
      (previous : Previous T) (a b : Applied T)
      → apply_missing T previous a ≡ b
      → Adds a b [] (rejected_missing previous)
  unfolding apply_missing rejected_missing
  apply_missing-Adds any a b h = keeps a b h
  apply_missing-Adds must_not_exist a b h = keeps a b h
  apply_missing-Adds (if_exists_must_match oid) a b h = keeps a b h
  apply_missing-Adds (other_value v) a b h = rejects T.did_not_exist a b h

  apply_found-Adds :
      (u : Update T) (found : Option (Option G.Oid)) (a b : Applied T) (t : T.Txn)
      → (apply_found T u found a t).0 ≡ ok b
      → Adds a b (accepted_found u found) (rejected_found u found)
  unfolding apply_found accepted_found rejected_found
  apply_found-Adds (write_to name target previous) found a b t h =
      apply_write-Adds name target (T.guard previous (target_of T found)) a b t h
  apply_found-Adds (delete_of name previous) (some target) a b t h =
      apply_delete-Adds name target (T.guard previous target) a b t h
  apply_found-Adds (delete_of name previous) none a b t h =
      apply_missing-Adds previous a b (ok-injective h)

  accepted_of : Update T → Outcome Text (Option (Option G.Oid)) → List (Updated T)
  accepted_of u (ok found) = accepted_found u found
  accepted_of u _ = []

  rejected_of : Update T → Outcome Text (Option (Option G.Oid)) → List T.PreviousError
  rejected_of u (ok found) = rejected_found u found
  rejected_of u _ = []

  -- The verdicts on all updates: each looks at the repository before the transaction.
  unfoldable pub accepted : G.Store → List (Update T) → List (Updated T)
  unfolding accepted_of accepted_found accepted_write accepted_delete
  accepted s [] = []
  accepted s (u ∷ us) = accepted_of u (reference T s (name_of T u)) ++ accepted s us

  unfoldable pub rejected : G.Store → List (Update T) → List T.PreviousError
  unfolding rejected_of rejected_found rejected_missing rejected_by
  rejected s [] = []
  rejected s (u ∷ us) = rejected_of u (reference T s (name_of T u)) ++ rejected s us

  apply-Adds :
      (s : G.Store) (u : Update T) (a b : Applied T) (t : T.Txn)
      → (apply T s u a t).0 ≡ ok b
      → Adds a b
          (accepted_of u (reference T s (name_of T u)))
          (rejected_of u (reference T s (name_of T u)))
  unfolding apply accepted_of rejected_of
  apply-Adds s u a b t h =
      let locked = call T (lock (name_of T u)) (T.lock_ref (name_of T u)) t in
      let (v, called, h₁) = resume-eq-ok locked.0 _ locked.1 h in
      let (found, looked, h₂) =
        resume-eq-ok (map_err read (reference T s (name_of T u))) _ locked.1 h₁ in
      rw (map_err-eq-ok read (reference T s (name_of T u)) looked)
        (apply_found-Adds u found a b locked.1 h₂)

  apply_all-Adds :
      (s : G.Store) (us : List (Update T)) (a b : Applied T) (t : T.Txn)
      → (apply_all T s us a t).0 ≡ ok b
      → Adds a b (accepted s us) (rejected s us)
  unfolding apply_all accepted rejected
  apply_all-Adds s [] a b t h = keeps a b (ok-injective h)
  apply_all-Adds s (u ∷ us) a b t h =
      let (c, first, others) = resume-eq-ok (apply T s u a t).0 _ (apply T s u a t).1 h in
      let one = apply-Adds s u a c t first in
      let more = apply_all-Adds s us c b (apply T s u a t).1 others in
      (
        more.0 ∙ ap (λ l. l ++ accepted s us) one.0 ∙ append_assoc a.updates _ (accepted s us),
        more.1 ∙ ap (λ l. l ++ rejected s us) one.1 ∙ append_assoc a.rejections _ (rejected s us),
      )

  finish-ok :
      (r : Outcome TxnError (Applied T)) (a : Applied T) (t : T.Txn) (s : G.Store)
      → (finish T r t s).0 ≡ ok a
      → r ≡ ok a
  unfolding update
  finish-ok (ok b) a t s h =
      let (u, done, same) =
        resume-eq-ok (map_err commit_failed (T.commit t s).0) (λ _. pure b) (T.commit t s).1 h in
      same
  finish-ok (err e) a t s h = cc
  finish-ok panic a t s h = cc

  begin-verdicts :
      (us : List (Update T)) (s : G.Store) (a : Applied T) (o : Outcome Text T.Txn)
      → (begin T o us s).0 ≡ ok a
      → (a.updates ≡ accepted s us) × (a.rejections ≡ rejected s us)
  unfolding update
  begin-verdicts us s a (ok t) h =
      let nothing : Applied T = record { updates = []; rejections = [] } in
      let done = apply_all T s us nothing t in
      apply_all-Adds s us nothing a t (finish-ok done.0 a done.1 s h)
  begin-verdicts us s a (err e) h = cc
  begin-verdicts us s a panic h = cc

  -- A transaction that succeeds reports, in their order, the updates whose guard passes at what the
  -- repository had before it, and the errors of those whose guard does not. No guard is asked about
  -- the deletion of a reference that was not there: it is reported nowhere if its previous value is
  -- Any, MustNotExist or IfExistsMustMatch, and is rejected as not existing otherwise.
  pub update-verdicts :
      (us : List (Update T)) (s : G.Store) (a : Applied T)
      → (update T us s).0 ≡ ok a
      → (a.updates ≡ accepted s us) × (a.rejections ≡ rejected s us)
  unfolding update
  update-verdicts us s a h = begin-verdicts us s a (T.transaction s) h
