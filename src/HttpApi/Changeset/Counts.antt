-- ===== src/HttpApi/Changeset/Counts.antt =====
-- The totals of `Changeset::stats`, as counts of lines.
use radicle_client_services.Base.{ℕ, suc, ◌+◌, List, [], ◌∷◌, ◌++◌, ◌≡◌, ◌∙◌, refl, ap, sym, arith}
use radicle_client_services.HttpApi.Changeset.{
  LineDiff, addition, deletion, other_line, FileDiff, other_file, plain, Diff, Stats,
  count_modified, count_created, count_deleted, fold_for, count_file, stats,
}

concat : List (List LineDiff) → List LineDiff
concat [] = []
concat (h ∷ hs) = h ++ concat hs

-- The lines of the plain files.
unfoldable pub lines : List FileDiff → List LineDiff
unfolding concat
lines [] = []
lines (other_file ∷ fs) = lines fs
lines (plain hunks ∷ fs) = concat hunks ++ lines fs

unfoldable pub additions_of : List LineDiff → ℕ
additions_of [] = 0
additions_of (addition ∷ ls) = suc (additions_of ls)
additions_of (_ ∷ ls) = additions_of ls

unfoldable pub deletions_of : List LineDiff → ℕ
deletions_of [] = 0
deletions_of (deletion ∷ ls) = suc (deletions_of ls)
deletions_of (_ ∷ ls) = deletions_of ls

fold_for-append :
    {A : Type 0} (f : A → Stats → Stats) (xs ys : List A) (s : Stats)
    → fold_for f (xs ++ ys) s ≡ fold_for f ys (fold_for f xs s)
unfolding fold_for
fold_for-append f [] ys s = refl
fold_for-append f (x ∷ xs) ys s = fold_for-append f xs ys (f x s)

fold_for-concat :
    (count : LineDiff → Stats → Stats) (hunks : List (List LineDiff)) (s : Stats)
    → fold_for (fold_for count) hunks s ≡ fold_for count (concat hunks) s
unfolding fold_for concat
fold_for-concat count [] s = refl
fold_for-concat count (h ∷ hs) s =
    fold_for-concat count hs (fold_for count h s) ∙ sym (fold_for-append count h (concat hs) s)

fold_for-lines :
    (count : LineDiff → Stats → Stats) (fs : List FileDiff) (s : Stats)
    → fold_for (count_file count) fs s ≡ fold_for count (lines fs) s
unfolding fold_for lines concat count_file
fold_for-lines count [] s = refl
fold_for-lines count (other_file ∷ fs) s = fold_for-lines count fs s
fold_for-lines count (plain hunks ∷ fs) s =
    fold_for-lines count fs (fold_for (fold_for count) hunks s)
    ∙ ap (fold_for count (lines fs)) (fold_for-concat count hunks s)
    ∙ sym (fold_for-append count (concat hunks) (lines fs) s)

-- What each loop adds to the two totals.
count_modified_lem :
    (ls : List LineDiff) (s : Stats)
    → ((fold_for count_modified ls s).additions ≡ s.additions + additions_of ls)
      × ((fold_for count_modified ls s).deletions ≡ s.deletions + deletions_of ls)
unfolding fold_for count_modified additions_of deletions_of
count_modified_lem [] s = (omega arith, omega arith)
count_modified_lem (addition ∷ ls) s =
    let h = count_modified_lem ls (record s { additions = suc s.additions }) in
    (omega (arith, h.0), omega (arith, h.1))
count_modified_lem (deletion ∷ ls) s =
    let h = count_modified_lem ls (record s { deletions = suc s.deletions }) in
    (omega (arith, h.0), omega (arith, h.1))
count_modified_lem (other_line ∷ ls) s = count_modified_lem ls s

count_created_lem :
    (ls : List LineDiff) (s : Stats)
    → ((fold_for count_created ls s).additions ≡ s.additions + additions_of ls)
      × ((fold_for count_created ls s).deletions ≡ s.deletions)
unfolding fold_for count_created additions_of
count_created_lem [] s = (omega arith, refl)
count_created_lem (addition ∷ ls) s =
    let h = count_created_lem ls (record s { additions = suc s.additions }) in
    (omega (arith, h.0), h.1)
count_created_lem (deletion ∷ ls) s = count_created_lem ls s
count_created_lem (other_line ∷ ls) s = count_created_lem ls s

count_deleted_lem :
    (ls : List LineDiff) (s : Stats)
    → ((fold_for count_deleted ls s).additions ≡ s.additions)
      × ((fold_for count_deleted ls s).deletions ≡ s.deletions + deletions_of ls)
unfolding fold_for count_deleted deletions_of
count_deleted_lem [] s = (refl, omega arith)
count_deleted_lem (deletion ∷ ls) s =
    let h = count_deleted_lem ls (record s { deletions = suc s.deletions }) in
    (h.0, omega (arith, h.1))
count_deleted_lem (addition ∷ ls) s = count_deleted_lem ls s
count_deleted_lem (other_line ∷ ls) s = count_deleted_lem ls s

-- The additions are the added lines of the plain files that were modified or created, and the
-- deletions are the deleted lines of those that were modified or deleted.
pub stats_lem :
    (diff : Diff)
    → ((stats diff).additions
        ≡ additions_of (lines diff.modified) + additions_of (lines diff.created))
      × ((stats diff).deletions
          ≡ deletions_of (lines diff.modified) + deletions_of (lines diff.deleted))
unfolding stats
stats_lem diff =
    let zeros : Stats = record { additions = 0; deletions = 0 } in
    let s₁ = fold_for count_modified (lines diff.modified) zeros in
    let s₂ = fold_for count_created (lines diff.created) s₁ in
    let m = count_modified_lem (lines diff.modified) zeros in
    let c = count_created_lem (lines diff.created) s₁ in
    let d = count_deleted_lem (lines diff.deleted) s₂ in
    rw
      (
        fold_for-lines count_modified diff.modified zeros,
        fold_for-lines count_created diff.created s₁,
        fold_for-lines count_deleted diff.deleted s₂,
      )
      (omega (arith, m.0, c.0, d.0), omega (arith, m.1, c.1, d.1))
