-- ===== src/HttpApi/Changeset.antt =====
-- `Changeset::stats` of http-api/src/v1/projects.rs: how many lines a diff adds and deletes.
pub mod Counts
use radicle_client_services.Base.{ℕ, suc, ◌+◌, List, [], ◌∷◌}

-- radicle_surf::diff, as far as it is matched on: a line that is neither added nor deleted, and a
-- file that is not plain, are other ones
pub data LineDiff : Type 0 where
  addition deletion other_line : LineDiff

pub data FileDiff : Type 0 where
  other_file : FileDiff
  plain : List (List LineDiff) → FileDiff

pub record Diff : Type 0 where
  pub created : List FileDiff
  pub deleted : List FileDiff
  pub modified : List FileDiff

pub record Stats : Type 0 where
  pub additions : ℕ
  pub deletions : ℕ

-- the match of each of the three loops on a line
unfoldable pub count_modified : LineDiff → Stats → Stats
count_modified addition s = record s { additions = suc s.additions }
count_modified deletion s = record s { deletions = suc s.deletions }
count_modified other_line s = s

unfoldable pub count_created : LineDiff → Stats → Stats
count_created addition s = record s { additions = suc s.additions }
count_created _ s = s

unfoldable pub count_deleted : LineDiff → Stats → Stats
count_deleted deletion s = record s { deletions = suc s.deletions }
count_deleted _ s = s

-- `for x in xs { … }`
unfoldable pub fold_for : {A : Type 0} → (A → Stats → Stats) → List A → Stats → Stats
fold_for f [] s = s
fold_for f (x ∷ xs) s = fold_for f xs (f x s)

-- the loops over the hunks of a file and over the lines of each
unfoldable pub count_file : (LineDiff → Stats → Stats) → FileDiff → Stats → Stats
count_file count (plain hunks) s = fold_for (fold_for count) hunks s
count_file count _ s = s

unfoldable pub stats : Diff → Stats
stats diff =
    let s₁ =
      fold_for (count_file count_modified) diff.modified
        (record { additions = 0; deletions = 0 }) in
    let s₂ = fold_for (count_file count_created) diff.created s₁ in
    fold_for (count_file count_deleted) diff.deleted s₂
