-- ===== src/HttpApi/Commits.antt =====
-- `history_handler` of http-api/src/v1/projects.rs, from the commits that radicle-source lists to
-- the page of the response, and the committer of a commit.
pub mod History
use radicle_client_services.Base.{
  Text, lit, ℕ, ℤ, leb_int, ltb_int, ◌&&◌, ◌||◌, not, length, keep, Assoc, get, get_or_else,
  if◌then◌else◌, Bool, true, false, Option, none, some, List, [], ◌∷◌, Outcome, ok, err, panic,
  map_err, ◌>>=◌,
}
use radicle_client_services.HttpApi.Error.{Error, Result, io}
use radicle_client_services.HttpApi.Pages.{page_of}

-- radicle_source::commit::Header, as far as it is read; its time in seconds is an i64
pub record Header : Type 0 where
  pub sha1 : Text
  pub committer_time : ℤ

-- CommitsQueryString, without `parent`
pub record CommitsQuery : Type 0 where
  pub since : Option ℤ
  pub until : Option ℤ
  pub page : Option ℕ
  pub per_page : Option ℕ
  pub verified : Option Bool

-- the filter
unfoldable pub is_within : Option ℤ → Option ℤ → ℤ → Bool
is_within (some since) (some until) t = leb_int since t && ltb_int t until
is_within (some since) none t = leb_int since t
is_within none (some until) t = ltb_int t until
is_within none none t = true

abbrev is_none : Option ℤ → Bool
is_none none = true
is_none (some t) = false

unfoldable pub default_per_page : CommitsQuery → ℕ → ℕ
default_per_page q count = elim q.per_page [
  | some n ↦ n
  | none ↦ if not (is_none q.since) || not (is_none q.until) then count else 30
]

-- `collect` into a result: up to the first error
unfoldable pub collect : {A B : Type 0} → (A → Result B) → List A → Result (List B)
collect f [] = ok []
collect f (x ∷ xs) = do y ← f x; ys ← collect f xs; ok (y ∷ ys)

-- the lookup of a fingerprint among those of the project
unfoldable pub find_committer :
    {PeerInfo : Type 0} → Option (Assoc PeerInfo) → Option Text → Option PeerInfo
find_committer (some fps) (some fp) = get fp fps
find_committer _ _ = none

module _ {PeerInfo : Type 0} (fingerprint_of : Text → Outcome Text (Option Text)) where
  -- `commit_ssh_fingerprint`, and the lookup
  unfoldable pub committer_of : Option (Assoc PeerInfo) → Text → Result (Option PeerInfo)
  committer_of fingerprints sha1 = do
    fp ← map_err (λ e. io (lit "failed to get commit's ssh fingerprint") e) (fingerprint_of sha1)
    ok (find_committer fingerprints fp)

  -- the closure of `map`
  unfoldable pub teaser_of :
      Option (Assoc PeerInfo) → CommitsQuery → Header → Result (Header × Option PeerInfo)
  teaser_of fingerprints q header =
      if get_or_else q.verified false
      then (do committer ← committer_of fingerprints header.sha1; ok (header, committer))
      else ok (header, none)

  unfoldable pub history :
      Option (Assoc PeerInfo)
      → CommitsQuery
      → List Header
      → Result (List (Header × Option PeerInfo))
  history fingerprints q headers =
      let per_page = default_per_page q (length headers) in
      collect (teaser_of fingerprints q) (
        page_of (get_or_else q.page 0) per_page
          (keep (λ h. is_within q.since q.until h.committer_time) headers))
