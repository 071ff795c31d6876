-- ===== src/HttpApi/Commits/History.antt =====
-- What the page of `history_handler` holds.
use native.Mathlib.Nat.{zero-mul, le_trans, le_of_eq}
use radicle_client_services.Base.{
  Text, ℕ, zero, suc, ◌*◌, ◌≤◌, ◌%◌, ◌^◌, length, keep, take, drop, take_all, get_or_else, Assoc,
  Bool, Option, none, List, [], ◌∷◌, Outcome, ok, >>=-eq-ok, ok-injective, ◌≡◌, ◌≢◌, ◌⊎◌, ◌∙◌, ap,
  sym, arith,
}
use radicle_client_services.HttpApi.Error.{Result}
use radicle_client_services.HttpApi.Pages.{page_of}
use radicle_client_services.HttpApi.Commits.{
  Header, CommitsQuery, is_within, default_per_page, collect, teaser_of, history,
}

length-keep : {A : Type 0} (p : A → Bool) (xs : List A) → length (keep p xs) ≤ length xs
unfolding keep
length-keep p [] = omega arith
length-keep p (x ∷ xs) = ground (arith, length-keep p xs)

pub length-take : {A : Type 0} (n : ℕ) (xs : List A) → length (take n xs) ≤ n
length-take zero xs = omega arith
length-take (suc n) [] = omega arith
length-take (suc n) (x ∷ xs) = omega (arith, length-take n xs)

pub length-collect :
    {A B : Type 0} (f : A → Result B) (xs : List A) (ys : List B)
    → collect f xs ≡ ok ys
    → length ys ≡ length xs
unfolding collect
length-collect f [] ys h = ap length (sym (ok-injective h))
length-collect f (x ∷ xs) ys h =
    let (y, first, h₁) = >>=-eq-ok (f x) _ h in
    let (rest, others, h₂) = >>=-eq-ok (collect f xs) _ h₁ in
    ap length (sym (ok-injective h₂)) ∙ ap suc (length-collect f xs rest others)

default_per_page-limited :
    (q : CommitsQuery) (n : ℕ)
    → (q.since ≢ none) ⊎ (q.until ≢ none)
    → q.per_page ≡ none
    → default_per_page q n ≡ n
unfolding default_per_page
default_per_page-limited q n limited unsized = ground arith

module _ {PeerInfo : Type 0} (fingerprint_of : Text → Outcome Text (Option Text))
    (fingerprints : Option (Assoc PeerInfo)) (q : CommitsQuery) (headers : List Header) where
  -- A page has at most the asked or default number of commits.
  pub length-history :
      (teasers : List (Header × Option PeerInfo))
      → history fingerprint_of fingerprints q headers ≡ ok teasers
      → length teasers ≤ default_per_page q (length headers)
  unfolding history page_of
  length-history teasers h =
      let per_page = default_per_page q (length headers) in
      let selected = keep (λ c. is_within q.since q.until c.committer_time) headers in
      let rest = drop (get_or_else q.page 0 * per_page % 2 ^ 64) selected in
      le_trans
        (le_of_eq
          (length-collect (teaser_of fingerprint_of fingerprints q) (take per_page rest) teasers h))
        (length-take per_page rest)

  -- Between two times, or on one side of one, and without a size of the page, the first page has
  -- all the commits of that time, in their order.
  pub history-unpaged :
      (q.since ≢ none) ⊎ (q.until ≢ none)
      → q.page ≡ none
      → q.per_page ≡ none
      → history fingerprint_of fingerprints q headers
        ≡ collect
            (teaser_of fingerprint_of fingerprints q)
            (keep (λ h. is_within q.since q.until h.committer_time) headers)
  unfolding history page_of
  history-unpaged limited first unsized =
      let selected = keep (λ c. is_within q.since q.until c.committer_time) headers in
      ap (collect (teaser_of fingerprint_of fingerprints q)) (
        rw
          (
            default_per_page-limited q (length headers) limited unsized,
            first,
            zero-mul (length headers),
          )
          (take_all (length headers) selected (length-keep _ headers)))
