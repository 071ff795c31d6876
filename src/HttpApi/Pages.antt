-- ===== src/HttpApi/Pages.antt =====
-- Pagination: `.skip(page * per_page).take(per_page)` of the handlers of http-api/src/v1.
pub mod Partition
use radicle_client_services.Base.{ℕ, ◌*◌, ◌%◌, ◌^◌, take, drop, get_or_else, Option, List}

-- The product wraps as a release build computes it for a `usize` of 64 bits.
unfoldable pub page_of {ℓ} : {A : Type ℓ} → ℕ → ℕ → List A → List A
page_of page per_page xs = take per_page (drop (page * per_page % 2 ^ 64) xs)

-- the defaults of ProjectsQueryString
unfoldable pub query_page {ℓ} : {A : Type ℓ} → Option ℕ → Option ℕ → List A → List A
query_page page per_page xs = page_of (get_or_else page 0) (get_or_else per_page 10) xs
