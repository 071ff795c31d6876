-- ===== src/HttpApi/Pages/Partition.antt =====
-- The pages of a list, one after the other, are the list.
use native.Mathlib.Nat.{suc-mul, zero-mul, mod-eq_of_lt}
use radicle_client_services.Base.{
  ℕ, zero, suc, ◌+◌, ◌*◌, ◌^◌, ◌<◌, take, drop, List, [], ◌∷◌, ◌++◌, ◌≡◌, ◌∙◌, refl, ap, sym, arith,
}
use radicle_client_services.HttpApi.Pages.{page_of}

succ_add : (m n : ℕ) → suc m + n ≡ suc (m + n)
succ_add m n = omega arith

zero_add : (n : ℕ) → 0 + n ≡ n
zero_add n = omega arith

module _ {A : Type 0} where
  take_nil : (n : ℕ) → take {A = A} n [] ≡ []
  take_nil zero = refl
  take_nil (suc n) = refl

  take-add : (m n : ℕ) (xs : List A) → take (m + n) xs ≡ take m xs ++ take n (drop m xs)
  take-add zero n xs = ap (λ k. take k xs) (zero_add n)
  take-add (suc m) n [] = take_nil (suc m + n) ∙ sym (take_nil n)
  take-add (suc m) n (x ∷ xs) =
      ap (λ k. take k (x ∷ xs)) (succ_add m n) ∙ ap (λ ys. x ∷ ys) (take-add m n xs)

  -- The first so many pages.
  unfoldable pub pages : ℕ → ℕ → List A → List A
  pages zero per_page xs = []
  pages (suc n) per_page xs = pages n per_page xs ++ page_of n per_page xs

  -- The first n pages of per_page elements are the first n * per_page elements of the list, each
  -- once and in order, as long as the product is below 2 ^ 64.
  pub pages_lem :
      (n per_page : ℕ) (xs : List A)
      → n * per_page < 2 ^ 64
      → pages n per_page xs ≡ take (n * per_page) xs
  unfolding pages page_of
  pages_lem zero per_page xs h = sym (ap (λ k. take k xs) (zero-mul per_page))
  pages_lem (suc n) per_page xs h =
      let smaller : n * per_page < 2 ^ 64 = omega (arith, suc-mul n per_page) in
      rw (pages_lem n per_page xs smaller, mod-eq_of_lt smaller, suc-mul n per_page)
        (sym (take-add (n * per_page) per_page xs))
