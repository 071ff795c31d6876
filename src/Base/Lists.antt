-- ===== src/Base/Lists.antt =====
-- Lists measured and indexed by native numbers, tests on all elements, and the predicates `All`
-- and `Has`.
use Prim.Native.Nat.{ℕ, zero, suc, ◌+◌, ◌≤◌, min}
use mathlib.Core.Path.{◌≡◌, refl, ap}
use mathlib.Core.Logic.{◌⊎◌, inl, inr, ◌↔◌}
use mathlib.Core.Bool.{Bool, true, false, ◌&&◌, ◌||◌}
use mathlib.Core.List.{List, [], ◌∷◌, ◌++◌}
use mathlib.Core.Option.{Option, none, some}
use native.Mathlib.Omega.{arith}
use radicle_client_services.Base.Tests.{if◌then◌else◌}

module _ {ℓ} {A : Type ℓ} where
  abbrev pub length : List A → ℕ
  length [] = 0
  length (x ∷ xs) = suc (length xs)

  abbrev pub take : ℕ → List A → List A
  take zero xs = []
  take (suc n) [] = []
  take (suc n) (x ∷ xs) = x ∷ take n xs

  abbrev pub drop : ℕ → List A → List A
  drop zero xs = xs
  drop (suc n) [] = []
  drop (suc n) (x ∷ xs) = drop n xs

  abbrev pub get_elem? : List A → ℕ → Option A
  get_elem? [] i = none
  get_elem? (x ∷ xs) zero = some x
  get_elem? (x ∷ xs) (suc i) = get_elem? xs i

  -- `iter().all(p)`, `iter().any(p)`, `filter`, `find`
  unfoldable pub all : (A → Bool) → List A → Bool
  all p [] = true
  all p (x ∷ xs) = p x && all p xs

  unfoldable pub any : (A → Bool) → List A → Bool
  any p [] = false
  any p (x ∷ xs) = p x || any p xs

  -- `contains`, by the element type's test of equality
  unfoldable pub contains : (A → A → Bool) → A → List A → Bool
  contains eq a [] = false
  contains eq a (x ∷ xs) = eq a x || contains eq a xs

  unfoldable pub keep : (A → Bool) → List A → List A
  keep p [] = []
  keep p (x ∷ xs) = if p x then x ∷ keep p xs else keep p xs

  abbrev pub head? : List A → Option A
  head? [] = none
  head? (x ∷ xs) = some x

  unfoldable pub find : (A → Bool) → List A → Option A
  find p [] = none
  find p (x ∷ xs) = if p x then some x else find p xs

module _ {A : Type 0} where
  -- Membership by recursion: it computes to a sum.
  abbrev pub Has : A → List A → Type 0
  Has a [] = ⊥
  Has a (x ∷ xs) = (a ≡ x) ⊎ Has a xs

module _ {ℓ κ} {A : Type ℓ} where
  abbrev pub All : (A → Type κ) → List A → Type κ
  All P [] = Unit
  All P (x ∷ xs) = P x × All P xs

module _ {A : Type 0} where
  pub Has-append_left : (a : A) (xs ys : List A) → Has a xs → Has a (xs ++ ys)
  Has-append_left a [] ys h = absurd h
  Has-append_left a (x ∷ xs) ys (inl e) = inl e
  Has-append_left a (x ∷ xs) ys (inr h) = inr (Has-append_left a xs ys h)

  pub Has-append_right : (a : A) (xs ys : List A) → Has a ys → Has a (xs ++ ys)
  Has-append_right a [] ys h = h
  Has-append_right a (x ∷ xs) ys h = inr (Has-append_right a xs ys h)

  pub Has-append_split : (a : A) (xs ys : List A) → Has a (xs ++ ys) → Has a xs ⊎ Has a ys
  Has-append_split a [] ys h = inr h
  Has-append_split a (x ∷ xs) ys (inl e) = inl (inl e)
  Has-append_split a (x ∷ xs) ys (inr h) = elim (Has-append_split a xs ys h) [
    | inl l ↦ inl (inr l)
    | inr r ↦ inr r
  ]

module _ {ℓ} {A : Type ℓ} where
  pub length-append : (xs ys : List A) → length (xs ++ ys) ≡ length xs + length ys
  length-append [] ys = omega arith
  length-append (x ∷ xs) ys = omega (arith, length-append xs ys)

  pub length-take : (n : ℕ) (xs : List A) → length (take n xs) ≡ min n (length xs)
  length-take zero xs = omega arith
  length-take (suc n) [] = omega arith
  length-take (suc n) (x ∷ xs) = omega (arith, length-take n xs)

  pub take_all : (n : ℕ) (xs : List A) → length xs ≤ n → take n xs ≡ xs
  take_all zero [] h = refl
  take_all zero (x ∷ xs) h = elim h [ ]
  take_all (suc n) [] h = refl
  take_all (suc n) (x ∷ xs) h = ap (λ t. x ∷ t) (take_all n xs (omega arith))

  pub drop_all : (n : ℕ) (xs : List A) → length xs ≤ n → drop n xs ≡ []
  drop_all zero [] h = refl
  drop_all zero (x ∷ xs) h = elim h [ ]
  drop_all (suc n) [] h = refl
  drop_all (suc n) (x ∷ xs) h = drop_all n xs (omega arith)

  pub keep-length : (p : A → Bool) (xs : List A) → length (keep p xs) ≤ length xs
  unfolding keep
  keep-length p [] = omega arith
  keep-length p (x ∷ xs) = ground (arith, keep-length p xs)

module _ {A : Type 0} where
  pub Has-keep :
      (p : A → Bool) (a : A) (xs : List A) → Has a (keep p xs) ↔ (Has a xs × (p a ≡ true))
  unfolding keep
  Has-keep p a [] = (λ h. absurd h, λ h. h.0)
  Has-keep p a (x ∷ xs) = ground (arith, Has-keep p a xs)

  pub contains_iff :
      (eq : A → A → Bool)
      → ((x y : A) → (eq x y ≡ true) ↔ (x ≡ y))
      → (a : A) (xs : List A) → (contains eq a xs ≡ true) ↔ Has a xs
  unfolding contains
  contains_iff eq law a [] = ground arith
  contains_iff eq law a (x ∷ xs) = ground (arith, law a x, contains_iff eq law a xs)

  pub all_iff : (p : A → Bool) (xs : List A) → (all p xs ≡ true) ↔ All (λ x. p x ≡ true) xs
  unfolding all
  all_iff p [] = ground arith
  all_iff p (x ∷ xs) = ground (arith, all_iff p xs)

  pub find-eq-some :
      (p : A → Bool) (xs : List A) (x : A) → find p xs ≡ some x → Has x xs × (p x ≡ true)
  unfolding find
  find-eq-some p [] x h = cc
  find-eq-some p (y ∷ xs) x h = ground (arith, find-eq-some p xs x)

  pub All-Has {κ} : (P : A → Type κ) (xs : List A) (x : A) → All P xs → Has x xs → P x
  All-Has P [] x h m = absurd m
  All-Has P (y ∷ xs) x (h, hs) (inl e) = rw e h
  All-Has P (y ∷ xs) x (h, hs) (inr m) = All-Has P xs x hs m
