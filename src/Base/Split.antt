-- ===== src/Base/Split.antt =====
-- Splitting and joining texts at a separator byte.
use Prim.Native.Nat.{ℕ}
use mathlib.Core.Path.{◌≡◌, refl, ap, ◌∙◌}
use mathlib.Core.Logic.{◌≢◌, inl, inr}
use mathlib.Core.List.{List, [], ◌∷◌, ◌++◌}
use mathlib.Core.Option.{Option, none, some}
use native.Mathlib.Omega.{arith}
use radicle_client_services.Base.Tests.{eqb, Option-cases, if◌then◌else◌}
use radicle_client_services.Base.Lists.{All}
use radicle_client_services.Base.Bytes.{Text}

-- `str::split_once(c)`
unfoldable pub split_once : ℕ → Text → Option (Text × Text)
split_once c [] = none
split_once c (b ∷ s) =
    let rest = split_once c s in
    if eqb b c then some ([], s) else elim rest [ none ↦ none | some (l, r) ↦ some (b ∷ l, r) ]

-- A byte in front of the first part.
abbrev pub push_front : ℕ → List Text → List Text
push_front b [] = (b ∷ []) ∷ []
push_front b (p ∷ ps) = (b ∷ p) ∷ ps

-- `str::split(c)`, collected: one part more than there are separators.
unfoldable pub split : ℕ → Text → List Text
split c [] = [] ∷ []
split c (b ∷ s) = let rest = split c s in if eqb b c then [] ∷ rest else push_front b rest

-- `[_]::join(sep)` for a separator of one byte
unfoldable pub join : ℕ → List Text → Text
join c [] = []
join c (p ∷ []) = p
join c (p ∷ q ∷ ps) = p ++ c ∷ join c (q ∷ ps)

-- The byte does not occur.
abbrev pub Lacks : ℕ → Text → Type 0
Lacks c s = All (λ b. b ≢ c) s

pub split_once-append : (c : ℕ) (l r : Text) → Lacks c l → split_once c (l ++ c ∷ r) ≡ some (l, r)
unfolding split_once
split_once-append c [] r h = ground arith
split_once-append c (b ∷ l) r (h, hs) = ground (arith, split_once-append c l r hs)

pub split_once-eq-some :
    (c : ℕ) (s l r : Text) → split_once c s ≡ some (l, r) → (s ≡ l ++ c ∷ r) × Lacks c l
unfolding split_once
split_once-eq-some c [] l r h = cc
split_once-eq-some c (b ∷ s) l r h = elim (Option-cases (split_once c s)) [
  | inl missed ↦ ground arith
  | inr ((l', r'), found) ↦ ground (arith, split_once-eq-some c s l' r' found)
]

pub split-Lacks : (c : ℕ) (s : Text) → Lacks c s → split c s ≡ s ∷ []
unfolding split
split-Lacks c [] h = refl
split-Lacks c (b ∷ s) (h, hs) = ground (arith, split-Lacks c s hs)

pub split-append : (c : ℕ) (p s : Text) → Lacks c p → split c (p ++ c ∷ s) ≡ p ∷ split c s
unfolding split
split-append c [] s h = ground arith
split-append c (b ∷ p) s (h, hs) = ground (arith, split-append c p s hs)

-- Splitting at the separator undoes joining, if the list is not empty and no part has it.
pub split-join :
    (c : ℕ) (p : Text) (ps : List Text)
    → All (Lacks c) (p ∷ ps)
    → split c (join c (p ∷ ps)) ≡ p ∷ ps
unfolding join
split-join c p [] (h, _) = split-Lacks c p h
split-join c p (q ∷ ps) (h, hs) =
    split-append c p (join c (q ∷ ps)) h ∙ ap (λ t. p ∷ t) (split-join c q ps hs)
