-- ===== src/Base/Entries.antt =====
-- Maps with texts as keys, as association lists: the first entry of a key counts.
use mathlib.Core.Path.{◌≡◌, refl}
use mathlib.Core.Option.{Option, none, some}
use mathlib.Core.List.{List, [], ◌∷◌, ◌++◌}
use native.Mathlib.Omega.{arith}
use radicle_client_services.Base.Tests.{if◌then◌else◌}
use radicle_client_services.Base.Bytes.{Text, ◌==◌, eq_iff}

abbrev pub Assoc {ℓ} : Type ℓ → Type ℓ
Assoc V = List (Text × V)

-- `Option::or`
abbrev pub or_else {ℓ} : {A : Type ℓ} → Option A → Option A → Option A
or_else none o = o
or_else (some a) o = some a

pub or_else-none {ℓ} : {A : Type ℓ} → (o : Option A) → or_else o none ≡ o
or_else-none none = refl
or_else-none (some a) = refl

module _ {ℓ} {V : Type ℓ} where
  unfoldable pub get : Text → Assoc V → Option V
  get k [] = none
  get k ((j, v) ∷ m) = if j == k then some v else get k m

  -- The entry of the key is replaced where it stands, or added at the end.
  unfoldable pub insert : Text → V → Assoc V → Assoc V
  insert key value [] = (key, value) ∷ []
  insert key value ((other, old) ∷ rest) =
      let inserted = insert key value rest in
      if other == key then (key, value) ∷ rest else (other, old) ∷ inserted

  unfoldable pub remove : Text → Assoc V → Assoc V
  remove k [] = []
  remove k ((j, v) ∷ m) = let rest = remove k m in if j == k then rest else (j, v) ∷ rest

  pub get-insert :
      (k j : Text) (v : V) (m : Assoc V)
      → get j (insert k v m) ≡ (if k == j then some v else get j m)
  unfolding get insert
  get-insert k j v [] = refl
  get-insert k j v ((i, w) ∷ m) =
      ground (arith, eq_iff k j, eq_iff i k, eq_iff i j, get-insert k j v m)

  -- Filling a vacant entry leaves every entry that was there.
  pub fill_vacant-keeps :
      (k j : Text) (v w : V) (m : Assoc V)
      → get j m ≡ some w
      → get j (elim (get k m) [ none ↦ insert k v m | some u ↦ m ]) ≡ some w
  fill_vacant-keeps k j v w m held = ground (arith, eq_iff k j, get-insert k j v m)

  pub get-remove :
      (k j : Text) (m : Assoc V) → get j (remove k m) ≡ (if k == j then none else get j m)
  unfolding get remove
  get-remove k j [] = ground arith
  get-remove k j ((i, w) ∷ m) = ground (arith, eq_iff k j, eq_iff i k, eq_iff i j, get-remove k j m)

  pub get-append : (k : Text) (m n : Assoc V) → get k (m ++ n) ≡ or_else (get k m) (get k n)
  unfolding get
  get-append k [] n = refl
  get-append k ((j, v) ∷ m) n = ground (arith, get-append k m n)

module _ {V : Type 0} where
  -- Each key has one entry.
  abbrev pub Unique : Assoc V → Type 0
  Unique [] = Unit {0}
  Unique ((k, v) ∷ m) = (get k m ≡ none) × Unique m

  pub insert-Unique : (k : Text) (v : V) (m : Assoc V) → Unique m → Unique (insert k v m)
  unfolding insert get
  insert-Unique k v [] u = (refl, tt)
  insert-Unique k v ((j, w) ∷ m) (fresh, u) =
      ground (arith, eq_iff j k, eq_iff k j, get-insert k j v m, insert-Unique k v m u)

  pub remove-Unique : (k : Text) (m : Assoc V) → Unique m → Unique (remove k m)
  unfolding remove
  remove-Unique k [] u = tt
  remove-Unique k ((j, w) ∷ m) (fresh, u) = ground (arith, get-remove k j m, remove-Unique k m u)
