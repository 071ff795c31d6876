-- ===== src/Base/Results.antt =====
-- The result of fallible code: a value, an error, or a panic of the process.
use Prim.Native.Nat.{ℕ, ◌-◌}
use mathlib.Core.Path.{◌≡◌, refl, ap, ◌∙◌}
use mathlib.Core.Logic.{◌⊎◌, inl, inr}
use mathlib.Core.Bool.{Bool, true, false, ◌&&◌}
use mathlib.Core.Option.{Option, none, some}
use radicle_client_services.Base.Tests.{leb, if◌then◌else◌}
use radicle_client_services.Base.Lists.{take, drop}
use radicle_client_services.Base.Bytes.{Text, is_boundary}

pub data Outcome {ℓ} (E A : Type ℓ) : Type ℓ where
  ok : A → Outcome E A
  err : E → Outcome E A
  panic : Outcome E A

infixl 5 ◌>>=◌ ◌>>◌
abbrev pub ◌>>=◌ {ℓ} : {E A B : Type ℓ} → Outcome E A → (A → Outcome E B) → Outcome E B
ok a >>= f = f a
err e >>= f = err e
panic >>= f = panic

abbrev pub ◌>>◌ : {E B : Type 0} → Outcome E (Unit {0}) → Outcome E B → Outcome E B
m >> k = m >>= λ _. k

-- `Option::ok_or`
abbrev pub ok_or : {E A : Type 0} → E → Option A → Outcome E A
ok_or e none = err e
ok_or e (some a) = ok a

-- `Result::map_err`
abbrev pub map_err : {E F A : Type 0} → (E → F) → Outcome E A → Outcome F A
map_err f (ok a) = ok a
map_err f (err e) = err (f e)
map_err f panic = panic

-- an early `return Err(e)` unless the test holds
abbrev pub ensure : {E : Type 0} → Bool → E → Outcome E (Unit {0})
ensure true e = ok tt
ensure false e = err e

pub ok-injective : {E A : Type 0} {a b : A} → ◌≡◌ {A = Outcome E A} (ok a) (ok b) → a ≡ b
ok-injective h = cc

pub err-injective : {E A : Type 0} {a b : E} → ◌≡◌ {A = Outcome E A} (err a) (err b) → a ≡ b
err-injective h = cc

pub some-injective : {A : Type 0} {a b : A} → some a ≡ some b → a ≡ b
some-injective h = cc

pub >>=-eq-ok :
    {E A B : Type 0} (first : Outcome E A) (next : A → Outcome E B) {result : B}
    → (first >>= next) ≡ ok result
    → (x : A) × (first ≡ ok x) × (next x ≡ ok result)
>>=-eq-ok panic next done = cc
>>=-eq-ok (err e) next done = cc
>>=-eq-ok (ok x) next done = (x, refl, done)

pub >>=-of-ok :
    {E A B : Type 0} (m : Outcome E A) (f : A → Outcome E B) {a : A} {r : Outcome E B}
    → m ≡ ok a
    → f a ≡ r
    → (m >>= f) ≡ r
>>=-of-ok (ok x) f h k = ap f (ok-injective h) ∙ k
>>=-of-ok (err e) f h k = cc
>>=-of-ok panic f h k = cc

pub >>=_assoc :
    {E A B C : Type 0} (m : Outcome E A) (f : A → Outcome E B) (g : B → Outcome E C)
    → (m >>= f >>= g) ≡ (m >>= λ a. f a >>= g)
>>=_assoc (ok a) f g = refl
>>=_assoc (err e) f g = refl
>>=_assoc panic f g = refl

-- two continuations that agree
pub >>=-ext :
    {E A B : Type 0} (m : Outcome E A) {f g : A → Outcome E B}
    → ((a : A) → f a ≡ g a)
    → (m >>= f) ≡ (m >>= g)
>>=-ext (ok a) h = h a
>>=-ext (err e) h = refl
>>=-ext panic h = refl

pub ok_or-bind :
    {E A B : Type 0} (e : E) (o : Option A) (f : A → Outcome E B) {b : B}
    → (ok_or e o >>= f) ≡ ok b
    → (a : A) × (o ≡ some a) × (f a ≡ ok b)
ok_or-bind e none f h = cc
ok_or-bind e (some a) f h = (a, refl, h)

-- `&s[from..to]`, which panics if the bounds are out of order or no character boundaries of `s`
unfoldable pub slice : {E : Type 0} → Text → ℕ → ℕ → Outcome E Text
slice s from to =
    if leb from to && is_boundary s from && is_boundary s to
    then ok (take (to - from) (drop from s))
    else panic

-- `Option::unwrap_or`
abbrev pub get_or_else {ℓ} : {A : Type ℓ} → Option A → A → A
get_or_else none d = d
get_or_else (some a) d = a

pub ok_or-eq-ok : {E A : Type 0} (e : E) (o : Option A) {a : A} → ok_or e o ≡ ok a → o ≡ some a
ok_or-eq-ok e none h = cc
ok_or-eq-ok e (some b) h = cc

pub map_err-eq-ok :
    {E F A : Type 0} (f : E → F) (r : Outcome E A) {a : A} → map_err f r ≡ ok a → r ≡ ok a
map_err-eq-ok f (ok b) h = cc
map_err-eq-ok f (err e) h = cc
map_err-eq-ok f panic h = cc

pub Outcome-cases {ℓ} :
    {E A : Type ℓ} (r : Outcome E A)
    → ((a : A) × (r ≡ ok a)) ⊎ (((e : E) × (r ≡ err e)) ⊎ (r ≡ panic))
Outcome-cases (ok a) = inl (a, refl)
Outcome-cases (err e) = inr (inl (e, refl))
Outcome-cases panic = inr (inr refl)
