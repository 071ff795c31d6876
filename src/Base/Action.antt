-- ===== src/Base/Action.antt =====
-- Code that reads and changes a state and may fail or panic: what it changed before stays changed.
use mathlib.Core.Path.{◌≡◌, refl, sym, subst, ap}
use mathlib.Core.Logic.{inl, inr}
use mathlib.Core.List.{List, [], ◌∷◌}
use radicle_client_services.Base.Lists.{Has}
use radicle_client_services.Base.Results.{Outcome, ok, err, panic}

abbrev pub Action : Type 0 → Type 0 → Type 0 → Type 0
Action S E A = S → Outcome E A × S

module _ {S E : Type 0} where
  abbrev pub pure : {A : Type 0} → A → Action S E A
  pure a s = (ok a, s)

  abbrev pub raise : {A : Type 0} → E → Action S E A
  raise e s = (err e, s)

  -- a computation that leaves the state alone
  abbrev pub lift : {A : Type 0} → Outcome E A → Action S E A
  lift r s = (r, s)

  -- one that reads the state
  abbrev pub gets : {A : Type 0} → (S → Outcome E A) → Action S E A
  gets f s = (f s, s)

  abbrev pub resume : {A B : Type 0} → Outcome E A → (A → Action S E B) → Action S E B
  resume (ok a) f s = f a s
  resume (err e) f s = (err e, s)
  resume panic f s = (panic, s)

  infixl 5 ◌>>=◌ ◌>>◌
  abbrev pub ◌>>=◌ : {A B : Type 0} → Action S E A → (A → Action S E B) → Action S E B
  ◌>>=◌ m f s = resume (m s).0 f (m s).1

  abbrev pub ◌>>◌ : {B : Type 0} → Action S E (Unit {0}) → Action S E B → Action S E B
  ◌>>◌ m k s = resume (m s).0 (λ _. k) (m s).1

  -- `for x in xs { body(x)? }`
  unfoldable pub for_each :
      {A : Type 0} → (A → Action S E (Unit {0})) → List A → Action S E (Unit {0})
  for_each body [] = pure tt
  for_each body (x ∷ xs) = body x >> for_each body xs

  -- An invariant of the state, through one step and the rest, and through a loop.
  pub resume-inv :
      {A B : Type 0} (I : S → Type 0) (r : Outcome E A) (f : A → Action S E B) (s : S)
      → I s
      → ((a : A) → r ≡ ok a → I (f a s).1)
      → I (resume r f s).1
  resume-inv I (ok a) f s h k = k a refl
  resume-inv I (err e) f s h k = h
  resume-inv I panic f s h k = h

  pub for_each-inv :
      {A : Type 0} (I : S → Type 0) (body : A → Action S E (Unit {0})) (xs : List A)
      → ((x : A) (t : S) → Has x xs → I t → I (body x t).1)
      → (s : S) → I s
      → I (for_each body xs s).1
  unfolding for_each
  for_each-inv I body [] keep s h = h
  for_each-inv I body (x ∷ xs) keep s h =
      resume-inv I (body x s).0 (λ _. for_each body xs) (body x s).1 (keep x s (inl refl) h)
        (λ _ _.
          for_each-inv I body xs (λ y t m. keep y t (inr m)) (body x s).1 (keep x s (inl refl) h))

  -- What a step that returned has done, and what the rest did after it.
  pub resume-eq-ok :
      {A B : Type 0} (r : Outcome E A) (f : A → Action S E B) (s : S) {b : B}
      → (resume r f s).0 ≡ ok b
      → (a : A) × (r ≡ ok a) × ((f a s).0 ≡ ok b)
  resume-eq-ok (ok a) f s h = (a, refl, h)
  resume-eq-ok (err e) f s h = cc
  resume-eq-ok panic f s h = cc

  -- The first of two actions that both return, and what is left of the pair.
  pub >>-eq-ok :
      {B : Type 0} (m : Action S E (Unit {0})) (k : Action S E B) (s : S) {b : B}
      → ((m >> k) s).0 ≡ ok b
      → ((m s).0 ≡ ok tt) × ((m >> k) s ≡ k (m s).1)
  >>-eq-ok m k s h =
      let (u, done, h₁) = resume-eq-ok (m s).0 (λ _. k) (m s).1 h in
      (done, ap (λ r. resume r (λ _. k) (m s).1) done)

  -- What one round of a loop establishes and the later rounds keep, holds when the loop returns.
  pub for_each-Has :
      {A : Type 0} (I : S → Type 0) (body : A → Action S E (Unit {0})) (x : A) (xs : List A)
      → ((y : A) (t : S) → I t → I (body y t).1)
      → ((t : S) → (body x t).0 ≡ ok tt → I (body x t).1)
      → Has x xs
      → (s : S) → (for_each body xs s).0 ≡ ok tt
      → I (for_each body xs s).1
  unfolding for_each
  for_each-Has I body x [] keep establish found s h = absurd found
  for_each-Has I body x (y ∷ ys) keep establish (inl same) s h =
      let (u, done, h₁) = resume-eq-ok (body y s).0 (λ _. for_each body ys) (body y s).1 h in
      let returned = subst (λ z. (body z s).0 ≡ ok tt) (sym same) done in
      let after = subst (λ z. I (body z s).1) same (establish s returned) in
      subst I (sym (ap (λ r. (resume r (λ _. for_each body ys) (body y s).1).1) done))
        (for_each-inv I body ys (λ z t _. keep z t) (body y s).1 after)
  for_each-Has I body x (y ∷ ys) keep establish (inr later) s h =
      let (u, done, h₁) = resume-eq-ok (body y s).0 (λ _. for_each body ys) (body y s).1 h in
      subst I (sym (ap (λ r. (resume r (λ _. for_each body ys) (body y s).1).1) done))
        (for_each-Has I body x ys keep establish later (body y s).1 h₁)
