-- ===== src/HttpApi/Sessions/Cleanup.antt =====
-- What `cleanup_sessions` removes.
use radicle_client_services.Base.{
  Text, ℕ, suc, ◌+◌, ◌≤◌, ◌<◌, leb, Option, Option-cases, ◌⊎◌, ap, get_elem?, ◌==◌, eq_iff, get,
  remove, get-remove, Unique, remove-Unique, contains, if◌then◌else◌, Bool-cases, true, false, none,
  some, List, [], ◌∷◌, ◌≡◌, ◌∙◌, refl, inl, inr, arith,
}
use radicle_client_services.HttpApi.Auth.{Siwe, AuthState, authorized, unauthorized}
use radicle_client_services.HttpApi.Sessions.{
  Sessions, is_expired, expired, remove_all, cleanup_sessions,
}

module _ (W : Siwe) where
  -- the time at which a state ends, if it does
  abbrev pub ends_at : AuthState W → Option ℕ
  ends_at (authorized session) = session.expiration_time
  ends_at (unauthorized nonce t) = some t

  -- The state has ended at this time, or has not: it ends later or never.
  abbrev pub HasEnded : ℕ → AuthState W → Type 0
  HasEnded now state = (t : ℕ) × (ends_at state ≡ some t) × (t ≤ now)

  abbrev pub IsLive : ℕ → AuthState W → Type 0
  IsLive now state = (ends_at state ≡ none) ⊎ ((t : ℕ) × (ends_at state ≡ some t) × (now < t))

  is_expired-cases :
      (now : ℕ) (state : AuthState W)
      → ((is_expired W now state ≡ true) × HasEnded now state)
        ⊎ ((is_expired W now state ≡ false) × IsLive now state)
  unfolding is_expired
  is_expired-cases now (authorized session) = elim (Option-cases session.expiration_time) [
    | inl never ↦ inr (rw never refl, inl never)
    | inr (t, ends) ↦ elim (Bool-cases (leb t now)) [
      | inl over ↦ inl (rw ends over, (t, ends, ground arith))
      | inr live ↦ inr (rw ends live, inr (t, ends, ground arith))
    ]
  ]
  is_expired-cases now (unauthorized nonce t) = elim (Bool-cases (leb t now)) [
    | inl over ↦ inl (over, (t, refl, ground arith))
    | inr live ↦ inr (live, inr (t, refl, ground arith))
  ]

  get-remove_all :
      (k : Text) (ids : List Text) (m : Sessions W)
      → get k (remove_all W ids m) ≡ (if contains ◌==◌ k ids then none else get k m)
  unfolding remove_all contains
  get-remove_all k [] m = refl
  get-remove_all k (id ∷ ids) m =
      ground
        (arith, eq_iff id k, eq_iff k id, get-remove_all k ids (remove id m), get-remove id k m)

  contains-expired-none :
      (clock : ℕ → ℕ) (i : ℕ) (k : Text) (m : Sessions W)
      → get k m ≡ none
      → contains ◌==◌ k (expired W clock i m) ≡ false
  unfolding expired contains get
  contains-expired-none clock i k [] h = refl
  contains-expired-none clock i k ((id, state) ∷ m) h =
      ground (arith, eq_iff id k, eq_iff k id, contains-expired-none clock (suc i) k m)

  passed_over :
      (clock : ℕ → ℕ) (i : ℕ) (k id : Text) (other : AuthState W) (m : Sessions W)
      → (id == k) ≡ false
      → contains ◌==◌ k (expired W clock i ((id, other) ∷ m))
        ≡ contains ◌==◌ k (expired W clock (suc i) m)
  unfolding expired contains
  passed_over clock i k id other m there = ground (arith, eq_iff id k, eq_iff k id)

  found_here :
      (clock : ℕ → ℕ) (i : ℕ) (k id : Text) (state other : AuthState W) (m : Sessions W)
      → (id == k) ≡ true
      → get id m ≡ none
      → get k ((id, other) ∷ m) ≡ some state
      → contains ◌==◌ k (expired W clock i ((id, other) ∷ m)) ≡ is_expired W (clock i) state
  unfolding expired contains get
  found_here clock i k id state other m here fresh h =
      ground (arith, eq_iff id k, eq_iff k id, contains-expired-none clock (suc i) k m)

  contains-expired :
      (clock : ℕ → ℕ) (i : ℕ) (k : Text) (state : AuthState W) (m : Sessions W)
      → Unique m
      → get k m ≡ some state
      → (j : ℕ) × (get_elem? m j ≡ some (k, state))
        × (contains ◌==◌ k (expired W clock i m) ≡ is_expired W (clock (i + j)) state)
  unfolding expired contains get
  contains-expired clock i k state [] u h = absurd (ground arith)
  contains-expired clock i k state ((id, other) ∷ m) (fresh, u) h = elim (Bool-cases (id == k)) [
    | inl here ↦ (
      0,
      ground (arith, eq_iff id k),
      found_here clock i k id state other m here fresh h
          ∙ ap (λ x. is_expired W (clock x) state) (omega arith),
    )
    | inr there ↦
        let (j, at, same) = contains-expired clock (suc i) k state m u (ground arith) in
        (
          suc j,
          at,
          passed_over clock i k id other m there
              ∙ same
              ∙ ap (λ x. is_expired W (clock x) state) (omega arith),
        )
  ]

  -- Where the sessions have one entry for each id: the session at place j of the loop is removed if
  -- its time of expiration is not after the j-th reading of the clock, and is kept as it is if it
  -- ends later or never.
  pub cleanup_sessions-get :
      (clock : ℕ → ℕ) (k : Text) (state : AuthState W) (m : Sessions W)
      → Unique m
      → get k m ≡ some state
      → (j : ℕ) × (get_elem? m j ≡ some (k, state))
        × ((HasEnded (clock j) state × (get k (cleanup_sessions W clock m) ≡ none))
            ⊎ (IsLive (clock j) state × (get k (cleanup_sessions W clock m) ≡ some state)))
  unfolding cleanup_sessions
  cleanup_sessions-get clock k state m u h =
      let (j, at, same) = contains-expired clock 0 k state m u h in
      let removed = get-remove_all k (expired W clock 0 m) m in
      let now : contains ◌==◌ k (expired W clock 0 m) ≡ is_expired W (clock j) state =
        same ∙ ap (λ x. is_expired W (clock x) state) (omega arith) in
      elim (is_expired-cases (clock j) state) [
        | inl (over, ended) ↦ (j, at, inl (ended, removed ∙ rw (now, over) refl))
        | inr (live, later) ↦ (j, at, inr (later, removed ∙ rw (now, live) h))
      ]

  -- No session comes to be, and each id keeps one entry.
  pub cleanup_sessions-none :
      (clock : ℕ → ℕ) (k : Text) (m : Sessions W)
      → get k m ≡ none
      → get k (cleanup_sessions W clock m) ≡ none
  unfolding cleanup_sessions
  cleanup_sessions-none clock k m h = ground (arith, get-remove_all k (expired W clock 0 m) m)

  remove_all-Unique : (ids : List Text) (m : Sessions W) → Unique m → Unique (remove_all W ids m)
  unfolding remove_all
  remove_all-Unique [] m u = u
  remove_all-Unique (id ∷ ids) m u = remove_all-Unique ids (remove id m) (remove-Unique id m u)

  pub cleanup_sessions-Unique :
      (clock : ℕ → ℕ) (m : Sessions W) → Unique m → Unique (cleanup_sessions W clock m)
  unfolding cleanup_sessions
  cleanup_sessions-Unique clock m u = remove_all-Unique (expired W clock 0 m) m u
