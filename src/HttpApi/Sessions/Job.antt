-- ===== src/HttpApi/Sessions/Job.antt =====
-- `cleanup_sessions_job` of http-api/src/lib.rs: the rounds of the job that removes sessions.
use native.Mathlib.Nat.{le_trans}
use radicle_client_services.Base.{
  Text, ℕ, zero, suc, ◌+◌, ◌*◌, ◌-◌, ◌/◌, ◌≤◌, ◌<◌, get, Unique, Option-cases, none, some, ◌≡◌, ◌⊎◌,
  inl, inr, arith,
}
use radicle_client_services.HttpApi.Auth.{Siwe, AuthState}
use radicle_client_services.HttpApi.Sessions.{Sessions, cleanup_sessions}
use radicle_client_services.HttpApi.Sessions.Cleanup.{
  IsLive, cleanup_sessions-Unique, cleanup_sessions-get, cleanup_sessions-none,
}

-- CLEANUP_SESSIONS_INTERVAL, in seconds
abbrev pub cleanup_interval : ℕ
cleanup_interval = 60

-- when tokio's timer lets round n begin, at the earliest: the first one at once, and then one in
-- each interval
abbrev pub tick : ℕ → ℕ → ℕ → ℕ
tick interval start n = start + n * interval

module _ (W : Siwe) where
  -- The sessions behind round n of the loop, for a job that starts at a time. What requests do
  -- between two rounds is one of the functions; the other is how long after its tick a round reads
  -- the clock, each time that it does.
  unfoldable pub cleanup_sessions_job :
      (ℕ → Sessions W → Sessions W) → (ℕ → ℕ → ℕ) → ℕ → ℕ → ℕ → Sessions W → Sessions W
  cleanup_sessions_job requests delay interval start zero m =
      cleanup_sessions W (λ i. tick interval start 0 + delay 0 i) (requests 0 m)
  cleanup_sessions_job requests delay interval start (suc n) m =
      cleanup_sessions W (λ i. tick interval start (suc n) + delay (suc n) i)
        (requests (suc n) (cleanup_sessions_job requests delay interval start n m))

  IsLive-mono : (t now : ℕ) (state : AuthState W) → t ≤ now → IsLive W now state → IsLive W t state
  IsLive-mono t now state later (inl never) = inl never
  IsLive-mono t now state later (inr (e, ends, after)) = inr (e, ends, omega arith)

  -- The id has no session, or one that ends after this time or never.
  abbrev pub NoneEnded : ℕ → Text → Sessions W → Type 0
  NoneEnded t id m =
      (get id m ≡ none) ⊎ ((state : AuthState W) × (get id m ≡ some state) × IsLive W t state)

  -- After a cleanup no session is left that had ended when it began.
  cleanup_sessions-live :
      (clock : ℕ → ℕ) (t : ℕ) (id : Text) (m : Sessions W)
      → Unique m
      → ((i : ℕ) → t ≤ clock i)
      → NoneEnded t id (cleanup_sessions W clock m)
  cleanup_sessions-live clock t id m u later = elim (Option-cases (get id m)) [
    | inl missing ↦ inl (cleanup_sessions-none W clock id m missing)
    | inr (state, found) ↦
        let (j, at, result) = cleanup_sessions-get W clock id state m u found in
        elim result [
          | inl (ended, gone) ↦ inl gone
          | inr (live, kept) ↦ inr (state, kept, IsLive-mono t (clock j) state (later j) live)
        ]
  ]

  module _ (requests : ℕ → Sessions W → Sessions W) (delay : ℕ → ℕ → ℕ) (interval start : ℕ)
      (m : Sessions W) (keep : (n : ℕ) (s : Sessions W) → Unique s → Unique (requests n s))
      (u : Unique m) where
    job-Unique : (n : ℕ) → Unique (cleanup_sessions_job requests delay interval start n m)
    unfolding cleanup_sessions_job
    job-Unique zero = cleanup_sessions-Unique W _ (requests 0 m) (keep 0 m u)
    job-Unique (suc n) = cleanup_sessions-Unique W _ _ (keep (suc n) _ (job-Unique n))

    job-live :
        (n t : ℕ) (id : Text)
        → t ≤ tick interval start n
        → NoneEnded t id (cleanup_sessions_job requests delay interval start n m)
    unfolding cleanup_sessions_job
    job-live zero t id reached =
        cleanup_sessions-live (λ i. tick interval start 0 + delay 0 i) t id (requests 0 m)
          (keep 0 m u) (λ i. le_trans reached (omega arith))
    job-live (suc n) t id reached =
        cleanup_sessions-live (λ i. tick interval start (suc n) + delay (suc n) i) t id
          (requests (suc n) (cleanup_sessions_job requests delay interval start n m))
          (keep (suc n) _ (job-Unique n)) (λ i. le_trans reached (omega arith))

-- A session that ends goes: for any time since the start of the job there is a round that the timer
-- lets begin within a minute of it, behind which the id has no session, or one that ends after that
-- time or never. The requests keep one entry for each id.
pub cleanup_sessions_job-live :
    (W : Siwe) (requests : ℕ → Sessions W → Sessions W) (delay : ℕ → ℕ → ℕ) (start : ℕ)
    (m : Sessions W) (t : ℕ) (id : Text)
    → ((n : ℕ) (s : Sessions W) → Unique s → Unique (requests n s))
    → Unique m
    → start ≤ t
    → (n : ℕ) × (t ≤ tick cleanup_interval start n)
      × (tick cleanup_interval start n < t + cleanup_interval)
      × NoneEnded W t id (cleanup_sessions_job W requests delay cleanup_interval start n m)
cleanup_sessions_job-live W requests delay start m t id keep u begun =
    let n : ℕ = (t - start + 59) / 60 in
    let reached : t ≤ tick cleanup_interval start n = omega arith in
    (
      n,
      reached,
      omega arith,
      job-live W requests delay cleanup_interval start m keep u n t id reached,
    )
