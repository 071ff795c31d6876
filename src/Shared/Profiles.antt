-- ===== src/Shared/Profiles.antt =====
-- Which profile a service starts with.
use radicle_client_services.Base.{
  Text, Option, none, some, Outcome-cases, ok, ◌≡◌, inl, inr, ◌∙◌, refl, ap, sym, arith,
}
use radicle_client_services.Base.Action.{resume, resume-eq-ok}
use radicle_client_services.Extern.Keystore.{Keystore, KeepsFiles}
use radicle_client_services.Shared.{
  home_of, find_or_create, signer_from, finish_profile, with_profile, profile,
}

module _ (K : Keystore) (F : KeepsFiles K) where
  find_or_create-active :
      (home : K.Home) (passphrase : Option Text) (found : Option K.Profile) (d : K.Disk)
      (p : K.Profile)
      → K.active d home ≡ ok found
      → (find_or_create K home passphrase found d).0 ≡ ok p
      → K.active (find_or_create K home passphrase found d).1 home ≡ ok (some p)
  unfolding find_or_create
  find_or_create-active home passphrase (some q) d p seen h = ground arith
  find_or_create-active home (some pass) none d p seen h =
      F.create-active home (K.pwhash pass) d p h
  find_or_create-active home none none d p seen h = cc

  find_or_create-found :
      (home : K.Home) (passphrase : Option Text) (q : K.Profile) (d : K.Disk)
      → find_or_create K home passphrase (some q) d ≡ (ok q, d)
  unfolding find_or_create
  find_or_create-found home passphrase q d = refl

  finish_profile-keeps :
      (home there : K.Home) (passphrase : Option Text) (q p : K.Profile) (s : K.BoxedSigner)
      (d : K.Disk)
      → (finish_profile K home passphrase q d).0 ≡ ok (there, p, s)
      → (there ≡ home) × (p ≡ q) × ((finish_profile K home passphrase q d).1 ≡ d)
  unfolding finish_profile
  finish_profile-keeps home there passphrase q p s d h =
      elim (Outcome-cases (signer_from K d passphrase q)) [
        | inl (signer, found) ↦ (ground arith, ground arith, ground arith)
        | inr (inl (e, bad)) ↦ absurd (ground arith)
        | inr (inr bad) ↦ absurd (ground arith)
      ]

  -- What the service starts with is the active profile of its home.
  Starts : K.Home → K.Profile → K.Disk → Type 0
  Starts home p d = K.active d home ≡ ok (some p)

  with_profile-Starts :
      (home there : K.Home) (passphrase : Option Text) (found : Option K.Profile) (d : K.Disk)
      (p : K.Profile) (s : K.BoxedSigner)
      → K.active d home ≡ ok found
      → (with_profile K home passphrase found d).0 ≡ ok (there, p, s)
      → (there ≡ home) × Starts there p (with_profile K home passphrase found d).1
  unfolding with_profile Starts
  with_profile-Starts home there passphrase found d p s seen h =
      let step = find_or_create K home passphrase found d in
      let (q, made, h₁) = resume-eq-ok step.0 (finish_profile K home passphrase) step.1 h in
      let (same, is, kept) = finish_profile-keeps home there passphrase q p s step.1 h₁ in
      let now = find_or_create-active home passphrase found d q seen made in
      (
        same,
        ap (λ r. K.active (resume r (finish_profile K home passphrase) step.1).1 there) made
            ∙ ap (λ d. K.active d there) kept
            ∙ ap (K.active step.1) same
            ∙ now
            ∙ ap (λ p. ok (some p)) (sym is),
      )

  -- If the services find or create a profile, then it is the active one of their home afterwards.
  pub profile-active :
      (root passphrase : Option Text) (d : K.Disk) (home : K.Home) (p : K.Profile)
      (s : K.BoxedSigner)
      → (profile K root passphrase d).0 ≡ ok (home, p, s)
      → (home_of K d root ≡ ok home) × (K.active (profile K root passphrase d).1 home ≡ ok (some p))
  unfolding profile Starts
  profile-active root passphrase d home p s h =
      let (there, at, h₁) =
        resume-eq-ok (home_of K d root)
          (λ home d'. resume (K.active d' home) (with_profile K home passphrase) d') d h in
      let (found, seen, h₂) =
        resume-eq-ok (K.active d there) (with_profile K there passphrase) d h₁ in
      let (same, starts) = with_profile-Starts there home passphrase found d p s seen h₂ in
      (
        at ∙ ap ok (sym same),
        ap
              (λ r.
                K.active
                  (resume r
                    (λ home d'. resume (K.active d' home) (with_profile K home passphrase) d') d).1
                  home)
              at
            ∙ ap (λ r. K.active (resume r (with_profile K there passphrase) d).1 home) seen
            ∙ starts,
      )
