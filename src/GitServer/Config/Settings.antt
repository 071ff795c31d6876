-- ===== src/GitServer/Config/Settings.antt =====
-- What the configuration of git is once the server has started.
use radicle_client_services.Base.{
  Text, lit, All, Has, not, ◌||◌, ◌⊎◌, List, map, eq_iff, ◌==◌, Assoc, get, get-append, ◌++◌, Bool,
  true, false, or_else, Bool-cases, if◌then◌else◌, Option, some, none, [], ◌∷◌, get_or_else,
  Outcome-cases, ok, map_err-eq-ok, ◌≡◌, ◌∙◌, refl, ap, sym, inl, inr, arith,
}
use radicle_client_services.Base.Action.{resume, resume-eq-ok, ◌>>◌}
use radicle_client_services.Extern.GitConfig.{GitConfig, KeepsFields, to_lower}
use radicle_client_services.GitServer.Error.{Error, git2_error}
use radicle_client_services.GitServer.Config.{
  Setup, gen_random_string, set_root_git_config, or_bail, configure, set_cert_nonce_seed,
  set_cert_nonce_slop, advertise_push_options, disable_signers_file, disable_gc,
}

All-split : {A : Type 0} (Q : A → Type 0) (l m : List A) → All Q (l ++ m) → All Q l × All Q m
All-split Q [] m h = (tt, h)
All-split Q (a ∷ l) m (h, hs) = let (first, second) = All-split Q l m hs in ((h, first), second)

module _ (F : GitConfig) (K : KeepsFields F) where
  -- The names are the same, or differ in more than the case of their letters.
  abbrev Apart : Text → Text → Type 0
  Apart k j = ((k == j) || not (to_lower k == to_lower j)) ≡ true

  set_str-field_if :
      (k v : Text) (c : F.Config) (j : Text)
      → Apart k j
      → (F.set_str k v c).0 ≡ ok tt
      → F.field (F.set_str k v c).1 j ≡ (if k == j then some v else F.field c j)
  set_str-field_if k v c j apart h = elim (Bool-cases (k == j)) [
    | inl same ↦
        rw same
          (ap (F.field (F.set_str k v c).1) (sym ((eq_iff k j).0 same)) ∙ K.set_str-field k v c h)
    | inr other ↦ rw other (
        K.set_str-field_ne k v c j (λ e. absurd (ground (arith, eq_iff (to_lower k) (to_lower j)))))
  ]

  -- What a step that returned has done to the fields.
  Sets : {E : Type 0} → Text → Text → Setup F E → Type 0
  Sets k v m =
      (c : F.Config) (j : Text)
      → Apart k j
      → (m c).0 ≡ ok tt
      → F.field (m c).1 j ≡ (if k == j then some v else F.field c j)

  set_root_git_config-Sets : (k v : Text) → Sets k v (set_root_git_config F k v)
  unfolding Sets set_root_git_config
  set_root_git_config-Sets k v c j apart h = elim (Outcome-cases (F.open_config c)) [
    | inl (u, opened) ↦ rw opened (
        set_str-field_if k v c j apart
          (map_err-eq-ok git2_error (F.set_str k v c).0 (rw opened at h)))
    | inr (inl (e, bad)) ↦ absurd (ground arith)
    | inr (inr bad) ↦ absurd (ground arith)
  ]

  or_bail-Sets : (words k v : Text) (m : Setup F Error) → Sets k v m → Sets k v (or_bail F words m)
  unfolding Sets
  or_bail-Sets words k v m sets c j apart h = sets c j apart (map_err-eq-ok _ (m c).0 h)

  -- The same of steps that set several fields, the last in front.
  SetsAll : {E : Type 0} → Assoc Text → Setup F E → Type 0
  SetsAll l m =
      (c : F.Config) (j : Text)
      → All (λ s. Apart s.0 j) l
      → (m c).0 ≡ ok tt
      → F.field (m c).1 j ≡ or_else (get j l) (F.field c j)

  or_else_if :
      (b : Bool) (v : Text) (o : Option Text)
      → (if b then some v else o) ≡ or_else (if b then some v else none) o
  or_else_if true v o = refl
  or_else_if false v o = refl

  or_else_assoc : (o p q : Option Text) → or_else o (or_else p q) ≡ or_else (or_else o p) q
  or_else_assoc none p q = refl
  or_else_assoc (some v) p q = refl

  Sets-SetsAll : {E : Type 0} (k v : Text) (m : Setup F E) → Sets k v m → SetsAll ((k, v) ∷ []) m
  unfolding Sets SetsAll get
  Sets-SetsAll k v m sets c j (apart, _) h = sets c j apart h ∙ or_else_if (k == j) v (F.field c j)

  then-SetsAll :
      {E : Type 0} (k v : Text) (m : Setup F E) (l : Assoc Text) (n : Setup F E)
      → Sets k v m
      → SetsAll l n
      → SetsAll (l ++ (k, v) ∷ []) (m >> n)
  unfolding SetsAll
  then-SetsAll k v m l n first later c j apart h =
      let (behind, front) = All-split (λ (s : Text × Text). Apart s.0 j) l ((k, v) ∷ []) apart in
      let (u, done, h₁) = resume-eq-ok (m c).0 (λ _. n) (m c).1 h in
      let one = Sets-SetsAll k v m first in
      ap (λ r. F.field (resume r (λ _. n) (m c).1).1 j) done
      ∙ later (m c).1 j behind h₁
      ∙ ap (or_else (get j l)) (one c j front done)
      ∙ or_else_assoc (get j l) (get j ((k, v) ∷ [])) (F.field c j)
      ∙ ap (λ o. or_else o (F.field c j)) (sym (get-append j l ((k, v) ∷ [])))

  set-Sets : (words k v : Text) → Sets k v (or_bail F words (set_root_git_config F k v))
  set-Sets words k v =
      or_bail-Sets words k v (set_root_git_config F k v) (set_root_git_config-Sets k v)

  -- The fields that the server is started with.
  abbrev pub settings : Option Text → Assoc Text
  settings seed =
      (lit "gc.auto", lit "0")
      ∷ (lit "gpg.ssh.allowedSignersFile", lit "/dev/null")
      ∷ (lit "receive.advertisePushOptions", lit "true")
      ∷ (lit "receive.certNonceSlop", lit "60")
      ∷ (lit "receive.certNonceSeed", get_or_else seed (gen_random_string F))
      ∷ []

  configure-SetsAll : (seed : Option Text) → SetsAll (settings seed) (configure F seed)
  unfolding configure set_cert_nonce_seed set_cert_nonce_slop advertise_push_options
      disable_signers_file disable_gc
  configure-SetsAll seed =
      let gc = set-Sets (lit "Failed to disable gc") (lit "gc.auto") (lit "0") in
      let signers =
        set-Sets (lit "Failed to set signers file config") (lit "gpg.ssh.allowedSignersFile")
          (lit "/dev/null") in
      let push =
        set-Sets (lit "Failed to set push config") (lit "receive.advertisePushOptions")
          (lit "true") in
      let slop =
        set-Sets (lit "Failed to set certificate nonce slop") (lit "receive.certNonceSlop")
          (lit "60") in
      let nonce =
        set-Sets (lit "Failed to set certificate nonce seed") (lit "receive.certNonceSeed")
          (get_or_else seed (gen_random_string F)) in
      then-SetsAll _ _ _ _ _ nonce (
        then-SetsAll _ _ _ _ _ slop
          (then-SetsAll _ _ _ _ _ push (then-SetsAll _ _ _ _ _ signers (Sets-SetsAll _ _ _ gc))))

  configure-field :
      (seed : Option Text) (c : F.Config) (j : Text)
      → All (λ s. Apart s.0 j) (settings seed)
      → (configure F seed c).0 ≡ ok tt
      → F.field (configure F seed c).1 j ≡ or_else (get j (settings seed)) (F.field c j)
  unfolding SetsAll
  configure-field seed = configure-SetsAll seed

  -- Once the server has started, these fields have these values, the seed a random one if none is
  -- given.
  configure-settings :
      (seed : Option Text) (c : F.Config)
      → (configure F seed c).0 ≡ ok tt
      → All (λ s. F.field (configure F seed c).1 s.0 ≡ some s.1) (settings seed)
  unfolding ◌==◌ get
  configure-settings seed c h = (
    configure-field seed c (lit "gc.auto") (refl, (refl, (refl, (refl, (refl, tt))))) h,
    (
      configure-field seed c (lit "gpg.ssh.allowedSignersFile")
          (refl, (refl, (refl, (refl, (refl, tt))))) h,
      (
        configure-field seed c (lit "receive.advertisePushOptions")
            (refl, (refl, (refl, (refl, (refl, tt))))) h,
        (
          configure-field seed c (lit "receive.certNonceSlop")
              (refl, (refl, (refl, (refl, (refl, tt))))) h,
          (
            configure-field seed c (lit "receive.certNonceSeed")
                (refl, (refl, (refl, (refl, (refl, tt))))) h,
            tt,
          ),
        ),
      ),
    ),
  )

  -- A name is that of a setting, but for case, or is apart from all of them.
  Apart-cases :
      (j : Text) (l : Assoc Text)
      → Has (to_lower j) (map (λ s. to_lower s.0) l) ⊎ (All (λ s. Apart s.0 j) l × (get j l ≡ none))
  unfolding get
  Apart-cases j [] = inr (tt, refl)
  Apart-cases j ((k, v) ∷ l) = elim (Bool-cases (to_lower k == to_lower j)) [
    | inl same ↦ inl (inl (sym ((eq_iff (to_lower k) (to_lower j)).0 same)))
    | inr apart ↦ elim (Apart-cases j l) [
      | inl h ↦ inl (inr h)
      | inr (all, missing) ↦ elim (Bool-cases (k == j)) [
        | inl equal ↦ inl (inl (ap to_lower (sym ((eq_iff k j).0 equal))))
        | inr other ↦ inr ((rw (other, apart) refl, all), rw other missing)
      ]
    ]
  ]

  -- The settings have their values, and every other field is as it was, unless its name is one of
  -- theirs but for the case of its letters.
  abbrev pub Configured : Option Text → F.Config → F.Config → Type 0
  Configured seed before after =
      All (λ s. F.field after s.0 ≡ some s.1) (settings seed)
      × ((field : Text)
          → Has (to_lower field) (map (λ s. to_lower s.0) (settings seed))
            ⊎ (F.field after field ≡ F.field before field))

  configure-untouched :
      (seed : Option Text) (c : F.Config) (field : Text)
      → (configure F seed c).0 ≡ ok tt
      → Has (to_lower field) (map (λ s. to_lower s.0) (settings seed))
        ⊎ (F.field (configure F seed c).1 field ≡ F.field c field)
  configure-untouched seed c field h = elim (Apart-cases field (settings seed)) [
    | inl same ↦ inl same
    | inr (apart, missing) ↦
        inr (configure-field seed c field apart h ∙ ap (λ o. or_else o (F.field c field)) missing)
  ]

  pub configure-Configured :
      (seed : Option Text) (c : F.Config)
      → (configure F seed c).0 ≡ ok tt
      → Configured seed c (configure F seed c).1
  configure-Configured seed c h =
      (configure-settings seed c h, λ field. configure-untouched seed c field h)
