-- ===== src/Checks/Start.antt =====
-- The copying of a body and the configuration of git, at concrete values.
use radicle_client_services.Base.{
  Text, lit, Bool-cases, inl, inr, ap, ◌==◌, ◌≢◌, eq_iff, eq_refl, Assoc, get, insert, get-insert,
  some, [], ◌∷◌, ok, ◌≡◌, ◌∙◌, refl,
}
use radicle_client_services.Extern.GitConfig.{GitConfig, KeepsFields, to_lower}
use radicle_client_services.GitServer.Body.{copy_rounds}
use radicle_client_services.GitServer.Body.Copying.{Ended, copy_rounds-Ended}
use radicle_client_services.GitServer.Config.{
  configure, set_root_git_config, set_cert_nonce_seed, set_cert_nonce_slop, advertise_push_options,
  disable_signers_file, disable_gc,
}
use radicle_client_services.Checks.Server.{backend, backend-IsBuf}

copy_rounds-Ended_example :
    Ended backend backend-IsBuf (copy_rounds backend (lit "pack")) (lit "pack")
copy_rounds-Ended_example = copy_rounds-Ended backend backend-IsBuf (lit "pack")

abbrev pub config : GitConfig
config = record {
  Config = Assoc Text;
  open_config = λ c. ok tt;
  set_str = λ k v c. (ok tt, insert k v c);
  field = λ c j. get j c;
  alphanumeric = λ i. 97;
}

differs :
    (k v : Text) (c : Assoc Text) (j : Text)
    → to_lower k ≢ to_lower j
    → get j (insert k v c) ≡ get j c
differs k v c j h = elim (Bool-cases (k == j)) [
  | inl same ↦ absurd (h (ap to_lower ((eq_iff k j).0 same)))
  | inr other ↦ get-insert k j v c ∙ rw other refl
]

pub config-KeepsFields : KeepsFields config
config-KeepsFields = record {
  set_str-field = λ k v c h. get-insert k k v c ∙ rw (eq_refl k) refl;
  set_str-field_ne = λ k v c j h. differs k v c j h;
}

abbrev pub before : Assoc Text
before = (lit "user.name", lit "ann") ∷ (lit "gc.auto", lit "6700") ∷ []

configures : (configure config (some (lit "seed")) before).0 ≡ ok tt
unfolding configure set_cert_nonce_seed set_cert_nonce_slop advertise_push_options
    disable_signers_file disable_gc set_root_git_config
configures = refl
