-- ===== src/Shared/KeyFiles.antt =====
-- Identity files: what is written is read back, and only the owner may read it.
use radicle_client_services.Base.{Text, some, [], ok, map_err, ◌≡◌, ◌∙◌, ap, sym}
use radicle_client_services.Base.Action.{>>-eq-ok, gets, ◌>>◌}
use radicle_client_services.Extern.Keystore.{Keystore, KeepsFiles}
use radicle_client_services.Shared.{generate, signer, plain, new_signer, private_mode}

module _ (K : Keystore) (F : KeepsFiles K) where
  new_signer-bytes : (key : K.SecretKey) → new_signer K (ok (K.bytes key)) ≡ ok key
  unfolding new_signer
  new_signer-bytes key = ap (map_err K.invalid_data) (F.from_bytes-bytes key)

  -- The disk when the key is written: the file was created, is empty, and is its owner's alone.
  pub record IsPrivate (path : Text) (d : K.Disk) : Type 0 where
    pub empty : K.content d path ≡ some []
    pub owned : K.mode d path ≡ some private_mode

  -- If an identity file is generated, then the key that it is read back as is the new one, only the
  -- owner may read it, and no byte of the key was written before that was so.
  pub generate-signer :
      (path : Text) (d : K.Disk)
      → (generate K path d).0 ≡ ok tt
      → (signer K (generate K path d).1 (plain path) ≡ ok K.new_key)
        × (K.mode (generate K path d).1 path ≡ some private_mode)
        × ((before : K.Disk) × IsPrivate path before
            × ((generate K path d).1 ≡ (K.write_all path (K.bytes K.new_key) before).1))
  unfolding generate signer
  generate-signer path d h =
      let d₁ = (K.create_file path d).1 in
      let d₂ = (K.set_mode path private_mode d₁).1 in
      let write = K.write_all path (K.bytes K.new_key) in
      let protect = K.set_mode path private_mode >> write in
      let look = gets (λ d. K.metadata d path) in
      let (created, e₁) = >>-eq-ok (K.create_file path) (look >> protect) d h in
      let (looked, e₂) = >>-eq-ok look protect d₁ (ap (λ r. r.0) (sym e₁) ∙ h) in
      let (set, e₃) =
        >>-eq-ok (K.set_mode path private_mode) write d₁ (ap (λ r. r.0) (sym (e₁ ∙ e₂)) ∙ h) in
      let same : generate K path d ≡ write d₂ = e₁ ∙ e₂ ∙ e₃ in
      let written : (write d₂).0 ≡ ok tt = ap (λ r. r.0) (sym same) ∙ h in
      let owned = F.set_mode-mode path private_mode d₁ set in
      (
        ap (λ r. new_signer K (K.read_file r.1 path)) same
            ∙ ap (new_signer K) (F.write_all-read path (K.bytes K.new_key) d₂ written)
            ∙ new_signer-bytes K.new_key,
        ap (λ r. K.mode r.1 path) same ∙ F.write_all-mode path (K.bytes K.new_key) d₂ ∙ owned,
        (
          d₂,
          record {
            empty = F.set_mode-content path private_mode d₁ ∙ F.create_file-content path d created;
            owned = owned;
          },
          ap (λ r. r.1) same,
        ),
      )
