-- ===== src/GitServer/Body/Copying.antt =====
-- The copying loop ends, and what it copies is the body.
use radicle_client_services.Base.{
  Text, ℕ, zero, suc, ◌<◌, length, length-append, Bool-cases, Outcome-cases, true, Option, some, [],
  ◌++◌, append_assoc, append-nil, Outcome, ok, err, panic, ◌≡◌, ◌⊎◌, inl, inr, ◌∙◌, refl, ap, sym,
  subst, arith,
}
use radicle_client_services.Extern.Backend.{Backend, IsBuf}
use radicle_client_services.GitServer.Error.{IoErrorKind}
use radicle_client_services.GitServer.Body.{copy_chunks, copy_rounds}

module _ (B : Backend) (I : IsBuf B) where
  -- The loop has ended with all of the bytes, or with what a write of a chunk has ended with.
  abbrev pub Ended : Option (Outcome IoErrorKind Text) → Text → Type 0
  Ended r all =
      (r ≡ some (ok all))
      ⊎ (((e : IoErrorKind) × (written : Text) × (chunk : Text) × (r ≡ some (err e))
            × (B.write_chunk written chunk ≡ err e))
          ⊎ ((written : Text) × (chunk : Text) × (r ≡ some panic)
              × (B.write_chunk written chunk ≡ panic)))

  joined :
      (body : B.Body) (written : Text)
      → (written ++ B.chunk body) ++ I.contents (B.advance (length (B.chunk body)) body)
        ≡ written ++ I.contents body
  joined body written =
      append_assoc written (B.chunk body) _
      ∙ ap (λ t. written ++ (B.chunk body ++ t)) (I.advance-rest body)
      ∙ ap (λ t. written ++ t) (sym (I.contents-chunk body))

  shorter :
      (fuel : ℕ) (body : B.Body)
      → B.has_remaining body ≡ true
      → length (I.contents body) < suc fuel
      → length (I.contents (B.advance (length (B.chunk body)) body)) < fuel
  shorter fuel body more h = omega (
    arith,
    I.chunk-length body more,
    ap length (I.contents-chunk body),
    ap length (I.advance-rest body),
    length-append (B.chunk body) (I.rest body),
  )

  copy_chunks-Ended :
      (fuel : ℕ) (body : B.Body) (written : Text)
      → length (I.contents body) < fuel
      → Ended (copy_chunks B fuel body written) (written ++ I.contents body)
  unfolding copy_chunks
  copy_chunks-Ended zero body written h = elim h [ ]
  copy_chunks-Ended (suc fuel) body written h = elim (Bool-cases (B.has_remaining body)) [
    | inl more ↦ elim (Outcome-cases (B.write_chunk written (B.chunk body))) [
      | inl (u, wrote) ↦
          let next = B.advance (length (B.chunk body)) body in
          rw (copy_chunks, more, wrote)
            (subst (Ended (copy_chunks B fuel next (written ++ B.chunk body))) (joined body written)
              (copy_chunks-Ended fuel next (written ++ B.chunk body) (shorter fuel body more h)))
      | inr (inl (e, bad)) ↦
          inr (inl (e, written, B.chunk body, rw (copy_chunks, more, bad) refl, bad))
      | inr (inr bad) ↦ inr (inr (written, B.chunk body, rw (copy_chunks, more, bad) refl, bad))
    ]
    | inr done ↦ inl (
        rw (copy_chunks, done)
          (ap some (
            ap ok (
              sym (append-nil written)
              ∙ ap (λ t. written ++ t) (sym (I.none_remaining body done))))))
  ]

  -- The loop ends, whatever the body and the child: its rounds are no more than the bytes of the
  -- body. It has then copied the body, unless a write of a chunk has failed, whose error it returns.
  pub copy_rounds-Ended : (body : B.Body) → Ended (copy_rounds B body) (I.contents body)
  unfolding copy_rounds
  copy_rounds-Ended body =
      copy_chunks-Ended (suc (B.remaining body)) body [] (omega (arith, I.remaining-length body))
