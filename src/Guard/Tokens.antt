-- ===== src/Guard/Tokens.antt =====
-- The reservation tokens of internal/server/guard.go.
use heave.Prelude.{ℕ, ◌+◌, ◌≡◌, refl, inl, inr, Bool, some, leb, arith, Option-cases, Bytes}
use heave.Firewall.State.{Reservation, unix}
use heave.SignedToken.{split_dot, sign, verify}
use heave.SignedToken.Laws.{IsCodec, verify-sign, verify-mac}
use heave.Guard.{Claim, Env, reservation_ttl, sign_reservation, verify_reservation}

module _ {ℓ} {S : Type ℓ} where
  -- Encoding a claim as JSON and decoding it gives the claim.
  abbrev pub IsJson : Env S → Type 0
  IsJson env = (claim : Claim) → env.unmarshal (env.marshal claim) ≡ some claim

  verify_reservation-payload :
      (env : Env S) (token : Bytes) (claim : Claim) (now : ℕ)
      → IsJson env
      → verify env.codec token ≡ some (env.marshal claim)
      → verify_reservation env token now ≡ some (claim, leb claim.exp (unix now))
  unfolding verify_reservation
  verify_reservation-payload env token claim now json h =
      rw (h, verify_reservation, json claim) refl

  -- With a codec and a JSON that decode what they encode, a signed reservation read back at any
  -- time gives the same reservation and nonce, and counts as expired exactly from its lifetime
  -- after the signing on, in whole seconds.
  pub verify_reservation-sign :
      (env : Env S) (r : Reservation) (random token : Bytes) (at now : ℕ)
      → IsCodec env.codec
      → IsJson env
      → sign_reservation env r (some random) at ≡ some token
      → let exp = unix (at + reservation_ttl env) in
        verify_reservation env token now
        ≡ some (record { r = r; nonce = random; exp = exp }, leb exp (unix now))
  unfolding sign_reservation
  verify_reservation-sign env r random token at now codec json h =
      let claim : Claim = record { r = r; nonce = random; exp = unix (at + reservation_ttl env) } in
      let mine = verify-sign env.codec (env.marshal claim) codec in
      let same : sign env.codec (env.marshal claim) ≡ token = ground arith in
      verify_reservation-payload env token claim now json (rw (← same) mine)

  -- A token that verifies has two parts, the first of which decodes to the JSON of the claim it
  -- gives, and the second to the HMAC of that JSON.
  pub verify_reservation-mac :
      (env : Env S) (token : Bytes) (claim : Claim) (expired : Bool) (now : ℕ)
      → verify_reservation env token now ≡ some (claim, expired)
      → (payload : Bytes) × (a b : Bytes) × (env.unmarshal payload ≡ some claim)
        × (split_dot token ≡ some (a, b))
        × (env.codec.decode a ≡ some payload)
        × (env.codec.decode b ≡ some (env.codec.mac payload))
  unfolding verify_reservation
  verify_reservation-mac env token claim expired now h =
      elim (Option-cases (verify env.codec token)) [
        | inl bad ↦ absurd (ground arith)
        | inr (payload, good) ↦ elim (Option-cases (env.unmarshal payload)) [
          | inl bad ↦ absurd (ground arith)
          | inr (c, json) ↦
              let (a, b, parts, left, right) = verify-mac env.codec token payload good in
              (payload, a, b, ground arith, parts, left, right)
        ]
      ]
