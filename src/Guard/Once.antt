-- ===== src/Guard/Once.antt =====
-- One reconciliation per reservation, reconcileReservation of internal/server/guard.go.
use heave.Prelude.{
  ℕ, ◌/◌, ◌≡◌, refl, ap, ◌⊎◌, inl, inr, Bool, true, false, none, some, Bool-cases, ℤ, pos, pos_part,
  leb, arith, Option-cases, Bytes,
}
use heave.Firewall.State.{Firewall, Reservation, second, unix}
use heave.Firewall.Tickets.{settle_reservation, release_reservation}
use heave.Firewall.Tickets.World.{Keeps, settle_reservation-kept, release_reservation-kept}
use heave.SignedToken.{verify}
use heave.Guard.{
  Claim, Env, SettleBody, reconciled, verify_reservation, claim_reconcile, reconcile_claim,
  reservation_ttl, reconcile, handle_guard_settle, handle_guard_release,
}

module _ {ℓ} {S : Type ℓ} where
  -- The dedup store: a nonce that a call has claimed is on record, and one on record is not claimed
  -- again, unless the store fails. `seen` tells what is on record.
  pub record IsDedup (env : Env S) (seen : Bytes → S → Bool) : Type ℓ where
    pub marks :
        (n : Bytes) (ttl : ℕ) (w : S)
        → (env.claim_reconcile n ttl w).1 ≡ some true
        → seen n (env.claim_reconcile n ttl w).0 ≡ true
    pub again :
        (n : Bytes) (ttl : ℕ) (w : S)
        → seen n w ≡ true
        → (env.claim_reconcile n ttl w ≡ (w, some false)) ⊎ ((env.claim_reconcile n ttl w).1 ≡ none)

  -- Whether a token is valid, and its claim, do not depend on the time.
  verify_reservation-later :
      (env : Env S) (token : Bytes) (now later : ℕ) (claim : Claim) (expired : Bool)
      → verify_reservation env token now ≡ some (claim, expired)
      → verify_reservation env token later ≡ some (claim, leb claim.exp (unix later))
  unfolding verify_reservation
  verify_reservation-later env token now later claim expired h =
      elim (Option-cases (verify env.codec token)) [
        | inl bad ↦ absurd (ground arith)
        | inr (payload, good) ↦ elim (Option-cases (env.unmarshal payload)) [
          | inl bad ↦ absurd (ground arith)
          | inr (c, json) ↦
              let same : c ≡ claim = ground arith in
              rw (good, verify_reservation, json) (ap (λ x. some (x, leb x.exp (unix later))) same)
        ]
      ]

  -- A token that has expired, or whose claim is refused, changes nothing.
  reconcile-spent :
      (env : Env S) (f : Firewall S) (token : Bytes) (apply : Firewall S → Reservation → Firewall S)
      (now : ℕ) (claim : Claim)
      → verify_reservation env token now ≡ some (claim, leb claim.exp (unix now))
      → (env.claim_reconcile claim.nonce (reservation_ttl env / second) f.world
          ≡ (f.world, some false))
        ⊎ (leb claim.exp (unix now) ≡ true)
      → reconcile env f token apply now ≡ (f, reconciled false)
  unfolding reconcile
  reconcile-spent env f token apply now claim h (inr dead) = rw (h, dead) refl
  reconcile-spent env f token apply now claim h (inl refused) =
      elim (Bool-cases (leb claim.exp (unix now))) [
        | inl dead ↦ rw (h, dead) refl
        | inr live ↦ rw (h, live, reconcile_claim, refused) refl
      ]

  -- A live token that wins its claim is applied.
  reconcile-applied :
      (env : Env S) (f : Firewall S) (token : Bytes) (apply : Firewall S → Reservation → Firewall S)
      (now : ℕ) (claim : Claim)
      → verify_reservation env token now ≡ some (claim, false)
      → (claim_reconcile env f claim.nonce).1 ≡ true
      → reconcile env f token apply now
        ≡ (apply (claim_reconcile env f claim.nonce).0 claim.r, reconciled true)
  unfolding reconcile
  reconcile-applied env f token apply now claim h won = rw (h, reconcile_claim, won) refl

  -- What a repeated call of either handler does to `f`: nothing.
  pub record IsSpent (env : Env S) (f : Firewall S) (token : Bytes) (later : ℕ) : Type ℓ where
    pub settles :
        (usd tokens : ℤ)
        → let b : SettleBody = record { reservation_id = token; usd = usd; tokens = tokens } in
          handle_guard_settle env f true (some b) later ≡ (f, reconciled false)
    pub releases : handle_guard_release env f true (some token) later ≡ (f, reconciled false)

  refused-IsSpent :
      (env : Env S) (f : Firewall S) (token : Bytes) (later : ℕ) (claim : Claim)
      → verify_reservation env token later ≡ some (claim, leb claim.exp (unix later))
      → (env.claim_reconcile claim.nonce (reservation_ttl env / second) f.world
          ≡ (f.world, some false))
        ⊎ (leb claim.exp (unix later) ≡ true)
      → IsSpent env f token later
  unfolding handle_guard_settle handle_guard_release
  refused-IsSpent env f token later claim valid h = record {
    settles = λ usd tokens.
        reconcile-spent env f token
          (λ g r. settle_reservation g r (pos (pos_part usd)) (pos (pos_part tokens)) later) later
          claim valid h;
    releases =
        reconcile-spent env f token (λ g r. release_reservation g r later) later claim valid h;
  }

  -- The claim cannot be made again: its nonce is on record, or its token has expired.
  abbrev pub IsClosed : (Bytes → S → Bool) → Claim → S → ℕ → Type 0
  IsClosed seen claim w later = (seen claim.nonce w ≡ true) ⊎ (leb claim.exp (unix later) ≡ true)

  closed-IsSpent :
      (env : Env S) (seen : Bytes → S → Bool) (g : Firewall S) (token : Bytes) (now later : ℕ)
      (claim : Claim)
      → IsDedup env seen
      → verify_reservation env token now ≡ some (claim, false)
      → IsClosed seen claim g.world later
      → ((env.claim_reconcile claim.nonce (reservation_ttl env / second) g.world).1 ≡ none)
        ⊎ IsSpent env g token later
  closed-IsSpent env seen g token now later claim d h (inr dead) =
      let valid = verify_reservation-later env token now later claim false h in
      inr (refused-IsSpent env g token later claim valid (inr dead))
  closed-IsSpent env seen g token now later claim d h (inl known) =
      let valid = verify_reservation-later env token now later claim false h in
      elim (d.again claim.nonce (reservation_ttl env / second) g.world known) [
        | inl refused ↦ inr (refused-IsSpent env g token later claim valid (inl refused))
        | inr down ↦ inl down
      ]

  -- A claim that the store answers puts the nonce on record and changes no more than the world.
  claimed-seen :
      (env : Env S) (seen : Bytes → S → Bool) (f : Firewall S) (n : Bytes)
      → IsDedup env seen
      → (env.claim_reconcile n (reservation_ttl env / second) f.world).1 ≡ some true
      → ((claim_reconcile env f n).1 ≡ true) × (seen n (claim_reconcile env f n).0.world ≡ true)
  unfolding claim_reconcile
  claimed-seen env seen f n d won =
      (rw won refl, d.marks n (reservation_ttl env / second) f.world won)

  claim_reconcile-scope_store :
      (env : Env S) (f : Firewall S) (n : Bytes)
      → (claim_reconcile env f n).0.scope_store ≡ f.scope_store
  unfolding claim_reconcile
  claim_reconcile-scope_store env f n = refl

  -- If the dedup store, unless it fails, does not let a nonce on record be claimed again, and the
  -- shared scope store removes none, then a settle whose token is valid and live and whose nonce it
  -- claims bills the reservation and leaves the nonce on record. In any state where the nonce is
  -- still on record, or once the token has expired, neither settle nor release with that token
  -- changes anything, unless the dedup store fails at that call.
  pub handle_guard_settle_once :
      (env : Env S) (seen : Bytes → S → Bool) (f g : Firewall S) (b : SettleBody) (claim : Claim)
      (now later : ℕ)
      → IsDedup env seen
      → Keeps (λ w. seen claim.nonce w ≡ true) f.scope_store
      → verify_reservation env b.reservation_id now ≡ some (claim, false)
      → (env.claim_reconcile claim.nonce (reservation_ttl env / second) f.world).1 ≡ some true
      → IsClosed seen claim g.world later
      → let claimed = (claim_reconcile env f claim.nonce).0 in
        let settled =
          settle_reservation claimed claim.r (pos (pos_part b.usd)) (pos (pos_part b.tokens)) now in
        (handle_guard_settle env f true (some b) now ≡ (settled, reconciled true))
        × (seen claim.nonce settled.world ≡ true)
        × (((env.claim_reconcile claim.nonce (reservation_ttl env / second) g.world).1 ≡ none)
            ⊎ IsSpent env g b.reservation_id later)
  unfolding handle_guard_settle
  handle_guard_settle_once env seen f g b claim now later d keeps h won closed =
      let n = claim.nonce in
      let claimed = (claim_reconcile env f n).0 in
      let (mine, known) = claimed-seen env seen f n d won in
      let u = pos (pos_part b.usd) in
      let t = pos (pos_part b.tokens) in
      (
        reconcile-applied env f b.reservation_id (λ g' r. settle_reservation g' r u t now) now claim
            h mine,
        settle_reservation-kept (λ w. seen n w ≡ true) claimed claim.r u t now keeps known,
        closed-IsSpent env seen g b.reservation_id now later claim d h closed,
      )

  -- So does a release, which gives the reservation back.
  pub handle_guard_release_once :
      (env : Env S) (seen : Bytes → S → Bool) (f g : Firewall S) (token : Bytes) (claim : Claim)
      (now later : ℕ)
      → IsDedup env seen
      → Keeps (λ w. seen claim.nonce w ≡ true) f.scope_store
      → verify_reservation env token now ≡ some (claim, false)
      → (env.claim_reconcile claim.nonce (reservation_ttl env / second) f.world).1 ≡ some true
      → IsClosed seen claim g.world later
      → let freed = release_reservation (claim_reconcile env f claim.nonce).0 claim.r now in
        (handle_guard_release env f true (some token) now ≡ (freed, reconciled true))
        × (seen claim.nonce freed.world ≡ true)
        × (((env.claim_reconcile claim.nonce (reservation_ttl env / second) g.world).1 ≡ none)
            ⊎ IsSpent env g token later)
  unfolding handle_guard_release
  handle_guard_release_once env seen f g token claim now later d keeps h won closed =
      let n = claim.nonce in
      let claimed = (claim_reconcile env f n).0 in
      let (mine, known) = claimed-seen env seen f n d won in
      (
        reconcile-applied env f token (λ g' r. release_reservation g' r now) now claim h mine,
        release_reservation-kept (λ w. seen n w ≡ true) claimed claim.r now keeps known,
        closed-IsSpent env seen g token now later claim d h closed,
      )
