-- ===== src/Guard.antt =====
-- The decision API of internal/server/guard.go. A handler takes whether the caller is an admin
-- (requireAdmin) and the decoded body, `none` where decodeAdmin refused it, and returns the firewall
-- and the response; the log is left out. The JSON codec of a claim and the fleet-wide dedup store are
-- parameters; the nonce of crypto/rand is an argument, `none` where reading it fails.
pub mod Restores
pub mod Local
pub mod Holds
pub mod Tokens
pub mod Once
use heave.Prelude.{
  ℕ, suc, ◌+◌, ◌*◌, ◌/◌, Bool, true, false, not, ◌&&◌, ◌||◌, Option, none, some, List, [], ◌∷◌,
  ◌++◌, ℤ, pos, pos_part, ltb, leb, ltb_ℤ, ◌==◌, if◌then◌else◌, length, Bytes, bytes, trim_space,
}
use heave.Firewall.Errors
use heave.Firewall.State.{Firewall, Scope, Ticket, Reservation, second, unix}
use heave.Firewall.State
use heave.Firewall.Local.{is_empty}
use heave.Firewall.Enter.{enter, enter_chain}
use heave.Firewall.Tickets.{release, reservation, settle_reservation, release_reservation}
use heave.Config.Checks.{is_nil}
use heave.Controls.{to_lower}
use heave.Policy
use heave.Policy.{all_safe}
use heave.Enforcer
use heave.Enforcer.{Answer, governed, ungoverned, failed}
use heave.SignedToken.{Codec, sign, verify}

-- `reservationClaim`; `exp` is in unix seconds.
pub record Claim : Type 0 where
  pub r : Reservation
  pub nonce : Bytes
  pub exp : ℕ

-- What the handlers read of the Server. `claim_reconcile` is the dedup store: whether this call claimed
-- the nonce, or `none` where the store failed.
pub record Env {ℓ} (S : Type ℓ) : Type ℓ where
  pub resolver : Option Policy.Store
  pub codec : Codec
  pub marshal : Claim → Bytes
  pub unmarshal : Bytes → Option Claim
  pub claim_reconcile : Bytes → ℕ → S → S × Option Bool
  pub request_timeout : ℕ

-- In nano-dollars and in tokens.
abbrev pub max_guard_est_usd : ℕ
max_guard_est_usd = 1000000 * 1000000000

abbrev pub max_guard_est_tokens : ℕ
max_guard_est_tokens = 1000000000

pub record ReserveBody : Type 0 where
  pub key_sha256 : Bytes
  pub run_id : Bytes
  pub usd : ℤ
  pub tokens : ℤ

pub record SettleBody : Type 0 where
  pub reservation_id : Bytes
  pub usd : ℤ
  pub tokens : ℤ

-- Why a reserve is denied, with the binding node and the seconds to wait.
pub data Denial : Type 0 where
  by_kill : Bytes → Denial
  by_velocity by_concurrency : Bytes → ℕ → Denial
  blocked : Denial

pub data Response : Type 0 where
  unauthorized bad_body bad_run_id missing_key out_of_range bad_reservation : Response
  resolution_failed not_issued : Response
  admitted : Bytes → Response
  denied : Denial → Response
  reconciled : Bool → Response

-- `guardDeny`
unfoldable pub guard_deny : Errors.Error → Denial
guard_deny Errors.killed = by_kill []
guard_deny (Errors.velocity scope retry) = by_velocity scope retry
guard_deny (Errors.concurrency scope) = by_concurrency scope 0
guard_deny e = blocked

unfoldable pub valid_run_id : Bytes → Bool
valid_run_id s = if is_empty s || ltb 128 (length s) then false else all_safe s

-- `estimate out of range`
abbrev pub is_out_of_range : ReserveBody → Bool
is_out_of_range b =
    ltb_ℤ b.usd (pos 0)
    || ltb_ℤ (pos max_guard_est_usd) b.usd
    || ltb_ℤ b.tokens (pos 0)
    || ltb_ℤ (pos max_guard_est_tokens) b.tokens

abbrev pub no_reservation : Reservation
no_reservation = record {
  scope_keys = [];
  run_scope_key = [];
  shared = false;
  store_keys = [];
  hold_id = [];
  est_usd = 0;
  est_tokens = 0;
}

unfoldable pub resolve_chain : Option Policy.Store → Bytes → Bytes → Answer
resolve_chain none key run = ungoverned
resolve_chain (some store) key run = Enforcer.resolve store key run

module _ {ℓ} {S : Type ℓ} where
  abbrev pub reservation_ttl : Env S → ℕ
  reservation_ttl env = env.request_timeout + 60 * second

  unfoldable pub sign_reservation : Env S → Reservation → Option Bytes → ℕ → Option Bytes
  sign_reservation env r none now = none
  sign_reservation env r (some nonce) now = some (
      sign env.codec
        (env.marshal (record { r = r; nonce = nonce; exp = unix (now + reservation_ttl env) })))

  -- The claim of a valid token, and whether it has expired.
  unfoldable pub verify_reservation : Env S → Bytes → ℕ → Option (Claim × Bool)
  verify_reservation env token now = elim (verify env.codec token) [
    | none ↦ none
    | some payload ↦ elim (env.unmarshal payload) [
      | none ↦ none
      | some claim ↦ some (claim, leb claim.exp (unix now))
    ]
  ]

  -- `claimReconcile`: a dedup store that fails lets the call apply.
  unfoldable pub claim_reconcile : Env S → Firewall S → Bytes → Firewall S × Bool
  claim_reconcile env f nonce =
      let (w, claimed) = env.claim_reconcile nonce (reservation_ttl env / second) f.world in
      (record f { world = w }, elim claimed [ none ↦ true | some b ↦ b ])

  -- The ticket, with whether it is held in this process.
  unfoldable pub hand_out_as :
      Env S → Firewall S → Ticket S → Bool → Option Bytes → ℕ → Firewall S × Response
  unfolding sign_reservation
  hand_out_as env f tk here random now =
      let (g, kept) = if here then release f tk now else (f, tk) in
      let resv = if here then no_reservation else reservation tk in
      elim (sign_reservation env resv random now) [
        | none ↦ ((release g kept now).0, not_issued)
        | some token ↦ (g, admitted token)
      ]

  -- A ticket to hand out: a local hold is released at once, and the reservation is empty.
  unfoldable pub hand_out : Env S → Firewall S → Ticket S → Option Bytes → ℕ → Firewall S × Response
  unfolding hand_out_as
  hand_out env f tk random now =
      let resv = reservation tk in
      hand_out_as env f tk (not resv.shared && not (is_nil resv.scope_keys)) random now

  -- The answer of the gate.
  unfoldable pub after_gate :
      Env S → Firewall S × State.Result (Ticket S) → Option Bytes → ℕ → Firewall S × Response
  unfolding hand_out guard_deny
  after_gate env (f, State.err e) random now = (f, denied (guard_deny e))
  after_gate env (f, State.ok tk) random now = hand_out env f tk random now

  -- From the resolved chain on.
  unfoldable pub reserve_resolved :
      Env S
      → Firewall S
      → Answer
      → Bytes
      → ReserveBody
      → Option Bytes
      → Bytes
      → ℕ
      → Firewall S × Response
  unfolding after_gate
  reserve_resolved env f (failed e) key b random hold now = (f, resolution_failed)
  reserve_resolved env f ungoverned key b random hold now =
      after_gate env (enter f key b.run_id [] b.usd b.tokens hold now) random now
  reserve_resolved env f (governed scopes killed_by) key b random hold now =
      if is_empty killed_by
      then after_gate env (enter_chain f scopes [] b.usd b.tokens hold now) random now
      else (f, denied (by_kill killed_by))

  unfoldable pub reserve_body :
      Env S → Firewall S → ReserveBody → Option Bytes → Bytes → ℕ → Firewall S × Response
  unfolding reserve_resolved resolve_chain valid_run_id trim_space
  reserve_body env f b random hold now =
      let key = to_lower (trim_space b.key_sha256) in
      if not (is_empty b.run_id) && not (valid_run_id b.run_id)
      then (f, bad_run_id)
      else (if is_empty key
          then (f, missing_key)
          else (if is_out_of_range b
              then (f, out_of_range)
              else reserve_resolved env f (resolve_chain env.resolver key b.run_id) key b random
                  hold now))

  unfoldable pub handle_guard_reserve :
      Env S
      → Firewall S
      → Bool
      → Option ReserveBody
      → Option Bytes
      → Bytes
      → ℕ
      → Firewall S × Response
  unfolding reserve_body
  handle_guard_reserve env f false body random hold now = (f, unauthorized)
  handle_guard_reserve env f true none random hold now = (f, bad_body)
  handle_guard_reserve env f true (some b) random hold now = reserve_body env f b random hold now

  -- The claim of the token's nonce, for a token that is valid and live.
  unfoldable pub reconcile_claim :
      Env S
      → Firewall S
      → (Firewall S → Reservation → Firewall S)
      → Option (Claim × Bool)
      → Firewall S × Response
  unfolding claim_reconcile
  reconcile_claim env f apply none = (f, bad_reservation)
  reconcile_claim env f apply (some (claim, true)) = (f, reconciled false)
  reconcile_claim env f apply (some (claim, false)) =
      let (g, claimed) = claim_reconcile env f claim.nonce in
      if claimed then (apply g claim.r, reconciled true) else (g, reconciled false)

  -- What settle and release share: the token's check, its expiry, and the claim of its nonce.
  unfoldable pub reconcile :
      Env S
      → Firewall S
      → Bytes
      → (Firewall S → Reservation → Firewall S)
      → ℕ
      → Firewall S × Response
  unfolding verify_reservation reconcile_claim
  reconcile env f token apply now = reconcile_claim env f apply (verify_reservation env token now)

  unfoldable pub handle_guard_settle :
      Env S → Firewall S → Bool → Option SettleBody → ℕ → Firewall S × Response
  unfolding reconcile
  handle_guard_settle env f false body now = (f, unauthorized)
  handle_guard_settle env f true none now = (f, bad_body)
  handle_guard_settle env f true (some b) now =
      reconcile env f b.reservation_id
        (λ g r. settle_reservation g r (pos (pos_part b.usd)) (pos (pos_part b.tokens)) now) now

  unfoldable pub handle_guard_release :
      Env S → Firewall S → Bool → Option Bytes → ℕ → Firewall S × Response
  unfolding reconcile
  handle_guard_release env f false body now = (f, unauthorized)
  handle_guard_release env f true none now = (f, bad_body)
  handle_guard_release env f true (some token) now =
      reconcile env f token (λ g r. release_reservation g r now) now
