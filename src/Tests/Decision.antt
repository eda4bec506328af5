-- ===== src/Tests/Decision.antt =====
-- The decision API's theorems on the firewall of Tests/Gate's kind, with a shared scope store that
-- is down or none, and a dedup store whose state is the list of the nonces it has claimed.
use heave.Prelude.{
  ◌⊎◌, inl, ◌/◌, ℕ, ◌+◌, ◌*◌, ◌≡◌, refl, ap, Bool, true, false, Option, none, some, List, [], ◌∷◌,
  pos, leb, arith, Bytes, bytes, has, str_eq_refl,
}
use heave.Firewall.Errors.{store_failure}
use heave.Firewall.State.{Limits, ScopeStore, Firewall, Reservation, new, second, unix}
use heave.Firewall.Tickets.{settle_reservation}
use heave.Firewall.Tickets.World.{Keeps}
use heave.Guard.{
  Claim, Env, ReserveBody, SettleBody, reconciled, reservation_ttl, sign_reservation,
  verify_reservation, claim_reconcile, handle_guard_settle,
}
use heave.Guard.Tokens.{verify_reservation-sign, verify_reservation-mac}
use heave.Guard.Once.{IsDedup, IsSpent, handle_guard_settle_once}
use heave.SignedToken.{sign, split_dot}
use heave.Tests.Codecs.{
  codec, codec-IsCodec, marshal_claim, unmarshal_claim, unmarshal_claim-marshal,
}

abbrev limits : Limits
limits = record {
  max_usd_per_min = pos 10;
  max_tokens_per_min = pos 0;
  max_concurrent = pos 2;
  loop_threshold = pos 2;
  max_usd_per_run = pos 9;
  kill_ttl = pos 50;
}

abbrev at : ℕ
at = 5 * second

abbrev key : Bytes
key = bytes "abc"

-- Whether the nonce is known decides.
abbrev claimed : Bool → Bytes → List Bytes → List Bytes × Option Bool
claimed true n w = (w, some false)
claimed false n w = (n ∷ w, some true)

abbrev claim_nonce : Bytes → ℕ → List Bytes → List Bytes × Option Bool
claim_nonce n ttl w = claimed (has n w) n w

abbrev env : Env (List Bytes)
env = record {
  resolver = none;
  codec = codec (bytes "secret");
  marshal = marshal_claim;
  unmarshal = unmarshal_claim;
  claim_reconcile = claim_nonce;
  request_timeout = 30 * second;
}

has-cons : (n : Bytes) (w : List Bytes) → has n (n ∷ w) ≡ true
has-cons n w = rw (str_eq_refl n) refl

claimed-marks :
    (b : Bool) (n : Bytes) (w : List Bytes) → has n w ≡ b → has n (claimed b n w).0 ≡ true
claimed-marks true n w known = known
claimed-marks false n w unknown = has-cons n w

env-IsDedup : IsDedup env has
env-IsDedup = record {
  marks = λ n ttl w h. claimed-marks (has n w) n w refl;
  again = λ n ttl w h. inl (ap (λ b. claimed b n w) h);
}

abbrev fresh : Firewall (List Bytes)
fresh = new true limits []

abbrev body : ReserveBody
body = record { key_sha256 = key; run_id = bytes "r"; usd = pos 4; tokens = pos 7 }

-- A shared store that is down.
abbrev unreachable : ScopeStore (List Bytes)
unreachable = record {
  reserve = λ caps u t hold w.
      (w, record { admitted = false; denied_name = []; denied_kind = []; failed = true });
  settle = λ keys du dt w. (w, some store_failure);
  release = λ keys hold u t kept w. (w, some store_failure);
}

abbrev fleet : Firewall (List Bytes)
fleet = record fresh { scope_store = some unreachable }

abbrev reserved : Reservation
reserved = record {
  scope_keys = [];
  run_scope_key = [];
  shared = true;
  store_keys = bytes "team:a" ∷ [];
  hold_id = bytes "h";
  est_usd = 4;
  est_tokens = 7;
}

abbrev claim : Claim
claim = record { r = reserved; nonce = bytes "n"; exp = unix (at + reservation_ttl env) }

abbrev token : Bytes
token = sign env.codec (marshal_claim claim)

verify_reservation-sign_example :
    verify_reservation env token (9 * second) ≡ some (claim, leb claim.exp 9)
unfolding sign_reservation
verify_reservation-sign_example =
    verify_reservation-sign env reserved (bytes "n") token at (9 * second)
      (codec-IsCodec (bytes "secret")) unmarshal_claim-marshal refl

verify_reservation-live : verify_reservation env token at ≡ some (claim, false)
unfolding sign_reservation
verify_reservation-live =
    verify_reservation-sign env reserved (bytes "n") token at at (codec-IsCodec (bytes "secret"))
      unmarshal_claim-marshal refl

abbrev bill : SettleBody
bill = record { reservation_id = token; usd = pos 3; tokens = pos 5 }

no_store : Keeps {S = List Bytes} (λ w. has claim.nonce w ≡ true) none
no_store store h = absurd (ground arith)

abbrev settled : Firewall (List Bytes)
settled = settle_reservation (claim_reconcile env fresh (bytes "n")).0 reserved (pos 3) (pos 5) at

-- A later state, whose dedup store has the nonce.
abbrev afterwards : Firewall (List Bytes)
afterwards = record fresh { world = bytes "n" ∷ [] }

handle_guard_settle_once_example :
    (handle_guard_settle env fresh true (some bill) at ≡ (settled, reconciled true))
    × (has (bytes "n") settled.world ≡ true)
    × (((env.claim_reconcile (bytes "n") (reservation_ttl env / second) afterwards.world).1 ≡ none)
        ⊎ IsSpent env afterwards token (20 * second))
unfolding new
handle_guard_settle_once_example =
    handle_guard_settle_once env has fresh afterwards bill claim at (20 * second) env-IsDedup
      no_store verify_reservation-live refl (inl (has-cons (bytes "n") []))

verify_reservation-mac_example :
    (payload : Bytes) × (a b : Bytes) × (env.unmarshal payload ≡ some claim)
    × (split_dot token ≡ some (a, b))
    × (env.codec.decode a ≡ some payload)
    × (env.codec.decode b ≡ some (env.codec.mac payload))
verify_reservation-mac_example =
    verify_reservation-mac env token claim false at verify_reservation-live
