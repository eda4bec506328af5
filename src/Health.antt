-- ===== src/Health.antt =====
-- The circuit breaker of internal/health/health.go. A zero openUntil is `none`; times in nanoseconds.
pub mod Breaker
use heave.Prelude.{
  ℕ, zero, suc, ◌+◌, ◌*◌, Bool, true, false, not, Option, none, some, List, [], ◌∷◌, ℤ, ltb, leb,
  if◌then◌else◌, Bytes, Dict, lookup, insert,
}

pub record Endpoint : Type 0 where
  pub consecutive_fails : ℕ
  pub open_until : Option ℕ

pub record Tracker : Type 0 where
  pub threshold : ℕ
  pub cooldown : ℕ
  pub state : Dict Endpoint

-- `if n < low { n = high }` for a signed n.
abbrev at_least_one : ℤ → ℕ
at_least_one (ℤ.pos zero) = 1
at_least_one (ℤ.pos (suc n)) = suc n
at_least_one (ℤ.negsuc n) = 1

abbrev cooldown_or_default : ℤ → ℕ
cooldown_or_default (ℤ.pos zero) = 30 * 1000000000
cooldown_or_default (ℤ.pos (suc n)) = suc n
cooldown_or_default (ℤ.negsuc n) = 30 * 1000000000

unfoldable pub new : ℤ → ℤ → Tracker
new threshold cooldown = record {
  threshold = at_least_one threshold;
  cooldown = cooldown_or_default cooldown;
  state = [];
}

-- `!now.Before(ep.openUntil)`
abbrev pub is_past : ℕ → Option ℕ → Bool
is_past now none = true
is_past now (some t) = not (ltb now t)

unfoldable pub healthy : Tracker → Bytes → ℕ → Bool
healthy t provider now = elim (lookup provider t.state) [
  | none ↦ true
  | some ep ↦ is_past now ep.open_until
]

unfoldable pub record_success : Tracker → Bytes → Tracker
record_success t provider = elim (lookup provider t.state) [
  | none ↦ t
  | some ep ↦ record t {
    state = insert provider (record { consecutive_fails = 0; open_until = none }) t.state;
  }
]

abbrev pub endpoint_or_new : Option Endpoint → Endpoint
endpoint_or_new none = record { consecutive_fails = 0; open_until = none }
endpoint_or_new (some ep) = ep

unfoldable pub record_failure : Tracker → Bytes → ℕ → Tracker
record_failure t provider now =
    let ep = endpoint_or_new (lookup provider t.state) in
    let fails = suc ep.consecutive_fails in
    record t {
      state =
          insert provider
            (record {
              consecutive_fails = fails;
              open_until = if leb t.threshold fails then some (now + t.cooldown) else ep.open_until;
            })
            t.state;
    }
