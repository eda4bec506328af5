-- ===== src/Health/Breaker.antt =====
-- The breaker of internal/health/health.go by a provider's own history of outcomes.
use heave.Prelude.{
  ℕ, zero, suc, ◌+◌, ◌<◌, ◌≡◌, refl, ◌∙◌, not, ◌&&◌, Option, none, some, List, [], ◌∷◌, ℤ, ltb, leb,
  if◌then◌else◌, arith, Bytes, lookup, str_eq, str_eq_iff, lookup-insert,
}
use heave.Health.{Endpoint, Tracker, new, healthy, record_success, record_failure, endpoint_or_new}

pub data Outcome : Type 0 where
  success failure : Outcome

pub record Event : Type 0 where
  pub time : ℕ
  pub provider : Bytes
  pub outcome : Outcome

pub observe : Tracker → Event → Tracker
observe t e = elim e.outcome [
  | success ↦ record_success t e.provider
  | failure ↦ record_failure t e.provider e.time
]

-- The history is newest first.
pub after : Tracker → List Event → Tracker
after t [] = t
after t (e ∷ log) = observe (after t log) e

-- The provider's failures since its last success.
unfoldable pub streak : Bytes → List Event → ℕ
streak p [] = 0
streak p (e ∷ log) =
    let before = streak p log in
    if str_eq e.provider p then (elim e.outcome [ success ↦ 0 | failure ↦ suc before ]) else before

-- The time of its latest failure.
pub last_failure : Bytes → List Event → ℕ
last_failure p [] = 0
last_failure p (e ∷ log) =
    let before = last_failure p log in
    if str_eq e.provider p then (elim e.outcome [ success ↦ before | failure ↦ e.time ]) else before

-- Within the streak, whether the breaker has opened, and until when.
abbrev opened : ℕ → ℕ → ℕ → ℕ → Option ℕ
opened threshold cooldown fails last = if leb threshold fails then some (last + cooldown) else none

abbrev Agrees : Tracker → Bytes → List Event → Type 0
Agrees t p log =
    let ep = endpoint_or_new (lookup p t.state) in
    (ep.consecutive_fails ≡ streak p log)
    × (ep.open_until ≡ opened t.threshold t.cooldown (streak p log) (last_failure p log))

observe_config :
    (t : Tracker) (e : Event)
    → ((observe t e).threshold ≡ t.threshold) × ((observe t e).cooldown ≡ t.cooldown)
unfolding observe record_success record_failure
observe_config t e = (ground arith, ground arith)

abbrev ep_at : Tracker → Bytes → Endpoint
ep_at t p = endpoint_or_new (lookup p t.state)

abbrev failed : Tracker → Bytes → ℕ → Endpoint
failed t q now =
    let fails = suc (ep_at t q).consecutive_fails in
    record {
      consecutive_fails = fails;
      open_until =
          if leb t.threshold fails then some (now + t.cooldown) else (ep_at t q).open_until;
    }

record_failure-at :
    (t : Tracker) (q p : Bytes) (now : ℕ)
    → ep_at (record_failure t q now) p ≡ (if str_eq q p then failed t q now else ep_at t p)
unfolding record_failure
record_failure-at t q p now = ground (arith, lookup-insert q p (failed t q now) t.state)

record_success-at :
    (t : Tracker) (q p : Bytes)
    → ep_at (record_success t q) p ≡ (if str_eq q p then endpoint_or_new none else ep_at t p)
unfolding record_success
record_success-at t q p =
    ground (arith, str_eq_iff q p, lookup-insert q p (endpoint_or_new none) t.state)

observe-Agrees :
    (t : Tracker) (p : Bytes) (e : Event) (log : List Event)
    → 0 < t.threshold
    → Agrees t p log
    → Agrees (observe t e) p (e ∷ log)
unfolding observe streak last_failure
observe-Agrees t p e log pos a =
    let (same, cool) = observe_config t e in
    ground (
      arith,
      same,
      cool,
      str_eq_iff e.provider p,
      record_success-at t e.provider p,
      record_failure-at t e.provider p e.time,
    )

after_config :
    (t : Tracker) (log : List Event)
    → ((after t log).threshold ≡ t.threshold) × ((after t log).cooldown ≡ t.cooldown)
unfolding after
after_config t [] = (refl, refl)
after_config t (e ∷ log) =
    let (a, b) = observe_config (after t log) e in let (c, d) = after_config t log in (a ∙ c, b ∙ d)

at_least_one_pos : (n : ℤ) → 0 < (new n (ℤ.pos 0)).threshold
unfolding new
at_least_one_pos (ℤ.pos zero) = omega arith
at_least_one_pos (ℤ.pos (suc n)) = omega arith
at_least_one_pos (ℤ.negsuc n) = omega arith

after-Agrees : (n c : ℤ) (p : Bytes) (log : List Event) → Agrees (after (new n c) log) p log
unfolding after new streak last_failure lookup
after-Agrees n c p [] = (refl, ground (arith, at_least_one_pos n))
after-Agrees n c p (e ∷ log) =
    observe-Agrees (after (new n c) log) p e log
      (omega (arith, at_least_one_pos n, (after_config (new n c) log).0)) (after-Agrees n c p log)

-- After any history of outcomes a provider is unhealthy exactly while it has failed at least
-- `threshold` times in a row and its latest failure is less than a cooldown ago; the other
-- providers' outcomes do not matter.
pub healthy-after :
    (n c : ℤ) (p : Bytes) (log : List Event) (now : ℕ)
    → let t = new n c in
      healthy (after t log) p now
      ≡ not (leb t.threshold (streak p log) && ltb now (last_failure p log + t.cooldown))
unfolding healthy
healthy-after n c p log now =
    let (fails, until) = after-Agrees n c p log in
    let (same, cool) = after_config (new n c) log in ground (arith, fails, until, same, cool)
