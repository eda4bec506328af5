-- ===== src/Dispatch/Endings.antt =====
-- How a request of internal/server/server.go ends by the answers of its candidates.
use heave.Prelude.{
  ℕ, ◌≡◌, refl, inl, inr, Bool, true, false, not, ◌&&◌, ◌||◌, Bool-cases, Option, none, some, List,
  [], ◌∷◌, if◌then◌else◌, arith, has,
}
use heave.Health
use heave.Broker
use heave.Broker.{Broker, Lease}
use heave.Router.{Decision}
use heave.Dispatch.{
  Response, Outcome, served, failed, Try, Accounting, Gateway, Dispatch, nothing_yet, in_world,
  retryable, after_attempt, after_quota, ask_quota, try_candidate, run_candidates,
}

-- How a request ends for its client: nothing was served, a stream had begun and broke off, or a
-- response was served.
pub data Ending : Type 0 where
  nothing began : Ending
  served_by : Response → Decision → Ending

-- The end that the answer of a dispatched candidate brings, or none where the next one is tried.
pub after_dispatch : Bool → Try → Outcome → Option Ending
after_dispatch streaming t (served resp) = some (served_by resp t.decision)
after_dispatch streaming t (failed e) =
    if streaming && t.wrote
    then some began
    else (if t.cancelled || not (retryable e) then some nothing else none)

-- What the loop has noted is how the request ended.
unfoldable pub Agrees : Bool → Ending → Dispatch → Type 0
Agrees streaming nothing r = (r.used ≡ none) × (streaming && r.wrote_any ≡ false)
Agrees streaming began r = (r.used ≡ none) × (streaming && r.wrote_any ≡ true)
Agrees streaming (served_by resp d) r = r.used ≡ some (resp, d)

-- So after one candidate, where it does not go on if that ends the request.
StepAgrees : Bool → Option Ending → Dispatch → Bool → Type 0
unfolding Agrees
StepAgrees streaming none r more = (more ≡ true) × Agrees streaming nothing r
StepAgrees streaming (some e) r more = (more ≡ false) × Agrees streaming e r

pub no_ending : (streaming : Bool) (start : ℕ) → Agrees streaming nothing (nothing_yet start)
unfolding Agrees
no_ending true start = (refl, refl)
no_ending false start = (refl, refl)

module _ {ℓ} {S : Type ℓ} where
  is_admitted : Broker.Answer S → Bool
  is_admitted (Broker.denied secs) = false
  is_admitted (Broker.admitted lease) = true

  -- Whether a candidate is dispatched to its provider: the provider is configured and healthy, and its
  -- quota admits the call.
  pub is_dispatched : Accounting S → Try → Gateway S → Bool
  unfolding is_admitted
  is_dispatched acct t gw =
      has t.decision.provider gw.providers
      && Health.healthy gw.health t.decision.provider t.checked_at
      && is_admitted
          (ask_quota gw.broker t.decision.provider acct.est_tokens t.hold gw.firewall.world).2

  -- How a request ends by the answers of those that are dispatched, in order. `r` is what the loop over
  -- the candidates has noted so far, with which each step is taken.
  pub ending : Bool → Accounting S → List Try → Gateway S → Dispatch → Ending
  unfolding after_dispatch is_dispatched
  ending streaming acct [] gw r = nothing
  ending streaming acct (t ∷ tries) gw r =
      let (next, seen, more) = try_candidate streaming acct t gw r in
      let rest = ending streaming acct tries next seen in
      elim (if is_dispatched acct t gw then after_dispatch streaming t t.outcome else none) [
        | none ↦ rest
        | some e ↦ e
      ]

  after_attempt-StepAgrees :
      (streaming : Bool) (acct : Accounting S) (t : Try) (lease : Option (Lease S)) (gw : Gateway S)
      (r : Dispatch) (o : Outcome)
      → r.used ≡ none
      → streaming && r.wrote_any ≡ streaming && t.wrote
      → let out = after_attempt streaming acct t lease gw r o in
        StepAgrees streaming (after_dispatch streaming t o) out.1 out.2
  unfolding after_attempt after_dispatch StepAgrees
  after_attempt-StepAgrees streaming acct t lease gw r (served resp) h k = (refl, refl)
  after_attempt-StepAgrees false acct t lease gw r (failed e) h k =
      elim (Bool-cases (t.cancelled || not (retryable e))) [
        | inl stop ↦ rw stop (ground arith, (h, refl))
        | inr on ↦ rw on (ground arith, (h, refl))
      ]
  after_attempt-StepAgrees true acct t lease gw r (failed e) h k = elim (Bool-cases t.wrote) [
    | inl begun ↦ rw begun (ground arith, (h, ground arith))
    | inr silent ↦ elim (Bool-cases (t.cancelled || not (retryable e))) [
      | inl stop ↦ rw (silent, stop) (ground arith, (h, ground arith))
      | inr on ↦ rw (silent, on) (ground arith, (h, ground arith))
    ]
  ]

  after_quota-StepAgrees :
      (streaming : Bool) (acct : Accounting S) (t : Try) (gw : Gateway S) (r : Dispatch)
      (x : Option (Broker S) × S × Broker.Answer S)
      → Agrees streaming nothing r
      → let out = after_quota streaming acct t gw r x in
        StepAgrees streaming
          (if is_admitted x.2 then after_dispatch streaming t t.outcome else none)
          out.1
          out.2
  unfolding after_quota StepAgrees is_admitted
  after_quota-StepAgrees streaming acct t gw r (b, w, Broker.denied secs) h = (refl, (h.0, h.1))
  after_quota-StepAgrees streaming acct t gw r (b, w, Broker.admitted lease) h =
      after_attempt-StepAgrees streaming acct t lease (record (in_world gw w) { broker = b })
        (record r { attempted = true; wrote_any = r.wrote_any || t.wrote; ended_at = t.ended_at })
        t.outcome h.0 (ground (arith, h.1))

  try_candidate-StepAgrees :
      (streaming : Bool) (acct : Accounting S) (t : Try) (gw : Gateway S) (r : Dispatch)
      → Agrees streaming nothing r
      → let out = try_candidate streaming acct t gw r in
        StepAgrees streaming
          (if is_dispatched acct t gw then after_dispatch streaming t t.outcome else none)
          out.1
          out.2
  unfolding try_candidate is_dispatched StepAgrees
  try_candidate-StepAgrees streaming acct t gw r h =
      let provider = t.decision.provider in
      let asked = ask_quota gw.broker provider acct.est_tokens t.hold gw.firewall.world in
      elim (Bool-cases (has provider gw.providers)) [
        | inr absent ↦ rw absent (refl, h)
        | inl there ↦ elim (Bool-cases (Health.healthy gw.health provider t.checked_at)) [
          | inr ill ↦ rw (there, ill) (refl, h)
          | inl well ↦ rw (there, well) (after_quota-StepAgrees streaming acct t gw r asked h)
        ]
      ]

  next-Agrees :
      (streaming : Bool) (step : Option Ending) (x : Gateway S × Dispatch × Bool)
      (rest : Gateway S × Dispatch) (later : Ending)
      → StepAgrees streaming step x.1 x.2
      → (Agrees streaming nothing x.1 → Agrees streaming later rest.1)
      → (let out : Gateway S × Dispatch = elim x.2 [ true ↦ rest | false ↦ (x.0, x.1) ] in
          Agrees streaming (elim step [ none ↦ later | some e ↦ e ]) out.1)
  unfolding StepAgrees
  next-Agrees streaming none (next, seen, more) rest later h k = rw h.0 (k h.1)
  next-Agrees streaming (some e) (next, seen, more) rest later h k = rw h.0 h.1

  pub run_candidates-Agrees :
      (streaming : Bool) (acct : Accounting S) (tries : List Try) (gw : Gateway S) (r : Dispatch)
      → Agrees streaming nothing r
      → Agrees streaming
          (ending streaming acct tries gw r)
          (run_candidates streaming acct tries gw r).1
  unfolding run_candidates ending
  run_candidates-Agrees streaming acct [] gw r h = h
  run_candidates-Agrees streaming acct (t ∷ tries) gw r h =
      let x = try_candidate streaming acct t gw r in
      next-Agrees streaming
        (if is_dispatched acct t gw then after_dispatch streaming t t.outcome else none) x
        (run_candidates streaming acct tries x.0 x.1) (ending streaming acct tries x.0 x.1)
        (try_candidate-StepAgrees streaming acct t gw r h)
        (run_candidates-Agrees streaming acct tries x.0 x.1)
