-- ===== src/Request/Estimates.antt =====
-- What maxEstimate of internal/server/server.go bounds.
use heave.Prelude.{ℕ, ◌≤◌, List, [], ◌∷◌, arith, All}
use heave.Router.{Decision}
use heave.Request.{ChatRequest, estimate, to_provider_request, larger, max_estimate}

-- The estimates of one candidate are at most the given ones.
pub record IsCovered (req : ChatRequest) (usd tokens : ℕ) (d : Decision) : Type 0 where
  pub cost : (estimate (to_provider_request req d) d).0 ≤ usd
  pub total : (estimate (to_provider_request req d) d).1 ≤ tokens

max_estimate-start :
    (candidates : List Decision) (req : ChatRequest) (usd tokens : ℕ)
    → (usd ≤ (max_estimate req candidates usd tokens).0)
      × (tokens ≤ (max_estimate req candidates usd tokens).1)
unfolding max_estimate
max_estimate-start [] req usd tokens = (omega arith, omega arith)
max_estimate-start (d ∷ candidates) req usd tokens =
    let (u, t) = estimate (to_provider_request req d) d in
    let (a, b) = max_estimate-start candidates req (larger u usd) (larger t tokens) in
    (ground arith, ground arith)

-- The estimate that is reserved is at least that of each candidate, in cost and in tokens, so it
-- covers whichever serves, from any estimate so far.
pub max_estimate-IsCovered :
    (candidates : List Decision) (req : ChatRequest) (usd tokens : ℕ)
    → let (most, longest) = max_estimate req candidates usd tokens in
      All (IsCovered req most longest) candidates
unfolding max_estimate
max_estimate-IsCovered [] req usd tokens = tt
max_estimate-IsCovered (d ∷ candidates) req usd tokens =
    let (u, t) = estimate (to_provider_request req d) d in
    let (a, b) = max_estimate-start candidates req (larger u usd) (larger t tokens) in
    (
      record { cost = ground arith; total = ground arith },
      max_estimate-IsCovered candidates req (larger u usd) (larger t tokens),
    )
