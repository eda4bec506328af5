-- ===== src/Dispatch/Free.antt =====
-- The loop over the candidates of internal/server/server.go charges no one.
use heave.Prelude.{
  ℕ, ◌+◌, ◌≡◌, refl, ◌∙◌, Bool, true, false, not, ◌||◌, Option, List, [], ◌∷◌, if◌then◌else◌, arith,
  Bytes, has,
}
use heave.Health
use heave.Ledger
use heave.Broker
use heave.Broker.{Broker, Lease}
use heave.Dispatch.{
  Outcome, served, failed, Try, Accounting, Gateway, Dispatch, in_world, close_lease, count_failure,
  error_entry, after_attempt, after_quota, ask_quota, try_candidate, run_candidates,
}

pub record_entry-spend :
    (l : Ledger.Ledger) (e : Ledger.Entry)
    → (Ledger.record_entry l e).total.cost_usd ≡ l.total.cost_usd + e.cost_usd
unfolding Ledger.record_entry Ledger.add_stat
record_entry-spend l e = refl

module _ {ℓ} {S : Type ℓ} where
  -- No one is charged.
  pub record IsFree (gw next : Gateway S) : Type ℓ where
    pub guard : next.guard ≡ gw.guard
    pub scopes : next.firewall.scopes ≡ gw.firewall.scopes
    pub spend : next.ledger.total.cost_usd ≡ gw.ledger.total.cost_usd

  pub IsFree-refl : (gw : Gateway S) → IsFree gw gw
  IsFree-refl gw = record { guard = refl; scopes = refl; spend = refl }

  IsFree-trans : (f g h : Gateway S) → IsFree f g → IsFree g h → IsFree f h
  IsFree-trans f g h a b = record {
    guard = b.guard ∙ a.guard;
    scopes = b.scopes ∙ a.scopes;
    spend = b.spend ∙ a.spend;
  }

  either-IsFree :
      (gw : Gateway S) (test : Bool) (x y : Gateway S × Dispatch × Bool)
      → IsFree gw x.0
      → IsFree gw y.0
      → IsFree gw (if test then x else y).0
  either-IsFree gw true x y on off = on
  either-IsFree gw false x y on off = off

  count_failure-IsFree :
      (quiet : Bool) (gw : Gateway S) (provider : Bytes) (now : ℕ)
      → IsFree gw (count_failure quiet gw provider now)
  unfolding count_failure
  count_failure-IsFree true gw provider now = IsFree-refl gw
  count_failure-IsFree false gw provider now = record { guard = refl; scopes = refl; spend = refl }

  after_attempt-IsFree :
      (streaming : Bool) (acct : Accounting S) (t : Try) (lease : Option (Lease S)) (gw : Gateway S)
      (r : Dispatch) (o : Outcome)
      → IsFree gw (after_attempt streaming acct t lease gw r o).0
  unfolding after_attempt error_entry
  after_attempt-IsFree streaming acct t lease gw r (served resp) = record {
    guard = refl;
    scopes = refl;
    spend = refl;
  }
  after_attempt-IsFree streaming acct t lease gw r (failed e) =
      let free = record_entry-spend gw.ledger (error_entry acct t) in
      let w =
        close_lease (if streaming then not r.wrote_any else true) lease acct.est_tokens
          gw.firewall.world in
      let next : Gateway S = record (in_world gw w) {
        ledger = Ledger.record_entry gw.ledger (error_entry acct t);
      } in
      IsFree-trans gw next _ (record { guard = refl; scopes = refl; spend = free ∙ omega arith })
        (count_failure-IsFree _ next t.decision.provider t.ended_at)

  after_quota-IsFree :
      (streaming : Bool) (acct : Accounting S) (t : Try) (gw : Gateway S) (r : Dispatch)
      (x : Option (Broker S) × S × Broker.Answer S)
      → IsFree gw (after_quota streaming acct t gw r x).0
  unfolding after_quota
  after_quota-IsFree streaming acct t gw r (b, w, Broker.denied secs) = record {
    guard = refl;
    scopes = refl;
    spend = refl;
  }
  after_quota-IsFree streaming acct t gw r (b, w, Broker.admitted lease) =
      let asked : Gateway S = record (in_world gw w) { broker = b } in
      let seen : Dispatch = record r {
        attempted = true;
        wrote_any = r.wrote_any || t.wrote;
        ended_at = t.ended_at;
      } in
      let free = after_attempt-IsFree streaming acct t lease asked seen t.outcome in
      record { guard = free.guard; scopes = free.scopes; spend = free.spend }

  try_candidate-IsFree :
      (streaming : Bool) (acct : Accounting S) (t : Try) (gw : Gateway S) (r : Dispatch)
      → IsFree gw (try_candidate streaming acct t gw r).0
  unfolding try_candidate
  try_candidate-IsFree streaming acct t gw r =
      let provider = t.decision.provider in
      let asked = ask_quota gw.broker provider acct.est_tokens t.hold gw.firewall.world in
      either-IsFree gw
        (not (has provider gw.providers) || not (Health.healthy gw.health provider t.checked_at))
        (gw, r, true) (after_quota streaming acct t gw r asked) (IsFree-refl gw)
        (after_quota-IsFree streaming acct t gw r asked)

  -- Whether the loop goes on after a candidate.
  next-IsFree :
      (gw : Gateway S) (x : Gateway S × Dispatch × Bool) (rest : Gateway S × Dispatch)
      → IsFree gw x.0
      → IsFree x.0 rest.0
      → (let out : Gateway S × Dispatch = elim x.2 [ true ↦ rest | false ↦ (x.0, x.1) ] in
          IsFree gw out.0)
  next-IsFree gw (next, seen, true) rest a b = IsFree-trans gw next rest.0 a b
  next-IsFree gw (next, seen, false) rest a b = a

  pub run_candidates-IsFree :
      (streaming : Bool) (acct : Accounting S) (tries : List Try) (gw : Gateway S) (r : Dispatch)
      → IsFree gw (run_candidates streaming acct tries gw r).0
  unfolding run_candidates
  run_candidates-IsFree streaming acct [] gw r = IsFree-refl gw
  run_candidates-IsFree streaming acct (t ∷ tries) gw r =
      let x = try_candidate streaming acct t gw r in
      next-IsFree gw x (run_candidates streaming acct tries x.0 x.1)
        (try_candidate-IsFree streaming acct t gw r)
        (run_candidates-IsFree streaming acct tries x.0 x.1)
