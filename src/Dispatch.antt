-- ===== src/Dispatch.antt =====
-- The dispatch of an admitted request, internal/server/server.go: the candidates in order, with health,
-- quota and failover, and the settlement of what was served. A candidate comes with what its vendor
-- would answer and when; contexts, logs and the wire formats are left out. A cost is in the unit of
-- Ledger.cost, and so is the estimate.
pub mod Free
pub mod Endings
pub mod Charges
use heave.Prelude.{
  ℕ, suc, ◌+◌, ◌-◌, ◌/◌, Bool, true, false, not, ◌&&◌, ◌||◌, Option, none, some, List, [], ◌∷◌, ℤ,
  pos, leb, ltb, ◌==◌, if◌then◌else◌, Bytes, bytes, has,
}
use heave.Firewall.State.{Firewall, Ticket}
use heave.Firewall.Tickets
use heave.Controls
use heave.Health
use heave.Ledger
use heave.Ledger.{Ledger, record_entry}
use heave.Broker
use heave.Broker.{Broker, Lease}
use heave.Router.{Decision}

-- What a provider reports of a success; counts are not negative.
pub record Response : Type 0 where
  pub input_tokens : ℕ
  pub output_tokens : ℕ
  pub cache_read : ℕ
  pub cache_write : ℕ

-- An error's vendor status, 0 for a transport failure; `none` is no provider.Error.
abbrev pub UpstreamError : Type 0
UpstreamError = Option ℕ

pub data Outcome : Type 0 where
  served : Response → Outcome
  failed : UpstreamError → Outcome

-- A candidate: when its health is checked, the hold id of its lease, what a dispatch gives and when,
-- whether the context is done by then, whether an error is a timeout of its own, and whether bytes were
-- streamed to the client.
pub record Try : Type 0 where
  pub decision : Decision
  pub checked_at : ℕ
  pub hold : Bytes
  pub outcome : Outcome
  pub ended_at : ℕ
  pub cancelled : Bool
  pub timed_out : Bool
  pub wrote : Bool

-- `accounting`, with the names that the records carry.
pub record Accounting {ℓ} (S : Type ℓ) : Type ℓ where
  pub user : Bytes
  pub reservation : Option Controls.Reservation
  pub ticket : Ticket S
  pub request_id : Bytes
  pub run_id : Bytes
  pub start : ℕ
  pub primary_alias : Bytes
  pub est_usd : ℕ
  pub est_tokens : ℕ

-- The components that a dispatch changes, and the names of the configured providers.
pub record Gateway {ℓ} (S : Type ℓ) : Type ℓ where
  pub providers : List Bytes
  pub firewall : Firewall S
  pub guard : Controls.Guard
  pub health : Health.Tracker
  pub broker : Option (Broker S)
  pub ledger : Ledger

-- `dispatchResult`, and the stream writer's `wroteAny`.
pub record Dispatch : Type 0 where
  pub used : Option (Response × Decision)
  pub attempted : Bool
  pub quota_blocked : Bool
  pub retry_after_sec : ℕ
  pub last_err : UpstreamError
  pub timed_out : Bool
  pub wrote_any : Bool
  pub ended_at : ℕ

unfoldable pub retryable : UpstreamError → Bool
retryable none = true
retryable (some status) =
    status == 0
    || leb 500 status
    || (status == 408 || status == 429)
    || (status == 401 || status == 403)

abbrev pub is_rate_limited : UpstreamError → Bool
is_rate_limited none = false
is_rate_limited (some status) = status == 429

-- The HTTP status; The test is whether the context is done or the
-- error a timeout.
unfoldable pub classify_error : Bool → UpstreamError → ℕ
classify_error true e = 504
classify_error false none = 502
classify_error false (some status) =
    if status == 401 || status == 403
    then 502
    else (if leb 400 status && ltb status 500 then status else 502)

unfoldable pub write_no_serve : Dispatch → ℕ
unfolding classify_error
write_no_serve r =
    if r.quota_blocked && not r.attempted
    then 429
    else (if not r.attempted then 503 else classify_error r.timed_out r.last_err)

abbrev pub nothing_yet : ℕ → Dispatch
nothing_yet start = record {
  used = none;
  attempted = false;
  quota_blocked = false;
  retry_after_sec = 0;
  last_err = none;
  timed_out = false;
  wrote_any = false;
  ended_at = start;
}

-- `if actualTok <= 0 { actualTok = acct.estTokens }`
abbrev pub actual_tokens : Response → ℕ → ℕ
actual_tokens resp est =
    if resp.input_tokens + resp.output_tokens == 0
    then est
    else resp.input_tokens + resp.output_tokens

abbrev pub is_unreported : Response → Bool
is_unreported resp =
    resp.input_tokens == 0
    && resp.output_tokens == 0
    && resp.cache_read == 0
    && resp.cache_write == 0

module _ {ℓ} {S : Type ℓ} where
  -- A lease is nil-safe; its calls change the world of the shared store.
  abbrev pub settle_lease : Option (Lease S) → ℕ → S → S
  settle_lease none tokens w = w
  settle_lease (some le) tokens w = (Broker.settle le (pos tokens) w).1

  abbrev pub release_lease : Option (Lease S) → S → S
  release_lease none w = w
  release_lease (some le) w = (Broker.release le w).1

  abbrev pub in_world : Gateway S → S → Gateway S
  in_world gw w = record gw { firewall = record gw.firewall { world = w } }

  unfoldable pub error_entry : Accounting S → Try → Ledger.Entry
  error_entry acct t = record {
    request_id = acct.request_id;
    alias = t.decision.alias;
    provider = t.decision.provider;
    upstream = t.decision.upstream;
    user = acct.user;
    run_id = acct.run_id;
    input_tokens = 0;
    output_tokens = 0;
    cache_read_tokens = 0;
    cache_write_tokens = 0;
    cost_usd = 0;
    latency_ms = (t.ended_at - acct.start) / 1000000;
    status = bytes "error";
  }

  -- A failed dispatch that streamed bytes was billed, so its lease stays counted.
  unfoldable pub close_lease : Bool → Option (Lease S) → ℕ → S → S
  close_lease true lease est w = release_lease lease w
  close_lease false lease est w = settle_lease lease est w

  -- The failure counts against the provider's health unless the loop stops or the vendor limits rates.
  unfoldable pub count_failure : Bool → Gateway S → Bytes → ℕ → Gateway S
  count_failure true gw provider now = gw
  count_failure false gw provider now = record gw {
    health = Health.record_failure gw.health provider now;
  }

  -- After the dispatch of a candidate: whether to go on to the next.
  unfoldable pub after_attempt :
      Bool
      → Accounting S
      → Try
      → Option (Lease S)
      → Gateway S
      → Dispatch
      → Outcome
      → Gateway S × Dispatch × Bool
  unfolding error_entry retryable close_lease count_failure
  after_attempt streaming acct t lease gw r (served resp) = (
    record (in_world gw
        (settle_lease lease (actual_tokens resp acct.est_tokens) gw.firewall.world)) {
          health = Health.record_success gw.health t.decision.provider;
        },
    record r { used = some (resp, t.decision) },
    false,
  )
  after_attempt streaming acct t lease gw r (failed e) =
      let can_failover = if streaming then not r.wrote_any else true in
      let w = close_lease can_failover lease acct.est_tokens gw.firewall.world in
      let next : Gateway S = record (in_world gw w) {
        ledger = record_entry gw.ledger (error_entry acct t);
      } in
      let stop = t.cancelled || not (retryable e) || not can_failover in
      (
        count_failure (stop || is_rate_limited e) next t.decision.provider t.ended_at,
        record r { last_err = e; timed_out = t.cancelled || t.timed_out },
        not stop,
      )

  -- The quota of the provider was asked.
  unfoldable pub after_quota :
      Bool
      → Accounting S
      → Try
      → Gateway S
      → Dispatch
      → Option (Broker S) × S × Broker.Answer S
      → Gateway S × Dispatch × Bool
  unfolding after_attempt
  after_quota streaming acct t gw r (b, w, Broker.denied secs) = (
    record (in_world gw w) { broker = b },
    record r { quota_blocked = true; retry_after_sec = secs },
    true,
  )
  after_quota streaming acct t gw r (b, w, Broker.admitted lease) =
      after_attempt streaming acct t lease (record (in_world gw w) { broker = b })
        (record r { attempted = true; wrote_any = r.wrote_any || t.wrote; ended_at = t.ended_at })
        t.outcome

  unfoldable pub ask_quota :
      Option (Broker S) → Bytes → ℕ → Bytes → S → Option (Broker S) × S × Broker.Answer S
  ask_quota none provider est hold w = (none, w, Broker.admitted none)
  ask_quota (some b) provider est hold w =
      let (next, v, answer) = Broker.reserve b provider est hold w in (some next, v, answer)

  unfoldable pub try_candidate :
      Bool → Accounting S → Try → Gateway S → Dispatch → Gateway S × Dispatch × Bool
  unfolding after_quota ask_quota
  try_candidate streaming acct t gw r =
      let provider = t.decision.provider in
      if not (has provider gw.providers) || not (Health.healthy gw.health provider t.checked_at)
      then (gw, r, true)
      else after_quota streaming acct t gw r
          (ask_quota gw.broker provider acct.est_tokens t.hold gw.firewall.world)

  unfoldable pub run_candidates :
      Bool → Accounting S → List Try → Gateway S → Dispatch → Gateway S × Dispatch
  unfolding try_candidate
  run_candidates streaming acct [] gw r = (gw, r)
  run_candidates streaming acct (t ∷ tries) gw r =
      let (next, seen, more) = try_candidate streaming acct t gw r in
      elim more [ true ↦ run_candidates streaming acct tries next seen | false ↦ (next, seen) ]

  -- What a success is charged: its cost, or the estimate where no usage is reported.
  unfoldable pub charged : Accounting S → Response → Decision → ℕ
  charged acct resp used =
      if is_unreported resp
      then acct.est_usd
      else Ledger.cost resp.input_tokens resp.output_tokens resp.cache_read resp.cache_write
          used.price.input_per_mtok used.price.output_per_mtok

  -- The guard, the ticket and the ledger are told of one amount.
  unfoldable pub book : Gateway S → Accounting S → ℕ → ℕ → Ledger.Entry → ℕ → Gateway S
  book gw acct amount tokens entry now = record gw {
    guard = Controls.settle gw.guard acct.reservation (pos amount);
    firewall = (Tickets.settle gw.firewall acct.ticket (pos amount) (pos tokens) now).0;
    ledger = record_entry gw.ledger entry;
  }

  unfoldable pub record_success : Gateway S → Accounting S → Decision → Response → ℕ → Gateway S
  unfolding charged book
  record_success gw acct used resp now =
      let input = if is_unreported resp then acct.est_tokens else resp.input_tokens in
      let amount = charged acct resp used in
      book gw acct amount (input + resp.output_tokens)
        (record {
          request_id = acct.request_id;
          alias = used.alias;
          provider = used.provider;
          upstream = used.upstream;
          user = acct.user;
          run_id = acct.run_id;
          input_tokens = input;
          output_tokens = resp.output_tokens;
          cache_read_tokens = resp.cache_read;
          cache_write_tokens = resp.cache_write;
          cost_usd = amount;
          latency_ms = (now - acct.start) / 1000000;
          status = if is_unreported resp then bytes "ok_estimated" else bytes "ok";
        })
        now

  -- Nothing was billed: the reservation is given back whole.
  abbrev pub give_back : Gateway S → Accounting S → Gateway S
  give_back gw acct = record gw { guard = Controls.settle gw.guard acct.reservation (pos 0) }

  -- The gateway after the request, and its status.
  unfoldable pub serve_unary : Gateway S → Accounting S → List Try → Gateway S × ℕ
  unfolding run_candidates record_success write_no_serve
  serve_unary gw acct tries =
      let (next, r) = run_candidates false acct tries gw (nothing_yet acct.start) in
      elim r.used [
        | none ↦ (give_back next acct, write_no_serve r)
        | some (resp, used) ↦ (record_success next acct used resp r.ended_at, 200)
      ]

  unfoldable pub aborted : Gateway S → Accounting S → ℕ → Gateway S
  unfolding book
  aborted gw acct now =
      book gw acct acct.est_usd acct.est_tokens
        (record {
          request_id = acct.request_id;
          alias = acct.primary_alias;
          provider = [];
          upstream = [];
          user = acct.user;
          run_id = acct.run_id;
          input_tokens = acct.est_tokens;
          output_tokens = 0;
          cache_read_tokens = 0;
          cache_write_tokens = 0;
          cost_usd = acct.est_usd;
          latency_ms = (now - acct.start) / 1000000;
          status = bytes "aborted";
        })
        now

  -- A stream that has begun has status 200, whatever follows.
  unfoldable pub serve_streaming : Bool → Gateway S → Accounting S → List Try → Gateway S × ℕ
  unfolding run_candidates record_success aborted write_no_serve
  serve_streaming false gw acct tries = (give_back gw acct, 500)
  serve_streaming true gw acct tries =
      let (next, r) = run_candidates true acct tries gw (nothing_yet acct.start) in
      elim r.used [
        | some (resp, used) ↦ (record_success next acct used resp r.ended_at, 200)
        | none ↦
            if r.wrote_any
            then (aborted next acct r.ended_at, 200)
            else (give_back next acct, write_no_serve r)
      ]
