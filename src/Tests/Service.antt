-- ===== src/Tests/Service.antt =====
-- The theorems on tickets, provider health, the ledger and client controls, on small inputs.
use mathlib.Core.List.{Perm}
use heave.Prelude.{
  ℕ, ◌+◌, ◌-◌, ◌*◌, ◌≤◌, ◌≡◌, refl, true, false, not, ◌&&◌, none, List, [], ◌∷◌, ◌++◌, pos, ltb,
  leb, arith, length, take, Bytes, bytes, str_eq,
}
use heave.Firewall.State.{Firewall, Ticket}
use heave.Firewall.State
use heave.Firewall.Enter.{local_ticket}
use heave.Health.{new, healthy}
use heave.Health.Breaker
use heave.Health.Breaker.{Event, success, failure, streak, last_failure, healthy-after}
use heave.Ledger.{Entry, NamedStat, recent_ring, recent_events, top_n}
use heave.Ledger.Totals
use heave.Ledger.Totals.{spend, sum_stats, with_run, IsBounded, after-spend, after-IsBounded}
use heave.Ledger.Ring.{events, recent_events-after}
use heave.Ledger.Top.{IsRanked, top_size, top_n-best}
use heave.Controls.{Client, ClientState, token, new_bucket, reserve_state, roll_month}
use heave.Controls.Rate
use heave.Controls.Rate.{run-new_bucket}
use heave.Controls.Budget.{Run, Balanced, reserves, settles, run, next, run-Balanced}

abbrev limits : State.Limits
limits = record {
  max_usd_per_min = pos 10;
  max_tokens_per_min = pos 0;
  max_concurrent = pos 2;
  loop_threshold = pos 2;
  max_usd_per_run = pos 9;
  kill_ttl = pos 50;
}

abbrev fw : Firewall ℕ
fw = State.new true limits 0

abbrev ticket : Ticket ℕ
ticket = local_ticket (bytes "team:a" ∷ []) [] 4 7

-- Two failures in a row of provider "a", and a success of "b" between them.
abbrev outcomes : List Event
outcomes =
    record { time = 9; provider = bytes "a"; outcome = failure }
    ∷ record { time = 8; provider = bytes "b"; outcome = success }
    ∷ record { time = 5; provider = bytes "a"; outcome = failure }
    ∷ []

healthy-after_example :
    let t = new (pos 2) (pos 30) in
    healthy (Breaker.after t outcomes) (bytes "a") 20
    ≡ not (
        leb t.threshold (streak (bytes "a") outcomes)
        && ltb 20 (last_failure (bytes "a") outcomes + t.cooldown))
healthy-after_example = healthy-after (pos 2) (pos 30) (bytes "a") outcomes 20

two_failures : streak (bytes "a") outcomes ≡ 2
unfolding streak str_eq
two_failures = refl

abbrev entry : ℕ → Entry
entry c = record {
  request_id = bytes "q";
  alias = bytes "m";
  provider = bytes "a";
  upstream = bytes "u";
  user = bytes "ann";
  run_id = bytes "r";
  input_tokens = 2;
  output_tokens = 3;
  cache_read_tokens = 0;
  cache_write_tokens = 0;
  cost_usd = c;
  latency_ms = 1;
  status = bytes "ok";
}

abbrev entries : List Entry
entries = entry 4 ∷ entry 6 ∷ []

after-spend_example :
    ((Totals.after entries).total ≡ spend entries)
    × (sum_stats (Totals.after entries).by_user ≡ spend entries)
    × (sum_stats (Totals.after entries).by_run ≡ spend (with_run entries))
after-spend_example = after-spend entries

recent_events-after_example :
    recent_events (Totals.after entries) ≡ take recent_ring (events entries)
recent_events-after_example = recent_events-after entries

abbrev named : Bytes → ℕ → NamedStat
named n c = record { name = n; stat = record { requests = 1; tokens = 5; cost_usd = c } }

abbrev clients : List NamedStat
clients = named (bytes "ann") 4 ∷ named (bytes "bob") 9 ∷ []

top_n-best_example :
    (rest : List NamedStat) × Perm (top_n clients 1 ++ rest) clients
    × IsRanked (top_n clients 1 ++ rest)
    × (length (top_n clients 1) ≡ top_size 1 (length clients))
top_n-best_example = top_n-best clients 1

run-new_bucket_example :
    (Rate.run (new_bucket 2) (10 ∷ 10 ∷ 10 ∷ [])).1 * token ≤ 2 * token + (70 - 10) * 2
run-new_bucket_example =
    run-new_bucket 2 10 (10 ∷ 10 ∷ []) 70 (omega arith, (omega arith, omega arith))

abbrev client : Client
client = record {
  name = bytes "ann";
  key_sha256 = bytes "ab";
  monthly_budget_usd = 10;
  rate_limit_rpm = 0;
  admin = false;
}

abbrev month : Bytes
month = bytes "2026-01"

abbrev state : ClientState
state = record { cfg = client; bucket = none; month_key = month; spent_usd = 0 }

abbrev start : Run
start = record { state = state; books = record { held = 0; settled = 0 } }

-- A hold of 4, a hold of 9 that is refused, and the first settled at 3.
run-Balanced_example :
    Balanced (run start month 99 (reserves 4 ∷ reserves 9 ∷ settles 4 3 ∷ [])) month
unfolding next reserve_state roll_month str_eq
run-Balanced_example =
    run-Balanced start month 99 (reserves 4 ∷ reserves 9 ∷ settles 4 3 ∷ [])
      (tt, (tt, (omega arith, tt))) (record { current = refl; balance = refl })
