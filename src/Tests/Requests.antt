-- ===== src/Tests/Requests.antt =====
-- The theorems on requests, with two candidates, the first of which fails.
use heave.Prelude.{ℕ, ◌*◌, true, false, none, some, List, [], ◌∷◌, pos, Bytes, bytes, All}
use heave.Firewall.State.{Limits, new, second}
use heave.Firewall.Enter.{local_ticket}
use heave.Health
use heave.Ledger
use heave.Router.{Decision}
use heave.Dispatch.{served, failed, Try, Accounting, Gateway, serve_unary, serve_streaming}
use heave.Request.{ChatRequest, max_estimate}
use heave.Request.Estimates.{IsCovered, max_estimate-IsCovered}
use heave.Dispatch.Charges.{IsSettled, owed, end_of, serve-IsSettled}

abbrev limits : Limits
limits = record {
  max_usd_per_min = pos 10;
  max_tokens_per_min = pos 0;
  max_concurrent = pos 2;
  loop_threshold = pos 2;
  max_usd_per_run = pos 9;
  kill_ttl = pos 50;
}

abbrev gateway : Gateway ℕ
gateway = record {
  providers = bytes "a" ∷ bytes "b" ∷ [];
  firewall = new true limits 0;
  guard = record { auth_enabled = false; by_hash = [] };
  health = Health.new (pos 2) (pos 5);
  broker = none;
  ledger = Ledger.new;
}

abbrev account : Accounting ℕ
account = record {
  user = bytes "u";
  reservation = none;
  ticket = local_ticket [] [] 4 7;
  request_id = bytes "q";
  run_id = [];
  start = second;
  primary_alias = bytes "m";
  est_usd = 4;
  est_tokens = 7;
}

abbrev decision : Bytes → Decision
decision provider = record {
  provider = provider;
  upstream = bytes "m";
  alias = bytes "m";
  price = record { input_per_mtok = 1; output_per_mtok = 5 };
  max_output_tokens = pos 0;
  accepts_sampling = true;
}

abbrev tries : List Try
tries =
    record {
      decision = decision (bytes "a");
      checked_at = second;
      hold = bytes "h";
      outcome = failed (some 503);
      ended_at = 2 * second;
      cancelled = false;
      timed_out = false;
      wrote = false;
    }
    ∷ record {
      decision = decision (bytes "b");
      checked_at = 2 * second;
      hold = bytes "i";
      outcome =
          served (record { input_tokens = 3; output_tokens = 4; cache_read = 0; cache_write = 0 });
      ended_at = 3 * second;
      cancelled = false;
      timed_out = false;
      wrote = true;
    }
    ∷ []

serve-IsSettled_example :
    IsSettled gateway account
      (owed account (end_of false gateway account tries))
      (serve_unary gateway account tries)
    × IsSettled gateway account
        (owed account (end_of true gateway account tries))
        (serve_streaming true gateway account tries)
    × IsSettled gateway account none (serve_streaming false gateway account tries)
serve-IsSettled_example = serve-IsSettled gateway account tries

abbrev request : ChatRequest
request = record {
  model = bytes "m";
  messages =
      record {
        role = bytes "system";
        content = record { text = bytes "be brief"; has_image = false };
        name = [];
      }
      ∷ record {
        role = bytes "user";
        content = record { text = bytes "hello"; has_image = false };
        name = [];
      }
      ∷ [];
  max_tokens = pos 0;
  temperature = none;
  top_p = none;
  n = none;
  stream = false;
  user = bytes "u";
  tools = [];
  functions = [];
  response_format = [];
}

max_estimate-IsCovered_example :
    let (most, longest) =
      max_estimate request (decision (bytes "a") ∷ decision (bytes "b") ∷ []) 0 0 in
    All (IsCovered request most longest) (decision (bytes "a") ∷ decision (bytes "b") ∷ [])
max_estimate-IsCovered_example =
    max_estimate-IsCovered (decision (bytes "a") ∷ decision (bytes "b") ∷ []) request 0 0
