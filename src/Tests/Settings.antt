-- ===== src/Tests/Settings.antt =====
-- The theorems on the configuration, the durable ledger, the broker, the scrubber and the cost
-- simulator.
use heave.Prelude.{
  ℕ, ◌+◌, ◌*◌, ◌≡◌, refl, ◌⊎◌, true, false, none, some, [], ◌∷◌, ◌++◌, pos, arith, Bytes, bytes,
}
use heave.Config.{OauthApp, Config, ok}
use heave.Config.Checks.{with_defaults, validate}
use heave.Config.Lists.{is_ok}
use heave.Config.Valid.{is_valid}
use heave.Config.Validate.{validate-is_valid}
use heave.Pgledger
use heave.Pgledger.Account.{System, Reach, Inv, start, Reach-Inv}
use heave.Pgledger.Shutdown.{late-Write}
use heave.Firewall.State.{ScopeStore}
use heave.Broker.{Lease}
use heave.Broker.Repeats.{settles, releases, run_ops, told, run_ops-told}
use heave.Redact.{luhn_valid}
use heave.Redact.Luhn.{luhn_valid-changed}
use heave.Cachebench
use heave.Cachebench.{Scenario, Comparison}
use heave.Cachebench.Agree.{IsComparison, compare-IsComparison}

abbrev app : OauthApp
app = record { client_id = []; client_secret_env = [] }

abbrev config : Config
config = record {
  server = record { addr = []; request_timeout = pos 0; max_request_bytes = pos 0 };
  providers =
      record {
        name = bytes "a";
        provider_type = bytes "anthropic";
        base_url = bytes "u";
        api_key_env = bytes "K";
        rate_limit_rpm = pos 0;
        rate_limit_tpm = pos 0;
      }
      ∷ [];
  models =
      record {
        id = bytes "m";
        provider = bytes "a";
        upstream = bytes "m";
        price = record { input_per_mtok = 1; output_per_mtok = 5 };
        max_output_tokens = pos 0;
        sampling = none;
        fallbacks = [];
      }
      ∷ [];
  routing = record { default_model = [] };
  auth = record { enabled = false };
  clients = [];
  failover = record { consecutive_failures = pos 0; cooldown = pos 0 };
  redaction = record { enabled = false; custom_patterns = [] };
  firewall = record {
    enabled = true;
    max_usd_per_min = pos 0;
    max_tokens_per_min = pos 0;
    max_concurrent = pos 0;
    loop_threshold = pos 0;
    max_usd_per_run = pos 0;
    redis_url = [];
    kill_ttl = pos 0;
  };
  ledger = record { database_url_env = [] };
  control_plane = record {
    enabled = false;
    guard_secret_env = [];
    console = record {
      enabled = false;
      session_secret_env = [];
      session_ttl = pos 0;
      base_url = [];
      allow_insecure = false;
      admin_emails = [];
      admin_domains = [];
      accounts = [];
      google = app;
      github = app;
    };
  };
}

validate-is_valid_example :
    ((is_valid (λ p. true) config ≡ true)
      × (validate (λ p. true) config ≡ ok (with_defaults config)))
    ⊎ ((is_valid (λ p. true) config ≡ false) × (is_ok (validate (λ p. true) config) ≡ false))
validate-is_valid_example = validate-is_valid (λ p. true) config

abbrev entry : Pgledger.Entry
entry = record {
  rec = record {
    request_id = bytes "q";
    alias = bytes "m";
    provider = bytes "a";
    upstream = bytes "m";
    user = [];
    run_id = [];
    input_tokens = 1;
    output_tokens = 2;
    cache_read_tokens = 0;
    cache_write_tokens = 0;
    cost_usd = 3;
    latency_ms = 4;
    status = bytes "ok";
  };
  ts = 5;
}

-- The run of the late Write below.
Reach-Inv_example : Inv (late-Write 4 2 entry (omega arith)).0
Reach-Inv_example = Reach-Inv 4 2 (omega arith) (late-Write 4 2 entry (omega arith)).1

late-Write_example :
    (σ : System) × Reach (start 4 2) σ
    × (σ.returned ≡ true)
    × (σ.under_way ≡ [])
    × (σ.store.ch ≡ entry ∷ [])
    × (σ.saved ≡ [])
    × (σ.store.dropped ≡ 0)
    × (σ.writes ≡ 1)
late-Write_example = late-Write 4 2 entry (omega arith)

abbrev store : ScopeStore ℕ
store = record {
  reserve = λ caps u t hold w.
      (w + u, record { admitted = true; denied_name = []; denied_kind = []; failed = false });
  settle = λ keys du dt w. (10 * w + 1, none);
  release = λ keys hold u t settled w. (10 * w + 2, none);
}

abbrev lease : Lease ℕ
lease = record {
  store = store;
  key = bytes "prov:a";
  hold = bytes "h";
  est_tokens = 7;
  rpm = true;
  tpm = true;
  settled = false;
  released = false;
}

run_ops-told_example :
    (run_ops lease 0 (settles (pos 5) ∷ releases ∷ settles (pos 6) ∷ releases ∷ [])).1
    ≡ told lease 0 (settles (pos 5) ∷ releases ∷ settles (pos 6) ∷ releases ∷ [])
run_ops-told_example =
    run_ops-told lease 0 (settles (pos 5) ∷ releases ∷ settles (pos 6) ∷ releases ∷ []) refl refl

abbrev scenario : Scenario
scenario = record {
  conversations =
      record {
        system_tokens = 100;
        turns =
            record { user_tokens = 10; output_tokens = 20; difficulty = 0; gap_seconds = 5 } ∷ [];
      }
      ∷ [];
  models =
      record {
        name = bytes "haiku";
        input_per_mtok = 1;
        output_per_mtok = 5;
        quality = 6;
        min_cache_tokens = 50;
      }
      ∷ [];
  ttl = 300;
}

compare-IsComparison_example :
    (cmp : Comparison) × (Cachebench.compare scenario ≡ some cmp) × IsComparison scenario cmp
compare-IsComparison_example = compare-IsComparison scenario (omega arith)

-- Fifteen digits of a card number, whose last digit is 2.
abbrev card : Bytes
card = bytes "424242424242424"

card-luhn_valid : luhn_valid (card ++ (b'2' ∷ [])) ≡ true
unfolding luhn_valid
card-luhn_valid = refl

luhn_valid-changed_example : luhn_valid (card ++ (b'3' ∷ [])) ≡ false
luhn_valid-changed_example =
    luhn_valid-changed card [] b'2' b'3' refl refl (λ e. absurd (ground arith)) card-luhn_valid
