-- ===== src/Config.antt =====
-- The gateway's configuration, internal/config/config.go: its data, whose checks are in Config/Checks.
-- Amounts are whole nano-dollars and durations nanoseconds, signed where the code tests the sign.
pub mod Checks
pub mod Valid
pub mod Validate
pub mod Lists
use heave.Prelude.{
  ℕ, Bool, true, false, Option, none, some, List, [], ℤ, if◌then◌else◌, Bytes, Dict,
}
use heave.Firewall.Local.{is_empty}

pub record ConsoleAccount : Type 0 where
  pub username : Bytes
  pub password_hash : Bytes
  pub admin : Bool

pub record OauthApp : Type 0 where
  pub client_id : Bytes
  pub client_secret_env : Bytes

pub record Console : Type 0 where
  pub enabled : Bool
  pub session_secret_env : Bytes
  pub session_ttl : ℤ
  pub base_url : Bytes
  pub allow_insecure : Bool
  pub admin_emails : List Bytes
  pub admin_domains : List Bytes
  pub accounts : List ConsoleAccount
  pub google : OauthApp
  pub github : OauthApp

pub record ControlPlane : Type 0 where
  pub enabled : Bool
  pub guard_secret_env : Bytes
  pub console : Console

pub record Firewall : Type 0 where
  pub enabled : Bool
  pub max_usd_per_min : ℤ
  pub max_tokens_per_min : ℤ
  pub max_concurrent : ℤ
  pub loop_threshold : ℤ
  pub max_usd_per_run : ℤ
  pub redis_url : Bytes
  pub kill_ttl : ℤ

pub record Failover : Type 0 where
  pub consecutive_failures : ℤ
  pub cooldown : ℤ

pub record Redaction : Type 0 where
  pub enabled : Bool
  pub custom_patterns : Dict Bytes

pub record Auth : Type 0 where
  pub enabled : Bool

pub record Client : Type 0 where
  pub name : Bytes
  pub key_sha256 : Bytes
  pub monthly_budget_usd : ℤ
  pub rate_limit_rpm : ℤ
  pub admin : Bool

pub record Server : Type 0 where
  pub addr : Bytes
  pub request_timeout : ℤ
  pub max_request_bytes : ℤ

pub record Provider : Type 0 where
  pub name : Bytes
  pub provider_type : Bytes
  pub base_url : Bytes
  pub api_key_env : Bytes
  pub rate_limit_rpm : ℤ
  pub rate_limit_tpm : ℤ

pub record Price : Type 0 where
  pub input_per_mtok : ℕ
  pub output_per_mtok : ℕ

-- `sampling` is the pointer.
pub record Model : Type 0 where
  pub id : Bytes
  pub provider : Bytes
  pub upstream : Bytes
  pub price : Price
  pub max_output_tokens : ℤ
  pub sampling : Option Bool
  pub fallbacks : List Bytes

pub record Routing : Type 0 where
  pub default_model : Bytes

pub record LedgerConfig : Type 0 where
  pub database_url_env : Bytes

pub record Config : Type 0 where
  pub server : Server
  pub providers : List Provider
  pub models : List Model
  pub routing : Routing
  pub auth : Auth
  pub clients : List Client
  pub failover : Failover
  pub redaction : Redaction
  pub firewall : Firewall
  pub ledger : LedgerConfig
  pub control_plane : ControlPlane

unfoldable pub accepts_sampling : Model → Bool
accepts_sampling m = elim m.sampling [ none ↦ true | some b ↦ b ]

-- The errors, without their texts.
pub data Error : Type 0 where
  unreadable unparsable no_providers no_models provider_incomplete unknown_type duplicate_provider
        negative_provider_rate model_incomplete duplicate_model unknown_provider own_fallback
        unknown_fallback unknown_default no_clients client_incomplete duplicate_client
        bad_key_length bad_key_hex duplicate_key negative_client_limit bad_pattern negative_failures
        negative_firewall negative_kill_ttl :
      Error

pub data Result {ℓ} (A : Type ℓ) : Type ℓ where
  err : Error → Result A
  ok : A → Result A

-- `if failed { return err }`
abbrev pub refuse : Bool → Error → Result (Unit {0})
refuse true e = err e
refuse false e = ok tt

-- A check, and then what follows its early return.
infixl 5 ◌>>=◌
abbrev pub ◌>>=◌ {ℓ κ} : {A : Type ℓ} {B : Type κ} → Result A → (A → Result B) → Result B
err e >>= next = err e
ok a >>= next = next a

-- The same, where the check gives nothing on.
infixl 5 ◌>>◌
abbrev pub ◌>>◌ {ℓ} : {B : Type ℓ} → Result (Unit {0}) → Result B → Result B
checked >> next = checked >>= (λ unit. next)

-- The environment is a parameter.
unfoldable pub api_key : (Bytes → Bytes) → Provider → Bytes
api_key getenv p = if is_empty p.api_key_env then [] else getenv p.api_key_env
