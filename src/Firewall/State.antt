-- ===== src/Firewall/State.antt =====
-- The data of internal/firewall/firewall.go: limits, scopes, the firewall, tickets, and the two
-- stores that it may share with other replicas, whose state of type S the firewall carries along.
-- Money is in whole nano-dollars, times in nanoseconds; caps and thresholds are signed as in Go.
use heave.Prelude.{
  ℕ, zero, suc, ◌*◌, ◌/◌, Bool, not, Option, none, some, List, [], ℤ, pos_part, pos, ltb, ltb_ℤ,
  Bytes, Dict,
}
use heave.Firewall.Errors.{Error}
use heave.Firewall.Window.{Window}
use heave.Firewall.Kills.{MemKillStore, new_store}

abbrev pub window_seconds : ℕ
window_seconds = 60

abbrev pub max_scopes : ℕ
max_scopes = 50000

abbrev pub second : ℕ
second = 1000000000

abbrev pub gc_interval : ℕ
gc_interval = 30 * second

abbrev pub idle_evict_ttl : ℕ
idle_evict_ttl = 2 * window_seconds * second

abbrev pub default_kill_ttl : ℕ
default_kill_ttl = 86400 * second

abbrev pub max_scope_key_len : ℕ
max_scope_key_len = 512

-- `now.Unix()`
abbrev pub unix : ℕ → ℕ
unix now = now / second

-- `cap > 0`, `x > cap` and `x >= cap`.
abbrev pub positive : ℤ → Bool
positive cap = ltb 0 (pos_part cap)

abbrev pub over : ℕ → ℤ → Bool
over x cap = ltb_ℤ cap (pos x)

abbrev pub reaches : ℕ → ℤ → Bool
reaches x cap = not (ltb_ℤ (pos x) cap)

pub record Limits : Type 0 where
  pub max_usd_per_min : ℤ
  pub max_tokens_per_min : ℤ
  pub max_concurrent : ℤ
  pub loop_threshold : ℤ
  pub max_usd_per_run : ℤ
  pub kill_ttl : ℤ

pub record Scope : Type 0 where
  pub name : Bytes
  pub key : Bytes
  pub limits : Limits

pub record ScopeKey : Type 0 where
  pub name : Bytes
  pub map_key : Bytes
  pub limits : Limits

pub record ScopeState : Type 0 where
  pub window : Window
  pub inflight : ℕ
  pub last_touch : ℕ
  pub run_usd : ℕ

pub record LoopState : Type 0 where
  pub recent : List Bytes
  pub last_touch : ℕ

-- The answer of a shared store's Reserve; on `failed` the source reads nothing else of it.
pub record Verdict : Type 0 where
  pub admitted : Bool
  pub denied_name : Bytes
  pub denied_kind : Bytes
  pub failed : Bool

-- The parallel slices of a Reserve.
pub record Caps : Type 0 where
  pub keys : List Bytes
  pub names : List Bytes
  pub max_usd : List ℤ
  pub max_tokens : List ℤ
  pub max_inflight : List ℤ

pub record KillStore {ℓ} (S : Type ℓ) : Type ℓ where
  pub kill : Bytes → S → S × Option Error
  pub is_killed : Bytes → S → S × Bool

pub record ScopeStore {ℓ} (S : Type ℓ) : Type ℓ where
  pub reserve : Caps → ℕ → ℕ → Bytes → S → S × Verdict
  pub settle : List Bytes → ℤ → ℤ → S → S × Option Error
  pub release : List Bytes → Bytes → ℕ → ℕ → Bool → S → S × Option Error

pub record Firewall {ℓ} (S : Type ℓ) : Type ℓ where
  pub enabled : Bool
  pub limits : Limits
  pub local_kills : MemKillStore
  pub shared_kills : Option (KillStore S)
  pub shared_kill_errs : ℕ
  pub scope_store : Option (ScopeStore S)
  pub scope_degraded : ℕ
  pub scopes : Dict ScopeState
  pub loops : Dict LoopState
  pub last_gc : Option ℕ
  pub world : S

-- `bound` is `tk.fw != nil`: an inert ticket has no firewall.
pub record Ticket {ℓ} (S : Type ℓ) : Type ℓ where
  pub bound : Bool
  pub scope_keys : List Bytes
  pub run_scope_key : Bytes
  pub store : Option (ScopeStore S)
  pub store_keys : List Bytes
  pub hold_id : Bytes
  pub est_usd : ℕ
  pub est_tokens : ℕ
  pub released : Bool
  pub settled : Bool

pub record Reservation : Type 0 where
  pub scope_keys : List Bytes
  pub run_scope_key : Bytes
  pub shared : Bool
  pub store_keys : List Bytes
  pub hold_id : Bytes
  pub est_usd : ℕ
  pub est_tokens : ℕ

pub record Stats : Type 0 where
  pub local_kills : ℕ
  pub kill_rejections : ℕ
  pub shared_kill_errors : ℕ
  pub scope_degraded : ℕ

-- The gates return a ticket or an error.
pub data Result {ℓ} (A : Type ℓ) : Type ℓ where
  ok : A → Result A
  err : Error → Result A

-- `if ttl <= 0 { ttl = DefaultKillTTL }`
abbrev ttl_or_default : ℤ → ℕ
ttl_or_default (ℤ.pos zero) = default_kill_ttl
ttl_or_default (ℤ.pos (suc n)) = suc n
ttl_or_default (ℤ.negsuc n) = default_kill_ttl

module _ {ℓ} {S : Type ℓ} where
  unfoldable pub new : Bool → Limits → S → Firewall S
  unfolding new_store
  new enabled limits world = record {
    enabled = enabled;
    limits = limits;
    local_kills = new_store (ttl_or_default limits.kill_ttl);
    shared_kills = none;
    shared_kill_errs = 0;
    scope_store = none;
    scope_degraded = 0;
    scopes = [];
    loops = [];
    last_gc = none;
    world = world;
  }

  unfoldable pub with_kill_store : Firewall S → Option (KillStore S) → Firewall S
  with_kill_store f none = f
  with_kill_store f (some ks) = record f { shared_kills = some ks }

  unfoldable pub with_scope_store : Firewall S → Option (ScopeStore S) → Firewall S
  with_scope_store f none = f
  with_scope_store f (some ss) = record f { scope_store = some ss }
