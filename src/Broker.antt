-- ===== src/Broker.antt =====
-- The provider-quota broker, internal/broker/broker.go, over the shared scope store of the firewall.
-- A nil broker, a nil store and a nil lease are `none`. The hold id, drawn at random there, is an
-- argument; a call of a lease returns the lease with its flags and the world of the store.
pub mod Repeats
use heave.Prelude.{
  ℕ, suc, Bool, true, false, not, ◌||◌, Option, none, some, List, [], ◌∷◌, ◌++◌, ℤ, pos,
  if◌then◌else◌, Bytes, bytes, Dict, lookup, ◌-ℤ◌,
}
use heave.Firewall.State.{ScopeStore, Verdict, Caps, positive}

abbrev pub window_retry_after_sec : ℕ
window_retry_after_sec = 60

-- A cap of 0 or less disables its dimension.
pub record Limit : Type 0 where
  pub rpm : ℤ
  pub tpm : ℤ

unfoldable pub any : Limit → Bool
any l = positive l.rpm || positive l.tpm

abbrev pub no_limit : Limit
no_limit = record { rpm = pos 0; tpm = pos 0 }

-- A missing key of the map reads as the zero limit.
abbrev pub limit_of : Dict Limit → Bytes → Limit
limit_of limits provider = elim (lookup provider limits) [ none ↦ no_limit | some l ↦ l ]

unfoldable pub scope_key : Bytes → Bytes
scope_key provider = bytes "prov:" ++ provider

pub record Broker {ℓ} (S : Type ℓ) : Type ℓ where
  pub store : Option (ScopeStore S)
  pub limits : Dict Limit
  pub failures : ℕ

pub record Lease {ℓ} (S : Type ℓ) : Type ℓ where
  pub store : ScopeStore S
  pub key : Bytes
  pub hold : Bytes
  pub est_tokens : ℕ
  pub rpm : Bool
  pub tpm : Bool
  pub settled : Bool
  pub released : Bool

-- What Reserve answers: admitted with or without a lease, or denied with the seconds to wait.
pub data Answer {ℓ} (S : Type ℓ) : Type ℓ where
  admitted : Option (Lease S) → Answer S
  denied : ℕ → Answer S

abbrev pub quota_caps : Bytes → Limit → Caps
quota_caps key l = record {
  keys = key ∷ [];
  names = bytes "provider" ∷ [];
  max_usd = l.rpm ∷ [];
  max_tokens = l.tpm ∷ [];
  max_inflight = pos 0 ∷ [];
}

module _ {ℓ} {S : Type ℓ} where
  unfoldable pub new : Option (ScopeStore S) → Dict Limit → Broker S
  new store limits = record { store = store; limits = limits; failures = 0 }

  unfoldable pub degraded : Option (Broker S) → ℕ
  degraded none = 0
  degraded (some b) = b.failures

  unfoldable pub is_active : Option (Broker S) → Bytes → Bool
  unfolding any
  is_active none provider = false
  is_active (some b) provider = elim b.store [
    | none ↦ false
    | some store ↦ any (limit_of b.limits provider)
  ]

  abbrev pub new_lease : ScopeStore S → Bytes → Bytes → ℕ → Limit → Lease S
  new_lease store key hold est l = record {
    store = store;
    key = key;
    hold = hold;
    est_tokens = est;
    rpm = positive l.rpm;
    tpm = positive l.tpm;
    settled = false;
    released = false;
  }

  -- The store was asked.
  unfoldable pub after_reserve :
      Broker S → ScopeStore S → Bytes → Bytes → ℕ → Limit → S × Verdict → Broker S × S × Answer S
  after_reserve b store key hold est l (w, v) =
      if v.failed
      then (record b { failures = suc b.failures }, w, admitted none)
      else (if v.admitted
          then (b, w, admitted (some (new_lease store key hold est l)))
          else (b, w, denied window_retry_after_sec))

  -- A broker with a store, for a provider with a limit.
  unfoldable pub reserve : Broker S → Bytes → ℕ → Bytes → S → Broker S × S × Answer S
  unfolding any scope_key after_reserve
  reserve b provider est hold w =
      let l = limit_of b.limits provider in
      let key = scope_key provider in
      elim b.store [
        | none ↦ (b, w, admitted none)
        | some store ↦
            if any l
            then after_reserve b store key hold est l
                (store.reserve (quota_caps key l) 1 est hold w)
            else (b, w, admitted none)
      ]

  -- `lease.Settle`, with the delta of the tokens where they are brokered.
  unfoldable pub settle : Lease S → ℤ → S → Lease S × S
  settle le actual w =
      let dt = if le.tpm then actual -ℤ pos le.est_tokens else pos 0 in
      if le.settled || le.released
      then (le, w)
      else (record le { settled = true }, (le.store.settle (le.key ∷ []) (pos 0) dt w).0)

  unfoldable pub release : Lease S → S → Lease S × S
  release le w =
      let count = if le.rpm then 1 else 0 in
      let tokens = if le.tpm then le.est_tokens else 0 in
      if le.released then (le, w) else (
        record le { released = true },
        (le.store.release (le.key ∷ []) le.hold count tokens le.settled w).0,
      )
