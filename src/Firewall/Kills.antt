-- ===== src/Firewall/Kills.antt =====
-- The in-memory kill store of internal/firewall/firewall.go (type memKillStore). Times are
-- nanoseconds; a clock that went back gives an age of 0, which is within every ttl as in the source.
pub mod Laws
pub mod Trace
use heave.Prelude.{
  ℕ, ◌&&◌, [], ◌+◌, ◌-◌, Bool, true, false, not, Option, none, some, Bytes, Dict, lookup, insert,
  delete, keep, length, ltb, leb, if◌then◌else◌,
}
use heave.Firewall.Errors.{Error, kill_store_full}

pub record MemKillStore : Type 0 where
  pub entries : Dict ℕ
  pub ttl : ℕ
  pub cap : ℕ
  pub rejected : ℕ

abbrev pub max_kills : ℕ
max_kills = 100000

unfoldable pub new_store : ℕ → MemKillStore
new_store ttl = record { entries = []; ttl = ttl; cap = max_kills; rejected = 0 }

-- `now.Sub(t) > s.ttl`
abbrev pub expired : ℕ → ℕ → ℕ → Bool
expired ttl now t = ltb ttl (now - t)

unfoldable pub gc : MemKillStore → ℕ → MemKillStore
gc s now = record s { entries = keep (λ t. not (expired s.ttl now t)) s.entries }

store_kill : MemKillStore → Bytes → ℕ → MemKillStore × Option Error
store_kill s run now = (record s { entries = insert run now s.entries }, none)

-- A new run at the cap, after the sweep.
kill_at_cap : MemKillStore → Bytes → ℕ → MemKillStore × Option Error
unfolding store_kill
kill_at_cap s run now =
    if leb s.cap (length s.entries)
    then (record s { rejected = s.rejected + 1 }, some kill_store_full)
    else store_kill s run now

abbrev pub is_some {ℓ} : {A : Type ℓ} → Option A → Bool
is_some none = false
is_some (some a) = true

unfoldable pub kill : MemKillStore → Bytes → ℕ → MemKillStore × Option Error
unfolding kill_at_cap store_kill gc
kill s run now =
    if not (is_some (lookup run s.entries)) && leb s.cap (length s.entries)
    then kill_at_cap (gc s now) run now
    else store_kill s run now

check_found : MemKillStore → Bytes → ℕ → ℕ → MemKillStore × Bool
check_found s run now t =
    if expired s.ttl now t
    then (record s { entries = delete run s.entries }, false)
    else (record s { entries = insert run now s.entries }, true)

unfoldable pub is_killed : MemKillStore → Bytes → ℕ → MemKillStore × Bool
unfolding check_found
is_killed s run now = elim (lookup run s.entries) [
  | none ↦ (s, false)
  | some t ↦ check_found s run now t
]

unfoldable pub stats : MemKillStore → ℕ × ℕ
stats s = (length s.entries, s.rejected)
