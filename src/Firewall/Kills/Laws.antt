-- ===== src/Firewall/Kills/Laws.antt =====
-- Single operations of the kill store of internal/firewall/firewall.go.
use heave.Prelude.{
  ℕ, ◌+◌, ◌≤◌, ◌<◌, ◌≡◌, ◌⊎◌, inl, inr, true, not, none, some, Bytes, lookup, insert, Unique,
  length, leb, if◌then◌else◌, arith, Bool-cases, Option-cases, str_eq, str_eq_iff, str_eq_refl,
  lookup-insert, lookup-delete, lookup-keep, insert-Unique, keep-Unique, delete-Unique,
  length-insert-le, length-insert_present, length-keep-le, length-delete-le, holds,
}
use heave.Firewall.Errors.{Error, kill_store_full}
use heave.Firewall.Kills.{MemKillStore, expired, gc, kill_at_cap, kill, is_killed, is_some}

pub record Inv (s : MemKillStore) : Type 0 where
  pub unique : Unique s.entries
  pub bounded : length s.entries ≤ s.cap

-- The run is tracked, and its last kill or check is at most a ttl old.
abbrev pub IsLive : MemKillStore → Bytes → ℕ → Type 0
IsLive s run now = holds (λ t. not (expired s.ttl now t)) (lookup run s.entries) ≡ true

pub gc-Inv : (s : MemKillStore) (now : ℕ) → Inv s → Inv (gc s now)
unfolding gc
gc-Inv s now v = record {
  unique = keep-Unique (λ t. not (expired s.ttl now t)) s.entries v.unique;
  bounded = omega (arith, length-keep-le (λ t. not (expired s.ttl now t)) s.entries, v.bounded);
}

insert-Inv :
    (s : MemKillStore) (run : Bytes) (now : ℕ)
    → Inv s
    → (is_some (lookup run s.entries) ≡ true) ⊎ (length s.entries < s.cap)
    → Inv (record s { entries = insert run now s.entries })
insert-Inv s run now v room = record {
  unique = insert-Unique run now s.entries v.unique;
  bounded = elim (Option-cases (lookup run s.entries)) [
    | inl new ↦ ground (arith, length-insert-le run now s.entries, v.bounded)
    | inr (t, old) ↦ omega (arith, length-insert_present run now t s.entries old, v.bounded)
  ];
}

kill_at_cap-Inv : (s : MemKillStore) (run : Bytes) (now : ℕ) → Inv s → Inv (kill_at_cap s run now).0
unfolding kill_at_cap
kill_at_cap-Inv s run now v = elim (Bool-cases (leb s.cap (length s.entries))) [
  | inl full ↦ rw full (record { unique = v.unique; bounded = v.bounded })
  | inr room ↦ rw room (insert-Inv s run now v (inr (ground arith)))
]

-- Kill keeps one entry a run, and never more than `cap` of them.
pub kill-Inv : (s : MemKillStore) (run : Bytes) (now : ℕ) → Inv s → Inv (kill s run now).0
unfolding kill
kill-Inv s run now v = elim (Bool-cases (is_some (lookup run s.entries))) [
  | inl old ↦ rw old (insert-Inv s run now v (inl old))
  | inr new ↦ elim (Bool-cases (leb s.cap (length s.entries))) [
    | inr room ↦ rw (new, room) (insert-Inv s run now v (inr (ground arith)))
    | inl full ↦ rw (new, full) (kill_at_cap-Inv (gc s now) run now (gc-Inv s now v))
  ]
]

-- A check keeps them as well.
pub is_killed-Inv : (s : MemKillStore) (run : Bytes) (now : ℕ) → Inv s → Inv (is_killed s run now).0
unfolding is_killed
is_killed-Inv s run now v = elim (Option-cases (lookup run s.entries)) [
  | inl new ↦ rw (new, is_killed) v
  | inr (t, old) ↦ elim (Bool-cases (expired s.ttl now t)) [
    | inl stale ↦
        rw (old, is_killed)
          (rw stale (record {
            unique = delete-Unique run s.entries v.unique;
            bounded = omega (arith, length-delete-le run s.entries, v.bounded);
          }))
    | inr live ↦ rw (old, is_killed) (rw live (insert-Inv s run now v (inl (rw old))))
  ]
]

pub gc-IsLive :
    (s : MemKillStore) (run : Bytes) (now : ℕ)
    → Inv s
    → IsLive s run now
    → lookup run (gc s now).entries ≡ lookup run s.entries
unfolding gc
gc-IsLive s run now v h =
    ground (arith, lookup-keep (λ t. not (expired s.ttl now t)) run s.entries v.unique)

pub kill-IsLive :
    (s : MemKillStore) (run other : Bytes) (now : ℕ)
    → Inv s
    → IsLive s run now
    → lookup run (kill s other now).0.entries
      ≡ (if str_eq other run then some now else lookup run s.entries)
unfolding kill
kill-IsLive s run other now v h = ground (
  arith,
  lookup-insert other run now s.entries,
  lookup-insert other run now (gc s now).entries,
  gc-IsLive s run now v h,
  str_eq_iff other run,
)

pub is_killed-IsLive :
    (s : MemKillStore) (run other : Bytes) (now : ℕ)
    → IsLive s run now
    → lookup run (is_killed s other now).0.entries
      ≡ (if str_eq other run then some now else lookup run s.entries)
unfolding is_killed
is_killed-IsLive s run other now h = ground (
  arith,
  lookup-insert other run now s.entries,
  lookup-delete other run s.entries,
  str_eq_iff other run,
)

-- A check answers whether the run's kill is live.
pub is_killed-holds :
    (s : MemKillStore) (run : Bytes) (now : ℕ)
    → (is_killed s run now).1 ≡ holds (λ t. not (expired s.ttl now t)) (lookup run s.entries)
unfolding is_killed
is_killed-holds s run now = ground arith

-- A kill is refused only with the store-full error, only where the swept map is at its cap and the
-- run is not in it, and then only the count of rejections changes besides the sweep.
pub kill-refused :
    (s : MemKillStore) (run : Bytes) (now : ℕ) (e : Error)
    → Inv s
    → (kill s run now).1 ≡ some e
    → (e ≡ kill_store_full)
      × (length (gc s now).entries ≡ s.cap)
      × (lookup run s.entries ≡ none)
      × ((kill s run now).0 ≡ record (gc s now) { rejected = s.rejected + 1 })
unfolding kill
kill-refused s run now e v h = ground (
  arith,
  length-keep-le (λ t. not (expired s.ttl now t)) s.entries,
  v.bounded,
  lookup-keep (λ t. not (expired s.ttl now t)) run s.entries v.unique,
)

-- An accepted kill is on record.
pub kill-entry :
    (s : MemKillStore) (run : Bytes) (now : ℕ)
    → (kill s run now).1 ≡ none
    → (lookup run (kill s run now).0.entries ≡ some now) × ((kill s run now).0.ttl ≡ s.ttl)
unfolding kill
kill-entry s run now h = ground (
  arith,
  lookup-insert run run now s.entries,
  lookup-insert run run now (gc s now).entries,
  str_eq_refl run,
)
