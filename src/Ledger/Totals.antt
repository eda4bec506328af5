-- ===== src/Ledger/Totals.antt =====
-- The attribution maps and the grand total of internal/ledger/ledger.go.
use heave.Prelude.{
  ℕ, ◌+◌, ◌≤◌, ◌<◌, ◌≡◌, refl, ap, ◌∙◌, inl, inr, ◌⊎◌, Bool, true, false, some, List, [], ◌∷◌, leb,
  if◌then◌else◌, arith, Bool-cases, Option-cases, length, Bytes, Dict, lookup, insert, str_eq,
  str_eq_iff, str_eq_refl, lookup-insert, length-insert-le, length-insert_present,
}
use heave.Firewall.Local.{is_empty}
use heave.Ledger.{
  Entry, Stat, Ledger, max_tracked, overflow_key, no_stat, stat_or_new, is_present, add_stat, new,
  track_key, track, tokens_of, record_entry,
}

pub plus : Stat → Stat → Stat
plus a b = record {
  requests = a.requests + b.requests;
  tokens = a.tokens + b.tokens;
  cost_usd = a.cost_usd + b.cost_usd;
}

-- Every bucket of a map together.
pub sum_stats : Dict Stat → Stat
unfolding plus
sum_stats [] = no_stat
sum_stats ((k, st) ∷ m) = plus st (sum_stats m)

sum_stats-insert :
    (m : Dict Stat) (k : Bytes) (tokens cost : ℕ)
    → sum_stats (insert k (add_stat (stat_or_new (lookup k m)) tokens cost) m)
      ≡ add_stat (sum_stats m) tokens cost
unfolding sum_stats insert lookup add_stat
sum_stats-insert [] k tokens cost = ground arith
sum_stats-insert ((j, st) ∷ m) k tokens cost =
    ground (arith, str_eq_iff j k, sum_stats-insert m k tokens cost)

-- Whatever bucket takes a record, the buckets together gain exactly that record.
pub sum_stats-track :
    (m : Dict Stat) (key : Bytes) (tokens cost : ℕ)
    → sum_stats (track m key tokens cost) ≡ add_stat (sum_stats m) tokens cost
unfolding track
sum_stats-track m key tokens cost = sum_stats-insert m (track_key m key) tokens cost

-- A map holds at most `max_tracked` keys, and one more only for the overflow bucket.
abbrev pub IsBounded : Dict Stat → Type 0
IsBounded m =
    (length m ≤ max_tracked)
    ⊎ ((length m ≤ max_tracked + 1) × (is_present (lookup overflow_key m) ≡ true))

present-lookup :
    (m : Dict Stat) (k : Bytes)
    → is_present (lookup k m) ≡ true
    → (st : Stat) × (lookup k m ≡ some st)
present-lookup m k h = elim (Option-cases (lookup k m)) [
  | inl absent ↦ absurd (ground arith)
  | inr found ↦ found
]

still_present :
    (m : Dict Stat) (k : Bytes) (st : Stat)
    → is_present (lookup overflow_key m) ≡ true
    → is_present (lookup overflow_key (insert k st m)) ≡ true
still_present m k st h =
    rw (lookup-insert k overflow_key st m) (if_present (str_eq k overflow_key) st h)
  where
    if_present :
        (hit : Bool) (st : Stat)
        → is_present (lookup overflow_key m) ≡ true
        → is_present (if hit then some st else lookup overflow_key m) ≡ true
    if_present true st h = refl
    if_present false st h = h

spilled :
    (m : Dict Stat) (k : Bytes) (st : Stat)
    → k ≡ overflow_key
    → is_present (lookup overflow_key (insert k st m)) ≡ true
spilled m k st e = rw (lookup-insert k overflow_key st m, e, str_eq_refl overflow_key)

insert-IsBounded_known :
    (m : Dict Stat) (k : Bytes) (st : Stat)
    → IsBounded m
    → is_present (lookup k m) ≡ true
    → IsBounded (insert k st m)
insert-IsBounded_known m k st b known =
    let (old, found) = present-lookup m k known in
    let same = length-insert_present k st old m found in
    elim b [
      | inl small ↦ inl (omega (arith, same))
      | inr (large, full) ↦ inr (omega (arith, same), still_present m k st full)
    ]

at_overflow :
    (m : Dict Stat) (k : Bytes)
    → k ≡ overflow_key
    → is_present (lookup k m) ≡ false
    → is_present (lookup overflow_key m) ≡ true
    → ⊥
at_overflow m k e a b = cc (ap (λ (j : Bytes). is_present (lookup j m)) e)

insert-IsBounded :
    (m : Dict Stat) (k : Bytes) (st : Stat)
    → IsBounded m
    → (is_present (lookup k m) ≡ true) ⊎ (length m < max_tracked) ⊎ (k ≡ overflow_key)
    → IsBounded (insert k st m)
insert-IsBounded m k st b (inl known) = insert-IsBounded_known m k st b known
insert-IsBounded m k st b (inr (inl free)) = inl (omega (arith, length-insert-le k st m))
insert-IsBounded m k st b (inr (inr spill)) = elim (Bool-cases (is_present (lookup k m))) [
  | inl known ↦ insert-IsBounded_known m k st b known
  | inr new' ↦ elim b [
    | inl small ↦ inr (omega (arith, length-insert-le k st m), spilled m k st spill)
    | inr (large, full) ↦ absurd (at_overflow m k spill new' full)
  ]
]

track_key-room :
    (m : Dict Stat) (key : Bytes)
    → (is_present (lookup (track_key m key) m) ≡ true)
      ⊎ (length m < max_tracked)
      ⊎ (track_key m key ≡ overflow_key)
unfolding track_key
track_key-room m key = elim (Bool-cases (is_present (lookup key m))) [
  | inl known ↦ rw known (inl known)
  | inr new' ↦ elim (Bool-cases (leb max_tracked (length m))) [
    | inl full ↦ rw (new', full) (inr (inr refl))
    | inr free ↦ inr (inl (ground arith))
  ]
]

pub track-IsBounded :
    (m : Dict Stat) (key : Bytes) (tokens cost : ℕ)
    → IsBounded m
    → IsBounded (track m key tokens cost)
unfolding track
track-IsBounded m key tokens cost b =
    insert-IsBounded m (track_key m key) _ b (track_key-room m key)

-- The ledger after some records, newest first.
unfoldable pub after : List Entry → Ledger
after [] = new
after (r ∷ rs) = record_entry (after rs) r

-- The records that name a run.
pub with_run : List Entry → List Entry
with_run [] = []
with_run (r ∷ rs) = let rest = with_run rs in if is_empty r.run_id then rest else r ∷ rest

-- One request, its tokens of every kind, and its cost.
pub worth : Entry → Stat
worth r = record {
  requests = 1;
  tokens = r.input_tokens + r.output_tokens + r.cache_read_tokens + r.cache_write_tokens;
  cost_usd = r.cost_usd;
}

-- What records add up to.
pub spend : List Entry → Stat
unfolding plus worth
spend [] = record { requests = 0; tokens = 0; cost_usd = 0 }
spend (r ∷ rs) = plus (spend rs) (worth r)

-- Adding a record to a bucket adds what it is worth.
add_stat-worth : (s : Stat) (r : Entry) → add_stat s (tokens_of r) r.cost_usd ≡ plus s (worth r)
unfolding add_stat tokens_of plus worth
add_stat-worth s r = ground arith

-- After any records the grand total has their number, their tokens of all four kinds and their
-- cost; the buckets by client add up to the same, and the buckets by run to those of the records
-- that name a run.
pub after-spend :
    (rs : List Entry)
    → ((after rs).total ≡ spend rs)
      × (sum_stats (after rs).by_user ≡ spend rs)
      × (sum_stats (after rs).by_run ≡ spend (with_run rs))
unfolding after spend with_run record_entry new sum_stats
after-spend [] = (refl, refl, refl)
after-spend (r ∷ rs) =
    let (total, users, runs) = after-spend rs in
    (
      ground (arith, total, add_stat-worth (spend rs) r),
      sum_stats-track (after rs).by_user _ (tokens_of r) r.cost_usd
          ∙ ground (arith, users, add_stat-worth (spend rs) r),
      ground (
        arith,
        runs,
        sum_stats-track (after rs).by_run r.run_id (tokens_of r) r.cost_usd,
        add_stat-worth (spend (with_run rs)) r,
      ),
    )

-- After any records, the map by client and the map by run each have at most `max_tracked` (20,000)
-- buckets, or one more where the overflow bucket is among them.
pub after-IsBounded : (rs : List Entry) → IsBounded (after rs).by_user × IsBounded (after rs).by_run
unfolding after record_entry new
after-IsBounded [] = (inl (omega arith), inl (omega arith))
after-IsBounded (r ∷ rs) =
    let (users, runs) = after-IsBounded rs in
    (
      track-IsBounded (after rs).by_user _ (tokens_of r) r.cost_usd users,
      elim (Bool-cases (is_empty r.run_id)) [
        | inl none' ↦ rw none' runs
        | inr named ↦
            rw named (track-IsBounded (after rs).by_run r.run_id (tokens_of r) r.cost_usd runs)
      ],
    )
