-- ===== src/Firewall/Kills/Trace.antt =====
-- The kill store under any sequence of operations, by any caller.
use heave.Prelude.{
  ℕ, ◌+◌, ◌≤◌, ◌≡◌, refl, ◌∙◌, Bool, true, false, none, some, List, [], ◌∷◌, Bytes, lookup,
  if◌then◌else◌, arith, str_eq,
}
use heave.Firewall.Kills.{MemKillStore, gc, kill, is_killed}
use heave.Firewall.Kills.Laws.{
  Inv, gc-Inv, kill-Inv, is_killed-Inv, gc-IsLive, kill-IsLive, is_killed-IsLive, is_killed-holds,
  kill-entry,
}

pub data Op : Type 0 where
  kills checks : Bytes → Op
  sweeps : Op

pub step : MemKillStore → ℕ → Op → MemKillStore
step s now (kills run) = (kill s run now).0
step s now (checks run) = (is_killed s run now).0
step s now sweeps = gc s now

pub run_ops : MemKillStore → List (ℕ × Op) → MemKillStore
run_ops s [] = s
run_ops s ((now, op) ∷ ops) = run_ops (step s now op) ops

-- When the operation renews the run's kill.
abbrev pub touches : Bytes → Op → Bool
touches run (kills other) = str_eq other run
touches run (checks other) = str_eq other run
touches run sweeps = false

-- The run was last killed or checked at `last`: no operation comes later than a ttl after that.
abbrev pub Attended : Bytes → ℕ → ℕ → List (ℕ × Op) → Type 0
Attended run ttl last [] = Unit
Attended run ttl last ((now, op) ∷ ops) =
    (now ≤ last + ttl) × Attended run ttl (if touches run op then now else last) ops

-- The time of the last kill or check of the run.
unfoldable pub last_touch : Bytes → ℕ → List (ℕ × Op) → ℕ
last_touch run last [] = last
last_touch run last ((now, op) ∷ ops) = last_touch run (if touches run op then now else last) ops

step-Inv : (s : MemKillStore) (now : ℕ) (op : Op) → Inv s → Inv (step s now op)
unfolding step
step-Inv s now (kills run) v = kill-Inv s run now v
step-Inv s now (checks run) v = is_killed-Inv s run now v
step-Inv s now sweeps v = gc-Inv s now v

-- The store never holds more kills than its cap, nor two entries of one run.
pub run_ops-Inv : (s : MemKillStore) (ops : List (ℕ × Op)) → Inv s → Inv (run_ops s ops)
unfolding run_ops
run_ops-Inv s [] v = v
run_ops-Inv s ((now, op) ∷ ops) v = run_ops-Inv (step s now op) ops (step-Inv s now op v)

step-ttl : (s : MemKillStore) (now : ℕ) (op : Op) → (step s now op).ttl ≡ s.ttl
unfolding step kill is_killed gc
step-ttl s now (kills run) = ground arith
step-ttl s now (checks run) = ground arith
step-ttl s now sweeps = refl

step-entry :
    (s : MemKillStore) (now last : ℕ) (run : Bytes) (op : Op)
    → Inv s
    → lookup run s.entries ≡ some last
    → now ≤ last + s.ttl
    → lookup run (step s now op).entries ≡ some (if touches run op then now else last)
unfolding step
step-entry s now last run (kills other) v e h =
    kill-IsLive s run other now v (ground arith) ∙ ground arith
step-entry s now last run (checks other) v e h =
    is_killed-IsLive s run other now (ground arith) ∙ ground arith
step-entry s now last run sweeps v e h = gc-IsLive s run now v (ground arith) ∙ e

run_ops-entry :
    (s : MemKillStore) (run : Bytes) (last : ℕ) (ops : List (ℕ × Op))
    → Inv s
    → lookup run s.entries ≡ some last
    → Attended run s.ttl last ops
    → (lookup run (run_ops s ops).entries ≡ some (last_touch run last ops))
      × ((run_ops s ops).ttl ≡ s.ttl)
unfolding run_ops last_touch
run_ops-entry s run last [] v e a = (e, refl)
run_ops-entry s run last ((now, op) ∷ ops) v e a =
    let (found, same) =
      run_ops-entry (step s now op) run (if touches run op then now else last) ops
        (step-Inv s now op v) (step-entry s now last run op v e a.0) (rw (step-ttl s now op) a.1) in
    (found, same ∙ step-ttl s now op)

-- A run that is killed stays killed through any kills, checks and sweeps, as long as no operation
-- comes more than a ttl after its last kill or check: the next check within the ttl says killed.
pub run_ops-killed :
    (s : MemKillStore) (run : Bytes) (at now : ℕ) (ops : List (ℕ × Op))
    → Inv s
    → (kill s run at).1 ≡ none
    → Attended run s.ttl at ops
    → now ≤ last_touch run at ops + s.ttl
    → (is_killed (run_ops (kill s run at).0 ops) run now).1 ≡ true
run_ops-killed s run at now ops v h a k =
    let (marked, same) = kill-entry s run at h in
    let (found, kept) =
      run_ops-entry (kill s run at).0 run at ops (kill-Inv s run at v) marked (rw same a) in
    is_killed-holds (run_ops (kill s run at).0 ops) run now ∙ rw found (ground (arith, kept, same))
