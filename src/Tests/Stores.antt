-- ===== src/Tests/Stores.antt =====
-- The theorems on the sliding window and on the kill store, on small ones.
use heave.Prelude.{
  ℕ, ◌≡◌, refl, true, none, some, List, [], ◌∷◌, pos, arith, bytes, lookup, keep, str_eq,
}
use heave.Firewall.Errors.{kill_store_full}
use heave.Firewall.Window.{Window, new_window, advance, add, sum}
use heave.Firewall.Window.Refinement.{
  Represents, Log, new_window-Represents, add-Represents, clock, sum-window_total, window_total,
  recent,
}
use heave.Firewall.Kills.{MemKillStore, gc, kill, is_killed}
use heave.Firewall.Kills.Laws.{Inv}
use heave.Firewall.Kills.Trace.{Op, kills, checks, sweeps, run_ops, last_touch, run_ops-killed}

abbrev five : Window
five = new_window 5

five-Represents : Represents five [] []
five-Represents = new_window-Represents 5 (omega arith)

-- A grant of 7 and 3 at second 2.
abbrev granted : Window
granted = add five 2 (pos 7) (pos 3)

abbrev usd_log : Log
usd_log = ((advance five 2).last_slot, pos 7) ∷ []

abbrev toks_log : Log
toks_log = ((advance five 2).last_slot, pos 3) ∷ []

granted-Represents : Represents granted usd_log toks_log
granted-Represents = add-Represents five 2 (pos 7) (pos 3) [] [] five-Represents

sum-window_total_example :
    let (v, usd, toks) = sum granted 4 in
    Represents v usd_log toks_log
    × (v.last_slot ≡ clock granted 4)
    × (usd ≡ window_total 5 (clock granted 4) usd_log)
    × (toks ≡ window_total 5 (clock granted 4) toks_log)
unfolding add advance new_window
sum-window_total_example = sum-window_total granted 4 usd_log toks_log granted-Represents

recent_of_three : recent 5 7 ((7, 2) ∷ (4, 3) ∷ (1, 9) ∷ []) ≡ 5
unfolding recent
recent_of_three = refl

-- A store with room for one kill that holds one.
abbrev full : MemKillStore
full = record { entries = (bytes "a", 10) ∷ []; ttl = 50; cap = 1; rejected = 0 }

full-Inv : Inv full
unfolding lookup
full-Inv = record { unique = (refl, tt); bounded = omega arith }

refused : (kill full (bytes "b") 20).1 ≡ some kill_store_full
unfolding kill gc lookup keep str_eq
refused = refl

-- Another run's kill, a check of this one and a sweep.
abbrev ops : List (ℕ × Op)
ops = (40, kills (bytes "b")) ∷ (55, checks (bytes "a")) ∷ (90, sweeps) ∷ []

renewed : (kill full (bytes "a") 20).1 ≡ none
unfolding kill gc lookup keep str_eq
renewed = refl

-- 35 after the check, 85 after the first kill.
run_ops-killed_example :
    (is_killed (run_ops (kill full (bytes "a") 20).0 ops) (bytes "a") 100).1 ≡ true
unfolding str_eq last_touch
run_ops-killed_example =
    run_ops-killed full (bytes "a") 20 100 ops full-Inv renewed
      (omega arith, (omega arith, (omega arith, tt))) (omega arith)
