-- ===== src/Tests/Gate.antt =====
-- The gate's theorems on a small firewall: one team scope and one run scope, and calls at second 5.
use heave.Prelude.{
  ◌<◌, ◌⊎◌, ℕ, ◌+◌, ◌*◌, lookup, keep, str_eq, map_values, insert, ◌≡◌, ◌≤◌, ◌⊎◌, refl, true, false,
  none, List, [], ◌∷◌, pos, if◌then◌else◌, arith, All, Bytes, bytes,
}
use heave.Firewall.Kills
use heave.Firewall.Kills.{is_some}
use heave.Firewall.Local
use heave.Firewall.Window.{
  sum, advance, new_window, add, bump, clear_all, clear_slots, expire, total,
}
use heave.Firewall.Enter.{reserve_or_roll_back}
use heave.Firewall.State.{Limits, Scope, Firewall, new, second, err}
use heave.Firewall.Errors.{killed}
use heave.Firewall.Local.{to_scope_keys, gc_locked, check_reserve_scopes}
use heave.Firewall.Local.View.{Inv, new-Inv, load}
use heave.Firewall.Local.Reserve.{charged, uses, refusal, check_reserve_scopes-refusal}
use heave.Firewall.Local.Spent.{spent}
use heave.Firewall.Enter.{
  enter_locked, enter_core, enter_live, kill_run, is_killed, admitted, tripped, local_ticket,
}
use heave.Firewall.Enter.Gate.{was_admitted, load-enter_locked, enter_locked-Inv}
use heave.Firewall.Enter.Admit.{
  Fits, enter_locked-Fits, spent-enter_locked, fresh-check_reserve_scopes,
}
use heave.Firewall.Enter.Dead.{kill_run-enter_core, enter_live-tripped}
use heave.Firewall.Enter.Keys.{run_key-injective}
use heave.Firewall.Tickets.{release}
use heave.Firewall.Tickets.Undo.{enter_locked-release}

abbrev limits : Limits
limits = record {
  max_usd_per_min = pos 10;
  max_tokens_per_min = pos 0;
  max_concurrent = pos 2;
  loop_threshold = pos 2;
  max_usd_per_run = pos 9;
  kill_ttl = pos 50;
}

abbrev chain : List Scope
chain =
    record { name = bytes "team"; key = bytes "team:a"; limits = limits }
    ∷ record { name = bytes "run"; key = bytes "run:r"; limits = limits }
    ∷ []

abbrev run : Bytes
run = bytes "run:r"

abbrev prompt : Bytes
prompt = bytes "p"

abbrev at : ℕ
at = 5 * second

abbrev fresh : Firewall ℕ
fresh = new true limits 0

-- After one call of 4 nano-dollars and 7 tokens.
abbrev busy : Firewall ℕ
busy = (enter_locked fresh chain run prompt (pos 9) 4 7 at).0

busy-Inv : Inv busy
busy-Inv = enter_locked-Inv fresh chain run prompt (pos 9) 4 7 at (new-Inv true limits 0)

-- A second call with another prompt fits: 9 nano-dollars of 10 in the window, 9 of 9 in the run.
second_call : was_admitted (enter_locked busy chain run (bytes "q") (pos 9) 5 1 at).1 ≡ true
unfolding enter_locked new Local.check_loop_budget gc_locked Local.trip_loop lookup keep str_eq
    map_values check_reserve_scopes Local.check_velocities to_scope_keys Local.check_velocity insert
    sum advance new_window Local.check_inflights Local.reserve_scopes local_ticket
    reserve_or_roll_back Kills.gc Kills.new_store Local.ensure_scope Local.hist_len Local.is_idle
    Local.occurrences Local.put_scope Local.reserve_scope Local.sweep_scopes Local.trim
    Local.unreserve_budget add bump clear_all clear_slots expire total
second_call = refl

-- A third prompt would break the window's cap.
third_call : was_admitted (enter_locked busy chain run (bytes "q") (pos 20) 7 1 at).1 ≡ false
unfolding enter_locked new Local.check_loop_budget gc_locked Local.trip_loop lookup keep str_eq
    map_values check_reserve_scopes Local.check_velocities to_scope_keys Local.check_velocity insert
    sum advance new_window Local.check_inflights Local.reserve_scopes local_ticket
    reserve_or_roll_back Kills.gc Kills.new_store Local.ensure_scope Local.hist_len Local.is_idle
    Local.occurrences Local.put_scope Local.reserve_scope Local.sweep_scopes Local.trim
    Local.unreserve_budget add bump clear_all clear_slots expire total
third_call = refl

-- The same prompt a second time is a loop.
same_prompt : (enter_locked busy chain run prompt (pos 9) 4 7 at).1 ≡ tripped
unfolding enter_locked new Local.check_loop_budget gc_locked Local.trip_loop lookup keep str_eq
    map_values check_reserve_scopes Local.check_velocities to_scope_keys Local.check_velocity insert
    sum advance new_window Local.check_inflights Local.reserve_scopes local_ticket
    reserve_or_roll_back Kills.gc Kills.new_store Local.ensure_scope Local.hist_len Local.is_idle
    Local.occurrences Local.put_scope Local.reserve_scope Local.sweep_scopes Local.trim
    Local.unreserve_budget add bump clear_all clear_slots expire total
same_prompt = refl

load-enter_locked_example :
    load (enter_locked busy chain run (bytes "q") (pos 9) 5 1 at).0 at run ≡ (
      if was_admitted (enter_locked busy chain run (bytes "q") (pos 9) 5 1 at).1
      then charged (load busy at run) (uses (to_scope_keys chain) run) 5 1
      else load busy at run)
load-enter_locked_example = load-enter_locked busy chain run (bytes "q") (pos 9) 5 1 at run busy-Inv

enter_locked-Fits_example :
    All (λ sk. Fits sk.limits (load busy at sk.map_key) 5 1) (to_scope_keys chain)
enter_locked-Fits_example =
    enter_locked-Fits busy chain run (bytes "q") (pos 9) 5 1 at busy-Inv second_call

spent-enter_locked_example :
    let (g, outcome) = enter_locked busy chain run (bytes "q") (pos 9) 5 1 at in
    let before = spent (gc_locked busy at) run in
    (spent g run ≡ (if was_admitted outcome then before + 5 else before))
    × ((was_admitted outcome ≡ false) ⊎ (spent g run ≤ 9))
spent-enter_locked_example = spent-enter_locked busy chain run (bytes "q") (pos 9) 5 1 at refl refl

check_reserve_scopes-refusal_example :
    (check_reserve_scopes busy (to_scope_keys chain) 5 1 at).1
    ≡ refusal busy at (to_scope_keys chain) 5 1
check_reserve_scopes-refusal_example =
    check_reserve_scopes-refusal busy (to_scope_keys chain) 5 1 at

-- The ticket of the second call.
second_ticket :
    (enter_locked busy chain run (bytes "q") (pos 9) 5 1 at).1
    ≡ admitted (local_ticket (bytes "team:a" ∷ run ∷ []) run 5 1)
unfolding enter_locked new Local.check_loop_budget gc_locked Local.trip_loop lookup keep str_eq
    map_values check_reserve_scopes Local.check_velocities to_scope_keys Local.check_velocity insert
    sum advance new_window Local.check_inflights Local.reserve_scopes local_ticket
    reserve_or_roll_back Kills.gc Kills.new_store Local.ensure_scope Local.hist_len Local.is_idle
    Local.occurrences Local.put_scope Local.reserve_scope Local.sweep_scopes Local.trim
    Local.unreserve_budget add bump clear_all clear_slots expire total
second_ticket = refl

enter_locked-release_example :
    load
      (release
        (enter_locked busy chain run (bytes "q") (pos 9) 5 1 at).0
        (local_ticket (bytes "team:a" ∷ run ∷ []) run 5 1)
        at).0
      at
      run
    ≡ load busy at run
enter_locked-release_example =
    enter_locked-release busy chain run (bytes "q") (pos 9) 5 1 at
      (local_ticket (bytes "team:a" ∷ run ∷ []) run 5 1) run busy-Inv second_ticket

-- An estimate of 50 against a cap of 10 a minute, on an unused firewall.
fresh-check_reserve_scopes_example :
    ((check_reserve_scopes fresh (to_scope_keys chain) 50 1 at).1 ≡ none)
    × (load (check_reserve_scopes fresh (to_scope_keys chain) 50 1 at).0 at run
        ≡ charged (load fresh at run) (uses (to_scope_keys chain) run) 50 1)
unfolding new lookup to_scope_keys
fresh-check_reserve_scopes_example =
    fresh-check_reserve_scopes fresh (to_scope_keys chain) 50 1 at run (new-Inv true limits 0)
      (refl, (refl, tt))

fresh_kills : (Kills.kill fresh.local_kills run at).1 ≡ none
unfolding new Kills.kill Kills.new_store Kills.gc lookup keep
fresh_kills = refl

within_ttl : at + 20 ≤ at + fresh.local_kills.ttl
unfolding new Kills.new_store
within_ttl = omega arith

kill_run-enter_core_example :
    let g = (kill_run fresh run at).0 in
    ((enter_core g chain run prompt (pos 9) (pos 4) (pos 7) (bytes "h") (at + 20)).1 ≡ err killed)
    × ((enter_core g chain run prompt (pos 9) (pos 4) (pos 7) (bytes "h") (at + 20)).0.scopes
        ≡ g.scopes)
kill_run-enter_core_example =
    kill_run-enter_core fresh chain run prompt (pos 9) (pos 4) (pos 7) (bytes "h") at (at + 20) refl
      fresh_kills within_ttl

busy_alone : busy.scope_store ≡ none
unfolding enter_locked new Local.check_loop_budget gc_locked Local.trip_loop lookup keep str_eq
    map_values check_reserve_scopes Local.check_velocities to_scope_keys Local.check_velocity insert
    sum advance new_window Local.check_inflights Local.reserve_scopes local_ticket
    reserve_or_roll_back Kills.gc Kills.new_store Local.ensure_scope Local.hist_len Local.is_idle
    Local.occurrences Local.put_scope Local.reserve_scope Local.sweep_scopes Local.trim
    Local.unreserve_budget add bump clear_all clear_slots expire total
busy_alone = refl

enter_live-tripped_example :
    ((enter_live busy chain run prompt (pos 9) 4 7 (bytes "h") at).1 ≡ err killed)
    × ((is_some
            (Kills.kill (enter_locked busy chain run prompt (pos 9) 4 7 at).0.local_kills run at).1
          ≡ true)
        ⊎ (at + (enter_locked busy chain run prompt (pos 9) 4 7 at).0.local_kills.ttl < at + 20)
        ⊎ ((is_killed
              (enter_live busy chain run prompt (pos 9) 4 7 (bytes "h") at).0
              run
              (at + 20)).1
            ≡ true))
enter_live-tripped_example =
    enter_live-tripped busy chain run prompt (pos 9) 4 7 (bytes "h") at (at + 20) busy_alone refl
      same_prompt

run_key-injective_example : (bytes "a:b" ≡ bytes "a:b") × (bytes "r" ≡ bytes "r")
run_key-injective_example =
    run_key-injective (bytes "a:b") (bytes "a:b") (bytes "r") (bytes "r")
      (λ e. absurd (ground arith)) (λ e. absurd (ground arith)) refl
