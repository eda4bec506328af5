-- ===== src/Firewall/Enter/Dead.antt =====
-- Kills at the gate of internal/firewall/firewall.go.
use heave.Prelude.{
  ℕ, ◌+◌, ◌≤◌, ◌<◌, ◌≡◌, refl, ◌∙◌, ◌⊎◌, inl, inr, ltb, Bool-cases, Option-cases, true, false, none,
  List, ℤ, arith, Bytes,
}
use heave.Firewall.Errors.{killed}
use heave.Firewall.Kills
use heave.Firewall.Kills.{is_some}
use heave.Firewall.Kills.Laws.{is_killed-holds, kill-entry}
use heave.Firewall.State.{Scope, Firewall, err}
use heave.Firewall.Local.{is_empty}
use heave.Firewall.Enter.{
  tripped, is_killed, kill_shared, do_kill, kill_run, enter_core, enter_live, enter_locked,
  settle_admission,
}

module _ {ℓ} {S : Type ℓ} where
  kill_shared-local_kills :
      (f : Firewall S) (run : Bytes) → (kill_shared f run).0.local_kills ≡ f.local_kills
  unfolding kill_shared
  kill_shared-local_kills f run = ground arith

  -- A kill that the local store takes is on record, whatever the shared store answers.
  do_kill-local_kills :
      (f : Firewall S) (run : Bytes) (now : ℕ)
      → (Kills.kill f.local_kills run now).1 ≡ none
      → (do_kill f run now).0.local_kills ≡ (Kills.kill f.local_kills run now).0
  unfolding do_kill
  do_kill-local_kills f run now h =
      rw (h, do_kill)
        (kill_shared-local_kills (record f { local_kills = (Kills.kill f.local_kills run now).0 })
          run)

  is_killed-local :
      (f : Firewall S) (run : Bytes) (now : ℕ)
      → is_empty run ≡ false
      → (Kills.is_killed f.local_kills run now).1 ≡ true
      → (is_killed f run now).1 ≡ true
  unfolding is_killed
  is_killed-local f run now named h = ground arith

  do_kill-is_killed :
      (f : Firewall S) (run : Bytes) (at now : ℕ)
      → is_empty run ≡ false
      → (Kills.kill f.local_kills run at).1 ≡ none
      → now ≤ at + f.local_kills.ttl
      → (is_killed (do_kill f run at).0 run now).1 ≡ true
  do_kill-is_killed f run at now named taken h =
      let (marked, same) = kill-entry f.local_kills run at taken in
      is_killed-local (do_kill f run at).0 run now named (
        rw (do_kill-local_kills f run at taken) (
          is_killed-holds (Kills.kill f.local_kills run at).0 run now
          ∙ rw marked (ground (arith, same))))

  enter_core-killed :
      (f : Firewall S) (scopes : List Scope) (run prompt : Bytes) (max eu et : ℤ) (hold : Bytes)
      (now : ℕ)
      → (is_killed f run now).1 ≡ true
      → ((enter_core f scopes run prompt max eu et hold now).1 ≡ err killed)
        × ((enter_core f scopes run prompt max eu et hold now).0.scopes ≡ f.scopes)
  unfolding enter_core is_killed
  enter_core-killed f scopes run prompt max eu et hold now h = (ground arith, ground arith)

  -- Once KillRun has put a run on the local record, a gate call for the run within the ttl is
  -- refused as killed and changes no scope, whatever its chain and estimate and whatever the shared
  -- kill store answers.
  pub kill_run-enter_core :
      (f : Firewall S) (scopes : List Scope) (run prompt : Bytes) (max eu et : ℤ) (hold : Bytes)
      (at now : ℕ)
      → is_empty run ≡ false
      → (Kills.kill f.local_kills run at).1 ≡ none
      → now ≤ at + f.local_kills.ttl
      → let g = (kill_run f run at).0 in
        ((enter_core g scopes run prompt max eu et hold now).1 ≡ err killed)
        × ((enter_core g scopes run prompt max eu et hold now).0.scopes ≡ g.scopes)
  unfolding kill_run
  kill_run-enter_core f scopes run prompt max eu et hold at now named taken h = rw named (
      enter_core-killed (do_kill f run at).0 scopes run prompt max eu et hold now
        (do_kill-is_killed f run at now named taken h))

  enter_live-trip :
      (f : Firewall S) (scopes : List Scope) (run prompt : Bytes) (max : ℤ) (u t : ℕ) (hold : Bytes)
      (now : ℕ)
      → f.scope_store ≡ none
      → (enter_locked f scopes run prompt max u t now).1 ≡ tripped
      → enter_live f scopes run prompt max u t hold now
        ≡ ((do_kill (enter_locked f scopes run prompt max u t now).0 run now).0, err killed)
  unfolding enter_live settle_admission
  enter_live-trip f scopes run prompt max u t hold now alone trips =
      rw (alone, enter_live) (ground arith)

  -- Without a shared scope store, a request with a run that trips the loop or budget check answers
  -- killed, whether or not the local kill store takes the kill; unless that store refuses the kill,
  -- the run is killed for every check within the ttl.
  pub enter_live-tripped :
      (f : Firewall S) (scopes : List Scope) (run prompt : Bytes) (max : ℤ) (u t : ℕ) (hold : Bytes)
      (now later : ℕ)
      → f.scope_store ≡ none
      → is_empty run ≡ false
      → (enter_locked f scopes run prompt max u t now).1 ≡ tripped
      → let kills = (enter_locked f scopes run prompt max u t now).0.local_kills in
        let out = enter_live f scopes run prompt max u t hold now in
        (out.1 ≡ err killed)
        × ((is_some (Kills.kill kills run now).1 ≡ true)
            ⊎ (now + kills.ttl < later)
            ⊎ ((is_killed out.0 run later).1 ≡ true))
  enter_live-tripped f scopes run prompt max u t hold now later alone named trips =
      let g = (enter_locked f scopes run prompt max u t now).0 in
      let outcome = enter_live-trip f scopes run prompt max u t hold now alone trips in
      rw outcome (
        refl,
        elim (Option-cases (Kills.kill g.local_kills run now).1) [
          | inr (e, full) ↦ inl (rw full refl)
          | inl taken ↦ elim (Bool-cases (ltb (now + g.local_kills.ttl) later)) [
            | inl expired ↦ inr (inl (ground arith))
            | inr live ↦ inr (inr (do_kill-is_killed g run now later named taken (ground arith)))
          ]
        ],
      )
