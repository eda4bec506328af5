-- ===== src/Firewall/Local.antt =====
-- What runs under the firewall's lock in internal/firewall/firewall.go: the sweep, loop detection,
-- the per-run budget, and the check and reserve of the scopes. Each call reads the clock once.
pub mod View
pub mod Reserve
pub mod Budget
pub mod Spent
use heave.Prelude.{
  ℕ, zero, suc, ◌+◌, ◌*◌, ◌-◌, Bool, true, false, not, ◌&&◌, ◌||◌, Option, none, some, List, [],
  ◌∷◌, ◌++◌, map, ℤ, pos, pos_part, ltb, leb, ◌==◌, if◌then◌else◌, length, drop, Bytes, Dict,
  lookup, insert, keep, map_values, str_eq,
}
use heave.Firewall.Errors.{Error, velocity, concurrency}
use heave.Firewall.Window
use heave.Firewall.Window.{Window, new_window, advance}
use heave.Firewall.Kills
use heave.Firewall.State.{
  Limits, Scope, ScopeKey, ScopeState, LoopState, Firewall, window_seconds, max_scopes, gc_interval,
  idle_evict_ttl, unix, positive, over, reaches,
}

abbrev pub is_empty : Bytes → Bool
is_empty [] = true
is_empty (b ∷ s) = false

-- `f.scopes[k]`, or the state that the source puts there.
abbrev pub state_or_new : Option ScopeState → ScopeState
state_or_new none = record {
  window = new_window window_seconds;
  inflight = 0;
  last_touch = 0;
  run_usd = 0;
}
state_or_new (some st) = st

unfoldable pub to_scope_keys : List Scope → List ScopeKey
to_scope_keys = map (λ sc. record { name = sc.name; map_key = sc.key; limits = sc.limits })

-- The sweep reads each window, which moves it.
abbrev pub move_window : ℕ → ScopeState → ScopeState
move_window now st = record st { window = advance st.window (unix now) }

unfoldable pub is_idle : ℕ → ScopeState → Bool
is_idle now st =
    st.inflight == 0
    && Window.total st.window.usd == 0
    && Window.total st.window.toks == 0
    && ltb idle_evict_ttl (now - st.last_touch)

-- A zero `lastGC` is further back than any interval.
abbrev pub gc_recent : Option ℕ → ℕ → Bool
gc_recent none now = false
gc_recent (some t) now = ltb (now - t) gc_interval

unfoldable pub sweep_scopes : ℕ → Dict ScopeState → Dict ScopeState
sweep_scopes now scopes = keep (λ st. not (is_idle now st)) (map_values (move_window now) scopes)

-- Trim to the last `hist_len` prompts.
unfoldable pub hist_len : ℤ → ℕ
hist_len threshold = let n = pos_part threshold * 2 in if ltb n 8 then 8 else n

unfoldable pub trim : ℕ → List Bytes → List Bytes
trim n recent = if ltb n (length recent) then drop (length recent - n) recent else recent

unfoldable pub occurrences : Bytes → List Bytes → ℕ
occurrences h [] = 0
occurrences h (x ∷ xs) = let n = occurrences h xs in if str_eq x h then suc n else n

abbrev pub loop_or_new : Option LoopState → LoopState
loop_or_new none = record { recent = []; last_touch = 0 }
loop_or_new (some ls) = ls

module _ {ℓ} {S : Type ℓ} where
  unfoldable pub gc_locked : Firewall S → ℕ → Firewall S
  unfolding sweep_scopes
  gc_locked f now =
      if ltb (length f.scopes) max_scopes && gc_recent f.last_gc now then f else record f {
        last_gc = some now;
        scopes = sweep_scopes now f.scopes;
        loops = keep (λ ls. not (ltb idle_evict_ttl (now - ls.last_touch))) f.loops;
        local_kills = Kills.gc f.local_kills now;
      }

  unfoldable pub put_scope : Firewall S → Bytes → ScopeState → Firewall S
  put_scope f k st = record f { scopes = insert k st f.scopes }

  unfoldable pub ensure_scope : Firewall S → Bytes → ℕ → ScopeState
  ensure_scope f k now = record (state_or_new (lookup k f.scopes)) { last_touch = now }

  unfoldable pub trip_loop : Firewall S → Bytes → Bytes → ℕ → Firewall S × Bool
  unfolding hist_len trim occurrences
  trip_loop f run prompt now =
      let threshold = f.limits.loop_threshold in
      let recent =
        trim (hist_len threshold) ((loop_or_new (lookup run f.loops)).recent ++ (prompt ∷ [])) in
      (
        record f { loops = insert run (record { recent = recent; last_touch = now }) f.loops },
        reaches (occurrences prompt recent) threshold,
      )

  loop_check : Firewall S → Bytes → Bytes → ℕ → Firewall S × Bool
  loop_check f run prompt now =
      if not (is_empty run) && positive f.limits.loop_threshold && not (is_empty prompt)
      then trip_loop f run prompt now
      else (f, false)

  -- `trips`, or the key under which the estimate is now reserved ("" for none).
  reserve_budget : Firewall S → Bytes → ℕ → ℤ → ℕ → Firewall S × Bool × Bytes
  unfolding put_scope ensure_scope
  reserve_budget f run est max now =
      if not (is_empty run) && positive max
      then (if over ((state_or_new (lookup run f.scopes)).run_usd + est) max
          then (f, true, [])
          else (
            let st = ensure_scope f run now in
                put_scope f run (record st { run_usd = st.run_usd + est }),
            false,
            run,
          ))
      else (f, false, [])

  unfoldable pub check_loop_budget :
      Firewall S → Bytes → Bytes → ℕ → ℤ → ℕ → Firewall S × Bool × Bytes
  unfolding loop_check reserve_budget
  check_loop_budget f run prompt est max now =
      let (g, tripped) = loop_check f run prompt now in
      if tripped then (g, true, []) else reserve_budget g run est max now

  -- A scope that is not tracked yet passes whatever its caps: the source returns nil there.
  check_tracked : Firewall S → ScopeKey → ScopeState → ℕ → ℕ → ℕ → Firewall S × Option Error
  check_tracked f sk st est_usd est_tokens now =
      let (w, usd, toks) = Window.sum st.window (unix now) in
      (
        put_scope f sk.map_key (record st { window = w }),
        if positive sk.limits.max_usd_per_min && over (usd + est_usd) sk.limits.max_usd_per_min
              || positive sk.limits.max_tokens_per_min
                && over (toks + est_tokens) sk.limits.max_tokens_per_min
            then some (velocity sk.name window_seconds)
            else none,
      )

  unfoldable pub check_velocity : Firewall S → ScopeKey → ℕ → ℕ → ℕ → Firewall S × Option Error
  unfolding check_tracked put_scope
  check_velocity f sk est_usd est_tokens now =
      if positive sk.limits.max_usd_per_min || positive sk.limits.max_tokens_per_min
      then (elim (lookup sk.map_key f.scopes) [
        | none ↦ (f, none)
        | some st ↦ check_tracked f sk st est_usd est_tokens now
      ])
      else (f, none)

  unfoldable pub check_velocities :
      Firewall S → List ScopeKey → ℕ → ℕ → ℕ → Firewall S × Option Error
  check_velocities f [] est_usd est_tokens now = (f, none)
  check_velocities f (sk ∷ keys) est_usd est_tokens now =
      let (g, failed) = check_velocity f sk est_usd est_tokens now in
      elim failed [ none ↦ check_velocities g keys est_usd est_tokens now | some e ↦ (g, some e) ]

  unfoldable pub check_inflights : Firewall S → List ScopeKey → Option Error
  check_inflights f [] = none
  check_inflights f (sk ∷ keys) =
      let rest = check_inflights f keys in
      if positive sk.limits.max_concurrent
        && reaches (state_or_new (lookup sk.map_key f.scopes)).inflight sk.limits.max_concurrent
      then some (concurrency sk.name)
      else rest

  unfoldable pub reserve_scope : Firewall S → Bytes → ℕ → ℕ → ℕ → Firewall S
  unfolding put_scope ensure_scope
  reserve_scope f k est_usd est_tokens now =
      let st = ensure_scope f k now in
      put_scope f k (record st {
        window = Window.add st.window (unix now) (pos est_usd) (pos est_tokens);
        inflight = suc st.inflight;
      })

  unfoldable pub reserve_scopes : Firewall S → List ScopeKey → ℕ → ℕ → ℕ → Firewall S
  reserve_scopes f [] est_usd est_tokens now = f
  reserve_scopes f (sk ∷ keys) est_usd est_tokens now =
      reserve_scopes (reserve_scope f sk.map_key est_usd est_tokens now) keys est_usd est_tokens now

  -- All checks, then all reserves. The reserved keys are those of the chain, in order.
  unfoldable pub check_reserve_scopes :
      Firewall S → List ScopeKey → ℕ → ℕ → ℕ → Firewall S × Option Error
  check_reserve_scopes f keys est_usd est_tokens now =
      let (g, slow) = check_velocities f keys est_usd est_tokens now in
      elim slow [
        | some e ↦ (g, some e)
        | none ↦ elim (check_inflights g keys) [
          | some e ↦ (g, some e)
          | none ↦ (reserve_scopes g keys est_usd est_tokens now, none)
        ]
      ]

  unfoldable pub unreserve_budget : Firewall S → Bytes → ℕ → Firewall S
  unfolding put_scope
  unreserve_budget f key est = if is_empty key then f else (elim (lookup key f.scopes) [
    | none ↦ f
    | some st ↦ put_scope f key (record st { run_usd = st.run_usd - est })
  ])
