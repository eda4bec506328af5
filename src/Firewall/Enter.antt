-- ===== src/Firewall/Enter.antt =====
-- The gates of internal/firewall/firewall.go: kills, Enter and EnterChain, in local mode and with a
-- shared scope store. A call reads the clock once; a hold id is an argument, drawn at random there.
pub mod Gate
pub mod Admit
pub mod Dead
pub mod Keys
use Prim.Native.Nat.{digits}
use heave.Prelude.{
  ℕ, zero, suc, ◌+◌, ◌*◌, ◌-◌, ◌/◌, ◌%◌, Bool, true, false, not, ◌&&◌, ◌||◌, Option, none, some,
  List, [], ◌∷◌, ◌++◌, map, ℤ, pos, pos_part, ltb, if◌then◌else◌, length, Bytes, bytes, str_eq,
}
use heave.Firewall.Errors.{Error, killed, bad_chain, velocity, concurrency}
use heave.Firewall.Kills
use heave.Firewall.Kills.{is_some}
use heave.Firewall.State.{
  Limits, Scope, ScopeKey, Firewall, KillStore, ScopeStore, Verdict, Caps, Ticket, Stats, Result,
  ok, err, window_seconds, max_scope_key_len, positive,
}
use heave.Firewall.Local.{
  is_empty, to_scope_keys, gc_locked, check_loop_budget, check_reserve_scopes, unreserve_budget,
}

-- The decimal digits of n, most significant first, on fuel n.
unfoldable pub decimal : ℕ → ℕ → Bytes
decimal zero n = (n % 10 + 48) ∷ []
decimal (suc fuel) n =
    let rest = decimal fuel (n / 10) in
    if ltb n 10 then (n + 48) ∷ [] else rest ++ ((n % 10 + 48) ∷ [])

-- strconv.Itoa of a length.
unfoldable pub itoa : ℕ → Bytes
unfolding decimal
itoa n = decimal n n

unfoldable pub run_key : Bytes → Bytes → Bytes
unfolding itoa
run_key owner run_id =
    if is_empty run_id
    then []
    else bytes "run:" ++ (itoa (length owner) ++ (b':' ∷ (owner ++ (0 ∷ run_id))))

-- A chain that fails the checks of EnterChain is `none`; else the run scope's key and its own cap.
unfoldable pub scan_chain : List Scope → ℕ → Bytes → ℤ → Option (ℕ × Bytes × ℤ)
scan_chain [] n key max = some (n, key, max)
scan_chain (sc ∷ scopes) n key max =
    let here = str_eq sc.name (bytes "run") in
    let rest =
      scan_chain scopes (if here then suc n else n) (if here then sc.key else key)
        (if here then sc.limits.max_usd_per_run else max) in
    if is_empty sc.key || ltb max_scope_key_len (length sc.key) then none else rest

-- `MaxUSDPerMin <= 0 && MaxTokensPerMin <= 0 && MaxConcurrent <= 0` is skipped.
unfoldable pub capped : List Scope → List Scope
capped [] = []
capped (sc ∷ scopes) =
    let rest = capped scopes in
    if not (positive sc.limits.max_usd_per_min)
      && not (positive sc.limits.max_tokens_per_min)
      && not (positive sc.limits.max_concurrent)
    then rest
    else sc ∷ rest

unfoldable pub shared_caps : List Scope → Caps
unfolding capped
shared_caps scopes =
    let kept = capped scopes in
    record {
      keys = map (λ sc. sc.key) kept;
      names = map (λ sc. sc.name) kept;
      max_usd = map (λ sc. sc.limits.max_usd_per_min) kept;
      max_tokens = map (λ sc. sc.limits.max_tokens_per_min) kept;
      max_inflight = map (λ sc. sc.limits.max_concurrent) kept;
    }

-- The two built-in scopes of Enter.
unfoldable pub built_in_scopes : Limits → Bytes → Bytes → List Scope
built_in_scopes limits key run =
    (if is_empty key
      then []
      else record { name = bytes "key"; key = bytes "key:" ++ key; limits = limits } ∷ [])
    ++ (if is_empty run then [] else record { name = bytes "run"; key = run; limits = limits } ∷ [])

-- What runs under the lock: a ticket, a trip (the caller then kills the run), or an error.
pub data Admission {ℓ} (A : Type ℓ) : Type ℓ where
  admitted : A → Admission A
  tripped : Admission A
  denied : Error → Admission A

module _ {ℓ} {S : Type ℓ} where
  -- The shared store is asked only if the local one does not know the kill.
  unfoldable pub is_killed : Firewall S → Bytes → ℕ → Firewall S × Bool
  is_killed f run now =
      if is_empty run
      then (f, false)
      else (let (kills, hit) = Kills.is_killed f.local_kills run now in
          let g : Firewall S = record f { local_kills = kills } in
          if hit then (g, true) else (elim f.shared_kills [
            | none ↦ (g, false)
            | some ks ↦ let (w, found) = ks.is_killed run f.world in (record g { world = w }, found)
          ]))

  kill_shared : Firewall S → Bytes → Firewall S × Option Error
  kill_shared f run = elim f.shared_kills [
    | none ↦ (f, none)
    | some ks ↦
        let (w, failed) = ks.kill run f.world in
        let g : Firewall S = record f { world = w } in
        elim failed [
          | none ↦ (g, none)
          | some e ↦ (record g { shared_kill_errs = suc f.shared_kill_errs }, some e)
        ]
  ]

  unfoldable pub do_kill : Firewall S → Bytes → ℕ → Firewall S × Option Error
  unfolding kill_shared
  do_kill f run now =
      let (kills, failed) = Kills.kill f.local_kills run now in
      let g : Firewall S = record f { local_kills = kills } in
      elim failed [ some e ↦ (g, some e) | none ↦ kill_shared g run ]

  unfoldable pub kill_run : Firewall S → Bytes → ℕ → Firewall S × Option Error
  kill_run f run now = if is_empty run then (f, none) else do_kill f run now

  unfoldable pub kill : Firewall S → Bytes → Bytes → ℕ → Firewall S × Option Error
  unfolding kill_run run_key
  kill f owner run_id now =
      if is_empty run_id then (f, none) else kill_run f (run_key owner run_id) now

  unfoldable pub killed_by : Firewall S → Bytes → Bytes → ℕ → Firewall S × Bool
  unfolding is_killed run_key
  killed_by f owner run_id now =
      if is_empty run_id then (f, false) else is_killed f (run_key owner run_id) now

  unfoldable pub stats : Firewall S → Stats
  stats f =
      let (size, rejects) = Kills.stats f.local_kills in
      record {
        local_kills = size;
        kill_rejections = rejects;
        shared_kill_errors = f.shared_kill_errs;
        scope_degraded = f.scope_degraded;
      }

  unfoldable pub inert_ticket : Ticket S
  inert_ticket = record {
    bound = false;
    scope_keys = [];
    run_scope_key = [];
    store = none;
    store_keys = [];
    hold_id = [];
    est_usd = 0;
    est_tokens = 0;
    released = false;
    settled = false;
  }

  unfoldable pub local_ticket : List Bytes → Bytes → ℕ → ℕ → Ticket S
  local_ticket keys budget_key est_usd est_tokens = record {
    bound = true;
    scope_keys = keys;
    run_scope_key = budget_key;
    store = none;
    store_keys = [];
    hold_id = [];
    est_usd = est_usd;
    est_tokens = est_tokens;
    released = false;
    settled = false;
  }

  -- The check and reserve of the scopes, with the budget rolled back on a refusal.
  unfoldable pub reserve_or_roll_back :
      Firewall S → List Scope → Bytes → ℕ → ℕ → ℕ → Firewall S × Admission (Ticket S)
  unfolding local_ticket
  reserve_or_roll_back f scopes budget_key est_usd est_tokens now =
      let keys = to_scope_keys scopes in
      let (g, refused) = check_reserve_scopes f keys est_usd est_tokens now in
      elim refused [
        | some e ↦ (unreserve_budget g budget_key est_usd, denied e)
        | none ↦
            (g, admitted (local_ticket (map (λ sk. sk.map_key) keys) budget_key est_usd est_tokens))
      ]

  unfoldable pub enter_locked :
      Firewall S → List Scope → Bytes → Bytes → ℤ → ℕ → ℕ → ℕ → Firewall S × Admission (Ticket S)
  unfolding reserve_or_roll_back
  enter_locked f scopes run prompt max est_usd est_tokens now =
      let (g, trips, budget_key) = check_loop_budget (gc_locked f now) run prompt est_usd max now in
      if trips
      then (g, tripped)
      else reserve_or_roll_back g scopes budget_key est_usd est_tokens now

  -- The auto-kill swallows the error of the kill.
  unfoldable pub settle_admission :
      Firewall S × Admission (Ticket S) → Bytes → ℕ → Firewall S × Result (Ticket S)
  settle_admission (f, admitted tk) run now = (f, ok tk)
  settle_admission (f, tripped) run now = ((do_kill f run now).0, err killed)
  settle_admission (f, denied e) run now = (f, err e)

  -- The store denied or admitted a chain with caps.
  unfoldable pub shared_verdict :
      Firewall S
      → ScopeStore S
      → List Scope
      → Caps
      → Bytes
      → ℕ
      → ℕ
      → Bytes
      → ℕ
      → Verdict
      → Firewall S × Admission (Ticket S)
  unfolding reserve_or_roll_back
  shared_verdict f store scopes caps budget_key est_usd est_tokens hold now v =
      if v.failed
      then reserve_or_roll_back (record f { scope_degraded = suc f.scope_degraded }) scopes
          budget_key est_usd est_tokens now
      else (if v.admitted
          then (
            f,
            admitted (record {
              bound = true;
              scope_keys = [];
              run_scope_key = budget_key;
              store = some store;
              store_keys = caps.keys;
              hold_id = hold;
              est_usd = est_usd;
              est_tokens = est_tokens;
              released = false;
              settled = false;
            }),
          )
          else (
            unreserve_budget f budget_key est_usd,
            denied (
                if str_eq v.denied_kind (bytes "concurrency")
                then concurrency v.denied_name
                else velocity v.denied_name window_seconds),
          ))

  unfoldable pub reserve_shared :
      Firewall S
      → ScopeStore S
      → List Scope
      → Bytes
      → ℕ
      → ℕ
      → Bytes
      → ℕ
      → Firewall S × Admission (Ticket S)
  unfolding shared_verdict local_ticket
  reserve_shared f store scopes budget_key est_usd est_tokens hold now =
      let caps = shared_caps scopes in
      elim caps.keys [
        | [] ↦ (f, admitted (local_ticket [] budget_key est_usd est_tokens))
        | k ∷ rest ↦
            let (w, verdict) = store.reserve caps est_usd est_tokens hold f.world in
            shared_verdict (record f { world = w }) store scopes caps budget_key est_usd est_tokens
              hold now verdict
      ]

  unfoldable pub enter_shared :
      Firewall S
      → ScopeStore S
      → List Scope
      → Bytes
      → Bytes
      → ℤ
      → ℕ
      → ℕ
      → Bytes
      → ℕ
      → Firewall S × Result (Ticket S)
  unfolding reserve_shared settle_admission
  enter_shared f store scopes run prompt max est_usd est_tokens hold now =
      let (g, trips, budget_key) = check_loop_budget (gc_locked f now) run prompt est_usd max now in
      settle_admission
        (if trips
          then (g, tripped)
          else reserve_shared g store scopes budget_key est_usd est_tokens hold now)
        run now

  -- The rest of the gate, for a run that is not killed.
  unfoldable pub enter_live :
      Firewall S
      → List Scope
      → Bytes
      → Bytes
      → ℤ
      → ℕ
      → ℕ
      → Bytes
      → ℕ
      → Firewall S × Result (Ticket S)
  unfolding enter_shared enter_locked settle_admission
  enter_live f scopes run prompt max est_usd est_tokens hold now = elim f.scope_store [
    | some store ↦ enter_shared f store scopes run prompt max est_usd est_tokens hold now
    | none ↦ settle_admission (enter_locked f scopes run prompt max est_usd est_tokens now) run now
  ]

  -- Negative estimates count as 0.
  unfoldable pub enter_core :
      Firewall S
      → List Scope
      → Bytes
      → Bytes
      → ℤ
      → ℤ
      → ℤ
      → Bytes
      → ℕ
      → Firewall S × Result (Ticket S)
  unfolding enter_live is_killed
  enter_core f scopes run prompt max est_usd est_tokens hold now =
      let (g, dead) = is_killed f run now in
      if dead
      then (g, err killed)
      else enter_live g scopes run prompt max (pos_part est_usd) (pos_part est_tokens) hold now

  unfoldable pub enter_chain :
      Firewall S → List Scope → Bytes → ℤ → ℤ → Bytes → ℕ → Firewall S × Result (Ticket S)
  unfolding enter_core scan_chain inert_ticket
  enter_chain f scopes prompt est_usd est_tokens hold now =
      if f.enabled
      then (elim (scan_chain scopes 0 [] (pos 0)) [
        | none ↦ (f, err bad_chain)
        | some (n, run, max) ↦
            if ltb 1 n
            then (f, err bad_chain)
            else enter_core f scopes run prompt max est_usd est_tokens hold now
      ])
      else (f, ok inert_ticket)

  unfoldable pub enter :
      Firewall S → Bytes → Bytes → Bytes → ℤ → ℤ → Bytes → ℕ → Firewall S × Result (Ticket S)
  unfolding enter_core built_in_scopes run_key inert_ticket
  enter f key run_id prompt est_usd est_tokens hold now =
      if f.enabled
      then (let run = run_key key run_id in
          enter_core f (built_in_scopes f.limits key run) run prompt f.limits.max_usd_per_run
            est_usd est_tokens hold now)
      else (f, ok inert_ticket)
