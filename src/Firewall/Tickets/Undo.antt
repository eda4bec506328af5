-- ===== src/Firewall/Tickets/Undo.antt =====
-- Enter, then Release of a call that never billed, within one second.
use mathlib.Core.Path.{subst}
use heave.Prelude.{
  ℕ, ◌≡◌, sym, Bool, true, if◌then◌else◌, ◌∙◌, inl, inr, false, not, ◌||◌, [], refl, none, some,
  Option, List, map, ℤ, arith, Bool-cases, Option-cases, Bytes,
}
use heave.Firewall.Errors.{Error}
use heave.Firewall.State.{ScopeStore, Scope, ScopeKey, Firewall, Ticket}
use heave.Firewall.Local.{
  to_scope_keys, check_velocities, reserve_scopes, check_reserve_scopes, gc_locked,
  check_loop_budget, unreserve_budget,
}
use heave.Firewall.Local.View.{Load, load, Inv}
use heave.Firewall.Local.Reserve.{refusal, check_reserve_scopes-refusal, check_reserve_scopes-state}
use heave.Firewall.Local.Budget.{unreserve_budget-SameLoads}
use heave.Firewall.Enter.{admitted, local_ticket, reserve_or_roll_back, enter_locked}
use heave.Firewall.Enter.Gate.{before_check-SameLoads}
use heave.Firewall.Tickets.{release, release_scopes, release_store, count_failure}
use heave.Firewall.Tickets.Cores.{load-core, core-check_velocities, core-cancel}

module _ {ℓ} {S : Type ℓ} where
  reserved-cancel :
      (f : Firewall S) (keys : List ScopeKey) (u t now : ℕ) (k : Bytes)
      → (check_reserve_scopes f keys u t now).1 ≡ none
      → load
          (release_scopes
            (check_reserve_scopes f keys u t now).0
            (map (λ sk. sk.map_key) keys)
            false
            u
            t
            now)
          now
          k
        ≡ load f now k
  unfolding load
  reserved-cancel f keys u t now k pass =
      let g = (check_velocities f keys u t now).0 in
      let clear : refusal f now keys u t ≡ none =
        sym (check_reserve_scopes-refusal f keys u t now) ∙ pass in
      let made : (check_reserve_scopes f keys u t now).0 ≡ reserve_scopes g keys u t now =
        check_reserve_scopes-state f keys u t now ∙ rw clear in
      rw made
        (load-core now _ _ (core-cancel g keys u t now k ∙ core-check_velocities f keys u t now k))

  release-local_ticket :
      (f : Firewall S) (keys : List Bytes) (key : Bytes) (u t now : ℕ) (k : Bytes)
      → load (release f (local_ticket keys key u t) now).0 now k
        ≡ load (release_scopes f keys false u t now) now k
  unfolding release local_ticket
  release-local_ticket f keys key u t now k =
      (unreserve_budget-SameLoads (release_scopes f keys false u t now) key u now).loads k

  pub roll_back-release :
      (f : Firewall S) (scopes : List Scope) (key : Bytes) (u t now : ℕ) (tk : Ticket S) (k : Bytes)
      → (reserve_or_roll_back f scopes key u t now).1 ≡ admitted tk
      → load (release (reserve_or_roll_back f scopes key u t now).0 tk now).0 now k ≡ load f now k
  unfolding reserve_or_roll_back
  roll_back-release f scopes key u t now tk k h =
      let keys = to_scope_keys scopes in
      let (g, refused) = check_reserve_scopes f keys u t now in
      elim (Option-cases refused) [
        | inr (e, fail) ↦ absurd (ground arith)
        | inl pass ↦
            let mine : local_ticket (map (λ sk. sk.map_key) keys) key u t ≡ tk = ground arith in
            rw (pass, reserve_or_roll_back)
              (subst (λ x. load (release g x now).0 now k ≡ load f now k) mine
                (release-local_ticket g (map (λ sk. sk.map_key) keys) key u t now k
                  ∙ reserved-cancel f keys u t now k pass))
      ]

  -- A request that is admitted locally and released unsettled at the same clock reading leaves
  -- every scope's calls in flight and window totals as before it came.
  pub enter_locked-release :
      (f : Firewall S) (scopes : List Scope) (run prompt : Bytes) (max : ℤ) (u t now : ℕ)
      (tk : Ticket S) (k : Bytes)
      → Inv f
      → (enter_locked f scopes run prompt max u t now).1 ≡ admitted tk
      → load (release (enter_locked f scopes run prompt max u t now).0 tk now).0 now k
        ≡ load f now k
  unfolding enter_locked
  enter_locked-release f scopes run prompt max u t now tk k v h =
      let (g, trips, key) = check_loop_budget (gc_locked f now) run prompt u max now in
      elim (Bool-cases trips) [
        | inl stop ↦ absurd (ground arith)
        | inr go ↦ rw go (
            roll_back-release g scopes key u t now tk k (rw go at h)
            ∙ (before_check-SameLoads f run prompt max u now v).loads k)
      ]

  -- A release of the shared store's hold is none of the loads'.
  stored-load :
      (f : Firewall S) (o : Option (ScopeStore S)) (call : ScopeStore S → S × Option Error)
      (now : ℕ) (k : Bytes)
      → (let g : Firewall S = elim o [ none ↦ f | some store ↦ count_failure f (call store) ] in
          load g now k ≡ load f now k)
  unfolding count_failure load
  stored-load f none call now k = refl
  stored-load f (some store) call now k = elim (Option-cases (call store).1) [
    | inl fine ↦ rw fine refl
    | inr (e, fail) ↦ rw fail refl
  ]

  release_store-load :
      (f : Firewall S) (tk : Ticket S) (now : ℕ) (k : Bytes)
      → load (release_store f tk) now k ≡ load f now k
  unfolding release_store
  release_store-load f tk now k =
      stored-load f tk.store
        (λ store.
          store.release tk.store_keys tk.hold_id tk.est_usd tk.est_tokens tk.settled f.world)
        now k

  either-load :
      (test : Bool) (x y : Firewall S) (now : ℕ) (k : Bytes) (seen : Load)
      → load x now k ≡ seen
      → load y now k ≡ seen
      → load (if test then x else y) now k ≡ seen
  either-load true x y now k seen on off = on
  either-load false x y now k seen on off = off

  -- The release of a ticket that holds no scope here.
  pub release-keyless :
      (g : Firewall S) (tk : Ticket S) (now : ℕ) (k : Bytes)
      → tk.scope_keys ≡ []
      → load (release g tk now).0 now k ≡ load g now k
  unfolding release release_scopes
  release-keyless g tk now k bare =
      let h = release_scopes g tk.scope_keys tk.settled tk.est_usd tk.est_tokens now in
      let budget = unreserve_budget h tk.run_scope_key tk.est_usd in
      let same : load h now k ≡ load g now k = rw bare refl in
      let back = if tk.settled then h else budget in
      let given : load back now k ≡ load g now k =
        either-load tk.settled h budget now k (load g now k) same
          ((unreserve_budget-SameLoads h tk.run_scope_key tk.est_usd now).loads k ∙ same) in
      elim (Bool-cases (not tk.bound || tk.released)) [
        | inl inert ↦ rw (inert, release) refl
        | inr live ↦ rw (live, release) (release_store-load back tk now k ∙ given)
      ]
