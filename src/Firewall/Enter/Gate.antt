-- ===== src/Firewall/Enter/Gate.antt =====
-- The local gate, enterLocked of internal/firewall/firewall.go, by what it leaves of each scope.
use heave.Prelude.{
  ℕ, ◌≡◌, ◌∙◌, inl, inr, Bool, true, false, List, ℤ, if◌then◌else◌, Bool-cases, Option-cases, Bytes,
}
use heave.Firewall.State.{Scope, Firewall}
use heave.Firewall.Local.{to_scope_keys, gc_locked, check_loop_budget, check_reserve_scopes}
use heave.Firewall.Local.View.{load, Inv, gc_locked-Inv, load-gc_locked}
use heave.Firewall.Local.Reserve.{
  charged, uses, check_reserve_scopes-refusal, check_reserve_scopes-Inv, load-check_reserve_scopes,
}
use heave.Firewall.Local.Budget.{
  SameLoads, SameLoads-trans, check_loop_budget-SameLoads, unreserve_budget-SameLoads,
}
use heave.Firewall.Enter.{Admission, admitted, tripped, denied, reserve_or_roll_back, enter_locked}

abbrev pub was_admitted {ℓ} : {A : Type ℓ} → Admission A → Bool
was_admitted (admitted a) = true
was_admitted tripped = false
was_admitted (denied e) = false

module _ {ℓ} {S : Type ℓ} where
  gc-SameLoads : (now : ℕ) (f : Firewall S) → Inv f → SameLoads now f (gc_locked f now)
  gc-SameLoads now f v = record { inv = gc_locked-Inv f now; loads = λ k. load-gc_locked f now k v }

  -- What a caller sees after the reserve step, by its outcome.
  pub roll_back-load :
      (f : Firewall S) (scopes : List Scope) (key : Bytes) (u t now : ℕ) (k : Bytes)
      → Inv f
      → load (reserve_or_roll_back f scopes key u t now).0 now k ≡ (
          if was_admitted (reserve_or_roll_back f scopes key u t now).1
          then charged (load f now k) (uses (to_scope_keys scopes) k) u t
          else load f now k)
  unfolding reserve_or_roll_back
  roll_back-load f scopes key u t now k v =
      let keys = to_scope_keys scopes in
      let (g, refused) = check_reserve_scopes f keys u t now in
      let seen = load-check_reserve_scopes f keys u t now k v in
      let as_specified = check_reserve_scopes-refusal f keys u t now in
      elim (Option-cases refused) [
        | inl pass ↦ rw (pass, reserve_or_roll_back) (seen ∙ rw (← as_specified, pass))
        | inr (e, fail) ↦
            rw (fail, reserve_or_roll_back)
              ((unreserve_budget-SameLoads g key u now).loads k ∙ seen ∙ rw (← as_specified, fail))
      ]

  roll_back-Inv :
      (f : Firewall S) (scopes : List Scope) (key : Bytes) (u t now : ℕ)
      → Inv f
      → Inv (reserve_or_roll_back f scopes key u t now).0
  unfolding reserve_or_roll_back
  roll_back-Inv f scopes key u t now v =
      let keys = to_scope_keys scopes in
      let (g, refused) = check_reserve_scopes f keys u t now in
      let kept = check_reserve_scopes-Inv f keys u t now v in
      elim (Option-cases refused) [
        | inl pass ↦ rw (pass, reserve_or_roll_back) kept
        | inr (e, fail) ↦
            rw (fail, reserve_or_roll_back) ((unreserve_budget-SameLoads g key u now).inv kept)
      ]

  -- The state in which the chain is checked.
  abbrev pub before_check : Firewall S → Bytes → Bytes → ℤ → ℕ → ℕ → Firewall S
  before_check f run prompt max u now = (check_loop_budget (gc_locked f now) run prompt u max now).0

  pub before_check-SameLoads :
      (f : Firewall S) (run prompt : Bytes) (max : ℤ) (u now : ℕ)
      → Inv f
      → SameLoads now f (before_check f run prompt max u now)
  before_check-SameLoads f run prompt max u now v =
      SameLoads-trans now f (gc_locked f now) _ (gc-SameLoads now f v)
        (check_loop_budget-SameLoads (gc_locked f now) run prompt u max now)

  -- All or nothing: a request that the local gate admits adds, to each scope of its chain, one call
  -- in flight and the estimate for each place the scope has in the chain; a request that trips or
  -- is denied leaves the calls in flight and the window of every scope as they were.
  pub load-enter_locked :
      (f : Firewall S) (scopes : List Scope) (run prompt : Bytes) (max : ℤ) (u t now : ℕ)
      (k : Bytes)
      → Inv f
      → load (enter_locked f scopes run prompt max u t now).0 now k ≡ (
          if was_admitted (enter_locked f scopes run prompt max u t now).1
          then charged (load f now k) (uses (to_scope_keys scopes) k) u t
          else load f now k)
  unfolding enter_locked
  load-enter_locked f scopes run prompt max u t now k v =
      let (g, trips, key) = check_loop_budget (gc_locked f now) run prompt u max now in
      let same = before_check-SameLoads f run prompt max u now v in
      elim (Bool-cases trips) [
        | inl stop ↦ rw stop (same.loads k)
        | inr go ↦ rw (go, ← same.loads k) (roll_back-load g scopes key u t now k (same.inv v))
      ]

  -- The gate keeps one entry a scope and every window in shape, whatever its answer.
  pub enter_locked-Inv :
      (f : Firewall S) (scopes : List Scope) (run prompt : Bytes) (max : ℤ) (u t now : ℕ)
      → Inv f
      → Inv (enter_locked f scopes run prompt max u t now).0
  unfolding enter_locked
  enter_locked-Inv f scopes run prompt max u t now v =
      let (g, trips, key) = check_loop_budget (gc_locked f now) run prompt u max now in
      let same = before_check-SameLoads f run prompt max u now v in
      elim (Bool-cases trips) [
        | inl stop ↦ rw stop (same.inv v)
        | inr go ↦ rw go (roll_back-Inv g scopes key u t now (same.inv v))
      ]
