-- ===== src/Firewall/Enter/Admit.antt =====
-- Admissions of the local gate against the caps and the run budget.
use mathlib.Core.Path.{subst}
use heave.Prelude.{
  ℕ, ◌+◌, ◌≤◌, ◌≡◌, refl, ◌∙◌, inl, inr, ◌⊎◌, true, false, ◌&&◌, none, List, [], ◌∷◌, ℤ, pos_part,
  if◌then◌else◌, arith, All, Bool-cases, Option-cases, Bytes,
}
use heave.Firewall.Window.Laws.{new_window-totals}
use heave.Firewall.State.{
  Limits, Scope, ScopeKey, Firewall, positive, reaches, unix, window_seconds,
}
use heave.Firewall.Local.{
  is_empty, to_scope_keys, gc_locked, check_loop_budget, check_reserve_scopes,
}
use heave.Firewall.Local.View.{Load, load, Inv, is_tracked, exceeds}
use heave.Firewall.Local.Reserve.{
  charged, uses, refusal, too_fast, too_many, check_reserve_scopes-refusal,
  load-check_reserve_scopes,
}
use heave.Firewall.Local.Budget.{
  SameLoads, Charged, check_loop_budget-Charged, check_loop_budget-tripped, unreserve_budget-spent,
}
use heave.Firewall.Local.Spent.{spent, spent-check_reserve_scopes}
use heave.Firewall.Enter.{reserve_or_roll_back, enter_locked}
use heave.Firewall.Enter.Gate.{was_admitted, before_check-SameLoads}

-- A scope with no call in flight and nothing in its window.
abbrev pub no_load : Load
no_load = record { inflight = 0; usd = 0; toks = 0 }

-- The request fits the scope: all its calls are not in flight, and unless nothing at all is in its
-- window, the window and the estimate stay within the caps.
abbrev pub Fits : Limits → Load → ℕ → ℕ → Type 0
Fits limits l u t =
    ((l ≡ no_load) ⊎ (exceeds limits l u t ≡ false))
    × (positive limits.max_concurrent && reaches l.inflight limits.max_concurrent ≡ false)

-- No call in flight does not reach a positive cap.
positive-reaches : (cap : ℤ) → positive cap && reaches 0 cap ≡ false
positive-reaches (ℤ.pos n) = ground arith
positive-reaches (ℤ.negsuc n) = ground arith

module _ {ℓ} {S : Type ℓ} where
  untracked-no_load :
      (f : Firewall S) (now : ℕ) (k : Bytes) → is_tracked f k ≡ false → load f now k ≡ no_load
  unfolding load
  untracked-no_load f now k h = ground (arith, new_window-totals window_seconds (unix now))

  refusal-Fits :
      (f : Firewall S) (now : ℕ) (keys : List ScopeKey) (u t : ℕ)
      → too_fast f now keys u t ≡ none
      → too_many f now keys ≡ none
      → All (λ sk. Fits sk.limits (load f now sk.map_key) u t) keys
  unfolding too_fast too_many
  refusal-Fits f now [] u t slow free = tt
  refusal-Fits f now (sk ∷ keys) u t slow free = (
    elim (Bool-cases (is_tracked f sk.map_key)) [
      | inl known ↦ (inr (ground arith), ground arith)
      | inr new ↦ (inl (untracked-no_load f now sk.map_key new), ground arith)
    ],
    refusal-Fits f now keys u t (ground arith) (ground arith),
  )

  Fits-SameLoads :
      (f g : Firewall S) (now : ℕ) (keys : List ScopeKey) (u t : ℕ)
      → SameLoads now f g
      → All (λ sk. Fits sk.limits (load g now sk.map_key) u t) keys
      → All (λ sk. Fits sk.limits (load f now sk.map_key) u t) keys
  Fits-SameLoads f g now [] u t same h = tt
  Fits-SameLoads f g now (sk ∷ keys) u t same h = (
    subst (λ l. Fits sk.limits l u t) (same.loads sk.map_key) h.0,
    Fits-SameLoads f g now keys u t same h.1,
  )

  roll_back-passed :
      (f : Firewall S) (scopes : List Scope) (key : Bytes) (u t now : ℕ)
      → was_admitted (reserve_or_roll_back f scopes key u t now).1 ≡ true
      → refusal f now (to_scope_keys scopes) u t ≡ none
  unfolding reserve_or_roll_back
  roll_back-passed f scopes key u t now h =
      ground (arith, check_reserve_scopes-refusal f (to_scope_keys scopes) u t now)

  -- An admitted request fits every scope of its chain, measured before it came: the calls in flight
  -- are below a positive cap, and unless the scope has no load at all, the window and the estimate
  -- together stay within the caps.
  pub enter_locked-Fits :
      (f : Firewall S) (scopes : List Scope) (run prompt : Bytes) (max : ℤ) (u t now : ℕ)
      → Inv f
      → was_admitted (enter_locked f scopes run prompt max u t now).1 ≡ true
      → All (λ sk. Fits sk.limits (load f now sk.map_key) u t) (to_scope_keys scopes)
  unfolding enter_locked refusal
  enter_locked-Fits f scopes run prompt max u t now v h =
      let (g, trips, key) = check_loop_budget (gc_locked f now) run prompt u max now in
      let keys = to_scope_keys scopes in
      elim (Bool-cases trips) [
        | inl stop ↦ absurd (ground arith)
        | inr go ↦
            let passed : refusal g now keys u t ≡ none =
              roll_back-passed g scopes key u t now (rw go at h) in
            Fits-SameLoads f g now keys u t (before_check-SameLoads f run prompt max u now v)
              (refusal-Fits g now keys u t (ground (arith, passed)) (ground (arith, passed)))
      ]

  roll_back-spent :
      (f g : Firewall S) (scopes : List Scope) (run key : Bytes) (u t now : ℕ) (max : ℤ)
      → is_empty run ≡ false
      → Charged f g run key u max
      → spent (reserve_or_roll_back g scopes key u t now).0 run ≡ (
          if was_admitted (reserve_or_roll_back g scopes key u t now).1
          then spent g run
          else spent f run)
  unfolding reserve_or_roll_back
  roll_back-spent f g scopes run key u t now max named c =
      let keys = to_scope_keys scopes in
      let (h, refused) = check_reserve_scopes g keys u t now in
      let kept = spent-check_reserve_scopes g keys u t now run in
      elim (Option-cases refused) [
        | inl pass ↦ rw (pass, reserve_or_roll_back) kept
        | inr (e, fail) ↦
            rw (fail, reserve_or_roll_back)
              (unreserve_budget-spent f h run key u max named (record {
                keyed = c.keyed;
                spent = kept ∙ c.spent;
                within = omega (arith, kept, c.within);
              }))
      ]

  -- A run with a cap: an admitted request raises its spend by the estimate and at most to the cap,
  -- and a denied or tripped one leaves the spend after the sweep as it was.
  pub spent-enter_locked :
      (f : Firewall S) (scopes : List Scope) (run prompt : Bytes) (max : ℤ) (u t now : ℕ)
      → is_empty run ≡ false
      → positive max ≡ true
      → let (g, outcome) = enter_locked f scopes run prompt max u t now in
        let before = spent (gc_locked f now) run in
        (spent g run ≡ (if was_admitted outcome then before + u else before))
        × ((was_admitted outcome ≡ false) ⊎ (spent g run ≤ pos_part max))
  unfolding enter_locked
  spent-enter_locked f scopes run prompt max u t now named bound =
      let (g, trips, key) = check_loop_budget (gc_locked f now) run prompt u max now in
      elim (Bool-cases trips) [
        | inl stop ↦
            rw stop
              (check_loop_budget-tripped (gc_locked f now) run prompt u max now stop, inl refl)
        | inr go ↦
            let c =
              check_loop_budget-Charged (gc_locked f now) run prompt u max now named bound go in
            let after = roll_back-spent (gc_locked f now) g scopes run key u t now max named c in
            rw go (
              after ∙ ground (arith, c.spent),
              elim (Bool-cases (was_admitted (reserve_or_roll_back g scopes key u t now).1)) [
                | inl pass ↦ inr (ground (arith, after, c.within, pass))
                | inr fail ↦ inl fail
              ],
            )
      ]

  fresh-too_fast :
      (f : Firewall S) (keys : List ScopeKey) (u t now : ℕ)
      → All (λ sk. is_tracked f sk.map_key ≡ false) keys
      → too_fast f now keys u t ≡ none
  unfolding too_fast
  fresh-too_fast f [] u t now fresh = refl
  fresh-too_fast f (sk ∷ keys) u t now fresh = ground (arith, fresh-too_fast f keys u t now fresh.1)

  fresh-too_many :
      (f : Firewall S) (keys : List ScopeKey) (now : ℕ)
      → All (λ sk. is_tracked f sk.map_key ≡ false) keys
      → too_many f now keys ≡ none
  unfolding too_many
  fresh-too_many f [] now fresh = refl
  fresh-too_many f (sk ∷ keys) now fresh =
      let (first, rest) = fresh in
      let idle = untracked-no_load f now sk.map_key first in
      ground
        (arith, fresh-too_many f keys now rest, idle, positive-reaches sk.limits.max_concurrent)

  -- A chain whose scopes are all untracked passes the check whatever its caps and whatever the
  -- estimate, and each scope is charged the estimate in full.
  pub fresh-check_reserve_scopes :
      (f : Firewall S) (keys : List ScopeKey) (u t now : ℕ) (k : Bytes)
      → Inv f
      → All (λ sk. is_tracked f sk.map_key ≡ false) keys
      → ((check_reserve_scopes f keys u t now).1 ≡ none)
        × (load (check_reserve_scopes f keys u t now).0 now k
            ≡ charged (load f now k) (uses keys k) u t)
  unfolding refusal
  fresh-check_reserve_scopes f keys u t now k v fresh =
      let passed : refusal f now keys u t ≡ none =
        rw (fresh-too_fast f keys u t now fresh) (fresh-too_many f keys now fresh) in
      (
        check_reserve_scopes-refusal f keys u t now ∙ passed,
        load-check_reserve_scopes f keys u t now k v ∙ ground (arith, passed),
      )
