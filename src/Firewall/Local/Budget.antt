-- ===== src/Firewall/Local/Budget.antt =====
-- Loop detection and the per-run budget of internal/firewall/firewall.go.
use mathlib.Core.Path.{subst}
use heave.Prelude.{
  ℕ, ◌+◌, ◌-◌, ◌≤◌, ◌≡◌, refl, sym, ap, ◌∙◌, inl, inr, ◌⊎◌, true, false, ℤ, pos_part, arith,
  Bool-cases, Bytes, str_eq_iff, str_eq_refl, lookup, Unique, lookup-insert,
}
use heave.Firewall.Window.Laws.{IsShaped}
use heave.Firewall.State.{ScopeState, Firewall, positive}
use heave.Firewall.Local.{
  is_empty, state_or_new, put_scope, ensure_scope, trip_loop, loop_check, reserve_budget,
  check_loop_budget, unreserve_budget,
}
use heave.Firewall.Local.View.{load, state_at, Inv, load-put_scope, put_scope-Inv}

module _ {ℓ} {S : Type ℓ} where
  -- The same loads in a well-formed firewall.
  pub record SameLoads (now : ℕ) (f g : Firewall S) : Type ℓ where
    pub inv : Inv f → Inv g
    pub loads : (k : Bytes) → load g now k ≡ load f now k

  pub SameLoads-refl : (now : ℕ) (f : Firewall S) → SameLoads now f f
  SameLoads-refl now f = record { inv = λ v. v; loads = λ k. refl }

  pub SameLoads-trans :
      (now : ℕ) (f g h : Firewall S) → SameLoads now f g → SameLoads now g h → SameLoads now f h
  SameLoads-trans now f g h a b = record {
    inv = λ v. b.inv (a.inv v);
    loads = λ k. b.loads k ∙ a.loads k;
  }

  -- Writing a state with the same window and calls in flight back changes no load.
  put_scope-SameLoads :
      (f : Firewall S) (k : Bytes) (st : ScopeState) (now : ℕ)
      → st.window ≡ (state_at f k).window
      → st.inflight ≡ (state_at f k).inflight
      → SameLoads now f (put_scope f k st)
  put_scope-SameLoads f k st now w i = record {
    inv = λ v. put_scope-Inv f k st v (subst IsShaped (sym w) (v.shaped k));
    loads = λ j. load-put_scope f k j st now ∙ unfold load in ground (arith, str_eq_iff k j, w, i);
  }

  same_scopes : (now : ℕ) (f g : Firewall S) → g.scopes ≡ f.scopes → SameLoads now f g
  unfolding load
  same_scopes now f g e = record {
    inv = λ v. record { unique = subst Unique (sym e) v.unique; shaped = λ k. rw e (v.shaped k) };
    loads = λ k. rw e;
  }

  put_or_same :
      (now : ℕ) (f g : Firewall S) (k : Bytes) (st : ScopeState)
      → st.window ≡ (state_at f k).window
      → st.inflight ≡ (state_at f k).inflight
      → (g ≡ f) ⊎ (g ≡ put_scope f k st)
      → SameLoads now f g
  put_or_same now f g k st w i (inl e) = same_scopes now f g (ap (λ (h : Firewall S). h.scopes) e)
  put_or_same now f g k st w i (inr e) =
      subst (SameLoads now f) (sym e) (put_scope-SameLoads f k st now w i)

  loop_check-scopes :
      (f : Firewall S) (run prompt : Bytes) (now : ℕ)
      → (loop_check f run prompt now).0.scopes ≡ f.scopes
  unfolding loop_check trip_loop
  loop_check-scopes f run prompt now = ground arith

  reserved : Firewall S → Bytes → ℕ → ℕ → ScopeState
  reserved f run est now = record (state_at f run) {
    last_touch = now;
    run_usd = (state_at f run).run_usd + est;
  }

  reserve_budget-put :
      (f : Firewall S) (run : Bytes) (est : ℕ) (max : ℤ) (now : ℕ)
      → ((reserve_budget f run est max now).0 ≡ f)
        ⊎ ((reserve_budget f run est max now).0 ≡ put_scope f run (reserved f run est now))
  unfolding reserve_budget put_scope reserved
  reserve_budget-put f run est max now = ground arith

  -- Loop detection and the budget's reserve change no load.
  pub check_loop_budget-SameLoads :
      (f : Firewall S) (run prompt : Bytes) (est : ℕ) (max : ℤ) (now : ℕ)
      → SameLoads now f (check_loop_budget f run prompt est max now).0
  unfolding check_loop_budget
  check_loop_budget-SameLoads f run prompt est max now =
      let (g, trips) = loop_check f run prompt now in
      let looped = same_scopes now f g (loop_check-scopes f run prompt now) in
      elim (Bool-cases trips) [
        | inl stop ↦ rw stop looped
        | inr go ↦ rw go (
            SameLoads-trans now f g _ looped (
              put_or_same now g _ run (reserved g run est now) (unfold reserved in refl)
                (unfold reserved in refl) (reserve_budget-put g run est max now)))
      ]

  unreserve_budget-put :
      (f : Firewall S) (key : Bytes) (est : ℕ)
      → (unreserve_budget f key est ≡ f)
        ⊎ (unreserve_budget f key est
            ≡ put_scope f key
                (record (state_at f key) { run_usd = (state_at f key).run_usd - est }))
  unfolding unreserve_budget put_scope
  unreserve_budget-put f key est = ground arith

  -- Nor does the roll-back.
  pub unreserve_budget-SameLoads :
      (f : Firewall S) (key : Bytes) (est now : ℕ) → SameLoads now f (unreserve_budget f key est)
  unreserve_budget-SameLoads f key est now =
      put_or_same now f _ key _ refl refl (unreserve_budget-put f key est)

  -- A run that passes is charged, within its cap.
  pub record Charged (f g : Firewall S) (run key : Bytes) (est : ℕ) (max : ℤ) : Type ℓ where
    pub keyed : key ≡ run
    pub spent : (state_at g run).run_usd ≡ (state_at f run).run_usd + est
    pub within : (state_at g run).run_usd ≤ pos_part max

  reserve_budget-Charged :
      (f : Firewall S) (run : Bytes) (est : ℕ) (max : ℤ) (now : ℕ)
      → is_empty run ≡ false
      → positive max ≡ true
      → (reserve_budget f run est max now).1 ≡ false
      → let (g, trips, key) = reserve_budget f run est max now in Charged f g run key est max
  unfolding reserve_budget put_scope reserved ensure_scope
  reserve_budget-Charged f run est (ℤ.pos n) now named bound passed = record {
    keyed = ground arith;
    spent =
        ground (arith, lookup-insert run run (reserved f run est now) f.scopes, str_eq_refl run);
    within =
        ground (arith, lookup-insert run run (reserved f run est now) f.scopes, str_eq_refl run);
  }
  reserve_budget-Charged f run est (ℤ.negsuc n) now named bound passed = absurd (ground arith)

  -- The budget check trips or charges the run within its cap.
  pub check_loop_budget-Charged :
      (f : Firewall S) (run prompt : Bytes) (est : ℕ) (max : ℤ) (now : ℕ)
      → is_empty run ≡ false
      → positive max ≡ true
      → (check_loop_budget f run prompt est max now).1 ≡ false
      → let (g, trips, key) = check_loop_budget f run prompt est max now in
        Charged f g run key est max
  unfolding check_loop_budget
  check_loop_budget-Charged f run prompt est max now named bound passed =
      let (g, stop) = loop_check f run prompt now in
      elim (Bool-cases stop) [
        | inl trips ↦ absurd (ground arith)
        | inr go ↦
            let c = reserve_budget-Charged g run est max now named bound (ground arith) in
            rw go (record {
              keyed = c.keyed;
              spent =
                  c.spent
                  ∙ ap (λ m. (state_or_new (lookup run m)).run_usd + est)
                      (loop_check-scopes f run prompt now);
              within = c.within;
            })
      ]

  -- The roll-back takes the charge away again.
  pub unreserve_budget-spent :
      (f g : Firewall S) (run key : Bytes) (est : ℕ) (max : ℤ)
      → is_empty run ≡ false
      → Charged f g run key est max
      → (state_at (unreserve_budget g key est) run).run_usd ≡ (state_at f run).run_usd
  unfolding unreserve_budget put_scope
  unreserve_budget-spent f g run key est max named c =
      let st : ScopeState = record (state_at g run) { run_usd = (state_at g run).run_usd - est } in
      rw c.keyed (ground (arith, c.spent, str_eq_refl run, lookup-insert run run st g.scopes))

  -- A trip charges nothing.
  pub check_loop_budget-tripped :
      (f : Firewall S) (run prompt : Bytes) (est : ℕ) (max : ℤ) (now : ℕ)
      → (check_loop_budget f run prompt est max now).1 ≡ true
      → (state_at (check_loop_budget f run prompt est max now).0 run).run_usd
        ≡ (state_at f run).run_usd
  unfolding check_loop_budget reserve_budget
  check_loop_budget-tripped f run prompt est max now stop =
      ground (arith, loop_check-scopes f run prompt now)
