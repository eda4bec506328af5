-- ===== src/Guard/Local.antt =====
-- The gates of internal/firewall/firewall.go, with a shared scope store or without: what they hold in
-- this process can be released again.
use heave.Prelude.{
  ℕ, suc, ◌≡◌, refl, inl, inr, Bool, true, false, Option, none, some, List, [], ◌∷◌, ℤ, pos,
  pos_part, if◌then◌else◌, ltb, Bool-cases, Bytes,
}
use heave.Firewall.Errors.{killed, bad_chain}
use heave.Firewall.State.{ScopeStore, Caps, Verdict, Firewall, Scope, Ticket, Result, err}
use heave.Firewall.Local.{gc_locked, check_loop_budget}
use heave.Firewall.Local.View.{Inv}
use heave.Firewall.Enter.{
  Admission, admitted, is_killed, inert_ticket, local_ticket, run_key, shared_verdict,
  reserve_shared, shared_caps, built_in_scopes, enter_locked, enter_shared, settle_admission,
  enter_live, enter_core, enter_chain, enter, scan_chain,
}
use heave.Firewall.Enter.Gate.{before_check-SameLoads}
use heave.Firewall.Local.Budget.{unreserve_budget-SameLoads}
use heave.Guard.Restores.{
  Inv-scopes, Restores, branch-Restores, is_killed_scopes, keyless-Restores, load_scopes, rebase,
  rebase-Restores, refused-Restores, roll_back-Restores, settled-IsUndoable, tripped-Restores,
  IsUndoable, keyless, refused,
}

module _ {ℓ} {S : Type ℓ} where
  shared_verdict-Restores :
      (f : Firewall S) (store : ScopeStore S) (scopes : List Scope) (caps : Caps) (key : Bytes)
      (u t : ℕ) (hold : Bytes) (now : ℕ) (answer : Verdict) (k : Bytes)
      → Inv f
      → Restores now k f (shared_verdict f store scopes caps key u t hold now answer)
  unfolding shared_verdict
  shared_verdict-Restores f store scopes caps key u t hold now answer k v =
      let down : Firewall S = record f { scope_degraded = suc f.scope_degraded } in
      branch-Restores f now k answer.failed _ _
        (rebase-Restores f down _ now k (load_scopes down f now k refl)
          (roll_back-Restores down scopes key u t now k (Inv-scopes down f refl v)))
        (branch-Restores f now k answer.admitted _ _ (keyless-Restores f f _ now k refl refl)
          (refused-Restores f _ _ now k ((unreserve_budget-SameLoads f key u now).loads k)))

  asked-Restores :
      (f : Firewall S) (keys : List Bytes) (bare : Ticket S)
      (rest : Firewall S × Admission (Ticket S)) (now : ℕ) (k : Bytes)
      → bare.scope_keys ≡ []
      → Restores now k f rest
      → (let out : Firewall S × Admission (Ticket S) = elim keys [
        | [] ↦ (f, admitted bare)
        | key ∷ more ↦ rest
      ] in
          Restores now k f out)
  asked-Restores f [] bare rest now k none_held r = keyless-Restores f f bare now k none_held refl
  asked-Restores f (key ∷ more) bare rest now k none_held r = r

  reserve_shared-Restores :
      (f : Firewall S) (store : ScopeStore S) (scopes : List Scope) (key : Bytes) (u t : ℕ)
      (hold : Bytes) (now : ℕ) (k : Bytes)
      → Inv f
      → Restores now k f (reserve_shared f store scopes key u t hold now)
  unfolding reserve_shared local_ticket
  reserve_shared-Restores f store scopes key u t hold now k v =
      let caps = shared_caps scopes in
      let (w, answer) = store.reserve caps u t hold f.world in
      let told : Firewall S = record f { world = w } in
      asked-Restores f caps.keys (local_ticket [] key u t) _ now k refl (
        rebase-Restores f told _ now k (load_scopes told f now k refl) (
          shared_verdict-Restores told store scopes caps key u t hold now answer k
            (Inv-scopes told f refl v)))

  enter_shared-IsUndoable :
      (f : Firewall S) (store : ScopeStore S) (scopes : List Scope) (run prompt : Bytes) (max : ℤ)
      (u t : ℕ) (hold : Bytes) (now : ℕ) (k : Bytes)
      → Inv f
      → IsUndoable now k f (enter_shared f store scopes run prompt max u t hold now)
  unfolding enter_shared
  enter_shared-IsUndoable f store scopes run prompt max u t hold now k v =
      let (g, trips, key) = check_loop_budget (gc_locked f now) run prompt u max now in
      let same = before_check-SameLoads f run prompt max u now v in
      settled-IsUndoable f _ run now k (
        branch-Restores f now k trips _ _ (tripped-Restores f g now k (same.loads k)) (
          rebase-Restores f g _ now k (same.loads k)
            (reserve_shared-Restores g store scopes key u t hold now k (same.inv v))))

  enter_locked-Restores :
      (f : Firewall S) (scopes : List Scope) (run prompt : Bytes) (max : ℤ) (u t now : ℕ)
      (k : Bytes)
      → Inv f
      → Restores now k f (enter_locked f scopes run prompt max u t now)
  unfolding enter_locked
  enter_locked-Restores f scopes run prompt max u t now k v =
      let (g, trips, key) = check_loop_budget (gc_locked f now) run prompt u max now in
      let same = before_check-SameLoads f run prompt max u now v in
      branch-Restores f now k trips _ _ (tripped-Restores f g now k (same.loads k)) (
        rebase-Restores f g _ now k (same.loads k)
          (roll_back-Restores g scopes key u t now k (same.inv v)))

  -- With a shared scope store, or none.
  either_gate :
      (f : Firewall S) (o : Option (ScopeStore S))
      (shared : ScopeStore S → Firewall S × Result (Ticket S))
      (alone : Firewall S × Result (Ticket S)) (now : ℕ) (k : Bytes)
      → ((store : ScopeStore S) → IsUndoable now k f (shared store))
      → IsUndoable now k f alone
      → (let out : Firewall S × Result (Ticket S) = elim o [
        | some store ↦ shared store
        | none ↦ alone
      ] in
          IsUndoable now k f out)
  either_gate f none shared alone now k h l = l
  either_gate f (some store) shared alone now k h l = h store

  enter_live-IsUndoable :
      (f : Firewall S) (scopes : List Scope) (run prompt : Bytes) (max : ℤ) (u t : ℕ) (hold : Bytes)
      (now : ℕ) (k : Bytes)
      → Inv f
      → IsUndoable now k f (enter_live f scopes run prompt max u t hold now)
  unfolding enter_live
  enter_live-IsUndoable f scopes run prompt max u t hold now k v =
      either_gate f f.scope_store (λ store. enter_shared f store scopes run prompt max u t hold now)
        (settle_admission (enter_locked f scopes run prompt max u t now) run now) now k
        (λ store. enter_shared-IsUndoable f store scopes run prompt max u t hold now k v)
        (settled-IsUndoable f (enter_locked f scopes run prompt max u t now) run now k
          (enter_locked-Restores f scopes run prompt max u t now k v))

  enter_core-split :
      (f : Firewall S) (scopes : List Scope) (run prompt : Bytes) (max eu et : ℤ) (hold : Bytes)
      (now : ℕ)
      → enter_core f scopes run prompt max eu et hold now ≡ (
          if (is_killed f run now).1
          then ((is_killed f run now).0, err killed)
          else enter_live
              (is_killed f run now).0
              scopes
              run
              prompt
              max
              (pos_part eu)
              (pos_part et)
              hold
              now)
  unfolding enter_core
  enter_core-split f scopes run prompt max eu et hold now = refl

  enter_core-IsUndoable :
      (f : Firewall S) (scopes : List Scope) (run prompt : Bytes) (max eu et : ℤ) (hold : Bytes)
      (now : ℕ) (k : Bytes)
      → Inv f
      → IsUndoable now k f (enter_core f scopes run prompt max eu et hold now)
  enter_core-IsUndoable f scopes run prompt max eu et hold now k v =
      let same = is_killed_scopes f run now in
      let g = (is_killed f run now).0 in
      let loads = load_scopes g f now k same in
      elim (Bool-cases (is_killed f run now).1) [
        | inl dead ↦
            rw (enter_core-split f scopes run prompt max eu et hold now, dead)
              (refused g killed loads)
        | inr live ↦
            rw (enter_core-split f scopes run prompt max eu et hold now, live)
              (rebase f g _ now k loads (
                enter_live-IsUndoable g scopes run prompt max (pos_part eu) (pos_part et) hold now k
                  (Inv-scopes g f same v)))
      ]

  branch-IsUndoable :
      (f : Firewall S) (now : ℕ) (k : Bytes) (test : Bool) (x y : Firewall S × Result (Ticket S))
      → IsUndoable now k f x
      → IsUndoable now k f y
      → IsUndoable now k f (if test then x else y)
  branch-IsUndoable f now k true x y on off = on
  branch-IsUndoable f now k false x y on off = off

  pub enter-IsUndoable :
      (f : Firewall S) (key run_id prompt : Bytes) (eu et : ℤ) (hold : Bytes) (now : ℕ) (k : Bytes)
      → Inv f
      → IsUndoable now k f (enter f key run_id prompt eu et hold now)
  unfolding enter inert_ticket
  enter-IsUndoable f key run_id prompt eu et hold now k v =
      let run = run_key key run_id in
      branch-IsUndoable f now k f.enabled _ _
        (enter_core-IsUndoable f (built_in_scopes f.limits key run) run prompt
          f.limits.max_usd_per_run eu et hold now k v)
        (keyless f inert_ticket refl refl)

  scanned-IsUndoable :
      (f : Firewall S) (scopes : List Scope) (prompt : Bytes) (eu et : ℤ) (hold : Bytes) (now : ℕ)
      (k : Bytes) (found : Option (ℕ × Bytes × ℤ))
      → Inv f
      → IsUndoable now k f (elim found [
        | none ↦ (f, err bad_chain)
        | some (n, run, max) ↦
            if ltb 1 n
            then (f, err bad_chain)
            else enter_core f scopes run prompt max eu et hold now
      ])
  scanned-IsUndoable f scopes prompt eu et hold now k none v = refused f bad_chain refl
  scanned-IsUndoable f scopes prompt eu et hold now k (some (n, run, max)) v =
      branch-IsUndoable f now k (ltb 1 n) _ _ (refused f bad_chain refl)
        (enter_core-IsUndoable f scopes run prompt max eu et hold now k v)

  pub enter_chain-IsUndoable :
      (f : Firewall S) (scopes : List Scope) (prompt : Bytes) (eu et : ℤ) (hold : Bytes) (now : ℕ)
      (k : Bytes)
      → Inv f
      → IsUndoable now k f (enter_chain f scopes prompt eu et hold now)
  unfolding enter_chain inert_ticket
  enter_chain-IsUndoable f scopes prompt eu et hold now k v =
      branch-IsUndoable f now k f.enabled _ _
        (scanned-IsUndoable f scopes prompt eu et hold now k (scan_chain scopes 0 [] (pos 0)) v)
        (keyless f inert_ticket refl refl)
