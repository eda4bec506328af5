-- ===== src/Firewall/Tickets/World.antt =====
-- What Settle and Release of internal/firewall/firewall.go do to the world of the shared stores.
use heave.Prelude.{
  ℕ, ◌-◌, ◌≡◌, refl, sym, ◌∙◌, inl, inr, Bool, true, false, not, ◌||◌, Option, none, some, List, [],
  ◌∷◌, ℤ, pos, ◌-ℤ◌, neg_ℕ, add_floor, arith, if◌then◌else◌, Bool-cases, Bytes, lookup,
}
use mathlib.Core.Path.{subst}
use heave.Firewall.Window
use heave.Firewall.Errors.{Error}
use heave.Firewall.State.{Firewall, ScopeState, ScopeStore, Ticket, Reservation, unix}
use heave.Firewall.Local.{unreserve_budget, put_scope, is_empty}
use heave.Firewall.Tickets.{
  settle, settle_scopes, settle_budget, settle_store, release, release_scopes, release_store,
  count_failure, ticket_from, settle_reservation, release_reservation,
}

module _ {ℓ} {S : Type ℓ} where
  -- Only the scopes may differ.
  record Aside (f g : Firewall S) : Type ℓ where
    worlds : g.world ≡ f.world
    stores : g.scope_store ≡ f.scope_store

  Aside-refl : (f : Firewall S) → Aside f f
  Aside-refl f = record { worlds = refl; stores = refl }

  Aside-trans : (f g h : Firewall S) → Aside f g → Aside g h → Aside f h
  Aside-trans f g h a b = record { worlds = b.worlds ∙ a.worlds; stores = b.stores ∙ a.stores }

  -- A change of one scope, if it is tracked.
  change : Firewall S → Bytes → (ScopeState → ScopeState) → Option ScopeState → Firewall S
  change f k step none = f
  change f k step (some st) = put_scope f k (step st)

  change-Aside :
      (f : Firewall S) (k : Bytes) (step : ScopeState → ScopeState) (o : Option ScopeState)
      → Aside f (change f k step o)
  unfolding change put_scope
  change-Aside f k step none = Aside-refl f
  change-Aside f k step (some st) = record { worlds = refl; stores = refl }

  branch-Aside :
      (test : Bool) (f g h : Firewall S) → Aside f g → Aside f h → Aside f (if test then g else h)
  branch-Aside true f g h on off = on
  branch-Aside false f g h on off = off

  settle_scopes-Aside :
      (keys : List Bytes) (f : Firewall S) (du dt : ℤ) (now : ℕ)
      → Aside f (settle_scopes f keys du dt now)
  unfolding settle_scopes change
  settle_scopes-Aside [] f du dt now = Aside-refl f
  settle_scopes-Aside (k ∷ keys) f du dt now =
      let step : ScopeState → ScopeState =
        λ st. record st { window = Window.add st.window (unix now) du dt } in
      let g = change f k step (lookup k f.scopes) in
      Aside-trans f g _ (change-Aside f k step (lookup k f.scopes))
        (settle_scopes-Aside keys g du dt now)

  release_scopes-Aside :
      (keys : List Bytes) (f : Firewall S) (settled : Bool) (u t now : ℕ)
      → Aside f (release_scopes f keys settled u t now)
  unfolding release_scopes change
  release_scopes-Aside [] f settled u t now = Aside-refl f
  release_scopes-Aside (k ∷ keys) f settled u t now =
      let step : ScopeState → ScopeState = λ st. record st {
        inflight = st.inflight - 1;
        window = if settled then st.window else Window.add st.window (unix now) (neg_ℕ u) (neg_ℕ t);
      } in
      let g = change f k step (lookup k f.scopes) in
      Aside-trans f g _ (change-Aside f k step (lookup k f.scopes))
        (release_scopes-Aside keys g settled u t now)

  settle_budget-Aside : (f : Firewall S) (key : Bytes) (du : ℤ) → Aside f (settle_budget f key du)
  unfolding settle_budget change
  settle_budget-Aside f key du =
      let step : ScopeState → ScopeState = λ st. record st { run_usd = add_floor st.run_usd du } in
      branch-Aside (is_empty key) f f _ (Aside-refl f)
        (change-Aside f key step (lookup key f.scopes))

  unreserve_budget-Aside :
      (f : Firewall S) (key : Bytes) (est : ℕ) → Aside f (unreserve_budget f key est)
  unfolding unreserve_budget change
  unreserve_budget-Aside f key est =
      let step : ScopeState → ScopeState = λ st. record st { run_usd = st.run_usd - est } in
      branch-Aside (is_empty key) f f _ (Aside-refl f)
        (change-Aside f key step (lookup key f.scopes))

  -- What no operation of the shared store undoes.
  pub record IsKept (P : S → Type 0) (store : ScopeStore S) : Type ℓ where
    pub settles : (keys : List Bytes) (du dt : ℤ) (w : S) → P w → P (store.settle keys du dt w).0
    pub releases :
        (keys : List Bytes) (hold : Bytes) (u t : ℕ) (settled : Bool) (w : S)
        → P w
        → P (store.release keys hold u t settled w).0

  count_failure-kept :
      (P : S → Type 0) (f : Firewall S) (x : S × Option Error) → P x.0 → P (count_failure f x).world
  unfolding count_failure
  count_failure-kept P f (w, none) p = p
  count_failure-kept P f (w, some e) p = p

  -- The store that a ticket names, if it names one, keeps P.
  abbrev pub Keeps : (S → Type 0) → Option (ScopeStore S) → Type ℓ
  Keeps P o = (store : ScopeStore S) → o ≡ some store → IsKept P store

  settle_store-kept :
      (P : S → Type 0) (o : Option (ScopeStore S)) (f : Firewall S) (tk : Ticket S) (du dt : ℤ)
      → Keeps P o
      → P f.world
      → (let g : Firewall S = elim o [
        | none ↦ f
        | some store ↦ count_failure f (store.settle tk.store_keys du dt f.world)
      ] in
          P g.world)
  settle_store-kept P none f tk du dt keeps p = p
  settle_store-kept P (some store) f tk du dt keeps p =
      count_failure-kept P f _ ((keeps store refl).settles tk.store_keys du dt f.world p)

  release_store-kept :
      (P : S → Type 0) (o : Option (ScopeStore S)) (f : Firewall S) (tk : Ticket S)
      → Keeps P o
      → P f.world
      → (let g : Firewall S = elim o [
        | none ↦ f
        | some store ↦
            count_failure f
              (store.release tk.store_keys tk.hold_id tk.est_usd tk.est_tokens tk.settled f.world)
      ] in
          P g.world)
  release_store-kept P none f tk keeps p = p
  release_store-kept P (some store) f tk keeps p = count_failure-kept P f _ (
      (keeps store refl).releases tk.store_keys tk.hold_id tk.est_usd tk.est_tokens tk.settled
        f.world p)

  -- A pair that is kept or replaced.
  either-kept :
      (P : S → Type 0) (test : Bool) (x y : Firewall S × Ticket S)
      → P x.0.world
      → P y.0.world
      → P (if test then x else y).0.world
  either-kept P true x y on off = on
  either-kept P false x y on off = off

  pub settle-kept :
      (P : S → Type 0) (f : Firewall S) (tk : Ticket S) (u t : ℤ) (now : ℕ)
      → Keeps P tk.store
      → P f.world
      → P (settle f tk u t now).0.world
  unfolding settle settle_store
  settle-kept P f tk u t now keeps p =
      let du = u -ℤ pos tk.est_usd in
      let dt = t -ℤ pos tk.est_tokens in
      let g = settle_scopes f tk.scope_keys du dt now in
      let h = settle_budget g tk.run_scope_key du in
      let same : Aside f h =
        Aside-trans f g h (settle_scopes-Aside tk.scope_keys f du dt now)
          (settle_budget-Aside g tk.run_scope_key du) in
      either-kept P (not tk.bound || (tk.settled || tk.released)) (f, tk)
        (settle_store h tk du dt, record tk { settled = true }) p
        (settle_store-kept P tk.store h tk du dt keeps (subst P (sym same.worlds) p))

  pub release-kept :
      (P : S → Type 0) (f : Firewall S) (tk : Ticket S) (now : ℕ)
      → Keeps P tk.store
      → P f.world
      → P (release f tk now).0.world
  unfolding release release_store
  release-kept P f tk now keeps p =
      let g = release_scopes f tk.scope_keys tk.settled tk.est_usd tk.est_tokens now in
      let h = if tk.settled then g else unreserve_budget g tk.run_scope_key tk.est_usd in
      let freed = release_scopes-Aside tk.scope_keys f tk.settled tk.est_usd tk.est_tokens now in
      let same : Aside f h = Aside-trans f g h freed (
        branch-Aside tk.settled g g _ (Aside-refl g)
          (unreserve_budget-Aside g tk.run_scope_key tk.est_usd)) in
      either-kept P (not tk.bound || tk.released) (f, tk)
        (release_store h tk, record tk { released = true }) p
        (release_store-kept P tk.store h tk keeps (subst P (sym same.worlds) p))

  settle-store :
      (f : Firewall S) (tk : Ticket S) (u t : ℤ) (now : ℕ)
      → (settle f tk u t now).1.store ≡ tk.store
  unfolding settle
  settle-store f tk u t now = elim (Bool-cases (not tk.bound || (tk.settled || tk.released))) [
    | inl idle ↦ rw (idle, settle) refl
    | inr live ↦ rw (live, settle) refl
  ]

  ticket_from-Keeps :
      (P : S → Type 0) (f : Firewall S) (r : Reservation)
      → Keeps P f.scope_store
      → Keeps P (ticket_from f r).store
  unfolding ticket_from
  ticket_from-Keeps P f r keeps store h = elim (Bool-cases r.shared) [
    | inl shared ↦ keeps store (rw shared at h)
    | inr alone ↦ let off = rw alone at h in absurd (ground arith)
  ]

  -- A reservation's settle, then release, and its release keep what the shared store keeps.
  pub settle_reservation-kept :
      (P : S → Type 0) (f : Firewall S) (r : Reservation) (u t : ℤ) (now : ℕ)
      → Keeps P f.scope_store
      → P f.world
      → P (settle_reservation f r u t now).world
  unfolding settle_reservation
  settle_reservation-kept P f r u t now keeps p =
      let tk = ticket_from f r in
      let mine = ticket_from-Keeps P f r keeps in
      release-kept P (settle f tk u t now).0 (settle f tk u t now).1 now
        (subst (Keeps P) (sym (settle-store f tk u t now)) mine) (settle-kept P f tk u t now mine p)

  pub release_reservation-kept :
      (P : S → Type 0) (f : Firewall S) (r : Reservation) (now : ℕ)
      → Keeps P f.scope_store
      → P f.world
      → P (release_reservation f r now).world
  unfolding release_reservation
  release_reservation-kept P f r now keeps p =
      release-kept P f (ticket_from f r) now (ticket_from-Keeps P f r keeps) p
