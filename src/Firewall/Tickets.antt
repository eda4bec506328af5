-- ===== src/Firewall/Tickets.antt =====
-- Settle and Release of internal/firewall/firewall.go, and the serializable reservation behind the
-- decision API. A ticket is a value: each call returns the ticket with its flags and the firewall.
pub mod Cores
pub mod Undo
pub mod Once
pub mod World
use heave.Prelude.{
  ℕ, suc, ◌-◌, Bool, true, false, not, ◌||◌, Option, none, some, List, [], ◌∷◌, ℤ, pos,
  if◌then◌else◌, Bytes, lookup, ◌-ℤ◌, add_floor, neg_ℕ,
}
use heave.Firewall.Errors.{Error}
use heave.Firewall.Window
use heave.Firewall.Kills.{is_some}
use heave.Firewall.State.{Firewall, ScopeStore, Ticket, Reservation, unix}
use heave.Firewall.Local.{is_empty, put_scope, unreserve_budget}

module _ {ℓ} {S : Type ℓ} where
  -- `st.window.add(now, dUSD, dTokens)` for each scope that is still tracked.
  unfoldable pub settle_scopes : Firewall S → List Bytes → ℤ → ℤ → ℕ → Firewall S
  settle_scopes f [] du dt now = f
  settle_scopes f (k ∷ keys) du dt now =
      settle_scopes
        (elim (lookup k f.scopes) [
          | none ↦ f
          | some st ↦ put_scope f k (record st { window = Window.add st.window (unix now) du dt })
        ])
        keys du dt now

  unfoldable pub settle_budget : Firewall S → Bytes → ℤ → Firewall S
  settle_budget f key du = if is_empty key then f else (elim (lookup key f.scopes) [
    | none ↦ f
    | some st ↦ put_scope f key (record st { run_usd = add_floor st.run_usd du })
  ])

  -- A failed call of the shared store is only counted.
  count_failure : Firewall S → S × Option Error → Firewall S
  count_failure f (w, none) = record f { world = w }
  count_failure f (w, some e) = record f { world = w; scope_degraded = suc f.scope_degraded }

  settle_store : Firewall S → Ticket S → ℤ → ℤ → Firewall S
  unfolding count_failure
  settle_store f tk du dt = elim tk.store [
    | none ↦ f
    | some store ↦ count_failure f (store.settle tk.store_keys du dt f.world)
  ]

  unfoldable pub settle : Firewall S → Ticket S → ℤ → ℤ → ℕ → Firewall S × Ticket S
  unfolding settle_store settle_scopes settle_budget
  settle f tk actual_usd actual_tokens now =
      let du = actual_usd -ℤ pos tk.est_usd in
      let dt = actual_tokens -ℤ pos tk.est_tokens in
      if not tk.bound || (tk.settled || tk.released) then (f, tk) else (
        settle_store (settle_budget (settle_scopes f tk.scope_keys du dt now) tk.run_scope_key du)
            tk du dt,
        record tk { settled = true },
      )

  -- `if st.inflight > 0 { st.inflight-- }`, and the hold given back if the call never settled.
  unfoldable pub release_scopes : Firewall S → List Bytes → Bool → ℕ → ℕ → ℕ → Firewall S
  release_scopes f [] settled u t now = f
  release_scopes f (k ∷ keys) settled u t now =
      release_scopes
        (elim (lookup k f.scopes) [
          | none ↦ f
          | some st ↦ put_scope f k (record st {
            inflight = st.inflight - 1;
            window =
                if settled then st.window else Window.add st.window (unix now) (neg_ℕ u) (neg_ℕ t);
          })
        ])
        keys settled u t now

  release_store : Firewall S → Ticket S → Firewall S
  unfolding count_failure
  release_store f tk = elim tk.store [
    | none ↦ f
    | some store ↦
        count_failure f
          (store.release tk.store_keys tk.hold_id tk.est_usd tk.est_tokens tk.settled f.world)
  ]

  unfoldable pub release : Firewall S → Ticket S → ℕ → Firewall S × Ticket S
  unfolding release_store release_scopes
  release f tk now =
      let g = release_scopes f tk.scope_keys tk.settled tk.est_usd tk.est_tokens now in
      if not tk.bound || tk.released then (f, tk) else (
        release_store (if tk.settled then g else unreserve_budget g tk.run_scope_key tk.est_usd) tk,
        record tk { released = true },
      )

  unfoldable pub reservation : Ticket S → Reservation
  reservation tk = record {
    scope_keys = tk.scope_keys;
    run_scope_key = tk.run_scope_key;
    shared = is_some tk.store;
    store_keys = tk.store_keys;
    hold_id = tk.hold_id;
    est_usd = tk.est_usd;
    est_tokens = tk.est_tokens;
  }

  unfoldable pub ticket_from : Firewall S → Reservation → Ticket S
  ticket_from f r = record {
    bound = true;
    scope_keys = r.scope_keys;
    run_scope_key = r.run_scope_key;
    store = if r.shared then f.scope_store else none;
    store_keys = r.store_keys;
    hold_id = r.hold_id;
    est_usd = r.est_usd;
    est_tokens = r.est_tokens;
    released = false;
    settled = false;
  }

  unfoldable pub settle_reservation : Firewall S → Reservation → ℤ → ℤ → ℕ → Firewall S
  unfolding settle release ticket_from
  settle_reservation f r actual_usd actual_tokens now =
      let (g, tk) = settle f (ticket_from f r) actual_usd actual_tokens now in (release g tk now).0

  unfoldable pub release_reservation : Firewall S → Reservation → ℕ → Firewall S
  unfolding release ticket_from
  release_reservation f r now = (release f (ticket_from f r) now).0
