-- ===== src/Firewall/Tickets/Once.antt =====
-- Repeated Settle and Release calls, and tickets carried by reservations.
use heave.Prelude.{ℕ, ◌≡◌, inl, inr, ◌⊎◌, true, false, none, ℤ, arith, Bool-cases}
use heave.Firewall.State.{Firewall, Ticket}
use heave.Firewall.Tickets.{settle, release, reservation, ticket_from}

module _ {ℓ} {S : Type ℓ} where
  -- After a Settle or a Release, a further Settle changes neither the firewall nor the ticket; after
  -- a Release, a further Release changes nothing. So no order of repeated calls reconciles twice.
  pub settle_once :
      (f : Firewall S) (tk : Ticket S) (u t u' t' : ℤ) (now now' : ℕ)
      → let (g, settled) = settle f tk u t now in
        let (h, released) = release f tk now in
        (settle g settled u' t' now' ≡ (g, settled))
        × (settle h released u' t' now' ≡ (h, released))
        × (release h released now' ≡ (h, released))
  unfolding settle release
  settle_once f tk u t u' t' now now' = elim (Bool-cases tk.bound) [
    | inr inert ↦ (ground arith, ground arith, ground arith)
    | inl bound ↦ (ground arith, ground arith, ground arith)
  ]

  -- The reservation of a held ticket rebuilds that ticket, in the firewall that issued it.
  pub ticket_from-reservation :
      (f : Firewall S) (tk : Ticket S)
      → tk.bound ≡ true
      → tk.settled ≡ false
      → tk.released ≡ false
      → (tk.store ≡ none) ⊎ (tk.store ≡ f.scope_store)
      → ticket_from f (reservation tk) ≡ tk
  unfolding ticket_from reservation
  ticket_from-reservation f tk bound open' live (inl alone) = ground arith
  ticket_from-reservation f tk bound open' live (inr shared) = ground arith
