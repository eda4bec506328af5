-- ===== src/Ledger/Ring.antt =====
-- The ring of recent events of internal/ledger/ledger.go.
use heave.Prelude.{
  ℕ, zero, suc, ◌+◌, ◌-◌, ◌%◌, ◌≤◌, ◌<◌, ◌≡◌, ◌≢◌, refl, sym, ap, ◌∙◌, inl, inr, List, [], ◌∷◌, ltb,
  arith, Bool-cases, length, get_or, set, take, length-set, length-replicate, get_or-set_self,
  get_or-set_ne,
}
use heave.Firewall.Window.Ring.{slots_distinct}
use heave.Ledger.{
  Entry, Event, recent_ring, no_event, new, event_of, record_entry, ring_back, recent_events,
}
use heave.Ledger.Totals.{after}

-- The events of the records, newest first.
pub events : List Entry → List Event
events [] = []
events (r ∷ rs) = event_of r ∷ events rs

length-events : (rs : List Entry) → length (events rs) ≡ length rs
unfolding events
length-events [] = refl
length-events (r ∷ rs) = ap suc (length-events rs)

after-recent_n : (rs : List Entry) → (after rs).recent_n ≡ length rs
unfolding after record_entry new
after-recent_n [] = refl
after-recent_n (r ∷ rs) = ap suc (after-recent_n rs)

after-length : (rs : List Entry) → length (after rs).recent ≡ recent_ring
unfolding after record_entry new
after-length [] = length-replicate recent_ring no_event
after-length (r ∷ rs) = length-set (after rs).recent _ _ ∙ after-length rs

take_all : (n : ℕ) (es : List Event) → length es ≤ n → take (length es) es ≡ take n es
take_all zero [] h = refl
take_all (suc n) [] h = refl
take_all zero (e ∷ es) h = absurd (omega arith)
take_all (suc n) (e ∷ es) h = ap (◌∷◌ e) (take_all n es (omega arith))

-- A write at the slot of `i` leaves the slots of the fewer than 200 numbers before it.
ring_back-set :
    (ring : List Event) (n j i : ℕ) (e : Event)
    → j < i
    → n ≤ j + 1
    → i + n ≤ j + recent_ring
    → ring_back (set ring (i % recent_ring) e) n j ≡ ring_back ring n j
unfolding ring_back
ring_back-set ring zero j i e a b c = refl
ring_back-set ring (suc n) j i e a b c =
    let here : i % recent_ring ≢ j % recent_ring =
      λ same. slots_distinct recent_ring j i a (omega arith) (sym same) in
    let first = get_or-set_ne ring (i % recent_ring) (j % recent_ring) e no_event here in
    rw (first, ring_back-set ring n (j - 1) i e (omega arith) (omega arith) (omega arith))

after-newest :
    (r : Entry) (rs : List Entry)
    → get_or (after (r ∷ rs)).recent (length rs % recent_ring) no_event ≡ event_of r
unfolding after record_entry
after-newest r rs = rw (after-recent_n rs) (
    get_or-set_self (after rs).recent (length rs % recent_ring) _ no_event
      (omega (arith, after-length rs)))

after-older :
    (r : Entry) (rs : List Entry) (n : ℕ)
    → n < recent_ring
    → n ≤ length rs
    → ring_back (after (r ∷ rs)).recent n (length rs - 1)
      ≡ ring_back (after rs).recent n (length rs - 1)
unfolding after record_entry
after-older r rs zero a b = unfold ring_back in refl
after-older r rs (suc n) a b = rw (after-recent_n rs) (
    ring_back-set (after rs).recent (suc n) (length rs - 1) (length rs) _ (omega arith)
      (omega arith) (omega arith))

-- The last n events, for n up to the ring and to what was recorded.
ring_back-events :
    (rs : List Entry) (n : ℕ)
    → n ≤ recent_ring
    → n ≤ length rs
    → ring_back (after rs).recent n (length rs - 1) ≡ take n (events rs)
unfolding ring_back events
ring_back-events rs zero a b = refl
ring_back-events [] (suc n) a b = absurd (omega arith)
ring_back-events (r ∷ rs) (suc n) a b =
    let last : suc (length rs) - 1 ≡ length rs = omega arith in
    rw (
      last,
      after-newest r rs,
      after-older r rs n (omega arith) (omega arith),
      ring_back-events rs n (omega arith) (omega arith),
    )

-- After any records the recent events are those of the newest 200 records, newest first.
pub recent_events-after :
    (rs : List Entry) → recent_events (after rs) ≡ take recent_ring (events rs)
unfolding recent_events
recent_events-after rs = elim (Bool-cases (ltb recent_ring (length rs))) [
  | inl many ↦
      rw (after-recent_n rs, many) (ring_back-events rs recent_ring (omega arith) (ground arith))
  | inr few ↦
      rw (after-recent_n rs, few)
        (ring_back-events rs (length rs) (ground arith) (omega arith)
          ∙ rw (← length-events rs)
              (take_all recent_ring (events rs) (ground (arith, length-events rs))))
]
