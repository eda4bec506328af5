-- ===== src/Pgledger/Account.antt =====
-- The writer under any interleaving of Write, the loop, and Close, internal/pgledger/pgledger.go.
use heave.Prelude.{
  ℕ, suc, ◌+◌, ◌≤◌, ◌<◌, ◌≡◌, refl, ap, sym, ◌∙◌, inl, inr, ◌⊎◌, Bool, true, false, List, [], ◌∷◌,
  ◌++◌, ltb, leb, if◌then◌else◌, arith, Bool-cases, length, length-append,
}
use mathlib.Core.List.{append_assoc}
use heave.Pgledger.{
  Entry, Store, Phase, running, draining, stopped, new_store, send, do_flush, receive,
}

-- The store with what is around it: the Writes past their check of `closed`, how many Writes there
-- were, what was sent, what was handed to a flush, what a flush saved, what Close swept, and whether
-- Close has returned.
pub record System : Type 0 where
  pub store : Store
  pub under_way : List Entry
  pub writes : ℕ
  pub sent : List Entry
  pub handed : List Entry
  pub saved : List Entry
  pub swept : List Entry
  pub returned : Bool

unfoldable pub start : ℕ → ℕ → System
start size batch_n = record {
  store = new_store size batch_n;
  under_way = [];
  writes = 0;
  sent = [];
  handed = [];
  saved = [];
  swept = [];
  returned = false;
}

abbrev pub is_stopped : Phase → Bool
is_stopped running = false
is_stopped draining = false
is_stopped stopped = true

abbrev pub accept : Store → Entry → List Entry → List Entry
accept s e sent = if ltb (length s.ch) s.size then sent ++ (e ∷ []) else sent

-- The flush of a system's batch.
unfoldable pub flush : Bool → System → System
flush fails σ = record σ {
  store = do_flush fails σ.store;
  handed = σ.handed ++ σ.store.batch;
  saved = if fails then σ.saved else σ.saved ++ σ.store.batch;
}

-- A receive, and what it hands to a flush.
pub take_in : Bool → Entry → List Entry → System → System
take_in fails e rest σ =
    let all = σ.store.batch ++ (e ∷ []) in
    let full = leb σ.store.batch_n (length all) in
    record σ {
      store = receive fails e rest σ.store;
      handed = if full then σ.handed ++ all else σ.handed;
      saved = if full then (if fails then σ.saved else σ.saved ++ all) else σ.saved;
    }

pub data Step : System → System → Type 0 where
  -- A Write that finds the store closed.
  refuses :
      (σ : System)
      → σ.store.closed ≡ true
      → Step σ (record σ {
        store = record σ.store { dropped = suc σ.store.dropped };
        writes = suc σ.writes;
      })
  -- A Write that passes the check, and later its select.
  passes :
      (σ : System) (e : Entry)
      → σ.store.closed ≡ false
      → Step σ (record σ { under_way = e ∷ σ.under_way; writes = suc σ.writes })
  sends :
      (σ : System) (e : Entry) (before rest : List Entry)
      → σ.under_way ≡ before ++ (e ∷ rest)
      → Step σ (record σ {
        store = send σ.store e;
        under_way = before ++ rest;
        sent = accept σ.store e σ.sent;
      })
  -- The loop: a receive, before and after `quit`, and a tick of the timer.
  receives :
      (σ : System) (fails : Bool) (e : Entry) (rest : List Entry)
      → is_stopped σ.store.phase ≡ false
      → σ.store.ch ≡ e ∷ rest
      → Step σ (take_in fails e rest σ)
  ticks : (σ : System) (fails : Bool) → σ.store.phase ≡ running → Step σ (flush fails σ)
  -- Close: the flag and `quit`, the loop that sees `quit`, its end, the sweep, and its return.
  closes : (σ : System) → Step σ (record σ { store = record σ.store { closed = true } })
  quits :
      (σ : System)
      → σ.store.phase ≡ running
      → σ.store.closed ≡ true
      → Step σ (record σ { store = record σ.store { phase = draining } })
  ends :
      (σ : System) (fails : Bool)
      → σ.store.phase ≡ draining
      → σ.store.ch ≡ []
      → Step σ
          (record (flush fails σ) { store = record (do_flush fails σ.store) { phase = stopped } })
  sweeps :
      (σ : System) (e : Entry) (rest : List Entry)
      → σ.store.phase ≡ stopped
      → σ.returned ≡ false
      → σ.store.ch ≡ e ∷ rest
      → Step σ (record σ {
        store = record σ.store { ch = rest; dropped = suc σ.store.dropped };
        swept = σ.swept ++ (e ∷ []);
      })
  returns :
      (σ : System)
      → σ.store.phase ≡ stopped
      → σ.store.ch ≡ []
      → Step σ (record σ { returned = true })

pub data Reach (σ : System) : System → Type 0 where
  here : Reach σ σ
  next : {τ υ : System} → Reach σ τ → Step τ υ → Reach σ υ

-- Every Write is saved, dropped and counted, or still on its way; nothing is sent twice or out of
-- order; and neither the channel nor the batch outgrows its size.
pub record Inv (σ : System) : Type 0 where
  pub counted :
      length σ.saved
        + σ.store.dropped
        + length σ.store.batch
        + length σ.store.ch
        + length σ.under_way
      ≡ σ.writes
  pub order : σ.sent ≡ σ.handed ++ (σ.store.batch ++ (σ.swept ++ σ.store.ch))
  pub settled :
      ((is_stopped σ.store.phase ≡ true) × (σ.store.batch ≡ []))
      ⊎ ((is_stopped σ.store.phase ≡ false) × (σ.swept ≡ []))
  pub within : length σ.store.ch ≤ σ.store.size
  pub small : length σ.store.batch < σ.store.batch_n

pub start-Inv : (size batch_n : ℕ) → 0 < batch_n → Inv (start size batch_n)
unfolding start new_store
start-Inv size batch_n h = record {
  counted = refl;
  order = refl;
  settled = inr (refl, refl);
  within = omega arith;
  small = h;
}

-- The batch handed over, or one record more: the order stays.
order_flush :
    (sent handed batch rest : List Entry)
    → sent ≡ handed ++ (batch ++ rest)
    → sent ≡ (handed ++ batch) ++ rest
order_flush sent handed batch rest h = h ∙ sym (append_assoc handed batch rest)

order_take :
    (handed batch rest : List Entry) (e : Entry)
    → handed ++ (batch ++ (e ∷ rest)) ≡ handed ++ ((batch ++ (e ∷ [])) ++ rest)
order_take handed batch rest e = ap (λ l. handed ++ l) (sym (append_assoc batch (e ∷ []) rest))

order_send :
    (handed batch swept ch : List Entry) (e : Entry)
    → (handed ++ (batch ++ (swept ++ ch))) ++ (e ∷ [])
      ≡ handed ++ (batch ++ (swept ++ (ch ++ (e ∷ []))))
order_send handed batch swept ch e = simp append_assoc refl

flush-Inv : (σ : System) (fails : Bool) → Inv σ → Inv (flush fails σ)
unfolding flush do_flush
flush-Inv σ fails v = record {
  counted = ground (arith, v.counted, length-append σ.saved σ.store.batch);
  order = order_flush σ.sent σ.handed σ.store.batch (σ.swept ++ σ.store.ch) v.order;
  settled = ground (arith, v.settled);
  within = v.within;
  small = ground (arith, v.small);
}

-- The record taken in, before the test of the batch's size.
abbrev joined : Entry → List Entry → System → System
joined e rest σ = record σ {
  store = record σ.store { ch = rest; batch = σ.store.batch ++ (e ∷ []) };
}

joined_order :
    (σ : System) (e : Entry) (rest : List Entry)
    → is_stopped σ.store.phase ≡ false
    → σ.store.ch ≡ e ∷ rest
    → Inv σ
    → (σ.swept ≡ []) × (σ.sent ≡ σ.handed ++ ((σ.store.batch ++ (e ∷ [])) ++ rest))
joined_order σ e rest live h v = elim v.settled [
  | inl (over, clean) ↦ absurd (ground arith)
  | inr (runs, none_swept) ↦ (
    none_swept,
    v.order
        ∙ ap (λ l. σ.handed ++ (σ.store.batch ++ (l ++ σ.store.ch))) none_swept
        ∙ ap (λ l. σ.handed ++ (σ.store.batch ++ l)) h
        ∙ order_take σ.handed σ.store.batch rest e,
  )
]

take_in-Inv :
    (σ : System) (fails : Bool) (e : Entry) (rest : List Entry)
    → is_stopped σ.store.phase ≡ false
    → σ.store.ch ≡ e ∷ rest
    → Inv σ
    → Inv (take_in fails e rest σ)
unfolding take_in receive do_flush
take_in-Inv σ fails e rest live h v =
    let (none_swept, order) = joined_order σ e rest live h v in
    let more = length-append σ.store.batch (e ∷ []) in
    let saves = length-append σ.saved (σ.store.batch ++ (e ∷ [])) in
    elim (Bool-cases (leb σ.store.batch_n (length (σ.store.batch ++ (e ∷ []))))) [
      | inl full ↦
          rw (full, take_in, receive)
            (record {
              counted = ground (arith, v.counted, more, saves, h);
              order =
                  rw none_swept
                    (order_flush σ.sent σ.handed (σ.store.batch ++ (e ∷ [])) rest order);
              settled = inr (live, none_swept);
              within = ground (arith, v.within, h);
              small = ground (arith, v.small);
            })
      | inr part ↦
          rw (part, take_in, receive)
            (record {
              counted = ground (arith, v.counted, more, h);
              order = rw none_swept order;
              settled = inr (live, none_swept);
              within = ground (arith, v.within, h);
              small = ground (arith, part);
            })
    ]

Step-Inv : {σ τ : System} → Step σ τ → Inv σ → Inv τ
unfolding send do_flush flush
Step-Inv (refuses σ h) v = record {
  counted = omega (arith, v.counted);
  order = v.order;
  settled = v.settled;
  within = v.within;
  small = v.small;
}
Step-Inv (passes σ e h) v = record {
  counted = omega (arith, v.counted);
  order = v.order;
  settled = v.settled;
  within = v.within;
  small = v.small;
}
Step-Inv (sends σ e before rest h) v =
    let fewer = ap (λ (l : List Entry). length l) h in
    let all = length-append before (e ∷ rest) in
    let others = length-append before rest in
    let longer = length-append σ.store.ch (e ∷ []) in
    elim (Bool-cases (ltb (length σ.store.ch) σ.store.size)) [
      | inl room ↦
          rw (room, send)
            (record {
              counted = omega (arith, v.counted, fewer, all, others, longer);
              order =
                  ap (λ l. l ++ (e ∷ [])) v.order
                  ∙ order_send σ.handed σ.store.batch σ.swept σ.store.ch e;
              settled = v.settled;
              within = ground (arith, room, longer);
              small = v.small;
            })
      | inr full ↦
          rw (full, send)
            (record {
              counted = omega (arith, v.counted, fewer, all, others);
              order = v.order;
              settled = v.settled;
              within = v.within;
              small = v.small;
            })
    ]
Step-Inv (receives σ fails e rest live h) v = take_in-Inv σ fails e rest live h v
Step-Inv (ticks σ fails h) v = flush-Inv σ fails v
Step-Inv (closes σ) v = record {
  counted = v.counted;
  order = v.order;
  settled = v.settled;
  within = v.within;
  small = v.small;
}
Step-Inv (quits σ h c) v = record {
  counted = v.counted;
  order = v.order;
  settled = ground (arith, v.settled, h);
  within = v.within;
  small = v.small;
}
Step-Inv (ends σ fails h empty) v =
    let w = flush-Inv σ fails v in
    record {
      counted = w.counted;
      order = w.order;
      settled = inl (refl, refl);
      within = v.within;
      small = w.small;
    }
Step-Inv (sweeps σ e rest h early more) v = record {
  counted = ground (arith, v.counted, more);
  order =
      v.order
      ∙ ap (λ l. σ.handed ++ (σ.store.batch ++ (σ.swept ++ l))) more
      ∙ ap (λ l. σ.handed ++ (σ.store.batch ++ l)) (sym (append_assoc σ.swept (e ∷ []) rest));
  settled = ground (arith, v.settled, h);
  within = ground (arith, v.within, more);
  small = v.small;
}
Step-Inv (returns σ h empty) v = record {
  counted = v.counted;
  order = v.order;
  settled = v.settled;
  within = v.within;
  small = v.small;
}

-- For a positive batch size, however Writes, the loop, its timer and Close interleave and whichever
-- flushes fail, every Write is saved, counted as dropped, under way, in the batch or in the
-- channel; what was sent is what was handed to flushes, then the batch, what Close swept and the
-- channel, in order and each once; and channel and batch keep to their sizes.
pub Reach-Inv : (size batch_n : ℕ) {σ : System} → 0 < batch_n → Reach (start size batch_n) σ → Inv σ
Reach-Inv size batch_n h here = start-Inv size batch_n h
Reach-Inv size batch_n h (next r st) = Step-Inv st (Reach-Inv size batch_n h r)
