-- ===== src/Pgledger/Shutdown.antt =====
-- The end of Close of internal/pgledger/pgledger.go, with and without a Write under way.
use heave.Prelude.{
  ℕ, ◌<◌, ◌≡◌, refl, ap, ◌∙◌, Bool, true, false, List, [], ◌∷◌, ltb, arith, length, lt→ltb,
}
use heave.Pgledger.{
  Entry, Store, draining, stopped, new_store, send, do_flush, receive, drain, sweep, close,
}
use heave.Pgledger.Account.{
  System, start, flush, passes, sends, closes, quits, ends, returns, Reach, here, next,
}

receive_dropped :
    (e : Entry) (ch : List Entry) (s : Store) → (receive false e ch s).dropped ≡ s.dropped
unfolding receive do_flush
receive_dropped e ch s = ground arith

drain_dropped : (ch : List Entry) (s : Store) → (drain ch [] s).dropped ≡ s.dropped
unfolding drain do_flush
drain_dropped [] s = refl
drain_dropped (e ∷ ch) s = drain_dropped ch (receive false e ch s) ∙ receive_dropped e ch s

drain_ch :
    (ch : List Entry) (fails : List Bool) (s : Store) → s.ch ≡ ch → (drain ch fails s).ch ≡ []
unfolding drain do_flush receive
drain_ch [] [] s h = h
drain_ch [] (b ∷ fails) s h = h
drain_ch (e ∷ ch) [] s h = drain_ch ch [] (receive false e ch s) (ground arith)
drain_ch (e ∷ ch) (b ∷ fails) s h = drain_ch ch fails (receive b e ch s) (ground arith)

drain_phase : (ch : List Entry) (fails : List Bool) (s : Store) → (drain ch fails s).phase ≡ stopped
unfolding drain
drain_phase [] [] s = refl
drain_phase [] (b ∷ fails) s = refl
drain_phase (e ∷ ch) [] s = drain_phase ch [] (receive false e ch s)
drain_phase (e ∷ ch) (b ∷ fails) s = drain_phase ch fails (receive b e ch s)

-- Close with no Write under way and no failing flush ends the loop, leaves nothing in the channel and
-- drops nothing.
pub close-dropped :
    (s : Store)
    → ((close [] s).ch ≡ []) × ((close [] s).phase ≡ stopped) × ((close [] s).dropped ≡ s.dropped)
unfolding close sweep
close-dropped s =
    let t : Store = record s { closed = true; phase = draining } in
    let empty = ap (λ (l : List Entry). length l) (drain_ch s.ch [] t refl) in
    (refl, drain_phase s.ch [] t, omega (arith, drain_dropped s.ch t, empty))

-- A Write that passed its check of `closed`, when Close returned.
at_return : ℕ → ℕ → Entry → System
at_return size batch_n e = record (start size batch_n) {
  store = record (new_store size batch_n) { closed = true; phase = stopped };
  under_way = e ∷ [];
  writes = 1;
  returned = true;
}

at_return-Reach :
    (size batch_n : ℕ) (e : Entry) → Reach (start size batch_n) (at_return size batch_n e)
unfolding at_return start new_store do_flush flush
at_return-Reach size batch_n e =
    next
      (next
        (next (next (next here (passes (start size batch_n) e refl)) (closes _))
          (quits _ refl refl))
        (ends _ false refl refl))
      (returns _ refl refl)

-- With a channel of positive size there is a run in which Close has returned and no Write is under
-- way, and yet a written record lies in the channel, neither saved nor counted as dropped.
pub late-Write :
    (size batch_n : ℕ) (e : Entry)
    → 0 < size
    → (σ : System) × Reach (start size batch_n) σ
      × (σ.returned ≡ true)
      × (σ.under_way ≡ [])
      × (σ.store.ch ≡ e ∷ [])
      × (σ.saved ≡ [])
      × (σ.store.dropped ≡ 0)
      × (σ.writes ≡ 1)
unfolding at_return start new_store send
late-Write size batch_n e h =
    let σ = at_return size batch_n e in
    let room : ltb 0 size ≡ true = lt→ltb 0 size h in
    (
      _,
      next (at_return-Reach size batch_n e) (sends σ e [] [] refl),
      refl,
      refl,
      rw room refl,
      refl,
      rw room refl,
      refl,
    )
