-- ===== src/Dispatch/Charges.antt =====
-- What a request of internal/server/server.go is charged, once it has a ticket and a reservation.
use native.Mathlib.Nat.{mul_assoc}
use heave.Prelude.{
  ℕ, ◌+◌, ◌*◌, ◌≡◌, refl, ap, ◌∙◌, inl, inr, Bool, true, false, ◌==◌, Bool-cases, Option, none,
  some, List, pos, if◌then◌else◌, arith,
}
use mathlib.Core.Path.{subst}
use heave.Firewall.State.{Firewall}
use heave.Firewall.Tickets
use heave.Controls
use heave.Ledger
use heave.Router.{Decision}
use heave.Dispatch.{
  Response, Try, Accounting, Gateway, Dispatch, nothing_yet, charged, is_unreported, run_candidates,
  book, record_success, give_back, write_no_serve, serve_unary, aborted, serve_streaming,
}
use heave.Dispatch.Free.{record_entry-spend, IsFree, IsFree-refl, run_candidates-IsFree}
use heave.Dispatch.Endings.{
  Ending, nothing, began, served_by, Agrees, no_ending, ending, run_candidates-Agrees,
}

-- Twenty million times the price of a response: a cache read costs a tenth of an input token and a
-- cache write one and a quarter.
abbrev pub price_of : Response → Decision → ℕ
price_of resp d =
    let each = d.price.input_per_mtok in
    20 * (resp.input_tokens * each)
    + 20 * (resp.output_tokens * d.price.output_per_mtok)
    + 2 * (resp.cache_read * each)
    + 25 * (resp.cache_write * each)

cost-price_of :
    (resp : Response) (d : Decision)
    → Ledger.cost resp.input_tokens resp.output_tokens resp.cache_read resp.cache_write
        d.price.input_per_mtok d.price.output_per_mtok
      ≡ price_of resp d
unfolding Ledger.cost
cost-price_of resp d =
    let each = d.price.input_per_mtok in
    omega (
      arith,
      mul_assoc 20 resp.input_tokens each,
      mul_assoc 20 resp.output_tokens d.price.output_per_mtok,
      mul_assoc 2 resp.cache_read each,
      mul_assoc 25 resp.cache_write each,
    )

module _ {ℓ} {S : Type ℓ} where
  -- The amount and the tokens to bill: those of the response, or the estimates where no usage is
  -- reported or a stream broke off.
  pub owed : Accounting S → Ending → Option (ℕ × ℕ)
  owed acct nothing = none
  owed acct began = some (acct.est_usd, acct.est_tokens)
  owed acct (served_by resp d) =
      if resp.input_tokens + resp.output_tokens + resp.cache_read + resp.cache_write == 0
      then some (acct.est_usd, acct.est_tokens)
      else some (price_of resp d, resp.input_tokens + resp.output_tokens)

  -- Where an amount and tokens are owed, the guard, the ticket and the ledger are told of that amount,
  -- the ticket of those tokens, and the status is 200; where nothing is, no one is charged and the
  -- reservation is given back whole.
  pub data IsSettled (gw : Gateway S) (acct : Accounting S)
      : Option (ℕ × ℕ) → Gateway S × ℕ → Type ℓ where
    billed :
        (next : Gateway S) (f : Firewall S) (amount tokens now : ℕ)
        → f.scopes ≡ gw.firewall.scopes
        → next.firewall ≡ (Tickets.settle f acct.ticket (pos amount) (pos tokens) now).0
        → next.guard ≡ Controls.settle gw.guard acct.reservation (pos amount)
        → next.ledger.total.cost_usd ≡ gw.ledger.total.cost_usd + amount
        → IsSettled gw acct (some (amount, tokens)) (next, 200)
    given_back :
        (next : Gateway S) (status : ℕ)
        → next.firewall.scopes ≡ gw.firewall.scopes
        → next.guard ≡ Controls.settle gw.guard acct.reservation (pos 0)
        → next.ledger.total.cost_usd ≡ gw.ledger.total.cost_usd
        → IsSettled gw acct none (next, status)

  book-IsSettled :
      (gw next : Gateway S) (acct : Accounting S) (amount tokens : ℕ) (e : Ledger.Entry) (now : ℕ)
      → IsFree gw next
      → e.cost_usd ≡ amount
      → IsSettled gw acct (some (amount, tokens)) (book next acct amount tokens e now, 200)
  unfolding book
  book-IsSettled gw next acct amount tokens e now free same =
      let spent = free.spend in
      let told = record_entry-spend next.ledger e in
      billed (book next acct amount tokens e now) next.firewall amount tokens now free.scopes refl
        (ap (λ g. Controls.settle g acct.reservation (pos amount)) free.guard) (told ∙ omega arith)

  give_back-IsSettled :
      (gw next : Gateway S) (acct : Accounting S) (status : ℕ)
      → IsFree gw next
      → IsSettled gw acct none (give_back next acct, status)
  give_back-IsSettled gw next acct status free =
      given_back (give_back next acct) status free.scopes
        (ap (λ g. Controls.settle g acct.reservation (pos 0)) free.guard) free.spend

  charged-owed :
      (acct : Accounting S) (resp : Response) (d : Decision)
      → some (
        charged acct resp d,
        (if is_unreported resp then acct.est_tokens else resp.input_tokens) + resp.output_tokens,
      )
        ≡ owed acct (served_by resp d)
  unfolding charged owed
  charged-owed acct resp d = elim (Bool-cases (is_unreported resp)) [
    | inl blank ↦
        let none_out : resp.output_tokens ≡ 0 = ground arith in
        let none_at_all : (resp.input_tokens + resp.output_tokens + resp.cache_read
                + resp.cache_write
              == 0)
            ≡ true =
          ground arith in
        rw (blank, none_at_all) (ap (λ n. some (acct.est_usd, n)) (omega arith))
    | inr used ↦
        let reported : (resp.input_tokens + resp.output_tokens + resp.cache_read + resp.cache_write
              == 0)
            ≡ false =
          ground arith in
        rw (used, reported, cost-price_of resp d) refl
  ]

  record_success-IsSettled :
      (gw next : Gateway S) (acct : Accounting S) (d : Decision) (resp : Response) (now : ℕ)
      → IsFree gw next
      → IsSettled gw acct (owed acct (served_by resp d)) (record_success next acct d resp now, 200)
  unfolding record_success
  record_success-IsSettled gw next acct d resp now free =
      subst (λ o. IsSettled gw acct o (record_success next acct d resp now, 200))
        (charged-owed acct resp d) (book-IsSettled gw next acct _ _ _ now free refl)

  unary-IsSettled :
      (gw next : Gateway S) (acct : Accounting S) (e : Ending) (r : Dispatch)
      → IsFree gw next
      → Agrees false e r
      → (let out : Gateway S × ℕ = elim r.used [
        | none ↦ (give_back next acct, write_no_serve r)
        | some (resp, d) ↦ (record_success next acct d resp r.ended_at, 200)
      ] in
          IsSettled gw acct (owed acct e) out)
  unfolding Agrees owed
  unary-IsSettled gw next acct nothing r free h =
      rw h.0 (give_back-IsSettled gw next acct (write_no_serve r) free)
  unary-IsSettled gw next acct began r free h = absurd (ground (arith, h.1))
  unary-IsSettled gw next acct (served_by resp d) r free h =
      rw h (record_success-IsSettled gw next acct d resp r.ended_at free)

  stream-IsSettled :
      (gw next : Gateway S) (acct : Accounting S) (e : Ending) (r : Dispatch)
      → IsFree gw next
      → Agrees true e r
      → (let out : Gateway S × ℕ = elim r.used [
        | some (resp, d) ↦ (record_success next acct d resp r.ended_at, 200)
        | none ↦
            if r.wrote_any
            then (aborted next acct r.ended_at, 200)
            else (give_back next acct, write_no_serve r)
      ] in
          IsSettled gw acct (owed acct e) out)
  unfolding Agrees owed aborted write_no_serve
  stream-IsSettled gw next acct nothing r free h =
      rw (h.0, h.1) (give_back-IsSettled gw next acct (write_no_serve r) free)
  stream-IsSettled gw next acct began r free h =
      rw (h.0, h.1)
        (book-IsSettled gw next acct acct.est_usd acct.est_tokens _ r.ended_at free refl)
  stream-IsSettled gw next acct (served_by resp d) r free h =
      rw h (record_success-IsSettled gw next acct d resp r.ended_at free)

  -- How the request ends, from the first candidate on.
  abbrev pub end_of : Bool → Gateway S → Accounting S → List Try → Ending
  end_of streaming gw acct tries = ending streaming acct tries gw (nothing_yet acct.start)

  -- Whatever the candidates and their answers, in order: where a provider that is dispatched, being
  -- configured, healthy and within its quota, serves a response, the guard, the ticket and the
  -- ledger are told of one amount, its cost, or the estimate where it reports no usage, and the
  -- ticket of the tokens that go with it; where a stream had begun and broke off, they are told of
  -- the estimates; both are answered 200. Any other request leaves the scopes and the recorded
  -- spend as they were and gives the guard's reservation back whole, as does a stream that the
  -- writer cannot flush.
  pub serve-IsSettled :
      (gw : Gateway S) (acct : Accounting S) (tries : List Try)
      → IsSettled gw acct (owed acct (end_of false gw acct tries)) (serve_unary gw acct tries)
        × IsSettled gw acct
            (owed acct (end_of true gw acct tries))
            (serve_streaming true gw acct tries)
        × IsSettled gw acct none (serve_streaming false gw acct tries)
  unfolding serve_unary serve_streaming
  serve-IsSettled gw acct tries =
      let start = nothing_yet acct.start in
      let (u_next, u) = run_candidates false acct tries gw start in
      let (s_next, s) = run_candidates true acct tries gw start in
      (
        unary-IsSettled gw u_next acct (end_of false gw acct tries) u
            (run_candidates-IsFree false acct tries gw start)
            (run_candidates-Agrees false acct tries gw start (no_ending false acct.start)),
        stream-IsSettled gw s_next acct (end_of true gw acct tries) s
            (run_candidates-IsFree true acct tries gw start)
            (run_candidates-Agrees true acct tries gw start (no_ending true acct.start)),
        give_back-IsSettled gw gw acct 500 (IsFree-refl gw),
      )
